-- ===== src/InMemory/Poll/Timely.antt =====
-- backend/inmemory/runtime.go: which timers fire in a round of `waitForCase` and in its `select`.
use durableroutine_go.Base.{
  ◌≡◌, ◌≢◌, sym, ap, subst, ℕ, zero, true, false, Option, none, some, some-injective, List, [], ◌∷◌,
  ◌⊎◌, inl, inr, Bool-cases, Option-cases, List-cases,
}
use durableroutine_go.Base.Int.{ℤ, ltb_ℤ}
use durableroutine_go.Durable.Continuation.{Case}
use durableroutine_go.InMemory.Runtime.{SendMsg, CallReq, CallResp, Instance, TimerInfo}
use durableroutine_go.InMemory.Wait.{
  Fired, Received, first_case, takes_send, takes_call, is_call, take_buffered, first_expired,
  match_send, match_call, receive_send_from, receive_call_from, try_receive_send, try_receive_call,
}
use durableroutine_go.InMemory.Wait.Search.{CaseAt, first_case-CaseAt}
use durableroutine_go.InMemory.Poll.{
  Wakes, by_send, by_call, by_timer, default_fired, after_send, after_call, poll, nearest,
  select_channel, block_for_case,
}

-- A deadline has come at one of the times.
abbrev pub ReachedBy : ℤ → List ℤ → Type 0
ReachedBy d [] = ⊥
ReachedBy d (t ∷ ts) = (ltb_ℤ t d ≡ false) ⊎ ReachedBy d ts

-- A timer of the index is due.
abbrev pub Due : List TimerInfo → List ℤ → ℕ → Type 0
Due [] ts i = ⊥
Due (t ∷ timers) ts i = ((t.idx ≡ i) × ReachedBy t.deadline ts) ⊎ Due timers ts i

first_expired-Due :
    (now : ℤ) (timers : List TimerInfo) (i : ℕ)
    → first_expired now timers ≡ some i
    → Due timers (now ∷ []) i
unfolding first_expired
first_expired-Due now [] i h = cc
first_expired-Due now (t ∷ timers) i h = elim (Bool-cases (ltb_ℤ now t.deadline)) [
  | inl e ↦ inr (first_expired-Due now timers i (rw e at h))
  | inr e ↦ inl (some-injective t.idx i (rw e at h), inl e)
]

-- The timer that `blockForCase` waits for is one of the timers.
nearest-Due :
    (best : Option TimerInfo) (timers : List TimerInfo) (t : TimerInfo) (ts : List ℤ)
    → nearest best timers ≡ some t
    → ReachedBy t.deadline ts
    → (best ≡ some t) ⊎ Due timers ts t.idx
unfolding nearest
nearest-Due best [] t ts h r = inl h
nearest-Due none (u ∷ timers) t ts h r = elim (nearest-Due (some u) timers t ts h r) [
  | inl e ↦
      let same = some-injective u t e in
      inr (inl (ap (λ v. v.idx) same, subst (λ v. ReachedBy v.deadline ts) (sym same) r))
  | inr d ↦ inr (inr d)
]
nearest-Due (some b) (u ∷ timers) t ts h r = elim (Bool-cases (ltb_ℤ u.deadline b.deadline)) [
  | inl q ↦ elim (nearest-Due (some u) timers t ts (rw q at h) r) [
    | inl e ↦
        let same = some-injective u t e in
        inr (inl (ap (λ v. v.idx) same, subst (λ v. ReachedBy v.deadline ts) (sym same) r))
    | inr d ↦ inr (inr d)
  ]
  | inr q ↦ elim (nearest-Due (some b) timers t ts (rw q at h) r) [
    | inl e ↦ inl e
    | inr d ↦ inr (inr d)
  ]
]

-- What fires with no message is an immediate case or a timer that is due.
abbrev pub Timely : List Case → List TimerInfo → List ℤ → Option Fired → Type 0
Timely cases timers ts none = Unit {0}
Timely cases timers ts (some f) =
    f.msg ≡ none → CaseAt cases f.idx (λ c. c.immediate ≡ true) ⊎ Due timers ts f.idx

-- What fires has a message.
abbrev HasMsg : Option Fired → Type 0
HasMsg none = Unit {0}
HasMsg (some f) = f.msg ≢ none

HasMsg-Timely :
    (cases : List Case) (timers : List TimerInfo) (ts : List ℤ) (f : Option Fired)
    → HasMsg f
    → Timely cases timers ts f
HasMsg-Timely cases timers ts none h = tt
HasMsg-Timely cases timers ts (some f) h = λ e. absurd (h e)

match_send-HasMsg :
    (inst : Instance) (cases : List Case) (sm : SendMsg) → HasMsg (match_send inst cases sm).fired
unfolding match_send
match_send-HasMsg inst cases sm = elim (Option-cases (first_case (takes_send sm.key) zero cases)) [
  | inl e ↦ rw (e, match_send) tt
  | inr (i, e) ↦ rw (e, match_send) (λ q. cc q)
]

match_call-HasMsg :
    (inst : Instance) (cases : List Case) (req : CallReq) → HasMsg (match_call inst cases req).fired
unfolding match_call
match_call-HasMsg inst cases req =
    elim (Option-cases (first_case (takes_call req.call_name) zero cases)) [
      | inl e ↦ rw (e, match_call) tt
      | inr (i, e) ↦ rw (e, match_call) (λ q. cc q)
    ]

receive_send_from-HasMsg :
    (ms : List SendMsg) (inst : Instance) (cases : List Case)
    → HasMsg (receive_send_from ms inst cases).fired
unfolding receive_send_from
receive_send_from-HasMsg [] inst cases = tt
receive_send_from-HasMsg (sm ∷ ms) inst cases = match_send-HasMsg _ cases sm

receive_call_from-HasMsg :
    (cs : List CallReq) (inst : Instance) (cases : List Case)
    → HasMsg (receive_call_from cs inst cases).fired
unfolding receive_call_from
receive_call_from-HasMsg [] inst cases = tt
receive_call_from-HasMsg (c ∷ cs) inst cases = match_call-HasMsg _ cases c

try_receive_call-HasMsg :
    (inst : Instance) (cases : List Case) → HasMsg (try_receive_call inst cases).fired
unfolding try_receive_call
try_receive_call-HasMsg inst cases = elim (Option-cases (first_case is_call zero cases)) [
  | inl e ↦ rw (e, try_receive_call) tt
  | inr (i, e) ↦ rw (e, try_receive_call) (receive_call_from-HasMsg inst.call_chan inst cases)
]

-- 5. The default is an immediate case.
default_fired-Timely :
    (cases : List Case) (timers : List TimerInfo) (ts : List ℤ)
    → Timely cases timers ts (default_fired cases)
unfolding default_fired
default_fired-Timely cases timers ts =
    elim (Option-cases (first_case (λ c. c.immediate) zero cases)) [
      | inl e ↦ rw (e, default_fired) tt
      | inr (i, e) ↦
          rw (e, default_fired) (λ q. inl (first_case-CaseAt (λ c. c.immediate) cases i e))
    ]

after_send-Timely :
    (reply : Option (ℕ × CallResp)) (cases : List Case) (timers : List TimerInfo) (ts : List ℤ)
    (rs : Received)
    → HasMsg rs.fired
    → Timely cases timers ts (after_send reply cases rs).fired
unfolding after_send
after_send-Timely reply cases timers ts rs h = elim (Option-cases rs.fired) [
  | inl e ↦ rw (e, after_send) (default_fired-Timely cases timers ts)
  | inr (f, e) ↦ rw (e, after_send) (HasMsg-Timely cases timers ts rs.fired h)
]

after_call-Timely :
    (cases : List Case) (timers : List TimerInfo) (ts : List ℤ) (rc : Received)
    → HasMsg rc.fired
    → Timely cases timers ts (after_call cases rc).fired
unfolding after_call try_receive_send
after_call-Timely cases timers ts rc h = elim (Option-cases rc.fired) [
  | inl e ↦
      rw (e, after_call)
        (after_send-Timely rc.reply cases timers ts (try_receive_send rc.inst cases)
          (receive_send_from-HasMsg rc.inst.send_ch rc.inst cases))
  | inr (f, e) ↦ rw (e, after_call) (HasMsg-Timely cases timers ts rc.fired h)
]

pub poll-Timely :
    (now : ℤ) (inst : Instance) (cases : List Case) (timers : List TimerInfo)
    → Timely cases timers (now ∷ []) (poll now inst cases timers).fired
unfolding poll
poll-Timely now inst cases timers = elim (Option-cases (take_buffered zero cases inst.buffered)) [
  | inr ((i, m, b), e) ↦ rw (e, poll) (λ q. absurd (cc q))
  | inl e ↦ elim (Option-cases (first_expired now timers)) [
    | inl e' ↦
        rw (e, e', poll)
          (after_call-Timely cases timers (now ∷ []) (try_receive_call inst cases)
            (try_receive_call-HasMsg inst cases))
    | inr (i, e') ↦ rw (e, e', poll) (λ q. inr (first_expired-Due now timers i e'))
  ]
]

-- The times at which the `select` looks at the clock.
abbrev pub wake_times : Wakes → List ℤ
wake_times by_send = []
wake_times by_call = []
wake_times (by_timer later) = later ∷ []

-- The `select` with the nearest timer, or without one.
select_channel-Timely :
    (w : Wakes) (inst : Instance) (cases : List Case) (timers : List TimerInfo) (now : ℤ)
    (t : Option TimerInfo) (rc : Received)
    → nearest none timers ≡ t
    → select_channel w inst cases t ≡ some rc
    → Timely cases timers (now ∷ wake_times w) rc.fired
unfolding select_channel
select_channel-Timely by_send inst cases timers now t rc n h = elim (List-cases inst.send_ch) [
  | inl e ↦ absurd (cc (rw (e, select_channel) at h))
  | inr (sm, rest, e) ↦ HasMsg-Timely cases timers (now ∷ []) rc.fired (
      subst (λ r. HasMsg r.fired) (some-injective _ rc (rw (e, select_channel) at h))
        (receive_send_from-HasMsg (sm ∷ rest) inst cases))
]
select_channel-Timely by_call inst cases timers now t rc n h = elim (List-cases inst.call_chan) [
  | inl e ↦ absurd (cc (rw (e, select_channel) at h))
  | inr (req, rest, e) ↦ HasMsg-Timely cases timers (now ∷ []) rc.fired (
      subst (λ r. HasMsg r.fired) (some-injective _ rc (rw (e, select_channel) at h))
        (receive_call_from-HasMsg (req ∷ rest) inst cases))
]
select_channel-Timely (by_timer later) inst cases timers now none rc n h = absurd (cc h)
select_channel-Timely (by_timer later) inst cases timers now (some t) rc n h =
    elim (Bool-cases (ltb_ℤ later t.deadline)) [
      | inl e ↦ absurd (cc (rw e at h))
      | inr e ↦
          subst (λ r. Timely cases timers (now ∷ later ∷ []) r.fired)
            (some-injective _ rc (rw e at h))
            (λ q. elim (nearest-Due none timers t (now ∷ later ∷ []) n (inr (inl e))) [
              | inl p ↦ absurd (cc p)
              | inr d ↦ inr d
            ])
    ]

pub block_for_case-Timely :
    (now : ℤ) (w : Wakes) (inst : Instance) (cases : List Case) (timers : List TimerInfo)
    (rc : Received)
    → block_for_case now w inst cases timers ≡ some rc
    → Timely cases timers (now ∷ wake_times w) rc.fired
unfolding block_for_case
block_for_case-Timely now w inst cases timers rc h = elim (Option-cases (nearest none timers)) [
  | inl n ↦ select_channel-Timely w inst cases timers now none rc n (rw (n, block_for_case) at h)
  | inr (t, n) ↦ elim (Bool-cases (ltb_ℤ now t.deadline)) [
    | inl e ↦
        select_channel-Timely w inst cases timers now (some t) rc n
          (rw e at (rw (n, block_for_case) at h))
    | inr e ↦
        subst (λ r. Timely cases timers (now ∷ wake_times w) r.fired)
          (some-injective _ rc (rw e at (rw (n, block_for_case) at h)))
          (λ q. elim (nearest-Due none timers t (now ∷ wake_times w) n (inl e)) [
            | inl p ↦ absurd (cc p)
            | inr d ↦ inr d
          ])
  ]
]
