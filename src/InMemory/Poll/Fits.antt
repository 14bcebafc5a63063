-- ===== src/InMemory/Poll/Fits.antt =====
-- What `waitForCase` returns fits the case that it names.
use mathlib.Core.Option.{some-injective}
use durableroutine_go.Base.{
  ℕ, zero, ◌≡◌, subst, inl, inr, Bool, true, false, ◌||◌, Option, none, some, List, [], ◌∷◌, arith,
  Option-cases, Bool-cases,
}
use durableroutine_go.Base.Int.{ℤ, ltb_ℤ}
use durableroutine_go.Base.Dict.{is_some}
use durableroutine_go.Durable.Payload.{Any}
use durableroutine_go.Durable.Continuation.{Case}
use durableroutine_go.InMemory.Runtime.{Instance, SendMsg, CallReq, TimerInfo}
use durableroutine_go.InMemory.Wait.{
  Fired, Received, first_case, takes_send, takes_call, take_buffered, first_expired, is_call,
  match_send, match_call, receive_send_from, receive_call_from, try_receive_call,
}
use durableroutine_go.InMemory.Wait.Search.{CaseAt, first_case-CaseAt, is_send, take_buffered-Taken}
use durableroutine_go.InMemory.Poll.{
  Wakes, by_send, by_call, by_timer, bare, default_fired, poll, block_for_case, after_call, nearest,
  select_channel, timer_fired,
}

-- A send handler gets a message; a call handler a message and a response channel; a plain handler
-- neither, after a timer or as a default.
abbrev pub fits : Case → Option Any → Option ℕ → Bool
fits c (some m) none = is_send c
fits c (some m) (some ch) = is_call c
fits c none none = is_some c.timer_duration || c.immediate
fits c none (some ch) = false

abbrev pub Fits : List Case → Fired → Type 0
Fits cases f = CaseAt cases f.idx (λ c. fits c f.msg f.resp_ch ≡ true)

abbrev pub FitsAny : List Case → Option Fired → Type 0
FitsAny cases none = Unit {0}
FitsAny cases (some f) = Fits cases f

-- Every timer's index names a timer case.
abbrev pub AreTimers : List Case → List TimerInfo → Type 0
AreTimers cases [] = Unit {0}
AreTimers cases (t ∷ ts) =
    CaseAt cases t.idx (λ c. is_some c.timer_duration ≡ true) × AreTimers cases ts

CaseAt-weaken :
    {P Q : Case → Type 0} (cases : List Case) (i : ℕ)
    → ((c : Case) → P c → Q c)
    → CaseAt cases i P
    → CaseAt cases i Q
CaseAt-weaken cases i f (c, at, p) = (c, at, f c p)

match_send-Fits :
    (inst : Instance) (cases : List Case) (m : SendMsg)
    → FitsAny cases (match_send inst cases m).fired
unfolding match_send
match_send-Fits inst cases m = elim (Option-cases (first_case (takes_send m.key) zero cases)) [
  | inl e ↦ rw (e, match_send) tt
  | inr (i, e) ↦
      rw (e, match_send)
        (CaseAt-weaken cases i (λ c p. ground arith) (first_case-CaseAt _ cases i e))
]

match_call-Fits :
    (inst : Instance) (cases : List Case) (req : CallReq)
    → FitsAny cases (match_call inst cases req).fired
unfolding match_call
match_call-Fits inst cases req =
    elim (Option-cases (first_case (takes_call req.call_name) zero cases)) [
      | inl e ↦ rw (e, match_call) tt
      | inr (i, e) ↦
          rw (e, match_call)
            (CaseAt-weaken cases i (λ c p. ground arith) (first_case-CaseAt _ cases i e))
    ]

receive_send_from-Fits :
    (ch : List SendMsg) (inst : Instance) (cases : List Case)
    → FitsAny cases (receive_send_from ch inst cases).fired
unfolding receive_send_from
receive_send_from-Fits [] inst cases = tt
receive_send_from-Fits (m ∷ rest) inst cases =
    match_send-Fits (record inst { send_ch = rest }) cases m

receive_call_from-Fits :
    (ch : List CallReq) (inst : Instance) (cases : List Case)
    → FitsAny cases (receive_call_from ch inst cases).fired
unfolding receive_call_from
receive_call_from-Fits [] inst cases = tt
receive_call_from-Fits (req ∷ rest) inst cases =
    match_call-Fits (record inst { call_chan = rest }) cases req

default_fired-Fits : (cases : List Case) → FitsAny cases (default_fired cases)
unfolding default_fired
default_fired-Fits cases = elim (Option-cases (first_case (λ c. c.immediate) zero cases)) [
  | inl e ↦ rw (e, default_fired) tt
  | inr (i, e) ↦
      rw (e, default_fired)
        (CaseAt-weaken cases i (λ c p. ground arith) (first_case-CaseAt _ cases i e))
]

after_call-Fits :
    (cases : List Case) (rc : Received)
    → FitsAny cases rc.fired
    → FitsAny cases (after_call cases rc).fired
unfolding after_call
after_call-Fits cases rc h =
    ground
      (arith, h, receive_send_from-Fits rc.inst.send_ch rc.inst cases, default_fired-Fits cases)

timer-Fits :
    (now : ℤ) (cases : List Case) (ts : List TimerInfo) (i : ℕ)
    → AreTimers cases ts
    → first_expired now ts ≡ some i
    → Fits cases (bare i)
unfolding first_expired
timer-Fits now cases [] i a h = cc
timer-Fits now cases (t ∷ ts) i a h = elim (Bool-cases (ltb_ℤ now t.deadline)) [
  | inl e ↦ timer-Fits now cases ts i a.1 (ground arith)
  | inr e ↦
      let same : t.idx ≡ i = ground arith in
      rw (← same) (CaseAt-weaken cases t.idx (λ c p. ground arith) a.0)
]

try_receive_call-Fits :
    (inst : Instance) (cases : List Case) → FitsAny cases (try_receive_call inst cases).fired
unfolding try_receive_call
try_receive_call-Fits inst cases = ground (arith, receive_call_from-Fits inst.call_chan inst cases)

pub poll-Fits :
    (now : ℤ) (inst : Instance) (cases : List Case) (timers : List TimerInfo)
    → AreTimers cases timers
    → FitsAny cases (poll now inst cases timers).fired
unfolding poll
poll-Fits now inst cases timers a = elim (Option-cases (take_buffered zero cases inst.buffered)) [
  | inl e ↦ elim (Option-cases (first_expired now timers)) [
    | inl e' ↦
        rw (e, e', poll)
          (after_call-Fits cases (try_receive_call inst cases) (try_receive_call-Fits inst cases))
    | inr (i, e') ↦ rw (e, e', poll) (timer-Fits now cases timers i a e')
  ]
  | inr ((i, m, b), e) ↦
      let t = take_buffered-Taken cases inst.buffered i m b e in
      rw (e, poll) (t.case, t.at, t.sends)
]

TimerFits : List Case → Option TimerInfo → Type 0
TimerFits cases none = Unit {0}
TimerFits cases (some t) = CaseAt cases t.idx (λ c. is_some c.timer_duration ≡ true)

nearest-TimerFits :
    (cases : List Case) (best : Option TimerInfo) (ts : List TimerInfo)
    → TimerFits cases best
    → AreTimers cases ts
    → TimerFits cases (nearest best ts)
unfolding nearest TimerFits
nearest-TimerFits cases best [] b a = b
nearest-TimerFits cases none (t ∷ ts) b a = nearest-TimerFits cases (some t) ts a.0 a.1
nearest-TimerFits cases (some x) (t ∷ ts) b a = elim (Bool-cases (ltb_ℤ t.deadline x.deadline)) [
  | inl e ↦ rw e (nearest-TimerFits cases (some t) ts a.0 a.1)
  | inr e ↦ rw e (nearest-TimerFits cases (some x) ts b a.1)
]

bare-Fits : (cases : List Case) (t : TimerInfo) → TimerFits cases (some t) → Fits cases (bare t.idx)
unfolding TimerFits
bare-Fits cases t f = CaseAt-weaken cases t.idx (λ c p. ground arith) f

timer_fired-Fits :
    (cases : List Case) (inst : Instance) (t : TimerInfo) (rc : Received)
    → TimerFits cases (some t)
    → timer_fired inst t ≡ some rc
    → FitsAny cases rc.fired
timer_fired-Fits cases inst t rc f h =
    subst (λ r. FitsAny cases r.fired) (some-injective _ rc h) (bare-Fits cases t f)

select_channel-Fits :
    (w : Wakes) (inst : Instance) (cases : List Case) (t : Option TimerInfo) (rc : Received)
    → TimerFits cases t
    → select_channel w inst cases t ≡ some rc
    → FitsAny cases rc.fired
unfolding select_channel
select_channel-Fits by_send inst cases t rc f h =
    ground (arith, receive_send_from-Fits inst.send_ch inst cases)
select_channel-Fits by_call inst cases t rc f h =
    ground (arith, receive_call_from-Fits inst.call_chan inst cases)
select_channel-Fits (by_timer now) inst cases none rc f h = cc
select_channel-Fits (by_timer now) inst cases (some t) rc f h =
    elim (Bool-cases (ltb_ℤ now t.deadline)) [
      | inl e ↦ ground arith
      | inr e ↦ timer_fired-Fits cases inst t rc f (rw (e, select_channel) at h)
    ]

pub block_for_case-Fits :
    (now : ℤ) (w : Wakes) (inst : Instance) (cases : List Case) (timers : List TimerInfo)
    (rc : Received)
    → AreTimers cases timers
    → block_for_case now w inst cases timers ≡ some rc
    → FitsAny cases rc.fired
unfolding block_for_case
block_for_case-Fits now w inst cases timers rc a h = elim (Option-cases (nearest none timers)) [
  | inl e ↦ select_channel-Fits w inst cases none rc (unfold TimerFits in tt) (ground arith)
  | inr (t, e) ↦
      let f = rw e at (nearest-TimerFits cases none timers (unfold TimerFits in tt) a) in
      elim (Bool-cases (ltb_ℤ now t.deadline)) [
        | inl e' ↦ select_channel-Fits w inst cases (some t) rc f (rw (e, e', block_for_case) at h)
        | inr e' ↦ timer_fired-Fits cases inst t rc f (rw (e, e', block_for_case) at h)
      ]
]
