-- ===== src/InMemory/WaitLoop/Timers.antt =====
-- backend/inmemory/runtime.go, `waitForCase`: a timer case never fires before its duration is over.
use durableroutine_go.Base.{
  ◌≡◌, refl, ap, subst, ℕ, zero, suc, true, Option, none, some, some-injective, List, [], ◌∷◌, ◌++◌,
  ◌⊎◌, inl, inr, arith, Bool-cases, Option-cases,
}
use durableroutine_go.Base.Int.{ℤ, ◌+ℤ◌}
use durableroutine_go.Durable.Continuation.{Case}
use durableroutine_go.InMemory.Runtime.{Instance, TimerInfo}
use durableroutine_go.InMemory.Wait.{Fired, timers_of}
use durableroutine_go.InMemory.Wait.Search.{CaseAt, At, At-next, At-zero}
use durableroutine_go.InMemory.Poll.{bare, poll, block_for_case}
use durableroutine_go.InMemory.Poll.Timely.{
  ReachedBy, Due, Timely, wake_times, poll-Timely, block_for_case-Timely,
}
use durableroutine_go.InMemory.WaitLoop.{
  Phase, at_top, in_select, Event, send_arrives, call_arrives, polls, wakes, wait_loop, is_continue,
  wait_for_case,
}

-- The times at which an event of the waiting goroutine looks at the clock.
abbrev pub clock_of : Event → List ℤ
clock_of (send_arrives m) = []
clock_of (call_arrives c) = []
clock_of (polls now) = now ∷ []
clock_of (wakes now w) = now ∷ wake_times w

-- The wait has consumed the events up to one with the property.
abbrev pub EndsAt : (Event → Type 0) → List Event → List Event → Type 0
EndsAt P es left = (earlier : List Event) × (e : Event) × (es ≡ earlier ++ e ∷ left) × P e

EndsAt-later :
    (P : Event → Type 0) (e : Event) (es left : List Event)
    → EndsAt P es left
    → EndsAt P (e ∷ es) left
EndsAt-later P e es left (earlier, last, q, p) = (e ∷ earlier, last, ap (λ l. e ∷ l) q, p)

-- What fires with no message, and the events that are left.
abbrev OnTime : List Case → List TimerInfo → List Event → List Event → Option Fired → Type 0
OnTime cases timers es left none = Unit {0}
OnTime cases timers es left (some f) =
    f.msg ≡ none
    → CaseAt cases f.idx (λ c. c.immediate ≡ true)
      ⊎ EndsAt (λ e. Due timers (clock_of e) f.idx) es left

OnTime-later :
    (cases : List Case) (timers : List TimerInfo) (e : Event) (es left : List Event)
    (f : Option Fired)
    → OnTime cases timers es left f
    → OnTime cases timers (e ∷ es) left f
OnTime-later cases timers e es left none h = tt
OnTime-later cases timers e es left (some f) h = λ q. elim (h q) [
  | inl i ↦ inl i
  | inr d ↦ inr (EndsAt-later (λ e. Due timers (clock_of e) f.idx) e es left d)
]

-- The event that ends the wait
OnTime-now :
    (cases : List Case) (timers : List TimerInfo) (e : Event) (left : List Event) (f : Option Fired)
    → Timely cases timers (clock_of e) f
    → OnTime cases timers (e ∷ left) left f
OnTime-now cases timers e left none h = tt
OnTime-now cases timers e left (some f) h =
    λ q. elim (h q) [ inl i ↦ inl i | inr d ↦ inr ([], e, refl, d) ]

wait_loop-OnTime :
    (es : List Event) (ph : Phase) (inst : Instance) (cases : List Case) (timers : List TimerInfo)
    → OnTime cases timers es
        (wait_loop es ph inst cases timers).left
        (wait_loop es ph inst cases timers).fired
unfolding wait_loop
wait_loop-OnTime [] ph inst cases timers = tt
wait_loop-OnTime (send_arrives m ∷ es) ph inst cases timers =
    OnTime-later cases timers (send_arrives m) es _ _
      (wait_loop-OnTime es ph (record inst { send_ch = inst.send_ch ++ m ∷ [] }) cases timers)
wait_loop-OnTime (call_arrives c ∷ es) ph inst cases timers =
    OnTime-later cases timers (call_arrives c) es _ _
      (wait_loop-OnTime es ph (record inst { call_chan = inst.call_chan ++ c ∷ [] }) cases timers)
wait_loop-OnTime (polls now ∷ es) in_select inst cases timers =
    OnTime-later cases timers (polls now) es _ _ (wait_loop-OnTime es in_select inst cases timers)
wait_loop-OnTime (polls now ∷ es) at_top inst cases timers =
    let rc = poll now inst cases timers in
    elim (Option-cases rc.fired) [
      | inl e ↦
          rw (e, wait_loop)
            (OnTime-later cases timers (polls now) es _ _
              (wait_loop-OnTime es in_select rc.inst cases timers))
      | inr (f, e) ↦
          rw (e, wait_loop)
            (OnTime-now cases timers (polls now) es (some f)
              (subst (Timely cases timers (now ∷ [])) e (poll-Timely now inst cases timers)))
    ]
wait_loop-OnTime (wakes now w ∷ es) at_top inst cases timers =
    OnTime-later cases timers (wakes now w) es _ _ (wait_loop-OnTime es at_top inst cases timers)
wait_loop-OnTime (wakes now w ∷ es) in_select inst cases timers =
    elim (Option-cases (block_for_case now w inst cases timers)) [
      | inl e ↦
          rw (e, wait_loop)
            (OnTime-later cases timers (wakes now w) es _ _
              (wait_loop-OnTime es in_select inst cases timers))
      | inr (rc, e) ↦ elim (Option-cases rc.fired) [
        | inl e' ↦
            rw (e, e', wait_loop)
              (OnTime-later cases timers (wakes now w) es _ _
                (wait_loop-OnTime es at_top rc.inst cases timers))
        | inr (f, e') ↦
            rw (e, e', wait_loop)
              (OnTime-now cases timers (wakes now w) es (some f) (
                subst (Timely cases timers (now ∷ wake_times w)) e'
                  (block_for_case-Timely now w inst cases timers rc e)))
      ]
    ]

-- The timer case of a due timer: its duration after `start` is over.
abbrev pub IsOver : ℤ → List ℤ → Case → Type 0
IsOver begin ts c = (d : ℤ) × (c.timer_duration ≡ some d) × ReachedBy (begin +ℤ d) ts

timers_of-IsOver :
    (begin : ℤ) (k : ℕ) (cases : List Case) (ts : List ℤ) (i : ℕ)
    → Due (timers_of begin k cases) ts i
    → At k cases i (IsOver begin ts)
unfolding timers_of
timers_of-IsOver begin k [] ts i h = absurd h
timers_of-IsOver begin k (c ∷ cs) ts i h = elim (Option-cases c.timer_duration) [
  | inl e ↦ At-next k c cs (timers_of-IsOver begin (suc k) cs ts i (rw (e, timers_of) at h))
  | inr (d, e) ↦ elim (rw (e, timers_of) at h) [
    | inl (same, r) ↦ (0, omega (arith, same), (c, refl, (d, e, r)))
    | inr later ↦ At-next k c cs (timers_of-IsOver begin (suc k) cs ts i later)
  ]
]

is_continue-CaseAt :
    (cases : List Case) → is_continue cases ≡ true → CaseAt cases zero (λ c. c.immediate ≡ true)
unfolding is_continue
is_continue-CaseAt [] h = cc
is_continue-CaseAt (c ∷ []) h = (c, refl, h)
is_continue-CaseAt (c ∷ d ∷ cs) h = cc

-- A wait that is entered at some time ends without a message: the case that fires is immediate, or
-- it is a timer case, and the event that ends the wait, a round or a `select`, has seen a time that
-- is not before the case's duration after the entry. So no timer fires early.
pub wait_for_case-IsOver :
    (begin : ℤ) (es : List Event) (inst : Instance) (cases : List Case) (f : Fired)
    → (wait_for_case begin es inst cases).fired ≡ some f
    → f.msg ≡ none
    → CaseAt cases f.idx (λ c. c.immediate ≡ true)
      ⊎ EndsAt
          (λ e. CaseAt cases f.idx (IsOver begin (clock_of e)))
          es
          (wait_for_case begin es inst cases).left
unfolding wait_for_case
wait_for_case-IsOver begin es inst cases f h n = elim (Bool-cases (is_continue cases)) [
  | inl e ↦ rw e (
      inl (
        subst (λ g. CaseAt cases g.idx (λ c. c.immediate ≡ true))
          (some-injective (bare zero) f (rw e at h)) (is_continue-CaseAt cases e)))
  | inr e ↦
      let timers = timers_of begin zero cases in
      rw e
        (elim (subst (OnTime cases timers es (wait_loop es at_top inst cases timers).left)
          (rw e at h) (wait_loop-OnTime es at_top inst cases timers) n) [
            | inl i ↦ inl i
            | inr (earlier, last, q, d) ↦ inr (
              earlier,
              last,
              q,
              At-zero cases f.idx (timers_of-IsOver begin zero cases (clock_of last) f.idx d),
            )
          ])
]
