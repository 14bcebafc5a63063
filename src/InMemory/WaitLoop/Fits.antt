-- ===== src/InMemory/WaitLoop/Fits.antt =====
-- What a whole wait returns fits the case that it names.
use durableroutine_go.Base.{
  ℕ, zero, suc, ◌+◌, ◌≡◌, refl, subst, inl, inr, true, some, List, [], ◌∷◌, ◌++◌, get_elem?, arith,
  Bool-cases, Option-cases,
}
use durableroutine_go.Base.Int.{ℤ}
use durableroutine_go.Durable.Continuation.{Case}
use durableroutine_go.InMemory.Runtime.{Instance, TimerInfo}
use durableroutine_go.InMemory.Wait.{Fired, timers_of}
use durableroutine_go.InMemory.Poll.{bare, poll, block_for_case}
use durableroutine_go.InMemory.Poll.Fits.{Fits, FitsAny, AreTimers, poll-Fits, block_for_case-Fits}
use durableroutine_go.InMemory.WaitLoop.{
  Phase, at_top, in_select, Event, send_arrives, call_arrives, polls, wakes, wait_loop, is_continue,
  wait_for_case,
}

-- `cs` is what `cases` has from the index `k` on.
abbrev IsSuffixAt : ℕ → List Case → List Case → Type 0
IsSuffixAt k cs cases = (j : ℕ) → get_elem? cases (k + j) ≡ get_elem? cs j

IsSuffixAt-zero : (cases : List Case) → IsSuffixAt zero cases cases
IsSuffixAt-zero cases j = let same : 0 + j ≡ j = omega arith in rw same

IsSuffixAt-tail :
    (k : ℕ) (c : Case) (cs cases : List Case)
    → IsSuffixAt k (c ∷ cs) cases
    → IsSuffixAt (suc k) cs cases
IsSuffixAt-tail k c cs cases h j =
    let same : suc k + j ≡ k + suc j = omega arith in rw same (h (suc j))

timers_of-AreTimers :
    (now : ℤ) (k : ℕ) (cs cases : List Case)
    → IsSuffixAt k cs cases
    → AreTimers cases (timers_of now k cs)
unfolding timers_of
timers_of-AreTimers now k [] cases h = tt
timers_of-AreTimers now k (c ∷ cs) cases h =
    let later = timers_of-AreTimers now (suc k) cs cases (IsSuffixAt-tail k c cs cases h) in
    elim (Option-cases c.timer_duration) [
      | inl e ↦ rw (e, timers_of) later
      | inr (d, e) ↦
          let same : k + 0 ≡ k = omega arith in
          let at : get_elem? cases k ≡ some c =
            subst (λ i. get_elem? cases i ≡ some c) same (h 0) in
          rw (e, timers_of) ((c, at, rw e), later)
    ]

pub timers-AreTimers : (now : ℤ) (cases : List Case) → AreTimers cases (timers_of now zero cases)
timers-AreTimers now cases = timers_of-AreTimers now zero cases cases (IsSuffixAt-zero cases)

wait_loop-Fits :
    (es : List Event) (ph : Phase) (inst : Instance) (cases : List Case) (timers : List TimerInfo)
    → AreTimers cases timers
    → FitsAny cases (wait_loop es ph inst cases timers).fired
unfolding wait_loop
wait_loop-Fits [] ph inst cases timers a = tt
wait_loop-Fits (send_arrives m ∷ es) ph inst cases timers a =
    wait_loop-Fits es ph (record inst { send_ch = inst.send_ch ++ m ∷ [] }) cases timers a
wait_loop-Fits (call_arrives c ∷ es) ph inst cases timers a =
    wait_loop-Fits es ph (record inst { call_chan = inst.call_chan ++ c ∷ [] }) cases timers a
wait_loop-Fits (polls now ∷ es) in_select inst cases timers a =
    wait_loop-Fits es in_select inst cases timers a
wait_loop-Fits (polls now ∷ es) at_top inst cases timers a =
    let rc = poll now inst cases timers in
    elim (Option-cases rc.fired) [
      | inl e ↦ rw (e, wait_loop) (wait_loop-Fits es in_select rc.inst cases timers a)
      | inr (f, e) ↦ rw (e, wait_loop) (rw e at (poll-Fits now inst cases timers a))
    ]
wait_loop-Fits (wakes now w ∷ es) at_top inst cases timers a =
    wait_loop-Fits es at_top inst cases timers a
wait_loop-Fits (wakes now w ∷ es) in_select inst cases timers a =
    elim (Option-cases (block_for_case now w inst cases timers)) [
      | inl e ↦ rw (e, wait_loop) (wait_loop-Fits es in_select inst cases timers a)
      | inr (rc, e) ↦ elim (Option-cases rc.fired) [
        | inl e' ↦ rw (e, e', wait_loop) (wait_loop-Fits es at_top rc.inst cases timers a)
        | inr (f, e') ↦
            rw (e, e', wait_loop) (rw e' at (block_for_case-Fits now w inst cases timers rc a e))
      ]
    ]

pub is_continue-Fits : (cases : List Case) → is_continue cases ≡ true → Fits cases (bare zero)
unfolding is_continue
is_continue-Fits [] h = cc
is_continue-Fits (c ∷ []) h = (c, refl, ground arith)
is_continue-Fits (c ∷ d ∷ cs) h = cc

wait_for_case-FitsAny :
    (now : ℤ) (es : List Event) (inst : Instance) (cases : List Case)
    → FitsAny cases (wait_for_case now es inst cases).fired
unfolding wait_for_case
wait_for_case-FitsAny now es inst cases = elim (Bool-cases (is_continue cases)) [
  | inl e ↦ rw e (is_continue-Fits cases e)
  | inr e ↦ rw e (wait_loop-Fits es at_top inst cases _ (timers-AreTimers now cases))
]

-- When a wait ends, the index that it returns is that of a case, and what it returns with it fits
-- that case: a message and no response channel for a send case, both for a call case, and neither
-- for a timer or an immediate case. So the read of the case never fails, and no handler runs
-- without the message that it decodes.
pub wait_for_case-Fits :
    (now : ℤ) (es : List Event) (inst : Instance) (cases : List Case) (f : Fired)
    → (wait_for_case now es inst cases).fired ≡ some f
    → Fits cases f
wait_for_case-Fits now es inst cases f e = rw e at (wait_for_case-FitsAny now es inst cases)
