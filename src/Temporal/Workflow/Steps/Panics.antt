-- ===== src/Temporal/Workflow/Steps/Panics.antt =====
-- backend/temporal/workflow.go: `pendingCalls[0]` and the other indices of `RoutineWorkflow`.
use durableroutine_go.Base.{
  ◌≡◌, ◌≢◌, ◌∙◌, refl, sym, ap, subst, ℕ, inl, inr, some, List, [], ◌∷◌, ◌++◌, Bool, true, false,
  if◌then◌else◌, Option-cases, List-cases, Bool-cases,
}
use durableroutine_go.Base.Int.{ℤ}
use durableroutine_go.Base.Result.{Result, ok, err, Result-cases, ok-injective}
use durableroutine_go.Durable.Payload.{Json}
use durableroutine_go.Temporal.Types.{QueryEntry, WorkflowInput, ActivityOutput, SerializedCase}
use durableroutine_go.Temporal.Workflow.{
  Execution, PendingCall, Phase, Workflow, looping, selecting, draining, completed, failed,
  continued_as_new, panicked, initial, begin, set_query_handlers, execute_with_recovery,
  enter_select,
}
use durableroutine_go.Temporal.Workflow.Select.{
  should_continue_as_new, can_check, interpret_cases, apply_effects, finish_or_wait, process_output,
  after_activity, pass, answer_call, select_call, select_branch, drain_answer, drain,
  receive_update, Choice, timer, call, signal, default, cases_of, take_case, take_case_at,
}
use durableroutine_go.Temporal.Workflow.Steps.{
  Step, passes, selects, drains, updates, Reach, begun, step, Offers, after_branch, is_live,
}

-- What each phase promises: no panic; a value on `callNotifyCh` comes with a pending call; a run
-- that continues as new has no pending call and hands its query results on.
abbrev pub Promises : Phase → Workflow → Type 0
Promises looping w = Unit {0}
Promises (selecting cases) w = w.notified ≡ true → w.pending_calls ≢ []
Promises draining w = Unit {0}
Promises (completed result) w = Unit {0}
Promises (failed e) w = Unit {0}
Promises (continued_as_new input) w =
    (w.pending_calls ≡ []) × (input.query_results ≡ w.all_query_results)
Promises panicked w = ⊥

abbrev pub Keeps : Workflow → Type 0
Keeps w = Promises w.phase w

can_check-Keeps : (x : Execution) (s : Bool) (l : ℤ) (w : Workflow) → Keeps (can_check x s l w)
unfolding can_check
can_check-Keeps x s l w = elim (Bool-cases (should_continue_as_new x s l w)) [
  | inl e ↦ rw (e, can_check) tt
  | inr e ↦ rw (e, can_check) tt
]

enter_select-Keeps : (cases : List SerializedCase) (w : Workflow) → Keeps (enter_select cases w)
unfolding enter_select
enter_select-Keeps cases w h = cc

Keeps-if : (b : Bool) (u v : Workflow) → Keeps u → Keeps v → Keeps (if b then u else v)
Keeps-if true u v hu hv = hu
Keeps-if false u v hu hv = hv

interpret_cases-Keeps :
    (x : Execution) (s : Bool) (l : ℤ) (cases : List SerializedCase) (w : Workflow)
    → Keeps (interpret_cases x s l cases w)
unfolding interpret_cases
interpret_cases-Keeps x s l [] w = tt
interpret_cases-Keeps x s l (c ∷ []) w =
    Keeps-if c.immediate (can_check x s l (take_case c w)) (enter_select (c ∷ []) w)
      (can_check-Keeps x s l (take_case c w)) (enter_select-Keeps (c ∷ []) w)
interpret_cases-Keeps x s l (c ∷ d ∷ cs) w = enter_select-Keeps (c ∷ d ∷ cs) w

finish_or_wait-Keeps :
    (x : Execution) (s : Bool) (l : ℤ) (o : ActivityOutput) (w : Workflow)
    → Keeps (finish_or_wait x s l o w)
unfolding finish_or_wait
finish_or_wait-Keeps x s l o w =
    Keeps-if o.done (record w { phase = completed o.result })
      (interpret_cases x s l (cases_of o.continuation) w) tt
      (interpret_cases-Keeps x s l (cases_of o.continuation) w)

process_output-Keeps :
    (x : Execution) (s : Bool) (l : ℤ) (o : ActivityOutput) (w : Workflow)
    → Keeps (process_output x s l o w)
unfolding process_output
process_output-Keeps x s l o w = elim (Result-cases (set_query_handlers x o.query_results w)) [
  | inr (e, h) ↦ rw (h, process_output) tt
  | inl (w', h) ↦ rw (h, process_output) (finish_or_wait-Keeps x s l o (apply_effects o w'))
]

after_activity-Keeps :
    (x : Execution) (s : Bool) (l : ℤ) (r : ℕ × Result ActivityOutput) (w : Workflow)
    → Keeps (after_activity x s l r w)
unfolding after_activity
after_activity-Keeps x s l (n, err e) w = tt
after_activity-Keeps x s l (n, ok o) w = process_output-Keeps x s l o _

pub pass-Keeps : (x : Execution) (s : Bool) (l : ℤ) (w : Workflow) → Keeps (pass x s l w)
unfolding pass
pass-Keeps x s l w = elim (Option-cases w.call_handler_output) [
  | inl e ↦ rw (e, pass) (after_activity-Keeps x s l _ w)
  | inr (o, e) ↦ rw (e, pass) (process_output-Keeps x s l o _)
]

answer_call-phase :
    (cases : List SerializedCase) (pc : PendingCall) (r : ℕ × Result ActivityOutput) (w : Workflow)
    → (answer_call cases pc r w).phase ≡ w.phase
unfolding answer_call
answer_call-phase cases pc (n, ok o) w = refl
answer_call-phase cases pc (n, err e) w = refl

append-nonempty : (xs : List PendingCall) (y : PendingCall) → xs ++ y ∷ [] ≢ []
append-nonempty [] y e = cc
append-nonempty (x ∷ xs) y e = cc

-- A branch that does not panic leaves the selector's phase.
select_branch-phase :
    (x : Execution) (cases : List SerializedCase) (w : Workflow) (choice : Choice)
    → Keeps w
    → w.phase ≡ selecting cases
    → Offers cases w choice
    → (select_branch x cases choice w).phase ≡ selecting cases
unfolding select_branch take_case_at select_call answer_call
select_branch-phase x cases w (timer i) k h (c, d, e, t) = rw (e, select_branch, take_case_at) h
select_branch-phase x cases w (signal i msg) k h (c, e, t) = rw (e, select_branch, take_case_at) h
select_branch-phase x cases w (default i) k h (c, e, t) = rw (e, select_branch, take_case_at) h
select_branch-phase x cases w call k h o = elim (List-cases w.pending_calls) [
  | inl e ↦ absurd ((subst (λ p. Promises p w) h k) o e)
  | inr (pc, pcs, e) ↦
      rw (e, select_branch)
        (answer_call-phase cases pc
            (execute_with_recovery x w.executed pc.handler_key (some pc.input) (some pc.req))
            (record w { pending_calls = pcs; notified = false })
          ∙ h)
]

drain_answer-phase :
    (pc : PendingCall) (r : Result ActivityOutput) (w : Workflow)
    → (drain_answer pc r w).phase ≡ w.phase
unfolding drain_answer
drain_answer-phase pc (err e) w = refl
drain_answer-phase pc (ok o) w = elim (List-cases (cases_of o.continuation)) [
  | inl e ↦ rw (e, drain_answer) refl
  | inr (c, cs, e) ↦ rw (e, drain_answer) refl
]

drain-Keeps :
    (x : Execution) (pcs : List PendingCall) (w : Workflow)
    → w.phase ≡ draining
    → w.pending_calls ≡ pcs
    → Keeps (drain x pcs w)
unfolding drain
drain-Keeps x [] w h e = (e, refl)
drain-Keeps x (pc ∷ pcs) w h e =
    subst (λ p. Promises p (drain x (pc ∷ pcs) w)) (sym (drain_answer-phase pc _ _ ∙ h)) tt

receive_update-Promises :
    (p : Phase) (c : SerializedCase) (req : Json) (ch : ℕ) (heard : Bool) (w : Workflow)
    → is_live p ≡ true
    → Promises p (receive_update c req ch heard w)
unfolding receive_update
receive_update-Promises looping c req ch heard w l = tt
receive_update-Promises (selecting cases) c req ch heard w l = λ n e. append-nonempty _ _ e
receive_update-Promises draining c req ch heard w l = tt
receive_update-Promises (completed r) c req ch heard w l = tt
receive_update-Promises (failed r) c req ch heard w l = tt
receive_update-Promises (continued_as_new i) c req ch heard w l = absurd (cc l)
receive_update-Promises panicked c req ch heard w l = cc

Step-Keeps : (x : Execution) (w w' : Workflow) (new : List ℕ) → Keeps w → Step x w w' new → Keeps w'
unfolding after_branch receive_update
Step-Keeps x w w' new k (passes s l p e) = rw e (pass-Keeps x s l w)
Step-Keeps x w w' new k (selects cases choice s l p o e) = rw e (
    subst (λ q. Keeps (after_branch x s l q (select_branch x cases choice w)))
      (sym (select_branch-phase x cases w choice k p o))
      (can_check-Keeps x s l (select_branch x cases choice w)))
Step-Keeps x w w' new k (drains p e) = rw e (drain-Keeps x w.pending_calls w p refl)
Step-Keeps x w w' new k (updates i c req ch heard l m q e) =
    rw e (receive_update-Promises w.phase c req ch heard w l)

set_query_handlers-phase :
    (x : Execution) (qs : List QueryEntry) (w w' : Workflow)
    → set_query_handlers x qs w ≡ ok w'
    → w'.phase ≡ w.phase
unfolding set_query_handlers
set_query_handlers-phase x [] w w' h = ap (λ v. v.phase) (sym (ok-injective w w' h))
set_query_handlers-phase x (q ∷ qs) w w' h =
    elim (Option-cases (x.sdk.set_query_handler q.query_name)) [
      | inl e ↦ set_query_handlers-phase x qs _ w' (rw (e, set_query_handlers) at h)
      | inr (m, e) ↦ absurd (cc (rw (e, set_query_handlers) at h))
    ]

begin-Keeps : (x : Execution) (input : WorkflowInput) → Keeps (begin x input)
unfolding begin
begin-Keeps x input =
    elim (Result-cases (set_query_handlers x input.query_results (initial input))) [
      | inr (e, h) ↦ rw (h, begin) tt
      | inl (w, h) ↦
          rw (h, begin) (subst (λ p. Promises p w) (sym (set_query_handlers-phase x _ _ w h)) tt)
    ]

pub Reach-Keeps :
    (x : Execution) (input : WorkflowInput) (w : Workflow) (chs : List ℕ)
    → Reach x input w chs
    → Keeps w
Reach-Keeps x input w chs begun = begin-Keeps x input
Reach-Keeps x input w chs (step r s) = Step-Keeps x _ w _ (Reach-Keeps x input _ _ r) s
