-- ===== src/Temporal/Workflow/Steps/Views.antt =====
-- backend/temporal/workflow.go: what queries see of a workflow, within a run and from one run to
-- the next.
use durableroutine_go.Base.{
  ◌≡◌, refl, sym, ap, ◌∙◌, subst, ℕ, suc, String, Bool, false, some, List, [], ◌∷◌, Option-cases,
  List-cases, inl, inr, get_elem?,
}
use durableroutine_go.Base.Int.{ℤ}
use durableroutine_go.Base.Dict.{get}
use durableroutine_go.Base.Result.{Result, ok, err}
use durableroutine_go.Temporal.Types.{WorkflowInput, ActivityOutput, SerializedCase}
use durableroutine_go.Temporal.Queries.Lookup.{IsUnique, result_of}
use durableroutine_go.Temporal.Workflow.{
  Execution, PendingCall, Phase, Workflow, looping, selecting, draining, completed, failed,
  continued_as_new, panicked, begin, execute, execute_with_recovery,
}
use durableroutine_go.Temporal.Workflow.Select.{
  Choice, timer, call, signal, default, take_case_at, select_branch, select_call, answer_call,
  drain_answer, drain, receive_update, cases_of,
}
use durableroutine_go.Temporal.Workflow.Queries.{
  View, View-from, queries, queries-can_check, begin-all_query_results, begin-View, pass-View,
}
use durableroutine_go.Temporal.Workflow.Steps.{
  Step, passes, selects, drains, updates, Reach, begun, step, after_branch,
}
use durableroutine_go.Temporal.Workflow.Steps.Panics.{Promises, Reach-Keeps}

queries-take_case_at :
    (cases : List SerializedCase) (i : ℕ) (w : Workflow)
    → queries (take_case_at cases i w) ≡ queries w
unfolding take_case_at
queries-take_case_at cases i w = elim (Option-cases (get_elem? cases i)) [
  | inl e ↦ rw (e, take_case_at) refl
  | inr (c, e) ↦ rw (e, take_case_at) refl
]

queries-answer_call :
    (cases : List SerializedCase) (pc : PendingCall) (r : ℕ × Result ActivityOutput) (w : Workflow)
    → queries (answer_call cases pc r w) ≡ queries w
unfolding answer_call
queries-answer_call cases pc (n, ok o) w = refl
queries-answer_call cases pc (n, err e) w = refl

queries-select_call :
    (x : Execution) (cases : List SerializedCase) (pcs : List PendingCall) (w : Workflow)
    → queries (select_call x cases pcs w) ≡ queries w
unfolding select_call
queries-select_call x cases [] w = refl
queries-select_call x cases (pc ∷ pcs) w =
    queries-answer_call cases pc
      (execute_with_recovery x w.executed pc.handler_key (some pc.input) (some pc.req))
      (record w { pending_calls = pcs; notified = false })

queries-select_branch :
    (x : Execution) (cases : List SerializedCase) (choice : Choice) (w : Workflow)
    → queries (select_branch x cases choice w) ≡ queries w
unfolding select_branch
queries-select_branch x cases (timer i) w = queries-take_case_at cases i w
queries-select_branch x cases call w = queries-select_call x cases w.pending_calls w
queries-select_branch x cases (signal i msg) w =
    queries-take_case_at cases i (record w { message = msg })
queries-select_branch x cases (default i) w = queries-take_case_at cases i w

queries-after_branch :
    (x : Execution) (s : Bool) (l : ℤ) (p : Phase) (w : Workflow)
    → queries (after_branch x s l p w) ≡ queries w
unfolding after_branch
queries-after_branch x s l (selecting cases) w = queries-can_check x s l w
queries-after_branch x s l looping w = refl
queries-after_branch x s l draining w = refl
queries-after_branch x s l (completed r) w = refl
queries-after_branch x s l (failed r) w = refl
queries-after_branch x s l (continued_as_new r) w = refl
queries-after_branch x s l panicked w = refl

queries-drain_answer :
    (pc : PendingCall) (r : Result ActivityOutput) (w : Workflow)
    → queries (drain_answer pc r w) ≡ queries w
unfolding drain_answer
queries-drain_answer pc (err e) w = refl
queries-drain_answer pc (ok o) w = elim (List-cases (cases_of o.continuation)) [
  | inl e ↦ rw (e, drain_answer) refl
  | inr (c, cs, e) ↦ rw (e, drain_answer) refl
]

queries-drain :
    (x : Execution) (pcs : List PendingCall) (w : Workflow) → queries (drain x pcs w) ≡ queries w
unfolding drain
queries-drain x [] w = refl
queries-drain x (pc ∷ pcs) w =
    queries-drain_answer pc (execute x w.executed pc.handler_key (some pc.input) (some pc.req) "")
      (record w { pending_calls = pcs; executed = suc w.executed })

Step-View : (x : Execution) (w w' : Workflow) (new : List ℕ) → View w → Step x w w' new → View w'
unfolding receive_update
Step-View x w w' new v (passes s l p e) = subst View (sym e) (pass-View x s l w v)
Step-View x w w' new v (selects cases choice s l p o e) =
    View-from w' w
      (ap queries e
        ∙ queries-after_branch x s l (select_branch x cases choice w).phase
            (select_branch x cases choice w)
        ∙ queries-select_branch x cases choice w)
      v
Step-View x w w' new v (drains p e) =
    View-from w' w (ap queries e ∙ queries-drain x w.pending_calls w) v
Step-View x w w' new v (updates i c req ch heard l m q e) = View-from w' w (ap queries e) v

-- Whatever a workflow does, its query handlers answer each query with the first result that
-- `allQueryResults` has under the name, and no name is there twice. The run has begun with results
-- under different names and no failure of the SDK.
pub reachable-View :
    (x : Execution) (input : WorkflowInput) (w : Workflow) (chs : List ℕ)
    → IsUnique input.query_results
    → (begin x input).phase ≡ looping
    → Reach x input w chs
    → View w
reachable-View x input w chs u p begun = begin-View x input u p
reachable-View x input w chs u p (step {w = v} {chs = old} {new = new} r s) =
    Step-View x v w new (reachable-View x input v old u p r) s

-- Continue-as-new keeps what queries see: the next run begins with query handlers that answer every
-- query as those of the run before did at its end, and it has no name twice either.
pub continued_as_new-View :
    (x y : Execution) (input next_input : WorkflowInput) (w : Workflow) (chs : List ℕ)
    → IsUnique input.query_results
    → (begin x input).phase ≡ looping
    → Reach x input w chs
    → w.phase ≡ continued_as_new next_input
    → (begin y next_input).phase ≡ looping
    → IsUnique next_input.query_results
      × ((name : String) → get name (begin y next_input).query_handlers ≡ get name w.query_handlers)
continued_as_new-View x y input next_input w chs u p r h q =
    let v = reachable-View x input w chs u p r in
    let e = (subst (λ k. Promises k w) h (Reach-Keeps x input w chs r)).1 in
    let n = subst IsUnique (sym e) v.0 in
    (
      n,
      λ name.
          (begin-View y next_input n q).1 name
          ∙ ap (result_of name) (begin-all_query_results y next_input ∙ e)
          ∙ sym (v.1 name),
    )
