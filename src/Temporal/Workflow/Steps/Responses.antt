-- ===== src/Temporal/Workflow/Steps/Responses.antt =====
-- backend/temporal/workflow.go: every call that the workflow receives is answered, in order.
use durableroutine_go.Base.{
  ◌≡◌, refl, sym, ap, ◌∙◌, subst, ℕ, Bool, List, [], ◌++◌, append-nil, Option-cases, inl, inr,
  get_elem?,
}
use durableroutine_go.Base.Int.{ℤ}
use durableroutine_go.Base.Result.{Result-cases}
use durableroutine_go.Temporal.Types.{WorkflowInput, SerializedCase}
use durableroutine_go.Temporal.Workflow.{
  Execution, Phase, Workflow, looping, selecting, draining, completed, failed, continued_as_new,
  panicked, initial, begin, set_query_handlers,
}
use durableroutine_go.Temporal.Workflow.Select.{
  Choice, timer, call, signal, default, take_case_at, select_branch,
}
use durableroutine_go.Temporal.Workflow.Calls.{
  answered, waiting, received, received-can_check, received-pass, received-select_call,
  received-drain, received-update, received-set_query_handlers,
}
use durableroutine_go.Temporal.Workflow.Steps.{
  Step, passes, selects, drains, updates, Reach, begun, step, after_branch,
}
use durableroutine_go.Temporal.Workflow.Steps.Panics.{Promises, Reach-Keeps}

received-take_case_at :
    (cases : List SerializedCase) (i : ℕ) (w : Workflow)
    → received (take_case_at cases i w) ≡ received w
unfolding take_case_at
received-take_case_at cases i w = elim (Option-cases (get_elem? cases i)) [
  | inl e ↦ rw (e, take_case_at) refl
  | inr (c, e) ↦ rw (e, take_case_at) refl
]

received-select_branch :
    (x : Execution) (cases : List SerializedCase) (choice : Choice) (w : Workflow)
    → received (select_branch x cases choice w) ≡ received w
unfolding select_branch
received-select_branch x cases (timer i) w = received-take_case_at cases i w
received-select_branch x cases call w = received-select_call x cases w.pending_calls w refl
received-select_branch x cases (signal i msg) w = received-take_case_at cases i _
received-select_branch x cases (default i) w = received-take_case_at cases i w

received-after_branch :
    (x : Execution) (s : Bool) (l : ℤ) (p : Phase) (w : Workflow)
    → received (after_branch x s l p w) ≡ received w
unfolding after_branch
received-after_branch x s l (selecting cases) w = received-can_check x s l w
received-after_branch x s l looping w = refl
received-after_branch x s l draining w = refl
received-after_branch x s l (completed r) w = refl
received-after_branch x s l (failed r) w = refl
received-after_branch x s l (continued_as_new r) w = refl
received-after_branch x s l panicked w = refl

received-Step :
    (x : Execution) (w w' : Workflow) (new : List ℕ)
    → Step x w w' new
    → received w' ≡ received w ++ new
received-Step x w w' new (passes s l p e) =
    ap received e ∙ received-pass x s l w ∙ sym (append-nil (received w))
received-Step x w w' new (selects cases choice s l p o e) =
    ap received e
    ∙ received-after_branch x s l (select_branch x cases choice w).phase _
    ∙ received-select_branch x cases choice w
    ∙ sym (append-nil (received w))
received-Step x w w' new (drains p e) =
    ap received e ∙ received-drain x w.pending_calls w refl ∙ sym (append-nil (received w))
received-Step x w w' new (updates i c req ch heard l m q e) =
    ap received e ∙ received-update c req ch heard w

received-begin : (x : Execution) (input : WorkflowInput) → received (begin x input) ≡ []
unfolding begin
received-begin x input =
    elim (Result-cases (set_query_handlers x input.query_results (initial input))) [
      | inr (e, h) ↦ rw (h, begin) refl
      | inl (w, h) ↦ rw (h, begin) (received-set_query_handlers x _ _ w h)
    ]

-- In every execution, the calls answered so far and behind them the pending calls are the calls
-- received, in the order in which they came: none is lost, answered twice, or answered out of turn.
pub answered-InOrder :
    (x : Execution) (input : WorkflowInput) (w : Workflow) (chs : List ℕ)
    → Reach x input w chs
    → answered w.commands ++ waiting w.pending_calls ≡ chs
answered-InOrder x input w chs begun = received-begin x input
answered-InOrder x input w chs (step {w = v} {new = new} r s) =
    received-Step x v w _ s ∙ ap (λ l. l ++ new) (answered-InOrder x input _ _ r)

-- When a run continues as new, it has answered every call that it received.
pub continued_as_new-answered :
    (x : Execution) (input next_input : WorkflowInput) (w : Workflow) (chs : List ℕ)
    → Reach x input w chs
    → w.phase ≡ continued_as_new next_input
    → answered w.commands ≡ chs
continued_as_new-answered x input next_input w chs r h =
    let (e, q) = subst (λ p. Promises p w) h (Reach-Keeps x input w chs r) in
    sym (append-nil (answered w.commands))
    ∙ ap (λ l. answered w.commands ++ waiting l) (sym e)
    ∙ answered-InOrder x input w chs r
