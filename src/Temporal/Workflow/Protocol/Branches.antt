-- ===== src/Temporal/Workflow/Protocol/Branches.antt =====
-- backend/temporal/workflow.go: the branches of the selector and the draining of calls, of a routine that
-- keeps to its protocol.
use durableroutine_go.Base.{
  ◌≡◌, refl, sym, subst, ℕ, Bool, false, some, inl, inr, List, [], ◌∷◌, get_elem?, All, All-at,
  Option-cases, List-cases,
}
use durableroutine_go.Base.Int.{ℤ}
use durableroutine_go.Base.Result.{Result, ok, err}
use durableroutine_go.Temporal.Types.{ActivityOutput, SerializedCase}
use durableroutine_go.Temporal.Workflow.{
  Execution, PendingCall, Phase, Workflow, looping, selecting, draining, completed, failed,
  continued_as_new, panicked, execute_with_recovery,
}
use durableroutine_go.Temporal.Workflow.Select.{
  answer_call, select_call, select_branch, drain_answer, drain, Choice, timer, call, signal,
  default, cases_of, take_case_at,
}
use durableroutine_go.Temporal.Workflow.Steps.{after_branch}
use durableroutine_go.Temporal.Workflow.Protocol.{
  Protocol, EntersCase, EntersCall, Goes, Keeps, Allows, Obeys, Holds, obeys_as,
}
use durableroutine_go.Temporal.Workflow.Protocol.Passes.{can_check-Holds, take_case-Obeys}

module _ (P : Protocol) where
  pub answer_call-Obeys :
      (cases : List SerializedCase) (pc : PendingCall) (r : ℕ × Result ActivityOutput)
      (w : Workflow)
      → ((out : ActivityOutput) → r.1 ≡ ok out → Goes P out)
      → All (EntersCase P) cases
      → Obeys P w
      → Obeys P (answer_call cases pc r w)
  unfolding answer_call
  answer_call-Obeys cases pc (n, ok out) w g h o = record {
    current = o.current;
    handlers = o.handlers;
    pending = o.pending;
    output = g out refl;
  }
  answer_call-Obeys cases pc (n, err e) w g h o = record {
    current = o.current;
    handlers = o.handlers;
    pending = o.pending;
    output = record { ends = λ d. cc; enters = h };
  }

  pub select_call-Obeys :
      (x : Execution) (cases : List SerializedCase) (pcs : List PendingCall) (w : Workflow)
      → Keeps P x
      → All (EntersCase P) cases
      → All (EntersCall P) pcs
      → Obeys P w
      → Obeys P (select_call x cases pcs w)
  unfolding select_call
  select_call-Obeys x cases [] w k h p o = obeys_as P w _ refl refl refl refl refl o
  select_call-Obeys x cases (pc ∷ pcs) w k h p o =
      answer_call-Obeys cases pc _ _
        (λ out q. k.keeps w.executed pc.handler_key (some pc.input) (some pc.req) out p.0 q) h
        (record { current = o.current; handlers = o.handlers; pending = p.1; output = o.output })

  pub take_case_at-Obeys :
      (cases : List SerializedCase) (i : ℕ) (w : Workflow)
      → All (EntersCase P) cases
      → Obeys P w
      → Obeys P (take_case_at cases i w)
  unfolding take_case_at
  take_case_at-Obeys cases i w h o = elim (Option-cases (get_elem? cases i)) [
    | inl e ↦ rw (e, take_case_at) (obeys_as P w _ refl refl refl refl refl o)
    | inr (c, e) ↦
        rw (e, take_case_at) (take_case-Obeys P c w (All-at (EntersCase P) cases i c h e) o)
  ]

  pub select_branch-Obeys :
      (x : Execution) (cases : List SerializedCase) (choice : Choice) (w : Workflow)
      → Keeps P x
      → All (EntersCase P) cases
      → Obeys P w
      → Obeys P (select_branch x cases choice w)
  unfolding select_branch
  select_branch-Obeys x cases (timer i) w k h o = take_case_at-Obeys cases i w h o
  select_branch-Obeys x cases call w k h o =
      select_call-Obeys x cases w.pending_calls w k h o.pending o
  select_branch-Obeys x cases (signal i msg) w k h o =
      take_case_at-Obeys cases i _ h (obeys_as P w _ refl refl refl refl refl o)
  select_branch-Obeys x cases (default i) w k h o = take_case_at-Obeys cases i w h o

  pub drain_answer-Holds :
      (pc : PendingCall) (r : Result ActivityOutput) (w : Workflow)
      → ((out : ActivityOutput) → r ≡ ok out → Goes P out)
      → Holds P w
      → Holds P (drain_answer pc r w)
  unfolding drain_answer
  drain_answer-Holds pc (err e) w g (o, a) = (obeys_as P w _ refl refl refl refl refl o, a)
  drain_answer-Holds pc (ok out) w g (o, a) =
      let entered = (g out refl).enters in
      elim (List-cases (cases_of out.continuation)) [
        | inl e ↦ rw (e, drain_answer) (obeys_as P w _ refl refl refl refl refl o, a)
        | inr (c, cs, e) ↦
            rw (e, drain_answer)
              (
                take_case-Obeys P c _ (subst (All (EntersCase P)) e entered).0
                    (obeys_as P w _ refl refl refl refl refl o),
                a,
              )
      ]

  pub drain-Holds :
      (x : Execution) (pcs : List PendingCall) (w : Workflow)
      → Keeps P x
      → w.phase ≡ draining
      → All (EntersCall P) pcs
      → Obeys P w
      → Holds P (drain x pcs w)
  unfolding drain
  drain-Holds x [] w k e p o = (obeys_as P w _ refl refl refl refl refl o, o.current)
  drain-Holds x (pc ∷ pcs) w k e p o =
      drain_answer-Holds pc _ _
        (λ out q. k.keeps_alone w.executed pc.handler_key (some pc.input) (some pc.req) out p.0 q)
        (
          record { current = o.current; handlers = o.handlers; pending = p.1; output = o.output },
          subst (Allows P) (sym e) tt,
        )

  pub after_branch-Holds :
      (x : Execution) (s : Bool) (l : ℤ) (ph : Phase) (w : Workflow)
      → Allows P w.phase
      → Obeys P w
      → Holds P (after_branch x s l ph w)
  unfolding after_branch
  after_branch-Holds x s l (selecting cases) w a o = can_check-Holds P x s l w o
  after_branch-Holds x s l looping w a o = (o, a)
  after_branch-Holds x s l draining w a o = (o, a)
  after_branch-Holds x s l (completed r) w a o = (o, a)
  after_branch-Holds x s l (failed e) w a o = (o, a)
  after_branch-Holds x s l (continued_as_new i) w a o = (o, a)
  after_branch-Holds x s l panicked w a o = (o, a)

  -- A branch leaves the selector's phase, or panics.
  pub take_case_at-Allows :
      (cases : List SerializedCase) (i : ℕ) (w : Workflow)
      → Allows P w.phase
      → Allows P (take_case_at cases i w).phase
  unfolding take_case_at
  take_case_at-Allows cases i w a = elim (Option-cases (get_elem? cases i)) [
    | inl e ↦ rw (e, take_case_at) tt
    | inr (c, e) ↦ rw (e, take_case_at) a
  ]

  pub answer_call-Allows :
      (cases : List SerializedCase) (pc : PendingCall) (r : ℕ × Result ActivityOutput)
      (w : Workflow)
      → Allows P w.phase
      → Allows P (answer_call cases pc r w).phase
  unfolding answer_call
  answer_call-Allows cases pc (n, ok out) w a = a
  answer_call-Allows cases pc (n, err e) w a = a

  pub select_call-Allows :
      (x : Execution) (cases : List SerializedCase) (pcs : List PendingCall) (w : Workflow)
      → Allows P w.phase
      → Allows P (select_call x cases pcs w).phase
  unfolding select_call
  select_call-Allows x cases [] w a = tt
  select_call-Allows x cases (pc ∷ pcs) w a =
      answer_call-Allows cases pc
        (execute_with_recovery x w.executed pc.handler_key (some pc.input) (some pc.req))
        (record w { pending_calls = pcs; notified = false }) a

  pub select_branch-Allows :
      (x : Execution) (cases : List SerializedCase) (choice : Choice) (w : Workflow)
      → Allows P w.phase
      → Allows P (select_branch x cases choice w).phase
  unfolding select_branch
  select_branch-Allows x cases (timer i) w a = take_case_at-Allows cases i w a
  select_branch-Allows x cases call w a = select_call-Allows x cases w.pending_calls w a
  select_branch-Allows x cases (signal i msg) w a =
      take_case_at-Allows cases i (record w { message = msg }) a
  select_branch-Allows x cases (default i) w a = take_case_at-Allows cases i w a
