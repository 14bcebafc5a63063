-- ===== src/Temporal/Workflow/Protocol/Runs.antt =====
-- backend/temporal/workflow.go: the executions of a routine that keeps to its protocol.
use durableroutine_go.Base.{
  ◌≡◌, refl, sym, subst, ℕ, Option, inl, inr, List, All, All-at, All-append,
}
use durableroutine_go.Base.Result.{Result-cases}
use durableroutine_go.Durable.Payload.{Json}
use durableroutine_go.Temporal.Types.{WorkflowInput}
use durableroutine_go.Temporal.Workflow.{
  Execution, Workflow, completed, continued_as_new, initial, begin, set_query_handlers,
}
use durableroutine_go.Temporal.Workflow.Select.{receive_update}
use durableroutine_go.Temporal.Workflow.Steps.{
  Step, passes, selects, drains, updates, Reach, begun, step,
}
use durableroutine_go.Base.Dict.{Dict}
use durableroutine_go.Durable.Payload.{Json}
use durableroutine_go.Durable.Worker.{HandlerEntry}
use durableroutine_go.Temporal.Agreement.{RunsOnce}
use durableroutine_go.Temporal.Workflow.Protocol.{
  Protocol, EntersCase, EntersCall, Keeps, Allows, Obeys, Holds, obeys_as,
}
use durableroutine_go.Temporal.Workflow.Protocol.Passes.{
  set_query_handlers-Obeys, set_query_handlers-phase, pass-Holds,
}
use durableroutine_go.Temporal.Workflow.Protocol.Branches.{
  select_branch-Obeys, drain-Holds, after_branch-Holds, select_branch-Allows,
}

module _ (P : Protocol) where
  Step-Holds :
      (x : Execution) (w w' : Workflow) (new : List ℕ)
      → Keeps P x
      → Step x w w' new
      → Holds P w
      → Holds P w'
  unfolding receive_update
  Step-Holds x w w' new k (passes s l p e) (o, a) =
      subst (Holds P) (sym e) (pass-Holds P x s l w k o)
  Step-Holds x w w' new k (selects cases choice s l p offers e) (o, a) =
      let h : All (EntersCase P) cases = subst (Allows P) p a in
      subst (Holds P) (sym e) (
        after_branch-Holds P x s l _ _ (select_branch-Allows P x cases choice w a)
          (select_branch-Obeys P x cases choice w k h o))
  Step-Holds x w w' new k (drains p e) (o, a) =
      subst (Holds P) (sym e) (drain-Holds P x w.pending_calls w k p o.pending o)
  Step-Holds x w w' new k (updates i c req ch heard l m q e) (o, a) = subst (Holds P) (sym e) (
    record {
      current = o.current;
      handlers = o.handlers;
      pending =
          All-append (EntersCall P) w.pending_calls _ o.pending
            (All-at (EntersCase P) w.update_handlers i c o.handlers m, tt);
      output = o.output;
    },
    a,
  )

  begin-Holds :
      (x : Execution) (input : WorkflowInput)
      → P.Enters input.handler_key input.input
      → Holds P (begin x input)
  unfolding begin
  begin-Holds x input h =
      let start : Obeys P (initial input) = record {
        current = h;
        handlers = tt;
        pending = tt;
        output = tt;
      } in
      elim (Result-cases (set_query_handlers x input.query_results (initial input))) [
        | inr (e, q) ↦
            rw (q, begin) (obeys_as P (initial input) _ refl refl refl refl refl start, tt)
        | inl (w, q) ↦
            rw (q, begin)
              (
                set_query_handlers-Obeys P x input.query_results (initial input) w q start,
                subst (Allows P)
                    (sym (set_query_handlers-phase P x input.query_results (initial input) w q)) tt,
              )
      ]

  Reach-Holds :
      (x : Execution) (input : WorkflowInput) (w : Workflow) (chs : List ℕ)
      → Keeps P x
      → P.Enters input.handler_key input.input
      → Reach x input w chs
      → Holds P w
  Reach-Holds x input w chs k h begun = begin-Holds x input h
  Reach-Holds x input w chs k h (step {w = v} {chs = old} {new = new} r s) =
      Step-Holds x v w new k s (Reach-Holds x input v old k h r)

  -- Whatever an execution does that begins where the protocol allows it: its result is one that the
  -- protocol has, and an execution that continues it as new begins where the protocol allows it.
  reachable-Allows :
      (x : Execution) (input : WorkflowInput) (w : Workflow) (chs : List ℕ)
      → Keeps P x
      → P.Enters input.handler_key input.input
      → Reach x input w chs
      → Allows P w.phase
  reachable-Allows x input w chs k h r = (Reach-Holds x input w chs k h r).1

-- The SDK runs each activity once, on this registry.
pub record RunsOn (reg : Dict HandlerEntry) (x : Execution) : Type 0 where
  pub same_registry : x.reg ≡ reg
  pub once : RunsOnce x

-- The runs of a workflow, each of which continues the one before as new, from the input of the
-- first to that of the last.
pub data Chain (reg : Dict HandlerEntry) (start : WorkflowInput) : WorkflowInput → Type 0 where
  first_run : Chain reg start start
  continues :
      {input following : WorkflowInput} {w : Workflow} {chs : List ℕ}
      → Chain reg start input
      → (x : Execution) → RunsOn reg x
      → Reach x input w chs
      → w.phase ≡ continued_as_new following
      → Chain reg start following

module _ (P : Protocol) (reg : Dict HandlerEntry)
    (k : (x : Execution) → RunsOn reg x → Keeps P x) where
  Chain-Enters :
      {start input : WorkflowInput}
      → P.Enters start.handler_key start.input
      → Chain reg start input
      → P.Enters input.handler_key input.input
  Chain-Enters h first_run = h
  Chain-Enters h (continues {input = i} {w = w} {chs = chs} c x o r e) =
      subst (Allows P) e (reachable-Allows P x i w chs (k x o) (Chain-Enters h c) r)

  -- The result of the last run.
  pub chain-Ends :
      (start input : WorkflowInput) (x : Execution) (w : Workflow) (chs : List ℕ)
      (result : Option Json)
      → P.Enters start.handler_key start.input
      → Chain reg start input
      → RunsOn reg x
      → Reach x input w chs
      → w.phase ≡ completed result
      → P.Ends result
  chain-Ends start input x w chs result h c o r e =
      subst (Allows P) e (reachable-Allows P x input w chs (k x o) (Chain-Enters h c) r)
