-- ===== src/Temporal/Workflow/Protocol.antt =====
-- backend/temporal/workflow.go: what the executions of one routine may do, from its handlers alone.
pub mod Passes
pub mod Branches
pub mod Runs
pub mod Typed
use durableroutine_go.Base.{
  ◌≡◌, ◌∙◌, refl, sym, ap, subst, ℕ, suc, String, Bool, true, false, Option, none, some, inl, inr,
  List, [], ◌∷◌, ◌++◌, get_elem?, if◌then◌else◌, All, All-at, All-append, Option-cases, List-cases,
  Bool-cases, ◌==◌,
}
use durableroutine_go.Base.Int.{ℤ}
use durableroutine_go.Base.Dict.{put}
use durableroutine_go.Base.Result.{Result, ok, err, Result-cases, ok-injective}
use durableroutine_go.Durable.Payload.{Json}
use durableroutine_go.Temporal.Types.{QueryEntry, WorkflowInput, ActivityOutput, SerializedCase}
use durableroutine_go.Temporal.Workflow.{
  Execution, PendingCall, Phase, Workflow, looping, selecting, draining, completed, failed,
  continued_as_new, panicked, initial, begin, set_query_handlers, execute, execute_with_recovery,
  call_cases, enter_select,
}
use durableroutine_go.Temporal.Workflow.Select.{
  should_continue_as_new, can_check, interpret_cases, apply_effects, finish_or_wait, process_output,
  after_activity, pass, answer_call, select_call, select_branch, drain_answer, drain,
  receive_update, Choice, timer, call, signal, default, cases_of, take_case, take_case_at,
}
use durableroutine_go.Temporal.Workflow.Steps.{
  Step, passes, selects, drains, updates, Reach, begun, step, after_branch,
}

-- The handler under this key may run on this input; and the workflow may return this result.
pub record Protocol : Type 1 where
  pub Enters : String → Option Json → Type 0
  pub Ends : Option Json → Type 0

module _ (P : Protocol) where
  abbrev pub EntersCase : SerializedCase → Type 0
  EntersCase c = P.Enters c.handler_key (some c.input)

  abbrev pub EntersCall : PendingCall → Type 0
  EntersCall pc = P.Enters pc.handler_key (some pc.input)

  -- What an activity's output may be.
  pub record Goes (out : ActivityOutput) : Type 0 where
    pub ends : out.done ≡ true → P.Ends out.result
    pub enters : All EntersCase (cases_of out.continuation)

  -- The handlers keep to the protocol, with their recovery handlers and without.
  pub record Keeps (x : Execution) : Type 0 where
    pub keeps :
        (n : ℕ) (key : String) (input msg : Option Json) (out : ActivityOutput)
        → P.Enters key input
        → (execute_with_recovery x n key input msg).1 ≡ ok out
        → Goes out
    pub keeps_alone :
        (n : ℕ) (key : String) (input msg : Option Json) (out : ActivityOutput)
        → P.Enters key input
        → execute x n key input msg "" ≡ ok out
        → Goes out

  abbrev pub Allows : Phase → Type 0
  Allows looping = Unit
  Allows (selecting cases) = All EntersCase cases
  Allows draining = Unit
  Allows (completed result) = P.Ends result
  Allows (failed e) = Unit
  Allows (continued_as_new input) = P.Enters input.handler_key input.input
  Allows panicked = Unit

  abbrev pub AllowsOutput : Option ActivityOutput → Type 0
  AllowsOutput none = Unit
  AllowsOutput (some out) = Goes out

  -- The variables of the workflow, but for its phase.
  pub record Obeys (w : Workflow) : Type 0 where
    pub current : P.Enters w.handler_key w.handler_input
    pub handlers : All EntersCase w.update_handlers
    pub pending : All EntersCall w.pending_calls
    pub output : AllowsOutput w.call_handler_output

  abbrev pub Holds : Workflow → Type 0
  Holds w = Obeys w × Allows w.phase

  -- The same variables in another state.
  pub obeys_as :
      (w w' : Workflow)
      → w'.handler_key ≡ w.handler_key
      → w'.handler_input ≡ w.handler_input
      → w'.update_handlers ≡ w.update_handlers
      → w'.pending_calls ≡ w.pending_calls
      → w'.call_handler_output ≡ w.call_handler_output
      → Obeys w
      → Obeys w'
  obeys_as w w' a b c d e o = record {
    current = rw (a, b) o.current;
    handlers = rw c o.handlers;
    pending = rw d o.pending;
    output = rw e o.output;
  }
