-- ===== src/Temporal/Workflow.antt =====
-- backend/temporal/workflow.go: the variables of `RoutineWorkflow` and the pass of its loop up to
-- the selector. What the loop does is told apart at the points where the workflow yields to the
-- SDK, so that update handlers may run in between.
pub mod Select
pub mod Steps
pub mod Queries
pub mod Calls
pub mod Protocol
use durableroutine_go.Base.{
  ℕ, suc, ◌+◌, String, ◌<>◌, ◌==◌, Bool, true, false, Option, none, some, List, [], ◌∷◌, ◌++◌,
  if◌then◌else◌,
}
use durableroutine_go.Base.Int.{ℤ, pos}
use durableroutine_go.Base.Dict.{Dict, get, put}
use durableroutine_go.Base.Result.{Result, ok, err, ◌>>=◌}
use durableroutine_go.Durable.Keys.{handler_key, send_key}
use durableroutine_go.Durable.Payload.{Json}
use durableroutine_go.Durable.Worker.{HandlerEntry}
use durableroutine_go.Temporal.Types.{
  QueryEntry, WorkflowInput, ActivityInput, ActivityOutput, SerializedCase, StartEntry, SendEntry,
}
use durableroutine_go.Temporal.Options.{
  ActivityOptions, lookup_activity_options, lookup_recovery_handler_key,
}
use durableroutine_go.Temporal.Queries.{merge_query_results}

-- The SDK as the workflow sees it: what the n-th activity that it executes returns, and the error of
-- registering a query handler, if any.
pub record Sdk : Type 0 where
  pub execute_activity : ℕ → ActivityOptions → ActivityInput → Result ActivityOutput
  pub set_query_handler : String → Option String

-- What is fixed for one execution: the registry, the SDK, the workflow's id and
-- `input.MaxHistoryLength`.
pub record Execution : Type 0 where
  pub reg : Dict HandlerEntry
  pub sdk : Sdk
  pub id : String
  pub max_history_length : ℤ

-- `pendingCall`. A response channel is named by a number.
pub record PendingCall : Type 0 where
  pub handler_key : String
  pub req : Json
  pub input : Json
  pub response_ch : ℕ

-- What the workflow asks of the SDK, in order.
pub data Command : Type 0 where
  start_child : String → WorkflowInput → Command
  signal_external : String → String → Json → Command
  set_update_handler : String → Command
  respond : ℕ → Result (Option Json) → Command

-- Where the workflow is: at the top of the loop; in `sel.Select`; in the loop that drains the
-- pending calls; returned; or stopped by a panic.
pub data Phase : Type 0 where
  looping : Phase
  selecting : List SerializedCase → Phase
  draining : Phase
  completed : Option Json → Phase
  failed : String → Phase
  continued_as_new : WorkflowInput → Phase
  panicked : Phase

-- The variables, and what the SDK keeps for the workflow: the query handlers, and the cases whose
-- update handlers are registered. `notified` says that a value is on its way to the selector's
-- receive on `callNotifyCh`; `executed` counts the activities.
pub record Workflow : Type 0 where
  pub phase : Phase
  pub handler_key : String
  pub handler_input : Option Json
  pub all_query_results : List QueryEntry
  pub pending_calls : List PendingCall
  pub notified : Bool
  pub message : Option Json
  pub call_handler_output : Option ActivityOutput
  pub query_handlers : Dict Json
  pub update_handlers : List SerializedCase
  pub commands : List Command
  pub executed : ℕ

abbrev pub failing : String → Workflow → Workflow
failing e w = record w { phase = failed e }

-- The loop that sets query handlers.
unfoldable pub set_query_handlers : Execution → List QueryEntry → Workflow → Result Workflow
set_query_handlers x [] w = ok w
set_query_handlers x (q ∷ qs) w = elim (x.sdk.set_query_handler q.query_name) [
  | some e ↦ err ("set query handler " <> q.query_name <> ": " <> e)
  | none ↦
      set_query_handlers x qs
        (record w { query_handlers = put q.query_name q.result w.query_handlers })
]

abbrev pub initial : WorkflowInput → Workflow
initial input = record {
  phase = looping;
  handler_key = input.handler_key;
  handler_input = input.input;
  all_query_results = input.query_results;
  pending_calls = [];
  notified = false;
  message = none;
  call_handler_output = none;
  query_handlers = [];
  update_handlers = [];
  commands = [];
  executed = 0;
}

-- The workflow up to its loop
unfoldable pub begin : Execution → WorkflowInput → Workflow
unfolding set_query_handlers
begin x input = elim (set_query_handlers x input.query_results (initial input)) [
  | err e ↦ failing e (initial input)
  | ok w ↦ w
]

-- One activity: `RunHandler` for a key under the options of the key.
unfoldable pub execute :
    Execution → ℕ → String → Option Json → Option Json → String → Result ActivityOutput
execute x n key input message e =
    x.sdk.execute_activity n (lookup_activity_options x.reg key)
      (record { handler_key = key; routine_id = x.id; input = input; message = message; error = e })

-- A handler's activity, and on its error the activity of the recovery handler, if one is registered:
-- the number of activities executed since, and the output or the last error.
unfoldable pub execute_with_recovery :
    Execution → ℕ → String → Option Json → Option Json → ℕ × Result ActivityOutput
unfolding execute
execute_with_recovery x n key input message = elim (execute x n key input message "") [
  | ok output ↦ (suc n, ok output)
  | err e ↦
      let te_key = lookup_recovery_handler_key x.reg key in
      if te_key == ""
      then (suc n, err e)
      else (suc (suc n), execute x (suc n) te_key input message e)
]

-- 3. and 4.: the commands for the child starts and for the signals. A failed signal is logged only.
unfoldable pub start_commands : List StartEntry → List Command
start_commands [] = []
start_commands (s ∷ ss) =
    start_child s.routine_id (record {
      handler_key = handler_key s.input_kind s.result_kind;
      input = some s.input;
      query_results = [];
      max_history_length = pos 0;
    })
    ∷ start_commands ss

unfoldable pub signal_commands : List SendEntry → List Command
signal_commands [] = []
signal_commands (s ∷ ss) =
    signal_external s.routine_id (send_key s.input_kind s.external_input_kind s.result_kind) s.msg
    ∷ signal_commands ss

-- The cases for calls, and the commands that register their update handlers.
unfoldable pub call_cases : List SerializedCase → List SerializedCase
call_cases [] = []
call_cases (c ∷ cs) = let rest = call_cases cs in if c.call_name == "" then rest else c ∷ rest

unfoldable pub update_commands : List SerializedCase → List Command
update_commands [] = []
update_commands (c ∷ cs) = set_update_handler c.handler_key ∷ update_commands cs

-- 6. for more than a lone immediate case: the update handlers are registered, and the selector
-- waits.
unfoldable pub enter_select : List SerializedCase → Workflow → Workflow
unfolding call_cases update_commands
enter_select cases w = record w {
  phase = selecting cases;
  notified = false;
  update_handlers = w.update_handlers ++ call_cases cases;
  commands = w.commands ++ update_commands (call_cases cases);
}
