-- ===== src/Examples/Continued.antt =====
-- A batch of 150 items as a Temporal workflow that continues as new behind its first chunk.
use durableroutine_go.Base.{refl, true, false, none, some, List, []}
use durableroutine_go.Base.Int.{pos}
use durableroutine_go.Base.Dict.{get, put}
use durableroutine_go.Durable.Keys.{handler_key, send_key}
use durableroutine_go.Durable.Payload.{Json, Items}
use durableroutine_go.Durable.Context.{new_context, start_entries}
use durableroutine_go.Durable.Continuation.{select, receive_send, default, done_with}
use durableroutine_go.Durable.Routine.{handler_runner}
use durableroutine_go.Durable.Worker.{new_worker, add_entry}
use durableroutine_go.Durable.Registration.{register_handler, register_send_handler}
use durableroutine_go.Temporal.Types.{WorkflowInput, SerializedCase}
use durableroutine_go.Temporal.Activity.{
  serialize_cases, serialize_queries, serialize_starts, serialize_sends, serialize_output, capture,
  after_runner, run_handler_activity,
}
use durableroutine_go.Temporal.Workflow.{
  Execution, Phase, Workflow, selecting, set_query_handlers, begin, execute, execute_with_recovery,
  start_commands, signal_commands, call_cases, update_commands, enter_select,
}
use durableroutine_go.Temporal.Workflow.Select.{
  Choice, should_continue_as_new, can_check, interpret_cases, apply_effects, finish_or_wait,
  process_output, after_activity, pass, take_case_at, select_branch, drain,
}
use durableroutine_go.Temporal.Queries.{merge_query_results}
use durableroutine_go.Temporal.Workflow.Steps.{begun, step, passes, selects, drains, after_branch}
use durableroutine_go.Temporal.Workflow.Protocol.Runs.{RunsOn, Chain, first_run, continues}
use durableroutine_go.Services.Batch.{
  start_batch, first_input as first_state, process_chunk, register_handlers,
}
use durableroutine_go.Services.Batch.Workflow.{IsEnd, workflow-IsEnd}
use durableroutine_go.Examples.Strings.{strings_json, strings_of}
use durableroutine_go.Examples.Batches.{
  many, batch_encoding, processing_encoding, cancel_encoding, result_encoding, worker,
  batch-RoundTrips, processing-RoundTrips, input as items_input,
}

abbrev x : Execution
x = record {
  reg = worker.handlers;
  sdk = record {
    execute_activity = λ _ _ activity. run_handler_activity worker.handlers activity;
    set_query_handler = λ _. none;
  };
  id = "b1";
  max_history_length = pos 0;
}

x-RunsOn : RunsOn worker.handlers x
x-RunsOn = record { same_registry = refl; once = record { runs_once = λ n i. refl } }

abbrev cases_in : Phase → List SerializedCase
cases_in (selecting cases) = cases
cases_in _ = []

abbrev first_input : WorkflowInput
first_input = record {
  handler_key = "handler:batch:batch-result";
  input = some (Json.array (strings_json (many 150)));
  query_results = [];
  max_history_length = pos 0;
}

-- What the second run begins with, and what the last one returns.
abbrev second_input : WorkflowInput
second_input = record first_input {
  handler_key = "handler:batch.processing:batch-result";
  input = some (
      Json.array (
        Items.cons (Json.number (pos 100)) (
          Items.cons (Json.number (pos 100))
            (Items.cons (Json.number (pos 0)) (strings_json (many 150))))));
}

abbrev waiting : Workflow
waiting = pass x false (pos 0) (begin x first_input)

abbrev chosen : Workflow
chosen = select_branch x (cases_in waiting.phase) (Choice.default 1) waiting

abbrev checked : Workflow
checked = after_branch x true (pos 0) chosen.phase chosen

abbrev continued : Workflow
continued = drain x [] checked

abbrev last : Workflow
last = pass x false (pos 0) (begin x second_input)

-- The first run: a chunk, the default case, and the SDK's suggestion to continue as new.
first-Chain : Chain worker.handlers first_input second_input
unfolding register_handlers register_handler register_send_handler add_entry new_worker get put
    handler_key send_key start_batch first_state process_chunk new_context select receive_send
    default start_entries done_with strings_of handler_runner set_query_handlers begin execute
    execute_with_recovery start_commands signal_commands call_cases update_commands enter_select
    should_continue_as_new can_check interpret_cases apply_effects finish_or_wait process_output
    after_activity pass take_case_at select_branch drain after_branch serialize_cases
    serialize_queries serialize_starts serialize_sends serialize_output capture after_runner
    run_handler_activity merge_query_results
first-Chain =
    continues {w = continued} first_run x x-RunsOn
      (step
        (step (step begun (passes false (pos 0) refl refl)) (
          selects (cases_in waiting.phase) (Choice.default 1) true (pos 0) refl (_, refl, refl)
            refl))
        (drains refl refl))
      refl

workflow-IsEnd_example : IsEnd (many 150) (some (Json.number (pos 150)))
unfolding register_handlers register_handler register_send_handler add_entry new_worker get put
    handler_key send_key start_batch first_state process_chunk new_context select receive_send
    default start_entries done_with strings_of handler_runner set_query_handlers begin execute
    execute_with_recovery start_commands signal_commands call_cases update_commands enter_select
    should_continue_as_new can_check interpret_cases apply_effects finish_or_wait process_output
    after_activity pass take_case_at select_branch drain after_branch serialize_cases
    serialize_queries serialize_starts serialize_sends serialize_output capture after_runner
    run_handler_activity merge_query_results
workflow-IsEnd_example =
    workflow-IsEnd (many 150) (batch-RoundTrips items_input) processing-RoundTrips worker "batches"
      (Json.array (strings_json (many 150))) (pos 0) second_input x last []
      (some (Json.number (pos 150))) refl refl first-Chain x-RunsOn
      (step begun (passes false (pos 0) refl refl)) refl
