-- ===== src/Examples/Backends.antt =====
-- The two backends at the counter's send handler.
use durableroutine_go.Base.{String, ◌≡◌, refl, true, false, none, some, [], ◌∷◌}
use durableroutine_go.Base.Int.{pos}
use durableroutine_go.Durable.Keys.{send_key}
use durableroutine_go.Durable.Payload.{Json, to_any}
use durableroutine_go.Durable.Continuation.{receive_send}
use durableroutine_go.Durable.Context.{Context}
use durableroutine_go.Durable.Worker.{HandlerEntry, RunOutput, default_options}
use durableroutine_go.Durable.Routine.{send_handler_runner}
use durableroutine_go.Temporal.Types.{SerializedCase}
use durableroutine_go.Temporal.Activity.{run_handler_activity, serialize_cases}
use durableroutine_go.Temporal.Workflow.{Execution}
use durableroutine_go.Temporal.Workflow.Select.{composite_name}
use durableroutine_go.Temporal.Client.{signal_workflow, send}
use durableroutine_go.Temporal.Client.Names.{receive_send-composite_name}
use durableroutine_go.Examples.Counter.{
  counter_payload, add_payload, total_payload, Total, counter, add, on_add, counter-HasStableKind,
  add-HasStableKind,
}

abbrev send_case : SerializedCase
send_case = record {
  timer_duration = none;
  send_name = "add";
  call_name = "";
  immediate = false;
  input = Json.number (pos 3);
  handler_key = "send:counter:add:total";
}

-- The registry of a worker, and an SDK that runs its activities once.
abbrev on_add_entry : HandlerEntry
on_add_entry = record {
  options = default_options;
  runner = send_handler_runner "send:counter:add:total" on_add;
}

abbrev registered : Execution
registered = record {
  reg = ("send:counter:add:total", on_add_entry) ∷ [];
  sdk = record {
    execute_activity = λ _ _ activity.
        run_handler_activity (("send:counter:add:total", on_add_entry) ∷ []) activity;
    set_query_handler = λ _. none;
  };
  id = "c1";
  max_history_length = pos 0;
}

abbrev seven_done : RunOutput
seven_done = record {
  done = true;
  result = some (Json.number (pos 7));
  cases = [];
  call_response = none;
}

receive_send-composite_name_example :
    (name : String) × (composite_name send_case ≡ some name)
    × (send "c1" "counter" "add" "total" (to_any (add (pos 4)))
        ≡ signal_workflow "c1" name (to_any (add (pos 4))))
unfolding receive_send serialize_cases send_key
receive_send-composite_name_example =
    receive_send-composite_name Total "c1" (counter (pos 3)) (add (pos 4)) send_case
      counter-HasStableKind add-HasStableKind refl
