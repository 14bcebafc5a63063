-- ===== src/Examples/Effects.antt =====
-- Recovery and the effects of a handler in the in-memory runtime.
use durableroutine_go.Base.{◌≡◌, refl, none, some, [], ◌∷◌, false}
use durableroutine_go.Base.Int.{pos}
use durableroutine_go.Base.Dict.{get, put}
use durableroutine_go.Durable.Keys.{handler_key, error_key, send_key}
use durableroutine_go.Durable.Payload.{Any, Json, decoded, to_any}
use durableroutine_go.Durable.Context.{Context, new_context, start_entries}
use durableroutine_go.Durable.Routine.{finish, handler_runner}
use durableroutine_go.Durable.Worker.{Worker, default_options, new_worker, add_entry}
use durableroutine_go.Durable.Registration.{HandlerReg, register_handler, with_recovery_handler}
use durableroutine_go.InMemory.Runtime.{Runtime, Instance, push_send, set_instance}
use durableroutine_go.InMemory.Handler.{
  settle, run_outcome, apply_context_effects, apply_queries, merge_queries, start_children, deliver,
  deliver_all,
}
use durableroutine_go.InMemory.Handler.Recovery.{with_recovery_handler-run_outcome}
use durableroutine_go.InMemory.Handler.Effects.{
  apply_context_effects-get, with_messages, with_queries, addressed,
}
use durableroutine_go.Examples.Counter.{
  counter_payload, total_payload, Counter, Total, counter, refuse, give_up, counter-HasStableKind,
  counter-RoundTrips,
}

abbrev registration : HandlerReg Counter Total
registration = record { key = "handler:counter:total" }

abbrev with_refuse : Worker
with_refuse = record {
  task_queue = "counters";
  handlers =
      (
        "handler:counter:total",
        record {
          options = default_options;
          runner = handler_runner "handler:counter:total" refuse;
        },
      )
      ∷ [];
}

with_recovery_handler-run_outcome_example :
    run_outcome
      (with_recovery_handler with_refuse registration give_up default_options).handlers
      "c1"
      (handler_key "counter" "total")
      (to_any (counter (pos 3)))
      none
    ≡ settle (
        finish
          (error_key "handler:counter:total")
          (give_up (new_context "c1") (counter (pos 3)) "out of stock"))
unfolding register_handler handler_key add_entry get put new_worker
with_recovery_handler-run_outcome_example =
    with_recovery_handler-run_outcome (new_worker "counters") with_refuse refuse give_up
      default_options default_options registration "c1" (counter (pos 3)) (new_context "c1") none
      "out of stock" counter-HasStableKind (counter-RoundTrips (pos 3)) refl refl

abbrev three : Any
three = decoded (Json.number (pos 3))

-- A routine that exists, and a context that sends to it.
abbrev idle : Instance
idle = record {
  id = "c1";
  send_ch = [];
  call_chan = [];
  done = false;
  query_results = [];
  buffered = [];
  result = none;
  err = none;
}

abbrev before : Runtime
before = record { handlers = []; instances = ("c1", idle) ∷ []; threads = []; responses = [] }

abbrev effects : Context
effects = record {
  routine_id = "c1";
  start_requests = [];
  send_requests =
      record {
        routine_id = "c1";
        input_kind = "counter";
        external_input_kind = "add";
        result_kind = "total";
        msg = three;
      }
      ∷ [];
  query_results = record { query_name = "count"; result = three } ∷ [];
}

abbrev after : Runtime
after = record before {
  instances =
      (
        "c1",
        record idle {
          send_ch = record { key = "send:counter:add:total"; msg = three } ∷ [];
          query_results = ("count", three) ∷ [];
        },
      )
      ∷ [];
}

apply_context_effects-get_example :
    get "c1" after.instances
    ≡ some (
        with_messages
          (addressed "c1" effects.send_requests)
          (with_queries "c1" "c1" effects.query_results idle))
unfolding apply_context_effects apply_queries merge_queries start_children deliver deliver_all
    push_send set_instance start_entries send_key get put
apply_context_effects-get_example =
    apply_context_effects-get "c1" "c1" effects before after idle refl refl
