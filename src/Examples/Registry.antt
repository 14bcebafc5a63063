-- ===== src/Examples/Registry.antt =====
-- Keys, registration and routing at the counter.
use durableroutine_go.Base.{◌≡◌, refl, some, [], arith}
use durableroutine_go.Base.Int.{pos}
use durableroutine_go.Durable.Keys.{send_key, call_key}
use durableroutine_go.Durable.Keys.Injective.{IsPlain, send, render-injective}
use durableroutine_go.Durable.Payload.{to_any}
use durableroutine_go.Durable.Context.{new_context}
use durableroutine_go.Durable.Worker.{Worker, new_worker, default_options, add_entry}
use durableroutine_go.Durable.Routine.{call_handler_runner, finish_call}
use durableroutine_go.Durable.Registration.{register_call_handler}
use durableroutine_go.Base.Dict.{get, put}
use durableroutine_go.InMemory.Handler.{settle, run_outcome}
use durableroutine_go.InMemory.Handler.Routing.{register_call_handler-run_outcome}
use durableroutine_go.Examples.Counter.{
  counter_payload, add_payload, total_payload, counter, add, on_call, counter-HasStableKind,
  add-HasStableKind, counter-RoundTrips, add-RoundTrips,
}

plain : IsPlain (send "counter" "add" "total")
plain = ground arith

render-injective_example : send "counter" "add" "total" ≡ send "counter" "add" "total"
unfolding send_key
render-injective_example =
    render-injective (send "counter" "add" "total") (send "counter" "add" "total") plain plain refl

-- The worker with one handler registered on it.
abbrev worker : Worker
worker = new_worker "counters"

abbrev with_on_call : Worker
with_on_call = record {
  task_queue = "counters";
  handlers =
      put "call:counter:add:total:total"
        (record {
          options = default_options;
          runner = call_handler_runner "call:counter:add:total:total" on_call;
        })
        [];
}

register_call_handler-run_outcome_example :
    run_outcome with_on_call.handlers "c1"
      (call_key "counter" "add" "total" "total")
      (to_any (counter (pos 3)))
      (some (to_any (add (pos 4))))
    ≡ settle (
        finish_call "call:counter:add:total:total"
          (on_call (new_context "c1") (counter (pos 3)) (add (pos 4))))
unfolding register_call_handler call_key add_entry get put new_worker
register_call_handler-run_outcome_example =
    register_call_handler-run_outcome worker with_on_call on_call default_options
      (record { key = "call:counter:add:total:total" }) "c1" (counter (pos 3)) (add (pos 4))
      counter-HasStableKind add-HasStableKind (counter-RoundTrips (pos 3)) (add-RoundTrips (pos 4))
      refl refl
