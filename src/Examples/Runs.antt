-- ===== src/Examples/Runs.antt =====
-- The in-memory runtime from a start of the counter to its result.
use durableroutine_go.Base.{◌≡◌, ◌≢◌, ◌↔◌, refl, true, false, none, some, [], ◌∷◌}
use durableroutine_go.Base.Int.{pos}
use durableroutine_go.Base.Dict.{get, put}
use durableroutine_go.Base.Result.{ok}
use durableroutine_go.Durable.Keys.{handler_key}
use durableroutine_go.Durable.Payload.{Any, Json, decoded, to_any}
use durableroutine_go.Durable.Continuation.{done_with}
use durableroutine_go.Durable.Context.{new_context, start_entries}
use durableroutine_go.Durable.Routine.{
  handler_runner, build_run_output, decode, unmarshal_raw, finish as finish_run,
}
use durableroutine_go.Durable.Worker.{Worker, RunOutput, default_options}
use durableroutine_go.InMemory.Runtime.{
  Instance, Runtime, running, finished, crashed, new_runtime, new_instance, start, set_instance,
  set_thread,
}
use durableroutine_go.InMemory.Handler.{
  run_handler, run_outcome, run_entry, settle, marshal_msg, apply_context_effects, apply_queries,
  merge_queries, start_children, deliver_all,
}
use durableroutine_go.InMemory.Machine.{
  Reach, here, next, starts, runs, run_step, after_output, finish, respond, client_get,
}
use durableroutine_go.InMemory.Machine.Safety.{reachable-IsSound}
use durableroutine_go.InMemory.Machine.Results.{client_get-final}
use durableroutine_go.Examples.Counter.{counter_payload, total_payload, counter, report}

abbrev worker : Worker
worker = record {
  task_queue = "counters";
  handlers =
      (
        "handler:counter:total",
        record {
          options = default_options;
          runner = handler_runner "handler:counter:total" report;
        },
      )
      ∷ [];
}

abbrev input : Any
input = to_any (counter (pos 3))

-- The routine "c1" has been started, and then has ended with 3.
abbrev started : Runtime
started = record {
  handlers = worker.handlers;
  instances =
      (
        "c1",
        record {
          id = "c1";
          send_ch = [];
          call_chan = [];
          done = false;
          query_results = [];
          buffered = [];
          result = none;
          err = none;
        },
      )
      ∷ [];
  threads = ("c1", running "handler:counter:total" input none none) ∷ [];
  responses = [];
}

abbrev ended_instance : Instance
ended_instance = record {
  id = "c1";
  send_ch = [];
  call_chan = [];
  done = true;
  query_results = [];
  buffered = [];
  result = some (decoded (Json.number (pos 3)));
  err = none;
}

abbrev ended : Runtime
ended = record started { instances = ("c1", ended_instance) ∷ []; threads = ("c1", finished) ∷ [] }

abbrev three_done : RunOutput
three_done = record {
  done = true;
  result = some (Json.number (pos 3));
  cases = [];
  call_response = none;
}

Reach-started : Reach (new_runtime worker) started
unfolding new_runtime start new_instance handler_key put get
Reach-started = next here (starts "c1" "counter" "total" input refl)

handler_runs :
    run_handler started "c1" "handler:counter:total" input none ≡ some (started, ok three_done)
unfolding run_handler run_outcome run_entry settle marshal_msg apply_context_effects apply_queries
    merge_queries start_children deliver_all new_context start_entries handler_runner decode
    unmarshal_raw finish_run build_run_output done_with get put set_instance
handler_runs = refl

handler_steps : run_step started "c1" "handler:counter:total" input none none (pos 0) ≡ some ended
unfolding run_step after_output finish respond set_instance set_thread get put
handler_steps = rw (handler_runs, run_step) refl

Reach-ended : Reach (new_runtime worker) ended
unfolding get
Reach-ended =
    next Reach-started
      (runs "c1" "handler:counter:total" input none none (pos 0) refl handler_steps)

-- Another routine starts.
abbrev with_another : Runtime
with_another = record ended {
  instances =
      ("c1", ended_instance)
      ∷ (
        "c2",
        record {
          id = "c2";
          send_ch = [];
          call_chan = [];
          done = false;
          query_results = [];
          buffered = [];
          result = none;
          err = none;
        },
      )
      ∷ [];
  threads = ("c1", finished) ∷ ("c2", running "handler:counter:total" input none none) ∷ [];
}

Reach-another : Reach ended with_another
unfolding start new_instance handler_key put get
Reach-another = next here (starts "c2" "counter" "total" input refl)

client_get-final_example :
    client_get with_another "c1" ≡ some (ok (some (decoded (Json.number (pos 3)))))
unfolding get client_get
client_get-final_example =
    client_get-final worker ended with_another "c1" ended_instance
      (ok (some (decoded (Json.number (pos 3))))) Reach-ended Reach-another refl refl

reachable-IsSound_example :
    (inst : Instance) × (get "c1" ended.instances ≡ some inst)
    × (finished ≢ crashed)
    × ((inst.done ≡ true) ↔ (finished ≡ finished))
unfolding get
reachable-IsSound_example = reachable-IsSound worker ended Reach-ended "c1" finished refl
