-- ===== src/Examples/Answers.antt =====
-- A call of the counter in the in-memory runtime.
use durableroutine_go.Base.{none, some, true, false, [], ◌∷◌}
use durableroutine_go.Base.Int.{pos}
use durableroutine_go.Durable.Payload.{Any, Json, to_any}
use durableroutine_go.Durable.Routine.{call_handler_runner}
use durableroutine_go.Durable.Worker.{RunOutput, default_options}
use durableroutine_go.InMemory.Runtime.{Runtime, running}
use durableroutine_go.InMemory.Machine.{after_output}
use durableroutine_go.Examples.Counter.{
  counter_payload, add_payload, total_payload, counter, add, on_call,
}

abbrev input : Any
input = to_any (counter (pos 3))

abbrev request : Any
request = to_any (add (pos 4))

-- The routine is about to answer a call on the channel 7.
abbrev called : Runtime
called = record {
  handlers =
      (
        "call:counter:add:total:total",
        record {
          options = default_options;
          runner = call_handler_runner "call:counter:add:total:total" on_call;
        },
      )
      ∷ [];
  instances =
      (
        "c1",
        record {
          id = "c1";
          send_ch = [];
          call_chan = [];
          done = false;
          query_results = [];
          buffered = [];
          result = none;
          err = none;
        },
      )
      ∷ [];
  threads = ("c1", running "call:counter:add:total:total" input (some request) (some 7)) ∷ [];
  responses = [];
}

abbrev output : RunOutput
output = record {
  done = true;
  result = some (Json.number (pos 3));
  cases = [];
  call_response = some (Json.number (pos 7));
}

abbrev answered : Runtime
answered = after_output "c1" (some 7) (pos 0) output called
