-- ===== src/Examples/Views.antt =====
-- The effects of a handler of the counter, and its query results, in the in-memory runtime and on
-- both backends.
use durableroutine_go.Base.{◌≡◌, refl, inl, false, none, some, true, [], ◌∷◌}
use durableroutine_go.Base.Int.{pos}
use durableroutine_go.Base.Dict.{get, put}
use durableroutine_go.Base.Result.{ok}
use durableroutine_go.Durable.Payload.{Json, decoded, to_any, HasStableKind}
use durableroutine_go.Durable.Context
use durableroutine_go.Durable.Context.{Context, new_context, set_query_result, start_entries}
use durableroutine_go.Durable.Client.{query}
use durableroutine_go.InMemory.Runtime.{Runtime, Instance, set_instance}
use durableroutine_go.InMemory.Handler.{
  apply_context_effects, apply_queries, merge_queries, start_children, deliver_all,
}
use durableroutine_go.InMemory.Machine.Delivery.{memory_client}
use durableroutine_go.InMemory.Machine.Queries.{set_query_result-query}
use durableroutine_go.Durable.Keys.{handler_key}
use durableroutine_go.Durable.Worker.{RunOutput}
use durableroutine_go.Temporal.Types.{ActivityOutput, QueryEntry}
use durableroutine_go.Temporal.Workflow.{Workflow, initial}
use durableroutine_go.Examples.Counter.{
  counter_payload, add_payload, total_payload, Total, counter, add, total, total-RoundTrips,
}

total-HasStableKind : HasStableKind Total
total-HasStableKind = record { stable = λ t. refl }

abbrev idle : Instance
idle = record {
  id = "c1";
  send_ch = [];
  call_chan = [];
  done = false;
  query_results = [];
  buffered = [];
  result = none;
  err = none;
}

abbrev before : Runtime
before = record { handlers = []; instances = ("c1", idle) ∷ []; threads = []; responses = [] }

abbrev seen : Instance
seen = record idle { query_results = ("total", to_any (total (pos 3))) ∷ [] }

abbrev later : Runtime
later = record before { instances = ("c1", seen) ∷ [] }

set_query_result-query_example :
    query memory_client {Resp = Total} "Total" (λ _. none) later "c1" (total (pos 0))
    ≡ ok (total (pos 3))
unfolding apply_context_effects apply_queries merge_queries start_children deliver_all start_entries
    set_query_result new_context set_instance get put
set_query_result-query_example =
    set_query_result-query "Total" "c1" (λ _. none) (new_context "c1") (total (pos 3))
      (total (pos 0)) before later idle total-HasStableKind (total-RoundTrips (pos 3)) (inl refl) tt
      refl refl

abbrev entry : Json → Context.QueryEntry
entry j = record { query_name = "total"; result = decoded j }

abbrev sent : Json → QueryEntry
sent j = record { query_name = "total"; result = j }

-- A handler of "c1" that started "c3", sent to "c2" and to "c3", and ended.
abbrev busy : Context
busy = record {
  routine_id = "c1";
  start_requests =
      record { routine_id = "c3"; state = to_any (counter (pos 1)); result_kind = "total" } ∷ [];
  send_requests =
      record {
        routine_id = "c2";
        input_kind = "counter";
        external_input_kind = "add";
        result_kind = "total";
        msg = to_any (add (pos 5));
      }
      ∷ record {
        routine_id = "c3";
        input_kind = "counter";
        external_input_kind = "add";
        result_kind = "total";
        msg = to_any (add (pos 7));
      }
      ∷ [];
  query_results = [];
}

abbrev ended : RunOutput
ended = record { done = true; result = none; cases = []; call_response = none }

abbrev captured : ActivityOutput
captured = record {
  done = true;
  result = none;
  continuation = none;
  query_results = [];
  start_requests =
      record {
        routine_id = "c3";
        input_kind = "counter";
        result_kind = "total";
        input = Json.number (pos 1);
      }
      ∷ [];
  send_requests =
      record {
        routine_id = "c2";
        input_kind = "counter";
        external_input_kind = "add";
        result_kind = "total";
        msg = Json.number (pos 5);
      }
      ∷ record {
        routine_id = "c3";
        input_kind = "counter";
        external_input_kind = "add";
        result_kind = "total";
        msg = Json.number (pos 7);
      }
      ∷ [];
  call_response = none;
}

abbrev fresh : Workflow
fresh = initial (record {
  handler_key = "handler:counter:total";
  input = some (Json.number (pos 3));
  max_history_length = pos 0;
  query_results = [];
})
