-- ===== src/Temporal/Activity.antt =====
-- backend/temporal/activities.go: the activity that runs a handler. The registry of worker.go maps
-- keys to runners and options, as the worker's does.
use durableroutine_go.Base.{◌<>◌, true, none, some, List, [], ◌∷◌, if◌then◌else◌}
use durableroutine_go.Base.Dict.{Dict, get}
use durableroutine_go.Base.Result.{Result, ok, err, ◌>>=◌, wrap}
use durableroutine_go.Durable.Continuation.{Case}
use durableroutine_go.Durable.Context
use durableroutine_go.Durable.Context.{Context, SendRequest, new_context, start_entries}
use durableroutine_go.Durable.Worker.{HandlerEntry, RunOutput}
use durableroutine_go.Temporal.Types.{
  QueryEntry, ActivityInput, ActivityOutput, SerializedCase, StartEntry, SendEntry, empty_output,
}

-- The loop over the cases.
unfoldable pub serialize_cases : List Case → Result (List SerializedCase)
serialize_cases [] = ok []
serialize_cases (c ∷ cs) =
    let rest = serialize_cases cs in
    wrap (λ e. "marshal case state: " <> e) c.input.encoding >>= λ state_bytes. rest >>= λ out. ok (
      record {
        timer_duration = c.timer_duration;
        send_name = c.send_name;
        call_name = c.call_name;
        immediate = c.immediate;
        input = state_bytes;
        handler_key = c.handler_key;
      }
      ∷ out)

-- The loops over the context's effects.
unfoldable pub serialize_queries : List Context.QueryEntry → Result (List QueryEntry)
serialize_queries [] = ok []
serialize_queries (q ∷ qs) =
    let rest = serialize_queries qs in
    wrap (λ e. "marshal query result: " <> e) q.result.encoding >>= λ bytes.
    rest >>= λ out. ok (record { query_name = q.query_name; result = bytes } ∷ out)

unfoldable pub serialize_starts : List Context.StartEntry → Result (List StartEntry)
serialize_starts [] = ok []
serialize_starts (s ∷ ss) =
    let rest = serialize_starts ss in
    wrap (λ e. "marshal start input: " <> e) s.input.encoding >>= λ bytes. rest >>= λ out. ok (
      record {
        routine_id = s.routine_id;
        input_kind = s.input_kind;
        result_kind = s.result_kind;
        input = bytes;
      }
      ∷ out)

unfoldable pub serialize_sends : List SendRequest → Result (List SendEntry)
serialize_sends [] = ok []
serialize_sends (s ∷ ss) =
    let rest = serialize_sends ss in
    wrap (λ e. "marshal send msg: " <> e) s.msg.encoding >>= λ bytes. rest >>= λ out. ok (
      record {
        routine_id = s.routine_id;
        input_kind = s.input_kind;
        external_input_kind = s.external_input_kind;
        result_kind = s.result_kind;
        msg = bytes;
      }
      ∷ out)

-- `Done` and `Result`, or the serialized continuation.
unfoldable pub serialize_output : RunOutput → Result ActivityOutput
unfolding serialize_cases
serialize_output out =
    if out.done
    then ok (record empty_output { done = true; result = out.result })
    else (serialize_cases out.cases >>= λ cases.
        ok (record empty_output { continuation = some (record { cases = cases }) }))

-- The activity's output for a runner's output and the context that it left.
unfoldable pub capture : Context → RunOutput → Result ActivityOutput
unfolding serialize_output
capture sctx run_out = do
  output ← serialize_output run_out
  queries ← serialize_queries sctx.query_results
  starts ← serialize_starts (start_entries sctx)
  sends ← serialize_sends sctx.send_requests
  ok (record output {
    call_response = run_out.call_response;
    query_results = queries;
    start_requests = starts;
    send_requests = sends;
  })

unfoldable pub after_runner : Context × Result RunOutput → Result ActivityOutput
after_runner (sctx, err e) = err e
after_runner (sctx, ok run_out) = capture sctx run_out

-- `RunHandler`
unfoldable pub run_handler_activity : Dict HandlerEntry → ActivityInput → Result ActivityOutput
unfolding after_runner
run_handler_activity reg input = elim (get input.handler_key reg) [
  | none ↦ err ("no handler registered for key: " <> input.handler_key)
  | some entry ↦
      after_runner
        (entry.runner (new_context input.routine_id) input.input input.message input.error)
]
