-- ===== src/InMemory/Handler.antt =====
-- backend/inmemory/runtime.go: `runHandler` and `applyContextEffects`.
pub mod Routing
pub mod Recovery
pub mod Effects
use durableroutine_go.Base.{String, ◌<>◌, ◌==◌, Option, none, some, List, [], ◌∷◌, if◌then◌else◌}
use durableroutine_go.Base.Dict.{Dict, get, put}
use durableroutine_go.Base.Result.{Result, ok, err, ◌>>=◌, wrap}
use durableroutine_go.Durable.Keys.{send_key}
use durableroutine_go.Durable.Payload.{Any, Json}
use durableroutine_go.Durable.Context.{
  Context, QueryEntry, SendRequest, StartEntry, new_context, start_entries,
}
use durableroutine_go.Durable.Worker.{HandlerEntry, RunOutput}
use durableroutine_go.InMemory.Runtime.{Runtime, start, push_send, set_instance}

-- inst.queryResults[qr.QueryName] = qr.Result, for each
unfoldable pub merge_queries : List QueryEntry → Dict Any → Dict Any
merge_queries [] m = m
merge_queries (q ∷ qs) m = merge_queries qs (put q.query_name q.result m)

unfoldable pub apply_queries : String → List QueryEntry → Runtime → Runtime
unfolding merge_queries set_instance
apply_queries id qs r = elim (get id r.instances) [
  | none ↦ r
  | some inst ↦
      set_instance id (record inst { query_results = merge_queries qs inst.query_results }) r
]

-- `r.start` for each request; its error is dropped
unfoldable pub start_child : StartEntry → Runtime → Runtime
unfolding start
start_child s r = elim (start r s.routine_id s.input_kind s.result_kind s.input) [
  | ok r' ↦ r'
  | err _ ↦ r
]

unfoldable pub start_children : List StartEntry → Runtime → Runtime
start_children [] r = r
start_children (s ∷ ss) r = start_children ss (start_child s r)

-- One buffered send. A missing target is skipped; `none` means that the target's channel is full.
unfoldable pub deliver : SendRequest → Runtime → Option Runtime
unfolding push_send set_instance
deliver s r = elim (get s.routine_id r.instances) [
  | none ↦ some r
  | some target ↦
      elim (push_send
        (record { key = send_key s.input_kind s.external_input_kind s.result_kind; msg = s.msg })
        target) [ none ↦ none | some target' ↦ some (set_instance s.routine_id target' r) ]
]

unfoldable pub deliver_all : List SendRequest → Runtime → Option Runtime
deliver_all [] r = some r
deliver_all (s ∷ ss) r = elim (deliver s r) [ none ↦ none | some r' ↦ deliver_all ss r' ]

-- `applyContextEffects`: queries, then children, then sends
unfoldable pub apply_context_effects : String → Context → Runtime → Option Runtime
apply_context_effects id sctx r =
    deliver_all sctx.send_requests
      (start_children (start_entries sctx) (apply_queries id sctx.query_results r))

-- A runner's result, with the context whose effects are to be applied.
unfoldable pub settle : Context × Result RunOutput → Result (Context × RunOutput)
settle (sctx, ok out) = ok (sctx, out)
settle (sctx, err e) = err e

-- The handler failed with error text `e`: the recovery handler, where one is registered.
unfoldable pub recover :
    Dict HandlerEntry
    → String
    → HandlerEntry
    → Json
    → Option Json
    → String
    → Result (Context × RunOutput)
unfolding settle
recover handlers id entry raw_input raw_msg e =
    let te_key = entry.options.recovery_handler_key in
    if te_key == "" then err e else elim (get te_key handlers) [
      | none ↦ err e
      | some te ↦ settle (te.runner (new_context id) (some raw_input) raw_msg e)
    ]

unfoldable pub run_entry :
    Dict HandlerEntry → String → HandlerEntry → Json → Option Json → Result (Context × RunOutput)
unfolding settle
run_entry handlers id entry raw_input raw_msg =
    elim (settle (entry.runner (new_context id) (some raw_input) raw_msg "")) [
      | ok done ↦ ok done
      | err e ↦ recover handlers id entry raw_input raw_msg e
    ]

unfoldable pub marshal_msg : Option Any → Result (Option Json)
marshal_msg none = ok none
marshal_msg (some m) = wrap (λ e. "marshal msg: " <> e) m.encoding >>= λ j. ok (some j)

-- `runHandler` up to its effects
unfoldable pub run_outcome :
    Dict HandlerEntry → String → String → Any → Option Any → Result (Context × RunOutput)
unfolding marshal_msg
run_outcome handlers id key input msg = elim (get key handlers) [
  | none ↦ err ("no handler registered for key: " <> key)
  | some entry ↦ do
    raw_input ← wrap (λ e. "marshal input: " <> e) input.encoding
    raw_msg ← marshal_msg msg
    run_entry handlers id entry raw_input raw_msg
]

-- `runHandler`: the runtime with the effects applied, and the output or the error. `none` means
-- that a send waits on a full channel.
unfoldable pub run_handler :
    Runtime → String → String → Any → Option Any → Option (Runtime × Result RunOutput)
run_handler r id key input msg = elim (run_outcome r.handlers id key input msg) [
  | err e ↦ some (r, err e)
  | ok (sctx, out) ↦ elim (apply_context_effects id sctx r) [
    | none ↦ none
    | some r' ↦ some (r', ok out)
  ]
]
