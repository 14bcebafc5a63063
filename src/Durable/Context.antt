-- ===== src/Durable/Context.antt =====
-- durable/context.go: the effects that a handler buffers while it runs.
use durableroutine_go.Base.{String, ◌==◌, if◌then◌else◌, List, [], ◌∷◌, ◌++◌, map}
use durableroutine_go.Durable.Payload.{Any, Payload, zero_kind, to_any}

pub record SendRequest : Type 0 where
  pub routine_id : String
  pub input_kind : String
  pub external_input_kind : String
  pub result_kind : String
  pub msg : Any

-- `state` is a `Payload`, so its kind is known.
pub record StartRequest : Type 0 where
  pub routine_id : String
  pub state : Any
  pub result_kind : String

pub record QueryEntry : Type 0 where
  pub query_name : String
  pub result : Any

pub record Context : Type 0 where
  pub routine_id : String
  pub start_requests : List StartRequest
  pub send_requests : List SendRequest
  pub query_results : List QueryEntry

-- `NewContext`; the embedded `context.Context` is not read
unfoldable pub new_context : String → Context
new_context id = record {
  routine_id = id;
  start_requests = [];
  send_requests = [];
  query_results = [];
}

-- `StartEntry`, the exported view of a start request
pub record StartEntry : Type 0 where
  pub routine_id : String
  pub input_kind : String
  pub result_kind : String
  pub input : Any

-- `StartRequests`
unfoldable pub start_entries : Context → List StartEntry
start_entries c =
    map
      (λ e. record {
        routine_id = e.routine_id;
        input_kind = e.state.kind;
        result_kind = e.result_kind;
        input = e.state;
      })
      c.start_requests

module _ {I : Type 0} (T : Type 0) ⦃i : Payload I⦄ ⦃t : Payload T⦄ where
  -- `BufferStart`, at the result type `T` of the handler
  unfoldable pub buffer_start : Context → String → I → Context
  buffer_start c routine_id input = record c {
    start_requests =
        c.start_requests
        ++ record { routine_id = routine_id; state = to_any input; result_kind = zero_kind T } ∷ [];
  }

module _ (I : Type 0) {E : Type 0} (T : Type 0) ⦃i : Payload I⦄ ⦃e : Payload E⦄
    ⦃t : Payload T⦄ where
  -- `BufferSend`, at the input and result types of the receiving handler
  unfoldable pub buffer_send : Context → String → E → Context
  buffer_send c routine_id external_input = record c {
    send_requests =
        c.send_requests
        ++ record {
          routine_id = routine_id;
          input_kind = zero_kind I;
          external_input_kind = e.durable_kind external_input;
          result_kind = zero_kind T;
          msg = to_any external_input;
        }
          ∷ [];
  }

-- the loop of `SetQueryResult`, and the append behind it
unfoldable pub set_query_entry : String → Any → List QueryEntry → List QueryEntry
set_query_entry qn r [] = record { query_name = qn; result = r } ∷ []
set_query_entry qn r (e ∷ es) =
    if e.query_name == qn
    then record { query_name = qn; result = r } ∷ es
    else e ∷ set_query_entry qn r es

-- `SetQueryResult`
unfoldable pub set_query_result : {R : Type 0} ⦃r : Payload R⦄ → Context → R → Context
unfolding set_query_entry
set_query_result ⦃r⦄ c resp = record c {
  query_results = set_query_entry (r.durable_kind resp) (to_any resp) c.query_results;
}
