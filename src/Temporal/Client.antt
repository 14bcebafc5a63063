-- ===== src/Temporal/Client.antt =====
-- backend/temporal/client.go: what the client asks of the Temporal server. The server's answers are
-- the SDK's.
pub mod Names
use durableroutine_go.Base.{String, ◌<>◌, Option, some, List, []}
use durableroutine_go.Base.Int.{ℤ}
use durableroutine_go.Base.Result.{Result, ok, err, ◌>>=◌, wrap}
use durableroutine_go.Durable.Keys.{handler_key, send_key, call_key}
use durableroutine_go.Durable.Payload.{Any, Json, decoded}
use durableroutine_go.Temporal.Types.{WorkflowInput}

-- `Client`, without the connection
pub record Client : Type 0 where
  pub task_queue : String
  pub max_history_length : ℤ

-- The calls of the SDK's client, with their arguments.
pub data Request : Type 0 where
  execute_workflow : (id task_queue : String) → WorkflowInput → Request
  signal_workflow : (id signal_name : String) → Any → Request
  update_workflow : (id update_name : String) → Any → Request
  query_workflow : (id query_name : String) → Request
  get_workflow : (id : String) → Request

-- `Client.Go`: the request, or the error before it
unfoldable pub go : Client → String → String → String → Any → Result Request
go c id kind result_kind input =
    wrap (λ e. "marshal input: " <> e) input.encoding >>= λ input_bytes. ok (
      execute_workflow id c.task_queue (record {
        handler_key = handler_key kind result_kind;
        input = some input_bytes;
        query_results = [];
        max_history_length = c.max_history_length;
      }))

-- `Client.Send`
unfoldable pub send : String → String → String → String → Any → Request
send id input_kind external_input_kind result_kind external_input =
    signal_workflow id (send_key input_kind external_input_kind result_kind) external_input

-- `Client.Call`
unfoldable pub call : String → String → String → String → String → Any → Request
call id input_kind external_req_kind external_resp_kind result_kind external_req =
    update_workflow id (call_key input_kind external_req_kind external_resp_kind result_kind)
      external_req

-- `Client.Query` and `Client.Get`
unfoldable pub query : String → String → Request
query id query_name = query_workflow id query_name

unfoldable pub get : String → Request
get id = get_workflow id

-- What they make of the server's answer: the document is decoded into an `any`.
unfoldable pub answer : Result Json → Result Any
answer a = a >>= λ j. ok (decoded j)

-- What `Client.Call` makes of it: the answer to the update request holds the handle, and the handle
-- the answer of the update.
unfoldable pub call_answer : Result (Result Json) → Result Any
unfolding answer
call_answer a = wrap (λ e. "update workflow: " <> e) a >>= answer
