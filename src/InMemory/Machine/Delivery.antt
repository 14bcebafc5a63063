-- ===== src/InMemory/Machine/Delivery.antt =====
-- durable/client.go over backend/inmemory: what a handler returns is what `Get` returns.
use durableroutine_go.Base.Dict.{get}
use durableroutine_go.Base.Result.{Result}
use durableroutine_go.Durable.Payload.{Payload}
use durableroutine_go.Durable.Client.{ClientImpl}
use durableroutine_go.InMemory.Runtime.{Runtime, start}
use durableroutine_go.InMemory.Machine.{client_get, client_query, client_send, client_call}

-- backend/inmemory/client.go: the client of the in-memory runtime
abbrev pub memory_client : ClientImpl Runtime
memory_client = record {
  start = start;
  send = client_send;
  call = client_call;
  query = client_query;
  get = client_get;
}
