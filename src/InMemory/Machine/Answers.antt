-- ===== src/InMemory/Machine/Answers.antt =====
-- durable/routine.go and backend/inmemory/runtime.go: what a call handler answers is what `Call`
-- returns.
use durableroutine_go.Base.Result.{Result}
use durableroutine_go.Durable.Payload.{Payload}
use durableroutine_go.Durable.Continuation.{Continuation}
use durableroutine_go.Durable.Context.{Context}
use durableroutine_go.InMemory.Runtime.{Runtime}
