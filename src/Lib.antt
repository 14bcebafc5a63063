-- ===== src/Lib.antt =====
-- Durable routines for Go.
--
-- The program runs long-lived routines whose handlers return what they wait for next. Its parts
-- are the package durable (handlers, registration, continuations, the handler's context and the
-- typed client), two backends that run the handlers (backend/inmemory with goroutines and
-- channels, backend/temporal with workflows and activities), and the keys that they share
-- (internal/durablecore). The backends read a worker's registry of runners; a client reaches a
-- routine through its backend.
--
-- Files:
-- - Base and below: numbers, integers, lists, maps (a Go map is an association list, Base.Dict)
--   and results (a value or the error's text, Base.Result).
-- - Durable.Keys: internal/durablecore/keys.go. Durable.Payload, Durable.Worker, Durable.Routine
--   and Durable.Registration: durable/routine.go, durable/worker.go and durable/options.go.
--   Durable.Continuation, Durable.Context, Durable.Client: the files of the same names. A handler
--   is a function from a context to a context with what it buffered. The JSON encoding of a
--   user's type is an argument, the instance of `Payload`; an interface value is its kind and its
--   encoding.
-- - InMemory.Runtime, InMemory.Handler, InMemory.Wait, InMemory.Poll, InMemory.WaitLoop:
--   backend/inmemory/runtime.go (`Runtime`, `runHandler` with `applyContextEffects`, the
--   receives, one round of `waitForCase`, its loop). InMemory.Machine: `runInstance` and
--   backend/inmemory/client.go as the steps of goroutines that run in any order.
--   InMemory.Machine.Protocol: what one routine may do there, from its handlers alone.
-- - Temporal.Types, Temporal.Activity: backend/temporal/types.go and activities.go.
--   Temporal.Options, Temporal.Queries, Temporal.Workflow and below:
--   backend/temporal/workflow.go, its loop cut where the workflow yields to the SDK, so that
--   update handlers run in between. Temporal.Workflow.Protocol: what one routine may do there,
--   over all the runs that continue each other. Temporal.Client: backend/temporal/client.go as
--   requests. Temporal.Worker: the registry of backend/temporal/worker.go. Temporal.Agreement
--   compares the backends: the runs of a handler, its effects, its query results.
-- - Services and below: docs/howto, services written against the package durable.
--   Services.Provider, Services.Saga, Services.Batch, Services.Auction, Services.Fanout,
--   Services.Pipeline, Services.Booking, Services.Order and Services.Reminder are the files of
--   these names: the types with their kinds, each handler, and RegisterHandlers. Their children
--   prove what a service promises; Saga.Trips, Batch.Chunks, Auction.Winner, Fanout.Collect and
--   Booking.Charges have a routine's life as a function of, or a relation over, what happens to
--   it, and Order.Life and Batch.Life follow a routine through the in-memory runtime,
--   Batch.Workflow through the Temporal workflow. Services.Encoding: what encoding/json does with
--   a type is an argument. Services.Registered: a registry that serves what handlers wait for.
-- - Examples: a small routine, and the theorems at it.
--
-- Bounds and loops: an instance's send channel holds 1024 messages; a send on a full channel
-- waits, which the model tells by `none`. The loop of `waitForCase` and the runs of both backends
-- consume a list of events or a derivation of steps, of any length, so no fuel is chosen. The
-- chunks of a batch run on fuel, one for each full hundred items and one more, which is proved to
-- be enough. `time.Duration` and instants are integers without a bound; int32(n) wraps as in Go.
--
-- Parameters: the Temporal SDK (what activities return, which selector branch is taken, the
-- length of the history, errors of query handlers), the encoding of user types, clocks, the
-- random bytes of newUUID, and float64 where the auction and the order use it (a type with its
-- zero, `<=` and format). A value that `SendAsync` puts on the unbuffered `callNotifyCh` is taken
-- only by a selector that waits, or lost.
--
-- Not modelled: log output, contexts and their cancellation, the SDK's worker, the test
-- environments, and the programs of docs/howto.
pub mod Base
pub mod Durable
pub mod Examples
pub mod InMemory
pub mod Services
pub mod Temporal
