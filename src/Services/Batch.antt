-- ===== src/Services/Batch.antt =====
-- docs/howto/batch/batch.go: a batch that is processed in chunks, and can be cancelled between two
-- chunks. A handler's printing is left out. Counts and offsets are natural numbers: they start at 0
-- and only grow, up to the number of items.
pub mod Chunks
pub mod Life
pub mod Workflow
use durableroutine_go.Base.{
  ℕ, zero, suc, ◌+◌, ◌-◌, String, Bool, true, false, ◌||◌, Option, none, some, List, [], ◌∷◌,
  length, take, drop, ltb, leb, if◌then◌else◌,
}
use durableroutine_go.Base.Result.{Result, ok, err, ◌>>=◌}
use durableroutine_go.Durable.Payload.{Payload}
use durableroutine_go.Durable.Continuation.{Continuation, done_with, default, receive_send, select}
use durableroutine_go.Durable.Context.{Context}
use durableroutine_go.Durable.Worker.{Worker, default_options}
use durableroutine_go.Durable.Registration.{register_handler, register_send_handler}
use durableroutine_go.Services.Encoding.{Encoding, of_kind}

abbrev pub chunk_size : ℕ
chunk_size = 100

pub record BatchInput : Type 0 where
  pub items : List String

pub record CancelMsg : Type 0 where
  pub reason : String

pub record BatchResult : Type 0 where
  pub processed : ℕ
  pub errors : ℕ
  pub cancelled : Bool

pub record ProcessingInput : Type 0 where
  pub items : List String
  pub offset : ℕ
  pub processed : ℕ
  pub errors : ℕ

-- `DurableKind` of each type
instance abbrev pub batch_input_payload : ⦃e : Encoding BatchInput⦄ → Payload BatchInput
batch_input_payload = of_kind "batch" (record { items = [] })

instance abbrev pub cancel_msg_payload : ⦃e : Encoding CancelMsg⦄ → Payload CancelMsg
cancel_msg_payload = of_kind "cancel" (record { reason = "" })

instance abbrev pub batch_result_payload : ⦃e : Encoding BatchResult⦄ → Payload BatchResult
batch_result_payload =
    of_kind "batch-result" (record { processed = 0; errors = 0; cancelled = false })

instance abbrev pub processing_payload : ⦃e : Encoding ProcessingInput⦄ → Payload ProcessingInput
processing_payload =
    of_kind "batch.processing" (record { items = []; offset = 0; processed = 0; errors = 0 })

-- xs[low:high]; `none` is the panic
unfoldable pub slice : List String → ℕ → ℕ → Option (List String)
slice xs low high =
    if ltb high low || ltb (length xs) high then none else some (take (high - low) (drop low xs))

-- `ProcessItem`: nil. A real service does its work here, and may return an error.
unfoldable pub process_item : String → Option String
process_item item = none

-- the first state, of `StartBatch`
unfoldable pub first_input : BatchInput → ProcessingInput
first_input input = record { items = input.items; offset = 0; processed = 0; errors = 0 }

unfoldable pub completed : ProcessingInput → BatchResult
completed p = record { processed = p.processed; errors = p.errors; cancelled = false }

-- the result of `CancelBatch`
unfoldable pub cancelled_result : ProcessingInput → BatchResult
cancelled_result p = record { processed = p.processed; errors = p.errors; cancelled = true }

-- The processing of one item is a parameter, so that the service with another body of `ProcessItem`
-- is covered too.
module _ (process : String → Option String) where
  -- the loop of `processChunk`
  unfoldable pub process_items : List String → ProcessingInput → ProcessingInput
  process_items [] p = p
  process_items (item ∷ rest) p = process_items rest (elim (process item) [
    | some e ↦ record p { errors = p.errors + 1 }
    | none ↦ record p { processed = p.processed + 1 }
  ])

  -- the chunk of `processChunk`, up to `end`
  unfoldable pub advance_to : ℕ → ProcessingInput → Option ProcessingInput
  unfolding slice process_items
  advance_to end p = elim (slice p.items p.offset end) [
    | none ↦ none
    | some chunk ↦ some (record (process_items chunk p) { offset = end })
  ]

  -- `processChunk`, up to its continuation
  unfoldable pub advance : ProcessingInput → Option ProcessingInput
  unfolding advance_to
  advance p =
      let full = p.offset + chunk_size in
      advance_to (if ltb (length p.items) full then length p.items else full) p

-- the test of `processChunk` for the end of the batch
unfoldable pub is_complete : ProcessingInput → Bool
is_complete p = leb (length p.items) p.offset

module _ ⦃batch : Encoding BatchInput⦄ ⦃cancel : Encoding CancelMsg⦄
    ⦃batch_result : Encoding BatchResult⦄ ⦃processing : Encoding ProcessingInput⦄ where
  -- `processChunk` and `ProcessChunk`; a panic is an error
  unfoldable pub process_chunk :
      Context → ProcessingInput → Context × Option (Continuation BatchResult) × Option String
  unfolding advance process_item is_complete completed
  process_chunk ctx input = elim (advance process_item input) [
    | none ↦ (ctx, none, some "runtime error: slice bounds out of range")
    | some next ↦
        if is_complete next
        then (ctx, some (done_with (completed next)), none)
        else (ctx, some (select (receive_send CancelMsg next ∷ default next ∷ [])), none)
  ]

  -- `StartBatch`
  unfoldable pub start_batch :
      Context → BatchInput → Context × Option (Continuation BatchResult) × Option String
  unfolding process_chunk first_input
  start_batch ctx input = process_chunk ctx (first_input input)

  -- `CancelBatch`
  unfoldable pub cancel_batch :
      Context
      → ProcessingInput
      → CancelMsg
      → Context × Option (Continuation BatchResult) × Option String
  unfolding cancelled_result
  cancel_batch ctx input external_input = (ctx, some (done_with (cancelled_result input)), none)

  -- `RegisterHandlers`; a panic of a registration is an error
  unfoldable pub register_handlers : Worker → Result Worker
  register_handlers w = do
    (w₁, _) ← register_handler w start_batch default_options
    (w₂, _) ← register_handler w₁ process_chunk default_options
    (w₃, _) ← register_send_handler w₂ cancel_batch default_options
    ok w₃
