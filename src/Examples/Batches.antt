-- ===== src/Examples/Batches.antt =====
-- A batch of 250 items that is cancelled after its second chunk, and one of 150 items in the
-- in-memory runtime that a client cancels after its first.
use durableroutine_go.Base.{ℕ, zero, suc, ◌≡◌, refl, String, true, none, some, List, [], ◌∷◌}
use durableroutine_go.Base.Int.{pos}
use durableroutine_go.Base.Dict.{get, put}
use durableroutine_go.Base.Result.{Result, ok, err, ◌>>=◌}
use durableroutine_go.Durable.Keys.{handler_key, send_key}
use durableroutine_go.Durable.Payload.{Any, Json, Items, RoundTrips, decoded, to_any}
use durableroutine_go.Durable.Context.{new_context, start_entries}
use durableroutine_go.Durable.Continuation.{select, receive_send, default, done_with}
use durableroutine_go.Durable.Routine.{handler_runner, send_handler_runner}
use durableroutine_go.Durable.Worker.{Worker, new_worker, add_entry}
use durableroutine_go.Durable.Registration.{register_handler, register_send_handler}
use durableroutine_go.InMemory.Runtime.{Runtime, new_runtime, start}
use durableroutine_go.InMemory.Handler.{
  run_handler, run_outcome, run_entry, apply_context_effects, apply_queries, start_children,
  deliver_all,
}
use durableroutine_go.InMemory.Poll.{poll}
use durableroutine_go.InMemory.Machine.{
  Reach, here, next, runs, sends, polls, run_step, client_send, client_get, after_receive,
}
use durableroutine_go.Services.Encoding.{Encoding}
use durableroutine_go.Services.Batch.{
  BatchInput, CancelMsg, BatchResult, ProcessingInput, batch_input_payload, cancel_msg_payload,
  processing_payload, process_item, first_input, start_batch, cancel_batch, register_handlers,
}
use durableroutine_go.Services.Batch.Chunks.{run_batch, run_batch-counts}
use durableroutine_go.Services.Batch.Life.{IsEnd, batch-IsEnd}
use durableroutine_go.Examples.Strings.{strings_json, strings_of, strings_of-strings_json}
use durableroutine_go.Examples.Schedules.{from, from_result, polled}

abbrev pub many : ℕ → List String
many zero = []
many (suc n) = "item" ∷ many n

run_batch-counts_example :
    run_batch process_item 1 3 (first_input (record { items = many 250 }))
    ≡ some (record { processed = 200; errors = 0; cancelled = true })
unfolding process_item
run_batch-counts_example = run_batch-counts process_item (record { items = many 250 }) 1

abbrev batch_of : Json → Result BatchInput
batch_of (Json.array is) = strings_of is >>= λ items. ok (record { items = items })
batch_of _ = err "cannot unmarshal into BatchInput"

instance abbrev pub batch_encoding : Encoding BatchInput
batch_encoding = record {
  marshal = λ b. ok (Json.array (strings_json b.items));
  unmarshal = batch_of;
}

-- An array of the counts and the items.
abbrev processing_of : Json → Result ProcessingInput
processing_of
      (Json.array (
        Items.cons
          (Json.number (pos o))
          (Items.cons (Json.number (pos p)) (Items.cons (Json.number (pos e)) is)))) =
    strings_of is >>= λ items. ok (record { items = items; offset = o; processed = p; errors = e })
processing_of _ = err "cannot unmarshal into ProcessingInput"

instance abbrev pub processing_encoding : Encoding ProcessingInput
processing_encoding = record {
  marshal = λ p. ok (
      Json.array (
        Items.cons (Json.number (pos p.offset)) (
          Items.cons (Json.number (pos p.processed))
            (Items.cons (Json.number (pos p.errors)) (strings_json p.items)))));
  unmarshal = processing_of;
}

instance abbrev pub cancel_encoding : Encoding CancelMsg
cancel_encoding = record {
  marshal = λ c. ok (Json.string c.reason);
  unmarshal = λ _. ok (record { reason = "" });
}

instance abbrev pub result_encoding : Encoding BatchResult
result_encoding = record {
  marshal = λ r. ok (Json.number (pos r.processed));
  unmarshal = λ _. err "not read here";
}

pub batch-RoundTrips : (b : BatchInput) → RoundTrips b
batch-RoundTrips b = (_, refl, rw (strings_of-strings_json b.items) refl)

pub processing-RoundTrips : (p : ProcessingInput) → RoundTrips p
processing-RoundTrips p = (_, refl, rw (strings_of-strings_json p.items) refl)

abbrev worker_of : Result Worker → Worker
worker_of (ok w) = w
worker_of (err e) = new_worker ""

abbrev pub worker : Worker
worker = worker_of (register_handlers (new_worker "batches"))

abbrev pub input : BatchInput
input = record { items = many 150 }

abbrev started : Runtime
started =
    from_result (new_runtime worker)
      (start (new_runtime worker) "b1" "batch" "batch-result" (to_any input))

abbrev chunk_done : Runtime
chunk_done =
    from started
      (run_step started "b1" "handler:batch:batch-result" (to_any input) none none (pos 0))

abbrev cancel : Any
cancel = to_any {A = CancelMsg} (record { reason = "late" })

abbrev sent : Runtime
sent = elim (client_send chunk_done "b1" "batch.processing" "cancel" "batch-result" cancel) [
  | some r ↦ from_result chunk_done r
  | none ↦ chunk_done
]

abbrev received : Runtime
received = polled "b1" (pos 1) sent

abbrev middle : ProcessingInput
middle = record { items = many 150; offset = 100; processed = 100; errors = 0 }

abbrev cancelled : Runtime
cancelled = from received (
    run_step received "b1" "send:batch.processing:cancel:batch-result" (to_any middle) (some cancel)
      none (pos 1))

Reach-cancelled : Reach started cancelled
unfolding register_handlers register_handler register_send_handler add_entry new_worker get put
    handler_key send_key start new_runtime run_step run_handler run_outcome run_entry handler_runner
    start_batch first_input new_context select receive_send default apply_context_effects
    apply_queries start_children start_entries deliver_all client_send send_handler_runner
    cancel_batch done_with after_receive poll strings_of
Reach-cancelled =
    next
      (next
        (next
          (next here
            (runs "b1" "handler:batch:batch-result" (to_any input) none none (pos 0) refl refl))
          (sends "b1" "batch.processing" "cancel" "batch-result" cancel refl))
        (polls "b1" _ _ _ (pos 1) refl refl refl))
      (runs "b1" "send:batch.processing:cancel:batch-result" (to_any middle) (some cancel) none
        (pos 1) refl refl)

batch-IsEnd_example : IsEnd (many 150) (ok (some (decoded (Json.number (pos 100)))))
unfolding register_handlers register_handler register_send_handler add_entry new_worker get put
    handler_key send_key start new_runtime run_step run_handler run_outcome run_entry handler_runner
    start_batch first_input new_context select receive_send default apply_context_effects
    apply_queries start_children start_entries deliver_all client_send send_handler_runner
    cancel_batch done_with after_receive poll strings_of client_get
batch-IsEnd_example =
    batch-IsEnd (many 150) (batch-RoundTrips input) processing-RoundTrips worker "batches" "b1"
      (new_runtime worker) started cancelled (ok (some (decoded (Json.number (pos 100))))) refl here
      refl Reach-cancelled refl
