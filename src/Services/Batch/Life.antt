-- ===== src/Services/Batch/Life.antt =====
-- docs/howto/batch/batch.go: a batch in the in-memory runtime, from its start to its end.
use native.Mathlib.Decide.{dec_lt}
use durableroutine_go.Base.{
  ℕ, suc, ◌+◌, ◌≤◌, ◌<◌, ◌≡◌, refl, sym, ap, subst, ◌⊎◌, inl, inr, String, true, false, Option,
  none, some, List, [], ◌∷◌, length, take, length-take, leb, arith,
}
use durableroutine_go.Base.Dict.{Dict, get, put}
use durableroutine_go.Base.Result.{Result, ok, err, ok-injective}
use durableroutine_go.Durable.Keys.{handler_key, send_key}
use durableroutine_go.Durable.Payload.{Any, Json, RoundTrips, decoded, to_any}
use durableroutine_go.Durable.Context.{Context, new_context}
use durableroutine_go.Durable.Continuation.{default, receive_send, select, select_cases, done_with}
use durableroutine_go.Durable.Worker.{
  HandlerEntry, HandlerRunner, Worker, default_options, new_worker, add_entry,
}
use durableroutine_go.Durable.Routine.{handler_runner, send_handler_runner}
use durableroutine_go.Durable.Registration.{register_handler, register_send_handler}
use durableroutine_go.InMemory.Runtime.{Runtime, new_runtime, start}
use durableroutine_go.InMemory.Handler.{run_outcome}
use durableroutine_go.InMemory.Machine.{Reach, client_get}
use durableroutine_go.InMemory.Machine.Protocol.{Protocol, GoesOn}
use durableroutine_go.InMemory.Machine.Protocol.Ends.{protocol-client_get}
use durableroutine_go.InMemory.Machine.Protocol.Typed.{
  MayFail, Encodes, Encodes-unique, Returns, Continues, handler-GoesOn, send_handler-GoesOn,
}
use durableroutine_go.Services.Encoding.{Encoding}
use durableroutine_go.Services.Batch.{
  BatchInput, CancelMsg, BatchResult, ProcessingInput, batch_input_payload, cancel_msg_payload,
  batch_result_payload, processing_payload, process_item, first_input, completed, cancelled_result,
  is_complete, process_chunk, start_batch, cancel_batch, register_handlers,
}
use durableroutine_go.Services.Batch.Chunks.{succeeded, failed, after, advance-full, advance-last}

-- The state of a batch with `n` of the items done.
abbrev pub at : ℕ → List String → ProcessingInput
at n items = record { items = items; offset = n; processed = n; errors = 0 }

succeeded-length : (xs : List String) → succeeded process_item xs ≡ length xs
unfolding process_item
succeeded-length [] = refl
succeeded-length (x ∷ xs) = ap suc (succeeded-length xs)

failed-none : (xs : List String) → failed process_item xs ≡ 0
unfolding process_item
failed-none [] = refl
failed-none (x ∷ xs) = failed-none xs

after-at :
    (n : ℕ) (items : List String) → n ≤ length items → after process_item n items ≡ at n items
after-at n items h =
    rw (succeeded-length (take n items), failed-none (take n items), length-take n items h) refl

module _ ⦃batch : Encoding BatchInput⦄ ⦃cancel : Encoding CancelMsg⦄
    ⦃batch_result : Encoding BatchResult⦄ ⦃processing : Encoding ProcessingInput⦄
    (items : List String) where
  -- The handler that may run next.
  data Stage (input : Any) : String → Type 0 where
    starts :
        input ≡ to_any {A = BatchInput} (record { items = items })
        → Stage input "handler:batch:batch-result"
    goes_on :
        (n : ℕ)
        → n ≤ length items
        → input ≡ to_any (at n items)
        → Stage input "handler:batch.processing:batch-result"
    cancels :
        (n : ℕ)
        → n < length items
        → input ≡ to_any (at n items)
        → Stage input "send:batch.processing:cancel:batch-result"

  -- All items are done, or the batch was cancelled before.
  abbrev pub Counts : BatchResult → Type 0
  Counts r =
      (r ≡ record { processed = length items; errors = 0; cancelled = false })
      ⊎ ((n : ℕ) × (n < length items)
          × (r ≡ record { processed = n; errors = 0; cancelled = true }))

  pub data IsEnd : Result (Option Any) → Type 0 where
    fails : (e : String) → IsEnd (err e)
    ends :
        (r : BatchResult) (j : Json)
        → batch_result.marshal r ≡ ok j
        → Counts r
        → IsEnd (ok (some (decoded j)))

  abbrev life : Protocol
  life = record { Enters = λ m key input. Stage input key; Ends = λ m x. IsEnd x }

  life-MayFail : MayFail life
  life-MayFail = record { may_fail = λ m e. fails e }

  -- One chunk, when items are left behind it and when not.
  pub process_chunk-more :
      (ctx : Context) (n : ℕ)
      → n + 100 < length items
      → process_chunk ctx (at n items) ≡ (
        ctx,
        some (
            select
              (receive_send CancelMsg (at (n + 100) items) ∷ default (at (n + 100) items) ∷ [])),
        none,
      )
  unfolding process_chunk is_complete
  process_chunk-more ctx n short =
      let more : leb (length items) (n + 100) ≡ false = ground arith in
      let q =
        rw (after-at n items (omega arith), after-at (n + 100) items (omega arith)) at
          (advance-full process_item items n (omega arith)) in
      rw (q, process_chunk, more) refl

  pub process_chunk-last :
      (ctx : Context) (n : ℕ)
      → n ≤ length items
      → length items ≤ n + 100
      → process_chunk ctx (at n items) ≡ (
        ctx,
        some (done_with (record { processed = length items; errors = 0; cancelled = false })),
        none,
      )
  unfolding process_chunk is_complete completed
  process_chunk-last ctx n h late =
      let whole : leb (length items) (length items) ≡ true = ground arith in
      let q =
        rw (after-at n items h, after-at (length items) items (omega arith)) at
          (advance-last process_item items n h late) in
      rw (q, process_chunk, whole) refl

  module _ (m : Dict Any) (id : String) where
    done_with-Continues :
        (r : BatchResult) → Counts r → Continues life m (new_context id) (done_with r)
    unfolding done_with
    done_with-Continues r c = record { ends = λ _ j e. ends r j e c; enters = λ e. cc }

    process_chunk-Returns :
        (n : ℕ) → n ≤ length items → Returns life m (process_chunk (new_context id) (at n items))
    unfolding select select_cases receive_send default send_key handler_key
    process_chunk-Returns n h = elim (dec_lt (n + 100) (length items)) [
      | yes short ↦ rw (process_chunk-more (new_context id) n short) (record {
        ends = λ e. cc;
        enters = λ _. (cancels (n + 100) short refl, (goes_on (n + 100) (omega arith) refl, tt));
      })
      | no late ↦
          rw (process_chunk-last (new_context id) n h (omega arith))
            (done_with-Continues _ (inl refl))
    ]

    cancel_batch-Returns :
        (n : ℕ) (y : CancelMsg)
        → n < length items
        → Returns life m (cancel_batch (new_context id) (at n items) y)
    unfolding cancel_batch cancelled_result
    cancel_batch-Returns n y h = done_with-Continues _ (inr (n, h, refl))

  abbrev pub entry : HandlerRunner → HandlerEntry
  entry runner = record { options = default_options; runner = runner }

  pub record Registry (hs : Dict HandlerEntry) : Type 0 where
    pub first :
        get "handler:batch:batch-result" hs
        ≡ some (entry (handler_runner "handler:batch:batch-result" start_batch))
    pub chunk :
        get "handler:batch.processing:batch-result" hs
        ≡ some (entry (handler_runner "handler:batch.processing:batch-result" process_chunk))
    pub cancel_one :
        get "send:batch.processing:cancel:batch-result" hs
        ≡ some
            (entry (send_handler_runner "send:batch.processing:cancel:batch-result" cancel_batch))

  pub registered :
      (w : Worker) (task_queue : String)
      → register_handlers (new_worker task_queue) ≡ ok w
      → Registry w.handlers
  unfolding register_handlers register_handler register_send_handler add_entry new_worker get put
      handler_key send_key
  registered w task_queue h =
      subst (λ (v : Worker). Registry v.handlers) (ok-injective _ w h)
        (record { first = refl; chunk = refl; cancel_one = refl })

  -- The inputs survive their encodings.
  module _ (bt : RoundTrips {A = BatchInput} (record { items = items }))
      (pt : (q : ProcessingInput) → RoundTrips q) where
    module _ (hs : Dict HandlerEntry) (registry : Registry hs) (id : String) (m : Dict Any)
        (input : Any) (msg : Option Any) where
      -- The value that a handler is given is the one that was named.
      given :
          (n : ℕ) (x : ProcessingInput)
          → input ≡ to_any (at n items)
          → Encodes input x
          → x ≡ at n items
      given n x i e = Encodes-unique (at n items) x (pt (at n items)) (subst (λ v. Encodes v x) i e)

      stage-GoesOn :
          (key : String) → Stage input key → GoesOn life m (run_outcome hs id key input msg)
      unfolding start_batch first_input
      stage-GoesOn key (starts i) =
          handler-GoesOn life m life-MayFail hs id key _ default_options input msg registry.first
            refl
            λ x e.
              let same =
                Encodes-unique (record { items = items }) x bt (subst (λ v. Encodes v x) i e) in
              subst (λ (b : BatchInput). Returns life m (start_batch (new_context id) b)) (sym same)
                (process_chunk-Returns m id 0 (omega arith))
      stage-GoesOn key (goes_on n h i) =
          handler-GoesOn life m life-MayFail hs id key _ default_options input msg registry.chunk
            refl
            λ x e.
              subst (λ (p : ProcessingInput). Returns life m (process_chunk (new_context id) p))
                (sym (given n x i e)) (process_chunk-Returns m id n h)
      stage-GoesOn key (cancels n h i) =
          send_handler-GoesOn life m life-MayFail hs id key _ default_options input msg
            registry.cancel_one refl
            λ x y e.
              subst (λ (p : ProcessingInput). Returns life m (cancel_batch (new_context id) p y))
                (sym (given n x i e)) (cancel_batch-Returns m id n y h)

    -- In a program whose worker has the handlers of the batch service: whatever else runs, whatever
    -- messages the batch is sent and whenever they come, once `Get` returns for a batch it returns
    -- an error, or a result that counts all the items, not cancelled; or fewer than all, cancelled.
    -- The inputs of the handlers survive their encodings.
    pub batch-IsEnd :
        (w : Worker) (task_queue id : String) (r r' t : Runtime) (x : Result (Option Any))
        → register_handlers (new_worker task_queue) ≡ ok w
        → Reach (new_runtime w) r
        → start r id "batch" "batch-result" (to_any {A = BatchInput} (record { items = items }))
          ≡ ok r'
        → Reach r' t
        → client_get t id ≡ some x
        → IsEnd x
    unfolding handler_key
    batch-IsEnd w task_queue id r r' t x h before started after e =
        (protocol-client_get w id "batch" "batch-result" life _ r r' t x
          (record {
            keeps = λ m key input msg stage.
                stage-GoesOn w.handlers (registered w task_queue h) id m input msg key stage;
          })
          (starts refl) before started after e).2
