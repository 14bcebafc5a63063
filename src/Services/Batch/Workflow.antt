-- ===== src/Services/Batch/Workflow.antt =====
-- docs/howto/batch/batch.go: a batch as a Temporal workflow, over all the runs that continue it.
use native.Mathlib.Decide.{dec_lt}
use durableroutine_go.Base.{
  ℕ, ◌+◌, ◌≤◌, ◌<◌, ◌≡◌, refl, sym, ap, ◌∙◌, subst, inl, inr, String, Option, some, List, [],
  length, arith,
}
use durableroutine_go.Base.Int.{ℤ}
use durableroutine_go.Base.Dict.{Dict}
use durableroutine_go.Base.Result.{ok, ok-injective}
use durableroutine_go.Durable.Keys.{handler_key, send_key}
use durableroutine_go.Durable.Payload.{Json, Payload, RoundTrips}
use durableroutine_go.Durable.Context.{Context, new_context}
use durableroutine_go.Durable.Continuation.{default, receive_send, select, select_cases, done_with}
use durableroutine_go.Durable.Worker.{HandlerEntry, Worker, default_options, new_worker}
use durableroutine_go.Durable.Routine.{unmarshal_raw}
use durableroutine_go.Temporal.Types.{WorkflowInput}
use durableroutine_go.Temporal.Workflow.{Execution, Workflow, completed}
use durableroutine_go.Temporal.Workflow.Steps.{Reach}
use durableroutine_go.Temporal.Workflow.Protocol.{Protocol}
use durableroutine_go.Temporal.Workflow.Protocol.Runs.{RunsOn, Chain, chain-Ends}
use durableroutine_go.Temporal.Workflow.Protocol.Typed.{
  Returns, Continues, KeepsAt, handler-KeepsAt, send_handler-KeepsAt, KeepsAt-Keeps,
}
use durableroutine_go.Services.Encoding.{Encoding}
use durableroutine_go.Services.Batch.{
  BatchInput, CancelMsg, BatchResult, ProcessingInput, batch_input_payload, cancel_msg_payload,
  batch_result_payload, processing_payload, first_input, cancelled_result, process_chunk,
  start_batch, cancel_batch, register_handlers,
}
use durableroutine_go.Services.Batch.Life.{
  at, Counts, Registry, registered, process_chunk-more, process_chunk-last,
}

-- What is decoded from the encoding of a value that survives it.
decoded-same :
    {I : Type 0} ⦃p : Payload I⦄ (i x : I) (j : Json)
    → RoundTrips i
    → p.marshal i ≡ ok j
    → unmarshal_raw (some j) ≡ ok x
    → x ≡ i
unfolding unmarshal_raw
decoded-same ⦃p⦄ i x j (k, m, u) e h =
    let same : j ≡ k = ok-injective j k (sym e ∙ m) in
    ok-injective x i (sym h ∙ ap p.unmarshal same ∙ u)

module _ ⦃batch : Encoding BatchInput⦄ ⦃cancel : Encoding CancelMsg⦄
    ⦃batch_result : Encoding BatchResult⦄ ⦃processing : Encoding ProcessingInput⦄
    (items : List String) where
  -- The handler that may run next, on the encoding of its input.
  data Stage : String → Option Json → Type 0 where
    starts :
        (j : Json)
        → batch.marshal (record { items = items }) ≡ ok j
        → Stage "handler:batch:batch-result" (some j)
    goes_on :
        (n : ℕ) (j : Json)
        → n ≤ length items
        → processing.marshal (at n items) ≡ ok j
        → Stage "handler:batch.processing:batch-result" (some j)
    cancels :
        (n : ℕ) (j : Json)
        → n < length items
        → processing.marshal (at n items) ≡ ok j
        → Stage "send:batch.processing:cancel:batch-result" (some j)

  -- The encoding of a result with the right counts.
  pub data IsEnd : Option Json → Type 0 where
    ends :
        (r : BatchResult) (j : Json)
        → batch_result.marshal r ≡ ok j
        → Counts items r
        → IsEnd (some j)

  abbrev life : Protocol
  life = record { Enters = Stage; Ends = IsEnd }

  done_with-Continues : (r : BatchResult) → Counts items r → Continues life (done_with r)
  unfolding done_with
  done_with-Continues r c = record { ends = λ _ j e. ends r j e c; enters = λ e. cc }

  process_chunk-Returns :
      (ctx : Context) (n : ℕ) → n ≤ length items → Returns life (process_chunk ctx (at n items))
  unfolding select select_cases receive_send default send_key handler_key
  process_chunk-Returns ctx n h = elim (dec_lt (n + 100) (length items)) [
    | yes short ↦ rw (process_chunk-more items ctx n short) (record {
      ends = λ e. cc;
      enters = λ _.
          (λ j e. cancels (n + 100) j short e, (λ j e. goes_on (n + 100) j (omega arith) e, tt));
    })
    | no late ↦
        rw (process_chunk-last items ctx n h (omega arith)) (done_with-Continues _ (inl refl))
  ]

  cancel_batch-Returns :
      (ctx : Context) (n : ℕ) (y : CancelMsg)
      → n < length items
      → Returns life (cancel_batch ctx (at n items) y)
  unfolding cancel_batch cancelled_result
  cancel_batch-Returns ctx n y h = done_with-Continues _ (inr (n, h, refl))

  -- The inputs survive their encodings.
  module _ (bt : RoundTrips {A = BatchInput} (record { items = items }))
      (pt : (q : ProcessingInput) → RoundTrips q) where
    stage-KeepsAt :
        (reg : Dict HandlerEntry) (registry : Registry items reg) (x : Execution)
        (on : RunsOn reg x) (key : String) (input : Option Json)
        → Stage key input
        → KeepsAt life reg x on key input
    unfolding start_batch first_input
    stage-KeepsAt reg registry x on key input (starts j e) =
        handler-KeepsAt life reg x on key _ default_options input registry.first refl λ v u.
          subst (λ (b : BatchInput). Returns life (start_batch (new_context x.id) b))
            (sym (decoded-same (record { items = items }) v j bt e u))
            (process_chunk-Returns (new_context x.id) 0 (omega arith))
    stage-KeepsAt reg registry x on key input (goes_on n j h e) =
        handler-KeepsAt life reg x on key _ default_options input registry.chunk refl λ v u.
          subst (λ (p : ProcessingInput). Returns life (process_chunk (new_context x.id) p))
            (sym (decoded-same (at n items) v j (pt (at n items)) e u))
            (process_chunk-Returns (new_context x.id) n h)
    stage-KeepsAt reg registry x on key input (cancels n j h e) =
        send_handler-KeepsAt life reg x on key _ default_options input registry.cancel_one refl
          λ v y u.
            subst (λ (p : ProcessingInput). Returns life (cancel_batch (new_context x.id) p y))
              (sym (decoded-same (at n items) v j (pt (at n items)) e u))
              (cancel_batch-Returns (new_context x.id) n y h)

    -- A batch that runs as a Temporal workflow on a worker with the handlers of the service, over
    -- any number of runs that continue each other as new, whatever signals come, however the SDK
    -- chooses: where the last run returns a result, it is the encoding of one that counts all the
    -- items, not cancelled; or fewer than all, cancelled. The inputs of the handlers survive their
    -- encodings, and the SDK runs each activity once.
    pub workflow-IsEnd :
        (w : Worker) (task_queue : String) (j : Json) (max_history_length : ℤ)
        (input : WorkflowInput) (x : Execution) (s : Workflow) (chs : List ℕ) (result : Option Json)
        → register_handlers (new_worker task_queue) ≡ ok w
        → batch.marshal (record { items = items }) ≡ ok j
        → Chain w.handlers
            (record {
              handler_key = handler_key "batch" "batch-result";
              input = some j;
              query_results = [];
              max_history_length = max_history_length;
            })
            input
        → RunsOn w.handlers x
        → Reach x input s chs
        → s.phase ≡ completed result
        → IsEnd result
    unfolding handler_key
    workflow-IsEnd w task_queue j max_history_length input x s chs result h e chain on r p =
        let registry = registered items w task_queue h in
        chain-Ends life w.handlers
          (λ y o. KeepsAt-Keeps life w.handlers y o (stage-KeepsAt w.handlers registry y o)) _ input
          x s chs result (starts j e) chain on r p
