-- ===== src/Services/Pipeline/Flow.antt =====
-- docs/howto/pipeline/pipeline.go on the in-memory runtime: what the consumer makes of what the
-- producer has buffered for it.
use durableroutine_go.Base.{
  true, false, ◌≡◌, refl, sym, ap, ◌∙◌, String, ◌==◌, Option, none, some, List, [], ◌∷◌, ◌++◌,
  append-nil, append_assoc, map, get_elem?, if◌then◌else◌, eq_refl,
}
use durableroutine_go.Base.Dict.{Dict, get, put}
use durableroutine_go.Base.Result.{Result, ok, err}
use durableroutine_go.Durable.Keys.{handler_key, send_key}
use durableroutine_go.Durable.Payload.{Json, Payload, to_any, RoundTrips}
use durableroutine_go.Durable.Continuation.{
  Case, NoResult, done_with, receive_send, select, select_cases,
}
use durableroutine_go.Durable.Context.{Context, SendRequest, new_context, buffer_send}
use durableroutine_go.Durable.Worker.{
  HandlerEntry, RunOutput, Worker, new_worker, default_options, add_entry,
}
use durableroutine_go.Durable.Routine.{
  SendHandler, send_handler_runner, decode, unmarshal_raw, finish, build_run_output,
}
use durableroutine_go.Durable.Registration.{register_handler, register_send_handler}
use durableroutine_go.InMemory.Runtime.{SendMsg}
use durableroutine_go.InMemory.Wait.{first_case, takes_send}
use durableroutine_go.InMemory.Handler.{settle, run_outcome, marshal_msg}
use durableroutine_go.InMemory.Handler.Effects.{message_of, addressed}
use durableroutine_go.InMemory.Handler.Routing.{run_entry-plain}
use durableroutine_go.InMemory.Handler.Recovery.{run_outcome-get}
use durableroutine_go.Services.Encoding.{Encoding, unit_payload}
use durableroutine_go.Services.Pipeline.{
  Item, DoneMsg, done_msg, ProducerInput, ConsumerInput, ConsumerResult, item_payload,
  done_msg_payload, producer_payload, consumer_payload, consumer_result_payload, numbered,
  received_item, received_done, send_items, produce, consumer_select, receive_item, receive_done,
  register_handlers,
}

-- After a handler's run: the routine fails, ends, or goes on with the cases that it waits for.
unfoldable pub goes_on :
    (List Case → Option (Result (Option Json)))
    → Result (Context × RunOutput)
    → Option (Result (Option Json))
goes_on next (err e) = some (err e)
goes_on next (ok (ctx, out)) = if out.done then some (ok out.result) else next out.cases

-- A routine that takes the messages of its channel one by one, each by the first case for its key,
-- whose handler runs. `none` means that it still waits, or that no case takes a message.
unfoldable pub consume :
    Dict HandlerEntry → String → List Case → List SendMsg → Option (Result (Option Json))
unfolding goes_on
consume handlers id cases [] = none
consume handlers id cases (m ∷ ms) = elim (first_case (takes_send m.key) 0 cases) [
  | none ↦ none
  | some i ↦ elim (get_elem? cases i) [
    | none ↦ none
    | some c ↦
        goes_on (λ next. consume handlers id next ms)
          (run_outcome handlers id c.handler_key c.input (some m.msg))
  ]
]

-- The registry of a worker, empty where registration has panicked.
abbrev pub handlers_of : Result Worker → Dict HandlerEntry
handlers_of (ok w) = w.handlers
handlers_of (err e) = []

module _ {I E T : Type 0} ⦃i : Payload I⦄ ⦃e : Payload E⦄ ⦃t : Payload T⦄ where
  -- A send handler under its key runs on the decoded input and message.
  send_entry-run_outcome :
      (handlers : Dict HandlerEntry) (key id : String) (h : SendHandler I E T) (input : I)
      (external_input : E)
      → get key handlers
        ≡ some (record { options = default_options; runner = send_handler_runner key h })
      → RoundTrips input
      → RoundTrips external_input
      → run_outcome handlers id key (to_any input) (some (to_any external_input))
        ≡ settle (finish key (h (new_context id) input external_input))
  unfolding send_handler_runner decode unmarshal_raw marshal_msg
  send_entry-run_outcome handlers key id h input external_input g (j, m, u) (b, n, v) =
      run_outcome-get handlers id key _ (to_any input) (some (to_any external_input)) j (some b) g m
        (rw n refl)
      ∙ run_entry-plain handlers id _ j (some b) refl
      ∙ rw (u, v) refl

module _ ⦃item : Encoding Item⦄ ⦃done : Encoding DoneMsg⦄ ⦃producer : Encoding ProducerInput⦄
    ⦃consumer : Encoding ConsumerInput⦄ ⦃consumer_result : Encoding ConsumerResult⦄
    ⦃no_res : Encoding NoResult⦄ where
  -- The messages as the producer's context names them.
  abbrev item_message : Item → SendMsg
  item_message i = record { key = "send:consumer:items:consumer-result"; msg = to_any i }

  abbrev done_message : SendMsg
  done_message = record { key = "send:consumer:done:consumer-result"; msg = to_any done_msg }

  addressed-append :
      (id : String) (ss ts : List SendRequest)
      → addressed id (ss ++ ts) ≡ addressed id ss ++ addressed id ts
  addressed-append id [] ts = refl
  addressed-append id (s ∷ ss) ts =
      ap (λ ms. (if s.routine_id == id then message_of s ∷ [] else []) ++ ms)
        (addressed-append id ss ts)
      ∙ sym (append_assoc _ (addressed id ss) (addressed id ts))

  -- What one more buffered message adds.
  sent : Context → String → Item → Context
  sent ctx id i = buffer_send ConsumerInput ConsumerResult ctx id i

  sent-addressed :
      (ctx : Context) (id : String) (i : Item)
      → addressed id (sent ctx id i).send_requests
        ≡ addressed id ctx.send_requests ++ (item_message i ∷ [])
  unfolding sent buffer_send send_key
  sent-addressed ctx id i =
      addressed-append id ctx.send_requests _
      ∙ ap (λ ms. addressed id ctx.send_requests ++ ms) (rw (eq_refl id) refl)

  done-addressed :
      (ctx : Context) (id : String)
      → addressed id (buffer_send ConsumerInput ConsumerResult ctx id done_msg).send_requests
        ≡ addressed id ctx.send_requests ++ (done_message ∷ [])
  unfolding buffer_send send_key
  done-addressed ctx id =
      addressed-append id ctx.send_requests _
      ∙ ap (λ ms. addressed id ctx.send_requests ++ ms) (rw (eq_refl id) refl)

  send_items-addressed :
      (is : List Item) (ctx : Context) (id : String)
      → addressed id (send_items ctx id is).send_requests
        ≡ addressed id ctx.send_requests ++ map item_message is
  unfolding send_items sent
  send_items-addressed [] ctx id = sym (append-nil _)
  send_items-addressed (i ∷ is) ctx id =
      send_items-addressed is (sent ctx id i) id
      ∙ ap (λ ms. ms ++ map item_message is) (sent-addressed ctx id i)
      ∙ append_assoc _ (item_message i ∷ []) (map item_message is)

  -- All that a producer buffers for its consumer.
  produce-addressed :
      (id : String) (input : ProducerInput)
      → addressed input.consumer_routine_id (produce (new_context id) input).0.send_requests
        ≡ map item_message (numbered 0 input.items) ++ (done_message ∷ [])
  unfolding produce new_context
  produce-addressed id input =
      let to = input.consumer_routine_id in
      done-addressed (send_items (new_context id) to (numbered 0 input.items)) to
      ∙ ap (λ ms. ms ++ (done_message ∷ []))
          (send_items-addressed (numbered 0 input.items) (new_context id) to)

  abbrev registry : Dict HandlerEntry
  registry = handlers_of (register_handlers (new_worker "pipeline"))

  -- What the handlers' runs are.
  settle-receive_item :
      (key : String) (ctx : Context) (s : ConsumerInput) (i : Item)
      → settle (finish key (receive_item ctx s i))
        ≡ ok (
          ctx,
          record {
            done = false;
            result = none;
            cases = (consumer_select (received_item s i)).cases;
            call_response = none;
          },
        )
  unfolding settle finish receive_item consumer_select select
  settle-receive_item key ctx s i = refl

  settle-receive_done :
      (key : String) (ctx : Context) (s : ConsumerInput) (j : Json)
      → consumer_result.marshal (received_done s) ≡ ok j
      → settle (finish key (receive_done ctx s done_msg))
        ≡ ok (ctx, record { done = true; result = some j; cases = []; call_response = none })
  unfolding settle finish receive_done done_with
  settle-receive_done key ctx s j m = rw (m, build_run_output) refl

  get-items :
      get "send:consumer:items:consumer-result" registry
      ≡ some (record {
        options = default_options;
        runner = send_handler_runner "send:consumer:items:consumer-result" receive_item;
      })
  unfolding register_handlers register_handler register_send_handler add_entry new_worker get put
      handler_key send_key
  get-items = refl

  get-done :
      get "send:consumer:done:consumer-result" registry
      ≡ some (record {
        options = default_options;
        runner = send_handler_runner "send:consumer:done:consumer-result" receive_done;
      })
  unfolding register_handlers register_handler register_send_handler add_entry new_worker get put
      handler_key send_key
  get-done = refl

  -- One message that the consumer takes.
  consume-item :
      (id : String) (s : ConsumerInput) (i : Item) (ms : List SendMsg)
      → RoundTrips s
      → RoundTrips i
      → consume registry id (consumer_select s).cases (item_message i ∷ ms)
        ≡ consume registry id (consumer_select (received_item s i)).cases ms
  unfolding consume consumer_select select select_cases receive_send send_key first_case
  consume-item id s i ms rs ri =
      rw
        (
          send_entry-run_outcome registry "send:consumer:items:consumer-result" id receive_item s i
              get-items rs ri,
          settle-receive_item "send:consumer:items:consumer-result" (new_context id) s i,
          goes_on,
        )
        refl

  consume-done :
      (id : String) (s : ConsumerInput) (j : Json)
      → RoundTrips s
      → RoundTrips done_msg
      → consumer_result.marshal (received_done s) ≡ ok j
      → consume registry id (consumer_select s).cases (done_message ∷ []) ≡ some (ok (some j))
  unfolding consume consumer_select select select_cases receive_send send_key first_case
  consume-done id s j rs rd m =
      rw
        (
          send_entry-run_outcome registry "send:consumer:done:consumer-result" id receive_done s
              done_msg get-done rs rd,
          settle-receive_done "send:consumer:done:consumer-result" (new_context id) s j m,
          goes_on,
        )
        refl

  consume-items :
      (id : String) (is : List Item) (s : ConsumerInput) (j : Json)
      → ((s : ConsumerInput) → RoundTrips s)
      → ((i : Item) → RoundTrips i)
      → RoundTrips done_msg
      → consumer_result.marshal (record { received = s.received ++ is }) ≡ ok j
      → consume registry id (consumer_select s).cases (map item_message is ++ (done_message ∷ []))
        ≡ some (ok (some j))
  unfolding received_done received_item
  consume-items id [] s j rs ri rd m =
      consume-done id s j (rs s) rd (rw (append-nil s.received) at m)
  consume-items id (i ∷ is) s j rs ri rd m =
      consume-item id s i (map item_message is ++ (done_message ∷ [])) (rs s) (ri i)
      ∙ consume-items id is (received_item s i) j rs ri rd
          (rw (append_assoc s.received (i ∷ []) is) m)

  -- On a worker with the handlers of the pipeline, a consumer whose channel holds exactly what a
  -- producer has buffered for it ends with the encoding of a result that holds what it had received
  -- before and then all the producer's items, in order and numbered from 0. The states, the items,
  -- the end message and the result survive their encoding.
  pub produce-consume :
      (producer_id : String) (input : ProducerInput) (s : ConsumerInput) (j : Json)
      → ((s : ConsumerInput) → RoundTrips s)
      → ((i : Item) → RoundTrips i)
      → RoundTrips done_msg
      → consumer_result.marshal (record { received = s.received ++ numbered 0 input.items }) ≡ ok j
      → consume
          (handlers_of (register_handlers (new_worker "pipeline")))
          input.consumer_routine_id
          (consumer_select s).cases
          (addressed input.consumer_routine_id
            (produce (new_context producer_id) input).0.send_requests)
        ≡ some (ok (some j))
  produce-consume producer_id input s j rs ri rd m =
      ap (λ ms. consume registry input.consumer_routine_id (consumer_select s).cases ms)
        (produce-addressed producer_id input)
      ∙ consume-items input.consumer_routine_id (numbered 0 input.items) s j rs ri rd m
