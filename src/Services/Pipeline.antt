-- ===== src/Services/Pipeline.antt =====
-- docs/howto/pipeline/pipeline.go: a producer that sends items to a consumer. A handler's printing is
-- left out.
pub mod Flow
use durableroutine_go.Base.{ℕ, suc, String, Option, none, some, List, [], ◌∷◌, ◌++◌}
use durableroutine_go.Base.Result.{Result, ok, err, ◌>>=◌}
use durableroutine_go.Durable.Payload.{Payload}
use durableroutine_go.Durable.Continuation.{
  Continuation, NoResult, no_result, done_with, receive_send, select,
}
use durableroutine_go.Durable.Context.{Context, buffer_send}
use durableroutine_go.Durable.Worker.{Worker, default_options}
use durableroutine_go.Durable.Registration.{register_handler, register_send_handler}
use durableroutine_go.Services.Encoding.{Encoding, of_kind, unit_payload}

-- The numbers of the items count from 0.
pub record Item : Type 0 where
  pub seq : ℕ
  pub item_data : String

pub data DoneMsg : Type 0 where
  done_msg : DoneMsg

pub record ProducerInput : Type 0 where
  pub items : List String
  pub consumer_routine_id : String

pub record ConsumerInput : Type 0 where
  pub name : String
  pub received : List Item

pub record ConsumerResult : Type 0 where
  pub received : List Item

-- `DurableKind` of each type
instance abbrev pub item_payload : ⦃e : Encoding Item⦄ → Payload Item
item_payload = of_kind "items" (record { seq = 0; item_data = "" })

instance abbrev pub done_msg_payload : ⦃e : Encoding DoneMsg⦄ → Payload DoneMsg
done_msg_payload = of_kind "done" done_msg

instance abbrev pub producer_payload : ⦃e : Encoding ProducerInput⦄ → Payload ProducerInput
producer_payload = of_kind "producer" (record { items = []; consumer_routine_id = "" })

instance abbrev pub consumer_payload : ⦃e : Encoding ConsumerInput⦄ → Payload ConsumerInput
consumer_payload = of_kind "consumer" (record { name = ""; received = [] })

instance abbrev pub consumer_result_payload : ⦃e : Encoding ConsumerResult⦄ → Payload ConsumerResult
consumer_result_payload = of_kind "consumer-result" (record { received = [] })

-- the items that the loop of `Produce` sends, from the index on
unfoldable pub numbered : ℕ → List String → List Item
numbered i [] = []
numbered i (d ∷ ds) = record { seq = i; item_data = d } ∷ numbered (suc i) ds

-- `ReceiveItem`: the next state; and the result of `ReceiveDone`
unfoldable pub received_item : ConsumerInput → Item → ConsumerInput
received_item input item = record input { received = input.received ++ (item ∷ []) }

unfoldable pub received_done : ConsumerInput → ConsumerResult
received_done input = record { received = input.received }

module _ ⦃item : Encoding Item⦄ ⦃done : Encoding DoneMsg⦄ ⦃producer : Encoding ProducerInput⦄
    ⦃consumer : Encoding ConsumerInput⦄ ⦃consumer_result : Encoding ConsumerResult⦄
    ⦃no_res : Encoding NoResult⦄ where
  -- the loop of `Produce`
  unfoldable pub send_items : Context → String → List Item → Context
  send_items ctx id [] = ctx
  send_items ctx id (i ∷ is) = send_items (buffer_send ConsumerInput ConsumerResult ctx id i) id is

  -- `Produce`
  unfoldable pub produce :
      Context → ProducerInput → Context × Option (Continuation NoResult) × Option String
  unfolding send_items numbered
  produce ctx input =
      let sent = send_items ctx input.consumer_routine_id (numbered 0 input.items) in
      (
        buffer_send ConsumerInput ConsumerResult sent input.consumer_routine_id done_msg,
        some (done_with no_result),
        none,
      )

  -- what `StartConsumer` and `ReceiveItem` return
  unfoldable pub consumer_select : ConsumerInput → Continuation ConsumerResult
  consumer_select input = select (receive_send Item input ∷ receive_send DoneMsg input ∷ [])

  -- `StartConsumer`
  unfoldable pub start_consumer :
      Context → ConsumerInput → Context × Option (Continuation ConsumerResult) × Option String
  unfolding consumer_select
  start_consumer ctx input = (ctx, some (consumer_select input), none)

  -- `ReceiveItem`
  unfoldable pub receive_item :
      Context
      → ConsumerInput
      → Item
      → Context × Option (Continuation ConsumerResult) × Option String
  unfolding received_item consumer_select
  receive_item ctx input external_input =
      (ctx, some (consumer_select (received_item input external_input)), none)

  -- `ReceiveDone`
  unfoldable pub receive_done :
      Context
      → ConsumerInput
      → DoneMsg
      → Context × Option (Continuation ConsumerResult) × Option String
  unfolding received_done
  receive_done ctx input msg = (ctx, some (done_with (received_done input)), none)

  -- `RegisterHandlers`; a panic of a registration is an error
  unfoldable pub register_handlers : Worker → Result Worker
  register_handlers w = do
    (w₁, _) ← register_handler w produce default_options
    (w₂, _) ← register_handler w₁ start_consumer default_options
    (w₃, _) ← register_send_handler w₂ receive_item default_options
    (w₄, _) ← register_send_handler w₃ receive_done default_options
    ok w₄
