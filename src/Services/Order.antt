-- ===== src/Services/Order.antt =====
-- docs/howto/order/order.go: an order that is placed, and cancelled or shipped. A handler's printing
-- is left out. The total of an order, a float64, is of a type that is a parameter.
pub mod Life
use durableroutine_go.Base.{ℕ, ◌*◌, String, Option, none, some, List, [], ◌∷◌, if◌then◌else◌}
use durableroutine_go.Base.Int.{ℤ, pos, is_positive}
use durableroutine_go.Base.Result.{Result, ok, ◌>>=◌}
use durableroutine_go.Durable.Payload.{Payload}
use durableroutine_go.Durable.Continuation.{Continuation, done_with, after, receive_send, select}
use durableroutine_go.Durable.Context.{Context, set_query_result}
use durableroutine_go.Durable.Worker.{Worker, default_options}
use durableroutine_go.Durable.Registration.{register_handler, register_send_handler}
use durableroutine_go.Services.Encoding.{Encoding, of_kind}

pub data OrderInput : Type 0 where
  order_input : OrderInput

pub record PlaceOrderReq (F : Type 0) : Type 0 where
  pub order_id : String
  pub items : List String
  pub payment_method : String
  pub total : F

pub record CancelOrderReq : Type 0 where
  pub reason : String

pub record StatusResp : Type 0 where
  pub status : String
  pub order_id : String

pub record OrderResult : Type 0 where
  pub status : String
  pub order_id : String

pub data PendingInput : Type 0 where
  pending_input : PendingInput

pub record PlacedInput : Type 0 where
  pub order_id : String
  pub items : List String

-- `DurableKind` of each type; that of `PlaceOrderReq` takes the zero of its total
instance abbrev pub order_input_payload : ⦃e : Encoding OrderInput⦄ → Payload OrderInput
order_input_payload = of_kind "order" order_input

abbrev pub place_order_payload :
    {F : Type 0} → F → ⦃e : Encoding (PlaceOrderReq F)⦄ → Payload (PlaceOrderReq F)
place_order_payload nought =
    of_kind "place" (record { order_id = ""; items = []; payment_method = ""; total = nought })

instance abbrev pub cancel_order_payload : ⦃e : Encoding CancelOrderReq⦄ → Payload CancelOrderReq
cancel_order_payload = of_kind "cancel" (record { reason = "" })

instance abbrev pub status_resp_payload : ⦃e : Encoding StatusResp⦄ → Payload StatusResp
status_resp_payload = of_kind "get-order-status" (record { status = ""; order_id = "" })

instance abbrev pub order_result_payload : ⦃e : Encoding OrderResult⦄ → Payload OrderResult
order_result_payload = of_kind "order-result" (record { status = ""; order_id = "" })

instance abbrev pub pending_payload : ⦃e : Encoding PendingInput⦄ → Payload PendingInput
pending_payload = of_kind "order.pending" pending_input

instance abbrev pub placed_payload : ⦃e : Encoding PlacedInput⦄ → Payload PlacedInput
placed_payload = of_kind "order.placed" (record { order_id = ""; items = [] })

-- `OrderService`; timeouts in nanoseconds
pub record OrderService : Type 0 where
  pub expire_timeout : ℤ
  pub ship_timeout : ℤ

abbrev minutes : ℕ → ℤ
minutes n = pos (n * 60_000_000_000)

-- the timeout in `CreateOrder`, and that in `PlaceOrder`
unfoldable pub expire_time : OrderService → ℤ
expire_time s = if is_positive s.expire_timeout then s.expire_timeout else minutes 30

unfoldable pub ship_time : OrderService → ℤ
ship_time s = if is_positive s.ship_timeout then s.ship_timeout else minutes 1440

module _ ⦃order_result : Encoding OrderResult⦄ where
  -- `CancelOrder`
  unfoldable pub cancel_order :
      Context
      → PlacedInput
      → CancelOrderReq
      → Context × Option (Continuation OrderResult) × Option String
  cancel_order ctx input external_input =
      (ctx, some (done_with (record { status = "cancelled"; order_id = input.order_id })), none)

  -- `ShipOrder`
  unfoldable pub ship_order :
      Context → PlacedInput → Context × Option (Continuation OrderResult) × Option String
  ship_order ctx input =
      (ctx, some (done_with (record { status = "shipped"; order_id = input.order_id })), none)

  -- `ExpireOrder`
  unfoldable pub expire_order :
      Context → PendingInput → Context × Option (Continuation OrderResult) × Option String
  expire_order ctx input =
      (ctx, some (done_with (record { status = "timed_out"; order_id = "" })), none)

module _ (F : Type 0) ⦃place : Payload (PlaceOrderReq F)⦄ ⦃order : Encoding OrderInput⦄
    ⦃cancel : Encoding CancelOrderReq⦄ ⦃status_resp : Encoding StatusResp⦄
    ⦃order_result : Encoding OrderResult⦄ ⦃pending : Encoding PendingInput⦄
    ⦃placed : Encoding PlacedInput⦄ where
  -- `CreateOrder`
  unfoldable pub create_order :
      OrderService
      → Context
      → OrderInput
      → Context × Option (Continuation OrderResult) × Option String
  unfolding expire_time
  create_order s ctx input = (
    set_query_result {R = StatusResp} ctx (record { status = "pending"; order_id = "" }),
    some (
        select (
          receive_send (PlaceOrderReq F) pending_input ∷ after (expire_time s) pending_input ∷ [])),
    none,
  )

  -- `PlaceOrder`
  unfoldable pub place_order :
      OrderService
      → Context
      → PendingInput
      → PlaceOrderReq F
      → Context × Option (Continuation OrderResult) × Option String
  unfolding ship_time
  place_order s ctx input external_input =
      let next : PlacedInput = record {
        order_id = external_input.order_id;
        items = external_input.items;
      } in
      (
        set_query_result {R = StatusResp} ctx
            (record { status = "placed"; order_id = external_input.order_id }),
        some (select (receive_send CancelOrderReq next ∷ after (ship_time s) next ∷ [])),
        none,
      )

  -- `RegisterHandlers`; a panic of a registration is an error
  unfoldable pub register_handlers : Worker → OrderService → Result Worker
  register_handlers w s = do
    (w₁, _) ← register_handler w (create_order s) default_options
    (w₂, _) ← register_send_handler w₁ (place_order s) default_options
    (w₃, _) ← register_send_handler w₂ cancel_order default_options
    (w₄, _) ← register_handler w₃ ship_order default_options
    (w₅, _) ← register_handler w₄ expire_order default_options
    ok w₅
