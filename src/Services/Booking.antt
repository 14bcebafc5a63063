-- ===== src/Services/Booking.antt =====
-- docs/howto/booking/booking.go: a booking that is reserved, paid and shipped. A handler's printing
-- is left out, but for its slice of the card number, which can panic.
pub mod Charges
pub mod Served
use durableroutine_go.Base.{
  ℕ, ◌*◌, String, ◌<>◌, Bool, true, false, Option, none, some, List, [], ◌∷◌, ltb, if◌then◌else◌,
}
use Prim.Native.String.{len}
use durableroutine_go.Base.Int.{ℤ, pos, is_positive}
use durableroutine_go.Base.Result.{Result, ok, err, ◌>>=◌}
use durableroutine_go.Durable.Payload.{Payload}
use durableroutine_go.Durable.Continuation.{
  Continuation, done_with, select, after, receive_send, receive_call,
}
use durableroutine_go.Durable.Context.{Context, set_query_result}
use durableroutine_go.Durable.Worker.{Worker, HandlerOptions, default_options}
use durableroutine_go.Durable.Registration.{
  register_handler, register_send_handler, register_call_handler, with_send_recovery_handler,
}
use durableroutine_go.Services.Encoding.{Encoding, of_kind, attempts}

pub record BookingInput : Type 0 where
  pub user_id : String
  pub item_id : String

pub record PaymentInfo : Type 0 where
  pub card_number : String
  pub expiry : String

pub record ShippingInfo : Type 0 where
  pub address : String
  pub city : String
  pub zip : String

pub record CancelReq : Type 0 where
  pub reason : String

pub record CancelResp : Type 0 where
  pub confirmed : Bool

pub record StatusResp : Type 0 where
  pub status : String
  pub payment_id : String

pub record BookingResult : Type 0 where
  pub status : String

pub record ReservedInput : Type 0 where
  pub user_id : String
  pub item_id : String

pub record PaidInput : Type 0 where
  pub user_id : String
  pub item_id : String
  pub payment_id : String

-- `DurableKind` of each type
instance abbrev pub booking_input_payload : ⦃e : Encoding BookingInput⦄ → Payload BookingInput
booking_input_payload = of_kind "booking" (record { user_id = ""; item_id = "" })

instance abbrev pub payment_payload : ⦃e : Encoding PaymentInfo⦄ → Payload PaymentInfo
payment_payload = of_kind "payment" (record { card_number = ""; expiry = "" })

instance abbrev pub shipping_payload : ⦃e : Encoding ShippingInfo⦄ → Payload ShippingInfo
shipping_payload = of_kind "shipping" (record { address = ""; city = ""; zip = "" })

instance abbrev pub cancel_req_payload : ⦃e : Encoding CancelReq⦄ → Payload CancelReq
cancel_req_payload = of_kind "cancel" (record { reason = "" })

instance abbrev pub cancel_resp_payload : ⦃e : Encoding CancelResp⦄ → Payload CancelResp
cancel_resp_payload = of_kind "cancel-resp" (record { confirmed = false })

instance abbrev pub status_resp_payload : ⦃e : Encoding StatusResp⦄ → Payload StatusResp
status_resp_payload = of_kind "get-status" (record { status = ""; payment_id = "" })

instance abbrev pub booking_result_payload : ⦃e : Encoding BookingResult⦄ → Payload BookingResult
booking_result_payload = of_kind "booking-result" (record { status = "" })

instance abbrev pub reserved_payload : ⦃e : Encoding ReservedInput⦄ → Payload ReservedInput
reserved_payload = of_kind "booking.reserved" (record { user_id = ""; item_id = "" })

instance abbrev pub paid_payload : ⦃e : Encoding PaidInput⦄ → Payload PaidInput
paid_payload = of_kind "booking.paid" (record { user_id = ""; item_id = ""; payment_id = "" })

-- `BookingService`; timeouts in nanoseconds. The charge returns an error's text, or `none` for nil.
pub record BookingService : Type 0 where
  pub reservation_timeout : ℤ
  pub shipping_timeout : ℤ
  pub charge_card_fn : Option (String → Option String)

abbrev minutes : ℕ → ℤ
minutes n = pos (n * 60_000_000_000)

-- the timeout in `ReserveItem`, and that in `ProcessPayment`
unfoldable pub reservation_time : BookingService → ℤ
reservation_time s = if is_positive s.reservation_timeout then s.reservation_timeout else minutes 15

unfoldable pub shipping_time : BookingService → ℤ
shipping_time s = if is_positive s.shipping_timeout then s.shipping_timeout else minutes 1440

unfoldable pub reserved : BookingInput → ReservedInput
reserved input = record { user_id = input.user_id; item_id = input.item_id }

unfoldable pub paid : ReservedInput → PaidInput
paid input = record { user_id = input.user_id; item_id = input.item_id; payment_id = "PAY-123" }

-- the charge in `ProcessPayment`; with no function the card is charged by printing so
unfoldable pub charge_card : BookingService → String → Option String
charge_card s card = elim s.charge_card_fn [ none ↦ none | some f ↦ f card ]

abbrev pub out_of_bounds : String
out_of_bounds = "runtime error: slice bounds out of range"

-- `ProcessPayment` up to its continuation: how often the card was charged, and the next state or
-- the error. A panic is an error.
unfoldable pub pay : BookingService → ReservedInput → PaymentInfo → ℕ × Result PaidInput
unfolding charge_card paid
pay s input info = elim (charge_card s info.card_number) [
  | some e ↦ (0, err ("charge card: " <> e))
  | none ↦ (1, (if ltb (len info.card_number) 4 then err out_of_bounds else ok (paid input)))
]

-- the results of the handlers that end a booking
abbrev pub unpaid : BookingResult
unpaid = record { status = "payment_failed" }

abbrev pub shipped : BookingResult
shipped = record { status = "shipped" }

abbrev pub cancelled : BookingResult
cancelled = record { status = "cancelled" }

abbrev pub expired : BookingResult
expired = record { status = "expired" }

abbrev pub refunded : BookingResult
refunded = record { status = "refunded" }

module _ ⦃booking : Encoding BookingInput⦄ ⦃payment : Encoding PaymentInfo⦄
    ⦃shipping : Encoding ShippingInfo⦄ ⦃cancel_req : Encoding CancelReq⦄
    ⦃cancel_resp : Encoding CancelResp⦄ ⦃status_resp : Encoding StatusResp⦄
    ⦃booking_result : Encoding BookingResult⦄ ⦃reserved_input : Encoding ReservedInput⦄
    ⦃paid_input : Encoding PaidInput⦄ where
  -- `ReserveItem`
  unfoldable pub reserve_item :
      BookingService
      → Context
      → BookingInput
      → Context × Option (Continuation BookingResult) × Option String
  unfolding reserved reservation_time
  reserve_item s ctx input =
      let r = reserved input in
      (
        set_query_result {R = StatusResp} ctx (record { status = "reserved"; payment_id = "" }),
        some (
            select (
              receive_send PaymentInfo r
              ∷ receive_call CancelReq CancelResp r
              ∷ after (reservation_time s) r
              ∷ [])),
        none,
      )

  -- what `ProcessPayment` returns, and what it sets, for its decision
  unfoldable pub payment_processed :
      BookingService
      → Context
      → Result PaidInput
      → Context × Option (Continuation BookingResult) × Option String
  unfolding shipping_time
  payment_processed s ctx (err e) = (ctx, none, some e)
  payment_processed s ctx (ok p) = (
    set_query_result {R = StatusResp} ctx (record { status = "paid"; payment_id = p.payment_id }),
    some (select (receive_send ShippingInfo p ∷ after (shipping_time s) p ∷ [])),
    none,
  )

  -- `ProcessPayment`
  unfoldable pub process_payment :
      BookingService
      → Context
      → ReservedInput
      → PaymentInfo
      → Context × Option (Continuation BookingResult) × Option String
  unfolding pay payment_processed
  process_payment s ctx input external_input =
      payment_processed s ctx (pay s input external_input).1

  -- `PaymentFailed`
  unfoldable pub payment_failed :
      Context
      → ReservedInput
      → PaymentInfo
      → String
      → Context × Option (Continuation BookingResult) × Option String
  payment_failed ctx input external_input e = (
    set_query_result {R = StatusResp} ctx (record { status = "payment_failed"; payment_id = "" }),
    some (done_with unpaid),
    none,
  )

  -- `ProcessShipping`
  unfoldable pub process_shipping :
      Context
      → PaidInput
      → ShippingInfo
      → Context × Option (Continuation BookingResult) × Option String
  process_shipping ctx input external_input = (ctx, some (done_with shipped), none)

  -- `CancelBooking`
  unfoldable pub cancel_booking :
      Context
      → ReservedInput
      → CancelReq
      → Context × CancelResp × Option (Continuation BookingResult) × Option String
  cancel_booking ctx input req =
      (ctx, record { confirmed = true }, some (done_with cancelled), none)

  -- `ExpireReservation`
  unfoldable pub expire_reservation :
      Context → ReservedInput → Context × Option (Continuation BookingResult) × Option String
  expire_reservation ctx input = (ctx, some (done_with expired), none)

  -- `ExpireShipping`
  unfoldable pub expire_shipping :
      Context → PaidInput → Context × Option (Continuation BookingResult) × Option String
  expire_shipping ctx input = (ctx, some (done_with refunded), none)

  -- `RegisterHandlers`; a panic of a registration is an error
  unfoldable pub register_handlers : Worker → BookingService → Result Worker
  register_handlers w s = do
    (w₁, _) ← register_handler w (reserve_item s) (attempts (pos 5))
    (w₂, r₂) ← register_send_handler w₁ (process_payment s) (attempts (pos 3))
    let w₃ = with_send_recovery_handler w₂ r₂ payment_failed default_options
    (w₄, _) ← register_send_handler w₃ process_shipping (attempts (pos 3))
    (w₅, _) ← register_call_handler w₄ cancel_booking default_options
    (w₆, _) ← register_handler w₅ expire_reservation default_options
    (w₇, _) ← register_handler w₆ expire_shipping default_options
    ok w₇
