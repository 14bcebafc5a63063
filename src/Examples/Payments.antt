-- ===== src/Examples/Payments.antt =====
-- Bookings: one that is paid at the second attempt and shipped, and one with a short card number.
use durableroutine_go.Base.{String, none, some}
use durableroutine_go.Base.Int.{pos}
use durableroutine_go.Base.Result.{ok, err}
use durableroutine_go.Durable.Payload.{Json}
use durableroutine_go.Durable.Context.{Context}
use durableroutine_go.Durable.Keys.{handler_key, send_key}
use durableroutine_go.Durable.Worker.{new_worker}
use durableroutine_go.Services.Encoding.{Encoding}
use durableroutine_go.Services.Registered.{Ensures, IsRegistered, HasRecovery, Serves}
use durableroutine_go.Services.Booking.{
  BookingInput, PaymentInfo, ReservedInput, BookingService, reserve_item, process_payment,
  register_handlers,
}
use durableroutine_go.Services.Booking.Served.{register_handlers-Serves}

abbrev service : BookingService
service = record { reservation_timeout = pos 0; shipping_timeout = pos 0; charge_card_fn = none }

abbrev failing : BookingService
failing = record service { charge_card_fn = some (λ _. some "gateway down") }

abbrev info : String → PaymentInfo
info card = record { card_number = card; expiry = "12/30" }

abbrev input : BookingInput
input = record { user_id = "ann"; item_id = "lamp" }

abbrev reserved_lamp : ReservedInput
reserved_lamp = record { user_id = "ann"; item_id = "lamp" }

-- An encoding that carries nothing: the registry does not look into it.
instance abbrev opaque : {A : Type 0} → Encoding A
opaque = record { marshal = λ _. ok Json.null; unmarshal = λ _. err "nothing to decode" }

register_handlers-Serves_example : Ensures (register_handlers (new_worker "bookings") service) λ w.
    IsRegistered w.handlers (handler_key "booking" "booking-result")
    × HasRecovery w.handlers (send_key "booking.reserved" "payment" "booking-result")
    × ((ctx : Context) (i : BookingInput) → Serves w.handlers (reserve_item service ctx i))
    × ((ctx : Context) (r : ReservedInput) (p : PaymentInfo)
        → Serves w.handlers (process_payment service ctx r p))
register_handlers-Serves_example = register_handlers-Serves "bookings" service
