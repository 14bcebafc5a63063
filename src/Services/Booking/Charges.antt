-- ===== src/Services/Booking/Charges.antt =====
-- docs/howto/booking/booking.go: how often a card is charged over the life of a booking.
use durableroutine_go.Base.{
  ℕ, ◌+◌, ◌≤◌, String, ◌||◌, ◌==◌, none, some, List, [], ◌∷◌, if◌then◌else◌,
}
use Prim.Native.String.{len}
use durableroutine_go.Base.Result.{Result, ok, err}
use durableroutine_go.Services.Booking.{
  BookingInput, PaymentInfo, BookingResult, ReservedInput, PaidInput, BookingService, reserved,
  charge_card, pay, unpaid, shipped, cancelled, expired, refunded,
}

-- Where the routine is: it waits for a payment, waits for the address, or has ended.
pub data Stage : Type 0 where
  awaits_payment : ReservedInput → Stage
  awaits_shipping : PaidInput → Stage
  ended : BookingResult → Stage

pub record Booking : Type 0 where
  pub stage : Stage
  pub charges : ℕ

-- `ProcessPayment` under retries: the charges of all attempts, and the result of the last one. Each
-- attempt meets the service as it is then.
unfoldable pub pay_attempts :
    BookingService → List BookingService → ReservedInput → PaymentInfo → ℕ × Result PaidInput
pay_attempts s [] r info = pay s r info
pay_attempts s (later ∷ rest) r info =
    let again = pay_attempts later rest r info in
    elim (pay s r info).1 [
      | ok p ↦ ((pay s r info).0, ok p)
      | err e ↦ ((pay s r info).0 + again.0, again.1)
    ]

-- What can happen to a booking: a payment, with the service at each attempt, the address, a
-- request to cancel, and the timers.
pub data Event : Type 0 where
  payment : BookingService → List BookingService → PaymentInfo → Event
  shipping : Event
  cancellation : Event
  reservation_timer : Event
  shipping_timer : Event

-- the stage after `ProcessPayment`, or `PaymentFailed` behind it
abbrev after_payment : Result PaidInput → Stage
after_payment (ok p) = awaits_shipping p
after_payment (err e) = ended unpaid

-- What the routine does with an event: what the stage does not wait for changes nothing.
unfoldable pub on_event : Stage → Event → ℕ × Stage
on_event (awaits_payment r) (payment s later info) =
    ((pay_attempts s later r info).0, after_payment (pay_attempts s later r info).1)
on_event (awaits_payment r) cancellation = (0, ended cancelled)
on_event (awaits_payment r) reservation_timer = (0, ended expired)
on_event (awaits_shipping p) shipping = (0, ended shipped)
on_event (awaits_shipping p) shipping_timer = (0, ended refunded)
on_event stage _ = (0, stage)

unfoldable pub run : Booking → List Event → Booking
run b [] = b
run b (e ∷ es) =
    run (record { stage = (on_event b.stage e).1; charges = b.charges + (on_event b.stage e).0 }) es

-- A card number that `ProcessPayment` can print the end of.
abbrev pub HasFourDigits : Event → Type 0
HasFourDigits (payment s later info) = 4 ≤ len info.card_number
HasFourDigits _ = Unit

-- The charges that a stage accounts for: one from the payment on, none before and in the ends
-- without a payment.
unfoldable pub due : Stage → ℕ
due (awaits_payment r) = 0
due (awaits_shipping p) = 1
due (ended r) = if r.status == "shipped" || r.status == "refunded" then 1 else 0

abbrev start : BookingInput → Booking
start input = record { stage = awaits_payment (reserved input); charges = 0 }

-- Whether an attempt charges the card.
unfoldable pub charged : BookingService → String → ℕ
unfolding charge_card
charged s card = elim (charge_card s card) [ none ↦ 1 | some e ↦ 0 ]

unfoldable pub charged_all : BookingService → List BookingService → String → ℕ
charged_all s [] card = charged s card
charged_all s (later ∷ rest) card = charged s card + charged_all later rest card
