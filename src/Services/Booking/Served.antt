-- ===== src/Services/Booking/Served.antt =====
-- docs/howto/booking/booking.go: `RegisterHandlers` serves what the handlers wait for.
use durableroutine_go.Base.{refl, String}
use durableroutine_go.Base.Dict.{Dict, get, put}
use durableroutine_go.Base.Result.{Result, ok, err}
use durableroutine_go.Durable.Keys.{handler_key, send_key, call_key, error_key}
use durableroutine_go.Durable.Context.{Context}
use durableroutine_go.Durable.Continuation.{after, receive_send, receive_call, select, select_cases}
use durableroutine_go.Durable.Worker.{
  HandlerEntry, new_worker, add_entry, register_recovery_handler,
}
use durableroutine_go.Durable.Registration.{
  register_handler, register_send_handler, register_call_handler, with_send_recovery_handler,
}
use durableroutine_go.Services.Encoding.{Encoding}
use durableroutine_go.Services.Registered.{Ensures, IsRegistered, HasRecovery, Serves}
use durableroutine_go.Services.Booking.{
  BookingInput, PaymentInfo, ShippingInfo, CancelReq, CancelResp, StatusResp, BookingResult,
  ReservedInput, PaidInput, BookingService, reserve_item, pay, payment_processed, process_payment,
  register_handlers,
}

module _ ⦃booking : Encoding BookingInput⦄ ⦃payment : Encoding PaymentInfo⦄
    ⦃shipping : Encoding ShippingInfo⦄ ⦃cancel_req : Encoding CancelReq⦄
    ⦃cancel_resp : Encoding CancelResp⦄ ⦃status_resp : Encoding StatusResp⦄
    ⦃booking_result : Encoding BookingResult⦄ ⦃reserved_input : Encoding ReservedInput⦄
    ⦃paid_input : Encoding PaidInput⦄ where
  reserve_item-Serves :
      (handlers : Dict HandlerEntry) (s : BookingService) (ctx : Context) (input : BookingInput)
      → IsRegistered handlers "send:booking.reserved:payment:booking-result"
      → IsRegistered handlers "call:booking.reserved:cancel:cancel-resp:booking-result"
      → IsRegistered handlers "handler:booking.reserved:booking-result"
      → Serves handlers (reserve_item s ctx input)
  unfolding reserve_item select select_cases receive_send receive_call after send_key call_key
      handler_key Serves
  reserve_item-Serves handlers s ctx input h k l = (h, (k, (l, tt)))

  payment_processed-Serves :
      (handlers : Dict HandlerEntry) (s : BookingService) (ctx : Context) (r : Result PaidInput)
      → IsRegistered handlers "send:booking.paid:shipping:booking-result"
      → IsRegistered handlers "handler:booking.paid:booking-result"
      → Serves handlers (payment_processed s ctx r)
  unfolding payment_processed select select_cases receive_send after send_key handler_key Serves
  payment_processed-Serves handlers s ctx (err e) h k = tt
  payment_processed-Serves handlers s ctx (ok p) h k = (h, (k, tt))

  process_payment-Serves :
      (handlers : Dict HandlerEntry) (s : BookingService) (ctx : Context) (r : ReservedInput)
      (info : PaymentInfo)
      → IsRegistered handlers "send:booking.paid:shipping:booking-result"
      → IsRegistered handlers "handler:booking.paid:booking-result"
      → Serves handlers (process_payment s ctx r info)
  unfolding process_payment
  process_payment-Serves handlers s ctx r info h k =
      payment_processed-Serves handlers s ctx (pay s r info).1 h k

  -- `RegisterHandlers` registers its handlers on a new worker without a panic: the one that starts
  -- a booking, and one under the key of each case that `ReserveItem` and `ProcessPayment` return (the
  -- other handlers end the booking). The options of `ProcessPayment` name a recovery handler that is
  -- registered.
  pub register_handlers-Serves :
      (task_queue : String) (s : BookingService)
      → Ensures (register_handlers (new_worker task_queue) s) λ w.
        IsRegistered w.handlers (handler_key "booking" "booking-result")
        × HasRecovery w.handlers (send_key "booking.reserved" "payment" "booking-result")
        × ((ctx : Context) (input : BookingInput) → Serves w.handlers (reserve_item s ctx input))
        × ((ctx : Context) (r : ReservedInput) (info : PaymentInfo)
            → Serves w.handlers (process_payment s ctx r info))
  unfolding register_handlers register_handler register_send_handler register_call_handler
      with_send_recovery_handler add_entry register_recovery_handler new_worker get put handler_key
      send_key call_key error_key
  register_handlers-Serves task_queue s = (
    refl,
    (refl, refl),
    λ ctx input. reserve_item-Serves _ s ctx input refl refl refl,
    λ ctx r info. process_payment-Serves _ s ctx r info refl refl,
  )
