-- ===== src/Services/Provider/Registry.antt =====
-- docs/howto/provider/provider.go: the kinds of the types, and `RegisterHandlers`.
use durableroutine_go.Base.{[]}
use durableroutine_go.Base.Int.{ℤ, pos}
use durableroutine_go.Base.Result.{Result, ok, ◌>>=◌}
use durableroutine_go.Durable.Payload.{Payload}
use durableroutine_go.Durable.Worker.{Worker, default_options}
use durableroutine_go.Durable.Registration.{
  register_handler, register_send_handler, register_call_handler,
}
use durableroutine_go.Services.Encoding.{Encoding, of_kind}
use durableroutine_go.Services.Provider.{
  ProviderInput, ProviderState, ReserveSlot, ReserveResp, ConfirmAndPay, ConfirmResp, GoOffline,
  go_offline, GoOfflineResp, ExpireReservation, ProviderResult, ReservationTimerInput,
  ReservationTimerResult, reservation_timer_result, SendExpireInput, init, handle_reserve,
  handle_confirm_and_pay, handle_go_offline, handle_expire, reservation_timer, send_expire,
}

-- `DurableKind` of each type
instance abbrev pub provider_input_payload : ⦃e : Encoding ProviderInput⦄ → Payload ProviderInput
provider_input_payload = of_kind "provider" (record { provider_id = ""; slots = [] })

instance abbrev pub provider_state_payload : ⦃e : Encoding ProviderState⦄ → Payload ProviderState
provider_state_payload =
    of_kind "provider.state"
      (record { provider_id = ""; slots = []; reservations = []; booked = [] })

instance abbrev pub reserve_slot_payload : ⦃e : Encoding ReserveSlot⦄ → Payload ReserveSlot
reserve_slot_payload = of_kind "reserve-slot" (record { user_id = ""; slot_id = "" })

instance abbrev pub reserve_resp_payload : ⦃e : Encoding ReserveResp⦄ → Payload ReserveResp
reserve_resp_payload = of_kind "reserve-slot-resp" (record { status = "" })

instance abbrev pub confirm_and_pay_payload : ⦃e : Encoding ConfirmAndPay⦄ → Payload ConfirmAndPay
confirm_and_pay_payload =
    of_kind "confirm-and-pay" (record { user_id = ""; slot_id = ""; payment_id = "" })

instance abbrev pub confirm_resp_payload : ⦃e : Encoding ConfirmResp⦄ → Payload ConfirmResp
confirm_resp_payload = of_kind "confirm-and-pay-resp" (record { status = "" })

instance abbrev pub go_offline_payload : ⦃e : Encoding GoOffline⦄ → Payload GoOffline
go_offline_payload = of_kind "go-offline" go_offline

instance abbrev pub go_offline_resp_payload : ⦃e : Encoding GoOfflineResp⦄ → Payload GoOfflineResp
go_offline_resp_payload = of_kind "go-offline-resp" (record { booked = pos 0 })

instance abbrev pub expire_reservation_payload :
    ⦃e : Encoding ExpireReservation⦄ → Payload ExpireReservation
expire_reservation_payload = of_kind "expire-reservation" (record { user_id = ""; slot_id = "" })

instance abbrev pub provider_result_payload : ⦃e : Encoding ProviderResult⦄ → Payload ProviderResult
provider_result_payload = of_kind "provider-result" (record { status = "" })

instance abbrev pub timer_input_payload :
    ⦃e : Encoding ReservationTimerInput⦄ → Payload ReservationTimerInput
timer_input_payload =
    of_kind "reservation-timer"
      (record { provider_routine_id = ""; user_id = ""; slot_id = ""; timeout = pos 0 })

instance abbrev pub timer_result_payload :
    ⦃e : Encoding ReservationTimerResult⦄ → Payload ReservationTimerResult
timer_result_payload = of_kind "reservation-timer-result" reservation_timer_result

instance abbrev pub send_expire_payload : ⦃e : Encoding SendExpireInput⦄ → Payload SendExpireInput
send_expire_payload =
    of_kind "send-expire" (record { provider_routine_id = ""; user_id = ""; slot_id = "" })

module _ ⦃input : Encoding ProviderInput⦄ ⦃state : Encoding ProviderState⦄
    ⦃reserve_slot : Encoding ReserveSlot⦄ ⦃reserve_resp : Encoding ReserveResp⦄
    ⦃confirm_and_pay : Encoding ConfirmAndPay⦄ ⦃confirm_resp : Encoding ConfirmResp⦄
    ⦃offline : Encoding GoOffline⦄ ⦃offline_resp : Encoding GoOfflineResp⦄
    ⦃expire_reservation : Encoding ExpireReservation⦄ ⦃provider_result : Encoding ProviderResult⦄
    ⦃timer_input : Encoding ReservationTimerInput⦄ ⦃timer_result : Encoding ReservationTimerResult⦄
    ⦃send_expire_input : Encoding SendExpireInput⦄ where
  -- `RegisterHandlers`, for the service with a timeout; a panic of a registration is an error
  unfoldable pub register_handlers : Worker → ℤ → Result Worker
  register_handlers w timeout = do
    (w₁, _) ← register_handler w init default_options
    (w₂, _) ← register_call_handler w₁ (handle_reserve timeout) default_options
    (w₃, _) ← register_call_handler w₂ handle_confirm_and_pay default_options
    (w₄, _) ← register_call_handler w₃ handle_go_offline default_options
    (w₅, _) ← register_send_handler w₄ handle_expire default_options
    (w₆, _) ← register_handler w₅ reservation_timer default_options
    (w₇, _) ← register_handler w₆ send_expire default_options
    ok w₇
