-- ===== src/Services/Provider.antt =====
-- docs/howto/provider/provider.go: a provider whose slots are reserved, confirmed and expired. A
-- handler's printing is left out. Each handler is its decision on the state, and what it returns.
pub mod Bookings
pub mod Registry
use durableroutine_go.Base.{
  String, ◌<>◌, ◌==◌, Bool, true, false, Option, none, some, List, [], ◌∷◌, length, not, ◌||◌,
  if◌then◌else◌,
}
use durableroutine_go.Base.Int.{ℤ, pos, is_positive}
use durableroutine_go.Base.Dict.{Dict, get, put, remove, is_some}
use durableroutine_go.Base.Result.{Result}
use durableroutine_go.Durable.Payload.{Json, Payload}
use durableroutine_go.Durable.Continuation.{
  Continuation, done_with, select, after, receive_send, receive_call,
}
use durableroutine_go.Durable.Context.{Context, buffer_start, buffer_send}

pub record ProviderInput : Type 0 where
  pub provider_id : String
  pub slots : List String

pub record Reservation : Type 0 where
  pub user_id : String
  pub slot_id : String

pub record Booking : Type 0 where
  pub user_id : String
  pub slot_id : String
  pub payment_id : String

pub record ProviderState : Type 0 where
  pub provider_id : String
  pub slots : List String
  pub reservations : Dict Reservation
  pub booked : Dict Booking

pub record ReserveSlot : Type 0 where
  pub user_id : String
  pub slot_id : String

pub record ReserveResp : Type 0 where
  pub status : String

pub record ConfirmAndPay : Type 0 where
  pub user_id : String
  pub slot_id : String
  pub payment_id : String

pub record ConfirmResp : Type 0 where
  pub status : String

pub data GoOffline : Type 0 where
  go_offline : GoOffline

-- `Booked` is the number of bookings, len(state.Booked).
pub record GoOfflineResp : Type 0 where
  pub booked : ℤ

pub record ExpireReservation : Type 0 where
  pub user_id : String
  pub slot_id : String

pub record ProviderResult : Type 0 where
  pub status : String

pub record ReservationTimerInput : Type 0 where
  pub provider_routine_id : String
  pub user_id : String
  pub slot_id : String
  pub timeout : ℤ

pub record SendExpireInput : Type 0 where
  pub provider_routine_id : String
  pub user_id : String
  pub slot_id : String

pub data ReservationTimerResult : Type 0 where
  reservation_timer_result : ReservationTimerResult

-- `make(map…)` twice: the state that `Init` builds
unfoldable pub initial_state : ProviderInput → ProviderState
initial_state input = record {
  provider_id = input.provider_id;
  slots = input.slots;
  reservations = [];
  booked = [];
}

-- `HandleReserve`: the state, the response, and whether a timer is started
unfoldable pub reserve : ProviderState → ReserveSlot → ProviderState × ReserveResp × Bool
reserve s m =
    if is_some (get m.slot_id s.reservations)
    then (s, record { status = "rejected: already reserved" }, false)
    else (if is_some (get m.slot_id s.booked)
        then (s, record { status = "rejected: already booked" }, false)
        else (
          record s {
            reservations =
                put m.slot_id (record { user_id = m.user_id; slot_id = m.slot_id }) s.reservations;
          },
          record { status = "reserved" },
          true,
        ))

-- The test of `HandleConfirmAndPay` and `HandleExpire`: the slot is reserved by the user.
unfoldable pub holds : ProviderState → String → String → Bool
holds s slot_id user_id = elim (get slot_id s.reservations) [
  | none ↦ false
  | some res ↦ res.user_id == user_id
]

-- `HandleConfirmAndPay`
unfoldable pub confirm : ProviderState → ConfirmAndPay → ProviderState × ConfirmResp
unfolding holds
confirm s m =
    if holds s m.slot_id m.user_id
    then (
      record s {
        reservations = remove m.slot_id s.reservations;
        booked =
            put m.slot_id
              (record { user_id = m.user_id; slot_id = m.slot_id; payment_id = m.payment_id })
              s.booked;
      },
      record { status = "confirmed" },
    )
    else (s, record { status = "rejected: no matching reservation" })

-- `HandleExpire`
unfoldable pub expire : ProviderState → ExpireReservation → ProviderState
unfolding holds
expire s m =
    if holds s m.slot_id m.user_id
    then record s { reservations = remove m.slot_id s.reservations }
    else s

-- `reservationTimeout`, of `s.ReservationTimeout`
unfoldable pub reservation_timeout : ℤ → ℤ
reservation_timeout given = if is_positive given then given else pos 900_000_000_000

-- The JSON encodings of the messages are those of `encoding/json`.
module _ ⦃state : Payload ProviderState⦄ ⦃reserve_slot : Payload ReserveSlot⦄
    ⦃reserve_resp : Payload ReserveResp⦄ ⦃confirm_and_pay : Payload ConfirmAndPay⦄
    ⦃confirm_resp : Payload ConfirmResp⦄ ⦃offline : Payload GoOffline⦄
    ⦃offline_resp : Payload GoOfflineResp⦄ ⦃expire_reservation : Payload ExpireReservation⦄
    ⦃provider_result : Payload ProviderResult⦄ ⦃timer_input : Payload ReservationTimerInput⦄
    ⦃timer_result : Payload ReservationTimerResult⦄
    ⦃send_expire_input : Payload SendExpireInput⦄ where
  -- `steadyStateSelect`
  unfoldable pub steady_state_select : ProviderState → Continuation ProviderResult
  steady_state_select s = select (
      receive_call ReserveSlot ReserveResp s
      ∷ receive_call ConfirmAndPay ConfirmResp s
      ∷ receive_call GoOffline GoOfflineResp s
      ∷ receive_send ExpireReservation s
      ∷ [])

  -- `Init`
  unfoldable pub init :
      Context → ProviderInput → Context × Option (Continuation ProviderResult) × Option String
  unfolding steady_state_select initial_state
  init ctx input = (ctx, some (steady_state_select (initial_state input)), none)

  -- `HandleReserve`, with the timeout of the service
  unfoldable pub handle_reserve :
      ℤ
      → Context
      → ProviderState
      → ReserveSlot
      → Context × ReserveResp × Option (Continuation ProviderResult) × Option String
  unfolding reserve steady_state_select reservation_timeout
  handle_reserve timeout ctx s m =
      let (s', resp, started) = reserve s m in
      let timer : ReservationTimerInput = record {
        provider_routine_id = ctx.routine_id;
        user_id = m.user_id;
        slot_id = m.slot_id;
        timeout = reservation_timeout timeout;
      } in
      let id = "reservation-" <> s.provider_id <> "-" <> m.slot_id in
      (
        if started then buffer_start ReservationTimerResult ctx id timer else ctx,
        resp,
        some (steady_state_select s'),
        none,
      )

  -- `HandleConfirmAndPay`
  unfoldable pub handle_confirm_and_pay :
      Context
      → ProviderState
      → ConfirmAndPay
      → Context × ConfirmResp × Option (Continuation ProviderResult) × Option String
  unfolding confirm steady_state_select
  handle_confirm_and_pay ctx s m =
      let (s', resp) = confirm s m in (ctx, resp, some (steady_state_select s'), none)

  -- `HandleExpire`
  unfoldable pub handle_expire :
      Context
      → ProviderState
      → ExpireReservation
      → Context × Option (Continuation ProviderResult) × Option String
  unfolding expire steady_state_select
  handle_expire ctx s m = (ctx, some (steady_state_select (expire s m)), none)

  -- `HandleGoOffline`
  unfoldable pub handle_go_offline :
      Context
      → ProviderState
      → GoOffline
      → Context × GoOfflineResp × Option (Continuation ProviderResult) × Option String
  handle_go_offline ctx s m = (
    ctx,
    record { booked = pos (length s.booked) },
    some (done_with (record { status = "offline" })),
    none,
  )

  -- `ReservationTimer`
  unfoldable pub reservation_timer :
      Context
      → ReservationTimerInput
      → Context × Option (Continuation ReservationTimerResult) × Option String
  reservation_timer ctx input =
      let next : SendExpireInput = record {
        provider_routine_id = input.provider_routine_id;
        user_id = input.user_id;
        slot_id = input.slot_id;
      } in
      (ctx, some (after input.timeout next), none)

  -- `SendExpire`
  unfoldable pub send_expire :
      Context
      → SendExpireInput
      → Context × Option (Continuation ReservationTimerResult) × Option String
  send_expire ctx input =
      let message : ExpireReservation = record {
        user_id = input.user_id;
        slot_id = input.slot_id;
      } in
      (
        buffer_send ProviderState ProviderResult ctx input.provider_routine_id message,
        some (done_with reservation_timer_result),
        none,
      )
