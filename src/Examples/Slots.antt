-- ===== src/Examples/Slots.antt =====
-- A slot of a provider that is reserved, paid and not lost to its timer.
use durableroutine_go.Base.{◌≡◌, refl, some, []}
use durableroutine_go.Base.Dict.{get, put, remove}
use durableroutine_go.Services.Provider.{
  ProviderInput, ProviderState, ReserveSlot, ConfirmAndPay, initial_state, reserve, holds, confirm,
}
use durableroutine_go.Services.Provider.Bookings.{Leads, stays, reserves, confirms, booking-IsFinal}

abbrev input : ProviderInput
input = record { provider_id = "p1"; slots = [] }

abbrev ann : ReserveSlot
ann = record { user_id = "ann"; slot_id = "monday" }

abbrev ann_pays : ConfirmAndPay
ann_pays = record { user_id = "ann"; slot_id = "monday"; payment_id = "42" }

abbrev booked_state : ProviderState
booked_state = (confirm (reserve (initial_state input) ann).0 ann_pays).0

abbrev later_state : ProviderState
later_state = (reserve booked_state (record { user_id = "bob"; slot_id = "monday" })).0

Leads-booked : Leads (initial_state input) booked_state
Leads-booked = confirms (reserves stays ann) ann_pays

Leads-later : Leads booked_state later_state
Leads-later = reserves stays (record { user_id = "bob"; slot_id = "monday" })

booking-IsFinal_example :
    get "monday" later_state.booked
    ≡ some (record { user_id = "ann"; slot_id = "monday"; payment_id = "42" })
unfolding initial_state reserve holds confirm get put remove
booking-IsFinal_example =
    booking-IsFinal input booked_state later_state "monday"
      (record { user_id = "ann"; slot_id = "monday"; payment_id = "42" }) Leads-booked Leads-later
      refl
