-- ===== src/Services/Provider/Bookings.antt =====
-- docs/howto/provider/provider.go: what the decisions keep.
use durableroutine_go.Base.{◌≡◌, refl, ap, ◌∙◌, String, true, none, some, arith, eq_iff}
use durableroutine_go.Base.Dict.{get, get-put, get-remove, is_some}
use durableroutine_go.Services.Provider.{
  ProviderInput, ProviderState, Booking, ReserveSlot, ConfirmAndPay, ExpireReservation,
  initial_state, reserve, holds, confirm, expire,
}

-- A later state of the provider: messages come one at a time, in any order.
pub data Leads (s : ProviderState) : ProviderState → Type 0 where
  stays : Leads s s
  reserves : {t : ProviderState} → Leads s t → (m : ReserveSlot) → Leads s (reserve t m).0
  confirms : {t : ProviderState} → Leads s t → (m : ConfirmAndPay) → Leads s (confirm t m).0
  expires : {t : ProviderState} → Leads s t → (m : ExpireReservation) → Leads s (expire t m)

-- A booked slot is not reserved.
abbrev pub IsExclusive : ProviderState → Type 0
IsExclusive s =
    (slot : String) → is_some (get slot s.booked) ≡ true → get slot s.reservations ≡ none

initial_state-IsExclusive : (input : ProviderInput) → IsExclusive (initial_state input)
unfolding initial_state get
initial_state-IsExclusive input slot b = refl

reserve-IsExclusive :
    (s : ProviderState) (m : ReserveSlot) → IsExclusive s → IsExclusive (reserve s m).0
unfolding reserve
reserve-IsExclusive s m x slot = ground (
  arith,
  x slot,
  eq_iff m.slot_id slot,
  get-put m.slot_id slot (record { user_id = m.user_id; slot_id = m.slot_id }) s.reservations,
)

confirm-IsExclusive :
    (s : ProviderState) (m : ConfirmAndPay) → IsExclusive s → IsExclusive (confirm s m).0
unfolding confirm
confirm-IsExclusive s m x slot = ground (
  arith,
  x slot,
  eq_iff m.slot_id slot,
  get-remove m.slot_id slot s.reservations,
  get-put m.slot_id slot
      (record { user_id = m.user_id; slot_id = m.slot_id; payment_id = m.payment_id }) s.booked,
)

expire-IsExclusive :
    (s : ProviderState) (m : ExpireReservation) → IsExclusive s → IsExclusive (expire s m)
unfolding expire
expire-IsExclusive s m x slot =
    ground (arith, x slot, eq_iff m.slot_id slot, get-remove m.slot_id slot s.reservations)

Leads-IsExclusive : (s t : ProviderState) → IsExclusive s → Leads s t → IsExclusive t
Leads-IsExclusive s t x stays = x
Leads-IsExclusive s t x (reserves l m) = reserve-IsExclusive _ m (Leads-IsExclusive s _ x l)
Leads-IsExclusive s t x (confirms l m) = confirm-IsExclusive _ m (Leads-IsExclusive s _ x l)
Leads-IsExclusive s t x (expires l m) = expire-IsExclusive _ m (Leads-IsExclusive s _ x l)

-- Whatever messages the provider has handled, in whatever order, no slot is both booked and
-- reserved.
pub reachable-IsExclusive :
    (input : ProviderInput) (s : ProviderState) → Leads (initial_state input) s → IsExclusive s
reachable-IsExclusive input s l =
    Leads-IsExclusive (initial_state input) s (initial_state-IsExclusive input) l

confirm-booked :
    (s : ProviderState) (m : ConfirmAndPay) (slot : String) (b : Booking)
    → IsExclusive s
    → get slot s.booked ≡ some b
    → get slot (confirm s m).0.booked ≡ some b
unfolding confirm holds
confirm-booked s m slot b x h = ground (
  arith,
  x slot,
  h,
  eq_iff m.slot_id slot,
  get-put m.slot_id slot
      (record { user_id = m.user_id; slot_id = m.slot_id; payment_id = m.payment_id }) s.booked,
)

reserve-booked : (s : ProviderState) (m : ReserveSlot) → (reserve s m).0.booked ≡ s.booked
unfolding reserve
reserve-booked s m = ground arith

expire-booked : (s : ProviderState) (m : ExpireReservation) → (expire s m).booked ≡ s.booked
unfolding expire
expire-booked s m = ground arith

-- A booking is final: once a slot is booked in a reachable state, it stays booked by the same user
-- with the same payment, whatever messages come.
pub booking-IsFinal :
    (input : ProviderInput) (s t : ProviderState) (slot : String) (b : Booking)
    → Leads (initial_state input) s
    → Leads s t
    → get slot s.booked ≡ some b
    → get slot t.booked ≡ some b
booking-IsFinal input s t slot b before stays h = h
booking-IsFinal input s t slot b before (reserves {t = u} l m) h =
    ap (get slot) (reserve-booked u m) ∙ booking-IsFinal input s u slot b before l h
booking-IsFinal input s t slot b before (confirms {t = u} l m) h =
    confirm-booked u m slot b (Leads-IsExclusive s u (reachable-IsExclusive input s before) l)
      (booking-IsFinal input s u slot b before l h)
booking-IsFinal input s t slot b before (expires {t = u} l m) h =
    ap (get slot) (expire-booked u m) ∙ booking-IsFinal input s u slot b before l h
