-- ===== src/Services/Saga/Trips.antt =====
-- docs/howto/saga/saga.go: whole trips. A handler is tried more than once where the backend retries
-- it, and the booking systems may answer each attempt differently.
use durableroutine_go.Base.{
  ◌≡◌, refl, ◌∙◌, inl, inr, String, ◌==◌, Option, none, some, List, [], ◌∷◌, if◌then◌else◌, eq_refl,
  arith,
}
use durableroutine_go.Base.Result.{Result, ok, err, Result-cases}
use durableroutine_go.Services.Saga.{
  TripInput, FlightBookedInput, HotelBookedInput, TripResult, TripService, flight_booked,
  hotel_booked, car_booked, Cancellation, cancel_flight, cancel_hotel, compensate_hotel,
  compensate_car,
}

-- A handler under retries: its result in the last attempt, where each attempt meets the service as
-- it is then.
unfoldable pub attempted :
    {A : Type 0} → (TripService → Result A) → TripService → List TripService → Result A
attempted f s [] = f s
attempted f s (later ∷ rest) = elim (f s) [ ok a ↦ ok a | err e ↦ attempted f later rest ]

-- What happened at the booking systems, and how the trip ended.
pub data Event : Type 0 where
  booked_flight : String → Event
  booked_hotel : String → Event
  booked_car : String → Event
  cancelled : Cancellation → Event

abbrev pub cancellations : List Cancellation → List Event
cancellations [] = []
cancellations (c ∷ cs) = cancelled c ∷ cancellations cs

-- The service at each attempt of a handler: the first, and the later ones.
pub record Attempts : Type 0 where
  pub first : TripService
  pub later : List TripService

-- `BookCar`, and `CompensateCar` when it has failed
unfoldable pub after_hotel : Attempts → HotelBookedInput → List Event × Result TripResult
after_hotel cars input = elim (attempted (λ s. car_booked s input) cars.first cars.later) [
  | ok r ↦ (booked_car r.car_confirmation ∷ [], ok r)
  | err e ↦ (cancellations (compensate_car input e).0, err (compensate_car input e).1)
]

-- `BookHotel`, and `CompensateHotel` when it has failed
unfoldable pub after_flight :
    Attempts → Attempts → FlightBookedInput → List Event × Result TripResult
after_flight hotels cars input =
    elim (attempted (λ s. hotel_booked s input) hotels.first hotels.later) [
      | ok next ↦ (
        booked_hotel next.hotel_confirmation ∷ (after_hotel cars next).0,
        (after_hotel cars next).1,
      )
      | err e ↦ (cancellations (compensate_hotel input e).0, err (compensate_hotel input e).1)
    ]

-- `BookFlight` and what follows: the whole routine
unfoldable pub trip : Attempts → Attempts → Attempts → TripInput → List Event × Result TripResult
trip flights hotels cars input =
    elim (attempted (λ s. flight_booked s input) flights.first flights.later) [
      | ok next ↦ (
        booked_flight next.flight_confirmation ∷ (after_flight hotels cars next).0,
        (after_flight hotels cars next).1,
      )
      | err e ↦ ([], err e)
    ]

-- What is booked, the last one first. A cancellation of anything but the last booking is refused.
pub data Booked : Type 0 where
  flight : String → Booked
  hotel : String → Booked
  car : String → Booked

abbrev pub cancel : Cancellation → List Booked → Option (List Booked)
cancel (cancel_flight c) (flight d ∷ bs) = if c == d then some bs else none
cancel (cancel_hotel c) (hotel d ∷ bs) = if c == d then some bs else none
cancel _ _ = none

abbrev pub outstanding : List Event → List Booked → Option (List Booked)
outstanding [] bs = some bs
outstanding (booked_flight c ∷ es) bs = outstanding es (flight c ∷ bs)
outstanding (booked_hotel c ∷ es) bs = outstanding es (hotel c ∷ bs)
outstanding (booked_car c ∷ es) bs = outstanding es (car c ∷ bs)
outstanding (cancelled c ∷ es) bs = elim (cancel c bs) [
  | none ↦ none
  | some rest ↦ outstanding es rest
]

-- What a trip leaves booked: all that its result says, or nothing if it failed.
abbrev pub left_booked : Result TripResult → List Booked
left_booked (ok r) =
    car r.car_confirmation ∷ hotel r.hotel_confirmation ∷ flight r.flight_confirmation ∷ []
left_booked (err e) = []

attempted-ok :
    {A : Type 0} (P : A → Type 0) (f : TripService → Result A) (s : TripService)
    (later : List TripService) (a : A)
    → ((s : TripService) (a : A) → f s ≡ ok a → P a)
    → attempted f s later ≡ ok a
    → P a
unfolding attempted
attempted-ok P f s [] a keeps h = keeps s a h
attempted-ok P f s (next ∷ rest) a keeps h = elim (Result-cases (f s)) [
  | inl (b, q) ↦ keeps s a (q ∙ (rw (q, attempted) at h))
  | inr (e, q) ↦ attempted-ok P f next rest a keeps (rw (q, attempted) at h)
]

car_booked-keeps :
    (s : TripService) (input : HotelBookedInput) (r : TripResult)
    → car_booked s input ≡ ok r
    → (r.flight_confirmation ≡ input.flight_confirmation)
      × (r.hotel_confirmation ≡ input.hotel_confirmation)
unfolding car_booked
car_booked-keeps s input r h = ground arith

hotel_booked-keeps :
    (s : TripService) (input : FlightBookedInput) (next : HotelBookedInput)
    → hotel_booked s input ≡ ok next
    → next.flight_confirmation ≡ input.flight_confirmation
unfolding hotel_booked
hotel_booked-keeps s input next h = ground arith

compensate_car-cancels :
    (input : HotelBookedInput) (e : String)
    → outstanding
        (cancellations (compensate_car input e).0)
        (hotel input.hotel_confirmation ∷ flight input.flight_confirmation ∷ [])
      ≡ some []
unfolding compensate_car
compensate_car-cancels input e =
    ground (arith, eq_refl input.hotel_confirmation, eq_refl input.flight_confirmation)

compensate_hotel-cancels :
    (input : FlightBookedInput) (e : String)
    → outstanding
        (cancellations (compensate_hotel input e).0)
        (flight input.flight_confirmation ∷ [])
      ≡ some []
unfolding compensate_hotel
compensate_hotel-cancels input e = ground (arith, eq_refl input.flight_confirmation)

after_hotel-left_booked :
    (cars : Attempts) (input : HotelBookedInput)
    → outstanding
        (after_hotel cars input).0
        (hotel input.hotel_confirmation ∷ flight input.flight_confirmation ∷ [])
      ≡ some (left_booked (after_hotel cars input).1)
unfolding after_hotel
after_hotel-left_booked cars input =
    elim (Result-cases (attempted (λ s. car_booked s input) cars.first cars.later)) [
      | inl (r, q) ↦
          let (f, h) =
            attempted-ok
              (λ r.
                (r.flight_confirmation ≡ input.flight_confirmation)
                × (r.hotel_confirmation ≡ input.hotel_confirmation))
              (λ s. car_booked s input) cars.first cars.later r (λ s r. car_booked-keeps s input r)
              q in
          rw (q, after_hotel) (cc)
      | inr (e, q) ↦ rw (q, after_hotel) (compensate_car-cancels input e)
    ]

after_flight-left_booked :
    (hotels cars : Attempts) (input : FlightBookedInput)
    → outstanding (after_flight hotels cars input).0 (flight input.flight_confirmation ∷ [])
      ≡ some (left_booked (after_flight hotels cars input).1)
unfolding after_flight
after_flight-left_booked hotels cars input =
    elim (Result-cases (attempted (λ s. hotel_booked s input) hotels.first hotels.later)) [
      | inl (next, q) ↦
          let f : next.flight_confirmation ≡ input.flight_confirmation =
            attempted-ok (λ n. n.flight_confirmation ≡ input.flight_confirmation)
              (λ s. hotel_booked s input) hotels.first hotels.later next
              (λ s n. hotel_booked-keeps s input n) q in
          rw (q, after_flight, ← f) (after_hotel-left_booked cars next)
      | inr (e, q) ↦ rw (q, after_flight) (compensate_hotel-cancels input e)
    ]

-- However often each handler is tried and whatever the booking systems answer, a trip ends with
-- exactly the three bookings that its result names, or with an error and nothing booked: each
-- booking made before was cancelled by its confirmation, the last one first.
pub trip-left_booked :
    (flights hotels cars : Attempts) (input : TripInput)
    → outstanding (trip flights hotels cars input).0 []
      ≡ some (left_booked (trip flights hotels cars input).1)
unfolding trip
trip-left_booked flights hotels cars input =
    elim (Result-cases (attempted (λ s. flight_booked s input) flights.first flights.later)) [
      | inl (next, q) ↦ rw (q, trip) (after_flight-left_booked hotels cars next)
      | inr (e, q) ↦ rw (q, trip) refl
    ]
