-- ===== src/Services/Saga.antt =====
-- docs/howto/saga/saga.go: a trip of a flight, a hotel and a car, each booked by a handler of its
-- own. A handler's printing is left out, but for the cancellations, which are real calls in a real
-- service. Each handler is its decision, and what it returns.
pub mod Trips
pub mod Served
use durableroutine_go.Base.{String, ◌<>◌, ◌==◌, Option, none, some, List, [], ◌∷◌, if◌then◌else◌}
use durableroutine_go.Base.Int.{ℤ, pos}
use durableroutine_go.Base.Result.{Result, ok, err, ◌>>=◌, wrap}
use durableroutine_go.Durable.Payload.{Payload}
use durableroutine_go.Durable.Continuation.{Continuation, done_with, continue_with}
use durableroutine_go.Durable.Context.{Context}
use durableroutine_go.Durable.Worker.{Worker}
use durableroutine_go.Durable.Registration.{register_handler, with_recovery_handler}
use durableroutine_go.Services.Encoding.{Encoding, of_kind, returned, attempts}

pub record TripInput : Type 0 where
  pub trip_id : String
  pub flight_id : String
  pub hotel_id : String
  pub car_rental_id : String

pub record FlightBookedInput : Type 0 where
  pub trip_id : String
  pub hotel_id : String
  pub car_rental_id : String
  pub flight_confirmation : String

pub record HotelBookedInput : Type 0 where
  pub trip_id : String
  pub car_rental_id : String
  pub flight_confirmation : String
  pub hotel_confirmation : String

pub record TripResult : Type 0 where
  pub flight_confirmation : String
  pub hotel_confirmation : String
  pub car_confirmation : String

-- `DurableKind` of each type
instance abbrev pub trip_input_payload : ⦃e : Encoding TripInput⦄ → Payload TripInput
trip_input_payload =
    of_kind "trip-booking"
      (record { trip_id = ""; flight_id = ""; hotel_id = ""; car_rental_id = "" })

instance abbrev pub flight_booked_payload :
    ⦃e : Encoding FlightBookedInput⦄ → Payload FlightBookedInput
flight_booked_payload =
    of_kind "trip.flight-booked"
      (record { trip_id = ""; hotel_id = ""; car_rental_id = ""; flight_confirmation = "" })

instance abbrev pub hotel_booked_payload :
    ⦃e : Encoding HotelBookedInput⦄ → Payload HotelBookedInput
hotel_booked_payload =
    of_kind "trip.hotel-booked" (record {
      trip_id = "";
      car_rental_id = "";
      flight_confirmation = "";
      hotel_confirmation = "";
    })

instance abbrev pub trip_result_payload : ⦃e : Encoding TripResult⦄ → Payload TripResult
trip_result_payload =
    of_kind "trip-result"
      (record { flight_confirmation = ""; hotel_confirmation = ""; car_confirmation = "" })

-- `TripService`; a nil function is `none`
pub record TripService : Type 0 where
  pub book_flight_fn : Option (String → Result String)
  pub book_hotel_fn : Option (String → Result String)
  pub book_car_fn : Option (String → Result String)

-- `bookFlight`, `bookHotel` and `bookCar`
unfoldable pub flight_confirmation_for : TripService → String → Result String
flight_confirmation_for s flight_id = elim s.book_flight_fn [
  | some f ↦ f flight_id
  | none ↦ if flight_id == "" then err "flight ID required" else ok ("FLIGHT-CONF-" <> flight_id)
]

unfoldable pub hotel_confirmation_for : TripService → String → Result String
hotel_confirmation_for s hotel_id = elim s.book_hotel_fn [
  | some f ↦ f hotel_id
  | none ↦ if hotel_id == "" then err "hotel ID required" else ok ("HOTEL-CONF-" <> hotel_id)
]

unfoldable pub car_confirmation_for : TripService → String → Result String
car_confirmation_for s car_id = elim s.book_car_fn [
  | some f ↦ f car_id
  | none ↦ if car_id == "" then err "car rental ID required" else ok ("CAR-CONF-" <> car_id)
]

-- `BookFlight`, up to its continuation
unfoldable pub flight_booked : TripService → TripInput → Result FlightBookedInput
unfolding flight_confirmation_for
flight_booked s input =
    wrap (λ e. "book flight: " <> e) (flight_confirmation_for s input.flight_id) >>= λ conf.
    ok (record {
      trip_id = input.trip_id;
      hotel_id = input.hotel_id;
      car_rental_id = input.car_rental_id;
      flight_confirmation = conf;
    })

-- `BookHotel`, up to its continuation
unfoldable pub hotel_booked : TripService → FlightBookedInput → Result HotelBookedInput
unfolding hotel_confirmation_for
hotel_booked s input =
    wrap (λ e. "book hotel: " <> e) (hotel_confirmation_for s input.hotel_id) >>= λ conf.
    ok (record {
      trip_id = input.trip_id;
      car_rental_id = input.car_rental_id;
      flight_confirmation = input.flight_confirmation;
      hotel_confirmation = conf;
    })

-- `BookCar`, up to its continuation
unfoldable pub car_booked : TripService → HotelBookedInput → Result TripResult
unfolding car_confirmation_for
car_booked s input =
    wrap (λ e. "book car: " <> e) (car_confirmation_for s input.car_rental_id) >>= λ conf.
    ok (record {
      flight_confirmation = input.flight_confirmation;
      hotel_confirmation = input.hotel_confirmation;
      car_confirmation = conf;
    })

-- `cancelFlight` and `cancelHotel`, with the confirmation
pub data Cancellation : Type 0 where
  cancel_flight : String → Cancellation
  cancel_hotel : String → Cancellation

-- `CompensateHotel` and `CompensateCar`: the cancellations in their order, and the error
unfoldable pub compensate_hotel : FlightBookedInput → String → List Cancellation × String
compensate_hotel input e =
    (cancel_flight input.flight_confirmation ∷ [], "book hotel failed, compensated flight: " <> e)

unfoldable pub compensate_car : HotelBookedInput → String → List Cancellation × String
compensate_car input e = (
  cancel_hotel input.hotel_confirmation ∷ cancel_flight input.flight_confirmation ∷ [],
  "book car failed, compensated hotel and flight: " <> e,
)

module _ ⦃trip : Encoding TripInput⦄ ⦃flight : Encoding FlightBookedInput⦄
    ⦃hotel : Encoding HotelBookedInput⦄ ⦃trip_result : Encoding TripResult⦄ where
  -- `BookFlight`, `BookHotel` and `BookCar`
  unfoldable pub book_flight :
      TripService → Context → TripInput → Context × Option (Continuation TripResult) × Option String
  unfolding flight_booked
  book_flight s ctx input = returned continue_with ctx (flight_booked s input)

  unfoldable pub book_hotel :
      TripService
      → Context
      → FlightBookedInput
      → Context × Option (Continuation TripResult) × Option String
  unfolding hotel_booked
  book_hotel s ctx input = returned continue_with ctx (hotel_booked s input)

  unfoldable pub book_car :
      TripService
      → Context
      → HotelBookedInput
      → Context × Option (Continuation TripResult) × Option String
  unfolding car_booked
  book_car s ctx input = returned done_with ctx (car_booked s input)

  -- `RegisterHandlers`; a panic of a registration is an error
  unfoldable pub register_handlers : Worker → TripService → Result Worker
  register_handlers w s = do
    (w₁, _) ← register_handler w (book_flight s) (attempts (pos 3))
    (w₂, r₂) ← register_handler w₁ (book_hotel s) (attempts (pos 3))
    let w₃ =
        with_recovery_handler w₂ r₂ (λ ctx input e. (ctx, none, some (compensate_hotel input e).1))
          (attempts (pos 1))
    (w₄, r₄) ← register_handler w₃ (book_car s) (attempts (pos 3))
    ok (
        with_recovery_handler w₄ r₄ (λ ctx input e. (ctx, none, some (compensate_car input e).1))
          (attempts (pos 1)))
