-- ===== src/Services/Saga/Served.antt =====
-- docs/howto/saga/saga.go: `RegisterHandlers` serves what the handlers wait for.
use durableroutine_go.Base.{refl, String}
use durableroutine_go.Base.Dict.{Dict, get, put}
use durableroutine_go.Durable.Keys.{handler_key, error_key}
use durableroutine_go.Durable.Context.{Context}
use durableroutine_go.Durable.Continuation.{continue_with, done_with}
use durableroutine_go.Durable.Worker.{
  HandlerEntry, new_worker, add_entry, register_recovery_handler,
}
use durableroutine_go.Durable.Registration.{register_handler, with_recovery_handler}
use durableroutine_go.Services.Encoding.{Encoding}
use durableroutine_go.Services.Registered.{Ensures, IsRegistered, Serves, returned-Serves}
use durableroutine_go.Services.Saga.{
  TripInput, FlightBookedInput, HotelBookedInput, TripResult, TripService, book_flight, book_hotel,
  trip_input_payload, flight_booked_payload, hotel_booked_payload, trip_result_payload, book_car,
  flight_booked, hotel_booked, car_booked, register_handlers,
}

module _ ⦃trip : Encoding TripInput⦄ ⦃flight : Encoding FlightBookedInput⦄
    ⦃hotel : Encoding HotelBookedInput⦄ ⦃trip_result : Encoding TripResult⦄ where
  book_flight-Serves :
      (handlers : Dict HandlerEntry) (s : TripService) (ctx : Context) (input : TripInput)
      → IsRegistered handlers "handler:trip.flight-booked:trip-result"
      → Serves handlers (book_flight s ctx input)
  unfolding book_flight continue_with handler_key
  book_flight-Serves handlers s ctx input h =
      returned-Serves handlers continue_with ctx (flight_booked s input) λ a. (h, tt)

  book_hotel-Serves :
      (handlers : Dict HandlerEntry) (s : TripService) (ctx : Context) (input : FlightBookedInput)
      → IsRegistered handlers "handler:trip.hotel-booked:trip-result"
      → Serves handlers (book_hotel s ctx input)
  unfolding book_hotel continue_with handler_key
  book_hotel-Serves handlers s ctx input h =
      returned-Serves handlers continue_with ctx (hotel_booked s input) λ a. (h, tt)

  book_car-Serves :
      (handlers : Dict HandlerEntry) (s : TripService) (ctx : Context) (input : HotelBookedInput)
      → Serves handlers (book_car s ctx input)
  unfolding book_car done_with
  book_car-Serves handlers s ctx input =
      returned-Serves handlers done_with ctx (car_booked s input) λ a. tt

  pub register_handlers-Serves :
      (task_queue : String) (s : TripService)
      → Ensures (register_handlers (new_worker task_queue) s) λ w.
        IsRegistered w.handlers (handler_key "trip-booking" "trip-result")
        × ((ctx : Context) (input : TripInput) → Serves w.handlers (book_flight s ctx input))
        × ((ctx : Context) (input : FlightBookedInput) → Serves w.handlers (book_hotel s ctx input))
        × ((ctx : Context) (input : HotelBookedInput) → Serves w.handlers (book_car s ctx input))
  unfolding register_handlers register_handler with_recovery_handler add_entry
      register_recovery_handler new_worker get put handler_key error_key
  register_handlers-Serves task_queue s = (
    refl,
    λ ctx input. book_flight-Serves _ s ctx input refl,
    λ ctx input. book_hotel-Serves _ s ctx input refl,
    λ ctx input. book_car-Serves _ s ctx input,
  )
