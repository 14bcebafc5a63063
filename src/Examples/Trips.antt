-- ===== src/Examples/Trips.antt =====
-- A trip whose car cannot be booked.
use durableroutine_go.Base.{◌≡◌, none, some, [], ◌∷◌}
use durableroutine_go.Base.Result.{err}
use durableroutine_go.Services.Saga.{
  TripInput, TripService, flight_booked, hotel_booked, car_booked, compensate_car,
}
use durableroutine_go.Services.Saga.Trips.{
  Attempts, attempted, after_hotel, after_flight, trip, outstanding, trip-left_booked,
}

abbrev input : TripInput
input = record { trip_id = "t1"; flight_id = "f"; hotel_id = "h"; car_rental_id = "c" }

abbrev service : TripService
service = record { book_flight_fn = none; book_hotel_fn = none; book_car_fn = none }

abbrev no_cars : TripService
no_cars = record service { book_car_fn = some (λ _. err "no cars") }

abbrev once : Attempts
once = record { first = service; later = [] }

abbrev twice : Attempts
twice = record { first = no_cars; later = no_cars ∷ [] }

trip-left_booked_example : outstanding (trip once once twice input).0 [] ≡ some []
unfolding trip after_flight after_hotel attempted flight_booked hotel_booked car_booked
    compensate_car
trip-left_booked_example = trip-left_booked once once twice input
