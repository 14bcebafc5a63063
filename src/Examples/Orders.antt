-- ===== src/Examples/Orders.antt =====
-- An order that is created, placed by a client and shipped.
use durableroutine_go.Base.{◌≡◌, refl, ℕ, none, some, [], ◌∷◌}
use durableroutine_go.Base.Int.{pos, ◌+ℤ◌}
use durableroutine_go.Base.Dict.{get, put}
use durableroutine_go.Base.Result.{Result, ok, err, ◌>>=◌}
use durableroutine_go.Durable.Keys.{handler_key, send_key}
use durableroutine_go.Durable.Payload.{Any, Json, Items, RoundTrips, decoded, to_any}
use durableroutine_go.Durable.Context.{new_context, set_query_result, start_entries}
use durableroutine_go.Durable.Continuation.{select, receive_send, after, done_with}
use durableroutine_go.Durable.Routine.{handler_runner, send_handler_runner}
use durableroutine_go.Durable.Worker.{Worker, new_worker, add_entry}
use durableroutine_go.Durable.Registration.{register_handler, register_send_handler}
use durableroutine_go.InMemory.Runtime.{Instance, Runtime, new_runtime, start}
use durableroutine_go.InMemory.Handler.{
  run_handler, run_outcome, run_entry, apply_context_effects, apply_queries, start_children,
  deliver_all,
}
use durableroutine_go.InMemory.Poll.{poll}
use durableroutine_go.InMemory.Machine.{
  Reach, here, next, runs, sends, polls, run_step, client_send, client_get, after_receive,
}
use durableroutine_go.Services.Encoding.{Encoding}
use durableroutine_go.Services.Order.{
  OrderInput, order_input, PlaceOrderReq, CancelOrderReq, StatusResp, OrderResult, PendingInput,
  pending_input, PlacedInput, OrderService, place_order_payload, order_input_payload,
  placed_payload, pending_payload, create_order, place_order, ship_order, register_handlers,
}
use durableroutine_go.Examples.Strings.{strings_json, strings_of, strings_of-strings_json}
use durableroutine_go.Examples.Schedules.{from, from_result, polled}
use durableroutine_go.Services.Order.Life.{IsEnd, order-IsEnd}

-- An array of the id and the items.
abbrev placed_of : Json → Result PlacedInput
placed_of (Json.array (Items.cons (Json.string id) is)) =
    strings_of is >>= λ items. ok (record { order_id = id; items = items })
placed_of _ = err "cannot unmarshal into PlacedInput"

instance abbrev placed_encoding : Encoding PlacedInput
placed_encoding = record {
  marshal = λ p. ok (Json.array (Items.cons (Json.string p.order_id) (strings_json p.items)));
  unmarshal = placed_of;
}

abbrev place_of : Json → Result (PlaceOrderReq ℕ)
place_of (Json.string id) =
    ok (record { order_id = id; items = "w" ∷ []; payment_method = "card"; total = 99 })
place_of _ = err "cannot unmarshal into PlaceOrderReq"

instance abbrev place_encoding : Encoding (PlaceOrderReq ℕ)
place_encoding = record { marshal = λ p. ok (Json.string p.order_id); unmarshal = place_of }

instance abbrev order_encoding : Encoding OrderInput
order_encoding = record { marshal = λ _. ok Json.null; unmarshal = λ _. ok order_input }

instance abbrev pending_encoding : Encoding PendingInput
pending_encoding = record { marshal = λ _. ok Json.null; unmarshal = λ _. ok pending_input }

instance abbrev cancel_encoding : Encoding CancelOrderReq
cancel_encoding = record {
  marshal = λ c. ok (Json.string c.reason);
  unmarshal = λ _. ok (record { reason = "" });
}

instance abbrev status_encoding : Encoding StatusResp
status_encoding = record {
  marshal = λ s. ok (Json.string s.status);
  unmarshal = λ _. err "not read here";
}

instance abbrev result_encoding : Encoding OrderResult
result_encoding = record {
  marshal = λ s. ok (Json.string s.status);
  unmarshal = λ _. err "not read here";
}

placed-RoundTrips : (p : PlacedInput) → RoundTrips p
placed-RoundTrips p = (_, refl, rw (strings_of-strings_json p.items) refl)

abbrev service : OrderService
service = record { expire_timeout = pos 5; ship_timeout = pos 1 }

abbrev worker_of : Result Worker → Worker
worker_of (ok w) = w
worker_of (err e) = new_worker ""

abbrev worker : Worker
worker =
    worker_of (register_handlers ℕ ⦃place = place_order_payload 0⦄ (new_worker "orders") service)

abbrev created : Runtime
created =
    from_result (new_runtime worker)
      (start (new_runtime worker) "o1" "order" "order-result" (to_any order_input))

abbrev pending : Runtime
pending =
    from created
      (run_step created "o1" "handler:order:order-result" (to_any order_input) none none (pos 0))

abbrev request : PlaceOrderReq ℕ
request = record { order_id = "ORD-1"; items = "w" ∷ []; payment_method = "card"; total = 99 }

abbrev request_any : Any
request_any = to_any ⦃p = place_order_payload 0⦄ request

abbrev sent : Runtime
sent = elim (client_send pending "o1" "order.pending" "place" "order-result" request_any) [
  | some r ↦ from_result pending r
  | none ↦ pending
]

abbrev received : Runtime
received = polled "o1" (pos 0) sent

abbrev placed : Runtime
placed = from received (
    run_step received "o1" "send:order.pending:place:order-result" (to_any pending_input)
      (some request_any) none (pos 0))

abbrev late : Runtime
late = polled "o1" (pos 100) placed

abbrev the_order : PlacedInput
the_order = record { order_id = "ORD-1"; items = "w" ∷ [] }

abbrev shipped : Runtime
shipped =
    from late (
      run_step late "o1" "handler:order.placed:order-result" (to_any the_order) none none (pos 100))

-- The schedule: the order is created, a client places it, its goroutine takes the message, the
-- timer for shipping goes off, and the order is shipped.
Reach-shipped : Reach created shipped
unfolding register_handlers register_handler register_send_handler add_entry new_worker get put
    handler_key send_key start new_runtime run_step run_handler run_outcome run_entry handler_runner
    create_order set_query_result new_context select receive_send after apply_context_effects
    apply_queries start_children start_entries deliver_all client_send send_handler_runner
    place_order ship_order done_with after_receive poll ◌+ℤ◌ strings_of
Reach-shipped =
    next
      (next
        (next
          (next
            (next
              (next here (
                runs "o1" "handler:order:order-result" (to_any order_input) none none (pos 0) refl
                  refl))
              (sends "o1" "order.pending" "place" "order-result" request_any refl))
            (polls "o1" _ _ _ (pos 0) refl refl refl))
          (runs "o1" "send:order.pending:place:order-result" (to_any pending_input)
            (some request_any) none (pos 0) refl refl))
        (polls "o1" _ _ _ (pos 100) refl refl refl))
      (runs "o1" "handler:order.placed:order-result" (to_any the_order) none none (pos 100) refl
        refl)

order-IsEnd_example :
    (inst : Instance) × (get "o1" shipped.instances ≡ some inst)
    × IsEnd {F = ℕ} 0 inst.query_results (ok (some (decoded (Json.string "shipped"))))
unfolding register_handlers register_handler register_send_handler add_entry new_worker get put
    handler_key send_key start new_runtime run_step run_handler run_outcome run_entry handler_runner
    create_order set_query_result new_context select receive_send after apply_context_effects
    apply_queries start_children start_entries deliver_all client_send send_handler_runner
    place_order ship_order done_with after_receive poll ◌+ℤ◌ strings_of client_get
order-IsEnd_example =
    order-IsEnd {F = ℕ} 0 service worker "orders" "o1" (to_any order_input) (new_runtime worker)
      created shipped (ok (some (decoded (Json.string "shipped")))) refl placed-RoundTrips here refl
      Reach-shipped refl
