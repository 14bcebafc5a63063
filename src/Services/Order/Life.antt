-- ===== src/Services/Order/Life.antt =====
-- docs/howto/order/order.go: an order in the in-memory runtime, from its start to its end.
use durableroutine_go.Base.{◌≡◌, refl, sym, subst, ◌⊎◌, inl, inr, String, Option, some}
use durableroutine_go.Base.Dict.{Dict, get, put, get-put}
use durableroutine_go.Base.Result.{Result, ok, err, ok-injective}
use durableroutine_go.Durable.Keys.{handler_key, send_key}
use durableroutine_go.Durable.Payload.{Any, Json, RoundTrips, decoded, to_any}
use durableroutine_go.Durable.Context.{new_context, set_query_result}
use durableroutine_go.Durable.Continuation.{after, receive_send, select, select_cases, done_with}
use durableroutine_go.Durable.Worker.{
  HandlerEntry, HandlerRunner, Worker, default_options, new_worker, add_entry,
}
use durableroutine_go.Durable.Routine.{handler_runner, send_handler_runner}
use durableroutine_go.Durable.Registration.{register_handler, register_send_handler}
use durableroutine_go.InMemory.Runtime.{Runtime, Instance, new_runtime, start}
use durableroutine_go.InMemory.Handler.{merge_queries, run_outcome}
use durableroutine_go.InMemory.Machine.{Reach, client_get}
use durableroutine_go.InMemory.Machine.Protocol.{Protocol, GoesOn}
use durableroutine_go.InMemory.Machine.Protocol.Ends.{protocol-client_get}
use durableroutine_go.InMemory.Machine.Protocol.Typed.{
  MayFail, Encodes, Encodes-unique, Returns, Continues, handler-GoesOn, send_handler-GoesOn,
}
use durableroutine_go.Services.Encoding.{Encoding}
use durableroutine_go.Services.Order.{
  OrderInput, PlaceOrderReq, CancelOrderReq, StatusResp, OrderResult, PendingInput, PlacedInput,
  OrderService, place_order_payload, status_resp_payload, order_result_payload, pending_payload,
  placed_payload, order_input_payload, cancel_order_payload, create_order, place_order,
  cancel_order, ship_order, expire_order, register_handlers,
}

module _ {F : Type 0} (nought : F) ⦃place : Encoding (PlaceOrderReq F)⦄
    ⦃order : Encoding OrderInput⦄ ⦃cancel : Encoding CancelOrderReq⦄
    ⦃status_resp : Encoding StatusResp⦄ ⦃order_result : Encoding OrderResult⦄
    ⦃pending : Encoding PendingInput⦄ ⦃placed : Encoding PlacedInput⦄ where
  -- What a query for the status of the order shows.
  abbrev pub Shows : Dict Any → String → String → Type 0
  Shows m status order_id =
      get "get-order-status" m
      ≡ some (to_any {A = StatusResp} (record { status = status; order_id = order_id }))

  -- The handler that may run next.
  data Stage (m : Dict Any) (input : Any) : String → Type 0 where
    creates : Stage m input "handler:order:order-result"
    places : Shows m "pending" "" → Stage m input "send:order.pending:place:order-result"
    expires : Shows m "pending" "" → Stage m input "handler:order.pending:order-result"
    cancels :
        (p : PlacedInput)
        → input ≡ to_any p
        → Shows m "placed" p.order_id
        → Stage m input "send:order.placed:cancel:order-result"
    ships :
        (p : PlacedInput)
        → input ≡ to_any p
        → Shows m "placed" p.order_id
        → Stage m input "handler:order.placed:order-result"

  -- A result, and the status that is shown beside it.
  abbrev pub IsFor : Dict Any → OrderResult → Type 0
  IsFor m r =
      ((r.status ≡ "timed_out") × (r.order_id ≡ "") × Shows m "pending" "")
      ⊎ (((r.status ≡ "cancelled") ⊎ (r.status ≡ "shipped")) × Shows m "placed" r.order_id)

  pub data IsEnd (m : Dict Any) : Result (Option Any) → Type 0 where
    fails : (e : String) → IsEnd m (err e)
    ends :
        (r : OrderResult) (j : Json)
        → order_result.marshal r ≡ ok j
        → IsFor m r
        → IsEnd m (ok (some (decoded j)))

  abbrev life : Protocol
  life = record { Enters = λ m key input. Stage m input key; Ends = IsEnd }

  life-MayFail : MayFail life
  life-MayFail = record { may_fail = λ m e. fails e }

  shown :
      (m : Dict Any) (status order_id : String)
      → Shows
          (put "get-order-status"
            (to_any {A = StatusResp} (record { status = status; order_id = order_id }))
            m)
          status
          order_id
  shown m status order_id = rw get-put refl

  module _ (s : OrderService) where
    create_order-Returns :
        (m : Dict Any) (id : String) (x : OrderInput)
        → Returns life m (create_order F ⦃place = place_order_payload nought⦄ s (new_context id) x)
    unfolding create_order set_query_result new_context select select_cases receive_send after
        merge_queries send_key handler_key
    create_order-Returns m id x = record {
      ends = λ e. cc;
      enters = λ _. (places (shown m "pending" ""), (expires (shown m "pending" ""), tt));
    }

    place_order-Returns :
        (m : Dict Any) (id : String) (x : PendingInput) (y : PlaceOrderReq F)
        → Returns life m (place_order F ⦃place = place_order_payload nought⦄ s (new_context id) x y)
    unfolding place_order set_query_result new_context select select_cases receive_send after
        merge_queries send_key handler_key
    place_order-Returns m id x y =
        let p : PlacedInput = record { order_id = y.order_id; items = y.items } in
        record {
          ends = λ e. cc;
          enters = λ _. (
            cancels p refl (shown m "placed" y.order_id),
            (ships p refl (shown m "placed" y.order_id), tt),
          );
        }

    -- The order ends with a result that fits the status.
    done_with-Continues :
        (m : Dict Any) (id : String) (r : OrderResult)
        → IsFor m r
        → Continues life m (new_context id) (done_with r)
    unfolding done_with new_context merge_queries
    done_with-Continues m id r fits = record { ends = λ _ j e. ends r j e fits; enters = λ e. cc }

    expire_order-Returns :
        (m : Dict Any) (id : String) (x : PendingInput)
        → Shows m "pending" ""
        → Returns life m (expire_order (new_context id) x)
    unfolding expire_order
    expire_order-Returns m id x h = done_with-Continues m id _ (inl (refl, refl, h))

    cancel_order-Returns :
        (m : Dict Any) (id : String) (x : PlacedInput) (y : CancelOrderReq)
        → Shows m "placed" x.order_id
        → Returns life m (cancel_order (new_context id) x y)
    unfolding cancel_order
    cancel_order-Returns m id x y h = done_with-Continues m id _ (inr (inl refl, h))

    ship_order-Returns :
        (m : Dict Any) (id : String) (x : PlacedInput)
        → Shows m "placed" x.order_id
        → Returns life m (ship_order (new_context id) x)
    unfolding ship_order
    ship_order-Returns m id x h = done_with-Continues m id _ (inr (inr refl, h))

    -- The order that was placed is the one that the next handler is given.
    given :
        (m : Dict Any) (input : Any) (p x : PlacedInput)
        → ((q : PlacedInput) → RoundTrips q)
        → input ≡ to_any p
        → Encodes input x
        → Shows m "placed" p.order_id
        → Shows m "placed" x.order_id
    given m input p x rt e enc h =
        let same = Encodes-unique p x (rt p) (subst (λ i. Encodes i x) e enc) in
        subst (λ (q : PlacedInput). Shows m "placed" q.order_id) (sym same) h

    -- An entry that a registration makes.
    abbrev entry : HandlerRunner → HandlerEntry
    entry runner = record { options = default_options; runner = runner }

    record Registry (hs : Dict HandlerEntry) : Type 0 where
      create :
          get "handler:order:order-result" hs
          ≡ some (
              entry (
                handler_runner "handler:order:order-result"
                  (create_order F ⦃place = place_order_payload nought⦄ s)))
      place_one :
          get "send:order.pending:place:order-result" hs
          ≡ some (
              entry (
                send_handler_runner ⦃e = place_order_payload nought⦄
                  "send:order.pending:place:order-result"
                  (place_order F ⦃place = place_order_payload nought⦄ s)))
      expire :
          get "handler:order.pending:order-result" hs
          ≡ some (entry (handler_runner "handler:order.pending:order-result" expire_order))
      cancel_one :
          get "send:order.placed:cancel:order-result" hs
          ≡ some (entry (send_handler_runner "send:order.placed:cancel:order-result" cancel_order))
      ship :
          get "handler:order.placed:order-result" hs
          ≡ some (entry (handler_runner "handler:order.placed:order-result" ship_order))

    module _ (hs : Dict HandlerEntry) (registry : Registry hs) (id : String)
        (rt : (q : PlacedInput) → RoundTrips q) (m : Dict Any) (input : Any)
        (msg : Option Any) where
      stage-GoesOn :
          (key : String) → Stage m input key → GoesOn life m (run_outcome hs id key input msg)
      stage-GoesOn key creates =
          handler-GoesOn life m life-MayFail hs id key _ default_options input msg registry.create
            refl (λ x e. create_order-Returns m id x)
      stage-GoesOn key (places q) =
          send_handler-GoesOn life m life-MayFail ⦃e = place_order_payload nought⦄ hs id key _
            default_options input msg registry.place_one refl
            (λ x y e. place_order-Returns m id x y)
      stage-GoesOn key (expires q) =
          handler-GoesOn life m life-MayFail hs id key _ default_options input msg registry.expire
            refl (λ x e. expire_order-Returns m id x q)
      stage-GoesOn key (cancels p i q) =
          send_handler-GoesOn life m life-MayFail hs id key _ default_options input msg
            registry.cancel_one refl
            (λ x y e. cancel_order-Returns m id x y (given m input p x rt i e q))
      stage-GoesOn key (ships p i q) =
          handler-GoesOn life m life-MayFail hs id key _ default_options input msg registry.ship
            refl (λ x e. ship_order-Returns m id x (given m input p x rt i e q))

    registered :
        (w : Worker) (task_queue : String)
        → register_handlers F ⦃place = place_order_payload nought⦄ (new_worker task_queue) s ≡ ok w
        → Registry w.handlers
    unfolding register_handlers register_handler register_send_handler add_entry new_worker get put
        handler_key send_key
    registered w task_queue h =
        subst (λ (v : Worker). Registry v.handlers) (ok-injective _ w h)
          (record {
            create = refl;
            place_one = refl;
            expire = refl;
            cancel_one = refl;
            ship = refl;
          })

    -- In a program whose worker has the handlers of the order service: whatever else runs, and
    -- whatever messages the order is sent, once `Get` returns for an order it returns an error, or a
    -- result that agrees with what a query for the order's status shows: timed out, where the status
    -- is pending, or cancelled or shipped, with the id of the order that was placed, where the status
    -- is placed. The states of placed orders survive their encoding.
    pub order-IsEnd :
        (w : Worker) (task_queue id : String) (input : Any) (r r' t : Runtime)
        (x : Result (Option Any))
        → register_handlers F ⦃place = place_order_payload nought⦄ (new_worker task_queue) s ≡ ok w
        → ((q : PlacedInput) → RoundTrips q)
        → Reach (new_runtime w) r
        → start r id "order" "order-result" input ≡ ok r'
        → Reach r' t
        → client_get t id ≡ some x
        → (inst : Instance) × (get id t.instances ≡ some inst) × IsEnd inst.query_results x
    unfolding handler_key
    order-IsEnd w task_queue id input r r' t x h rt before started after e =
        protocol-client_get w id "order" "order-result" life input r r' t x
          (record {
            keeps = λ m key input msg stage.
                stage-GoesOn w.handlers (registered w task_queue h) id rt m input msg key stage;
          })
          creates before started after e
