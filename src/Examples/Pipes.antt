-- ===== src/Examples/Pipes.antt =====
-- The pipeline with JSON encodings of its types.
use durableroutine_go.Base.{◌≡◌, refl, some, List, [], ◌∷◌}
use durableroutine_go.Base.Int.{pos}
use durableroutine_go.Base.Result.{Result, ok, err, ◌>>=◌}
use durableroutine_go.Durable.Payload.{Json, Items, Fields, RoundTrips}
use durableroutine_go.Durable.Continuation.{NoResult, no_result}
use durableroutine_go.Durable.Context.{new_context}
use durableroutine_go.Durable.Worker.{new_worker}
use durableroutine_go.InMemory.Handler.Effects.{addressed}
use durableroutine_go.Services.Encoding.{Encoding}
use durableroutine_go.Services.Pipeline.{
  Item, DoneMsg, done_msg, ProducerInput, ConsumerInput, ConsumerResult, item_payload,
  done_msg_payload, consumer_payload, numbered, produce, consumer_select, register_handlers,
}
use durableroutine_go.Services.Pipeline.Flow.{handlers_of, consume, produce-consume}

-- {"Seq": n, "Data": s}
abbrev item_json : Item → Json
item_json i = Json.object (
    Fields.field "Seq" (Json.number (pos i.seq))
      (Fields.field "Data" (Json.string i.item_data) Fields.end))

abbrev item_of : Json → Result Item
item_of
      (Json.object
        (Fields.field _ (Json.number (pos n)) (Fields.field _ (Json.string s) Fields.end))) =
    ok (record { seq = n; item_data = s })
item_of _ = err "cannot unmarshal into Item"

abbrev items_json : List Item → Items
items_json [] = Items.nil
items_json (i ∷ is) = Items.cons (item_json i) (items_json is)

items_of : Items → Result (List Item)
items_of Items.nil = ok []
items_of (Items.cons j js) = item_of j >>= λ i. items_of js >>= λ is. ok (i ∷ is)

items_of-items_json : (is : List Item) → items_of (items_json is) ≡ ok is
unfolding items_of
items_of-items_json [] = refl
items_of-items_json (i ∷ is) = rw (items_of-items_json is) refl

instance abbrev item_encoding : Encoding Item
item_encoding = record { marshal = λ i. ok (item_json i); unmarshal = item_of }

instance abbrev done_encoding : Encoding DoneMsg
done_encoding = record { marshal = λ _. ok Json.null; unmarshal = λ _. ok done_msg }

abbrev consumer_of : Json → Result ConsumerInput
consumer_of
      (Json.object (Fields.field _ (Json.string n) (Fields.field _ (Json.array is) Fields.end))) =
    items_of is >>= λ received. ok (record { name = n; received = received })
consumer_of _ = err "cannot unmarshal into ConsumerInput"

instance abbrev consumer_encoding : Encoding ConsumerInput
consumer_encoding = record {
  marshal = λ s. ok (
      Json.object (
        Fields.field "Name" (Json.string s.name)
          (Fields.field "Received" (Json.array (items_json s.received)) Fields.end)));
  unmarshal = consumer_of;
}

instance abbrev result_encoding : Encoding ConsumerResult
result_encoding = record {
  marshal = λ r. ok (Json.array (items_json r.received));
  unmarshal = λ _. err "not read here";
}

instance abbrev producer_encoding : Encoding ProducerInput
producer_encoding = record {
  marshal = λ p. ok (Json.string p.consumer_routine_id);
  unmarshal = λ _. err "not read here";
}

instance abbrev no_result_encoding : Encoding NoResult
no_result_encoding = record { marshal = λ _. ok Json.null; unmarshal = λ _. ok no_result }

item-RoundTrips : (i : Item) → RoundTrips i
item-RoundTrips i = (item_json i, refl, refl)

done-RoundTrips : RoundTrips done_msg
done-RoundTrips = (Json.null, refl, refl)

consumer-RoundTrips : (s : ConsumerInput) → RoundTrips s
consumer-RoundTrips s = (_, refl, rw (items_of-items_json s.received) refl)

abbrev input : ProducerInput
input = record { items = "a" ∷ "b" ∷ []; consumer_routine_id = "c1" }

abbrev consumer : ConsumerInput
consumer = record { name = "c"; received = [] }

abbrev received : List Item
received = record { seq = 0; item_data = "a" } ∷ record { seq = 1; item_data = "b" } ∷ []

produce-consume_example :
    consume
      (handlers_of (register_handlers (new_worker "pipeline")))
      "c1"
      (consumer_select consumer).cases
      (addressed "c1" (produce (new_context "p1") input).0.send_requests)
    ≡ some (ok (some (Json.array (items_json received))))
unfolding numbered
produce-consume_example =
    produce-consume "p1" input consumer (Json.array (items_json received)) consumer-RoundTrips
      item-RoundTrips done-RoundTrips refl
