-- ===== src/Examples/Counter.antt =====
-- A routine that counts: its types, and handlers in the manner of docs/howto.
use durableroutine_go.Base.{String, refl, Option, none, some}
use durableroutine_go.Base.Int.{ℤ, pos, ◌+ℤ◌}
use durableroutine_go.Base.Result.{Result, ok, err}
use durableroutine_go.Durable.Payload.{Json, Payload, HasStableKind, RoundTrips}
use durableroutine_go.Durable.Continuation.{Continuation, done_with}
use durableroutine_go.Durable.Context.{Context}

-- The state, the message and the result.
pub data Counter : Type 0 where
  counter : ℤ → Counter

pub data Add : Type 0 where
  add : ℤ → Add

pub data Total : Type 0 where
  total : ℤ → Total

abbrev as_number : {A : Type 0} → (ℤ → A) → Json → Result A
as_number f (Json.number n) = ok (f n)
as_number f Json.null = ok (f (pos 0))
as_number f (Json.boolean b) = err "cannot unmarshal bool"
as_number f (Json.string s) = err "cannot unmarshal string"
as_number f (Json.array a) = err "cannot unmarshal array"
as_number f (Json.object o) = err "cannot unmarshal object"

instance abbrev pub counter_payload : Payload Counter
counter_payload = record {
  durable_kind = λ _. "counter";
  zero_value = counter (pos 0);
  marshal = λ c. elim c [ counter n ↦ ok (Json.number n) ];
  unmarshal = as_number counter;
}

instance abbrev pub add_payload : Payload Add
add_payload = record {
  durable_kind = λ _. "add";
  zero_value = add (pos 0);
  marshal = λ a. elim a [ add n ↦ ok (Json.number n) ];
  unmarshal = as_number add;
}

instance abbrev pub total_payload : Payload Total
total_payload = record {
  durable_kind = λ _. "total";
  zero_value = total (pos 0);
  marshal = λ t. elim t [ total n ↦ ok (Json.number n) ];
  unmarshal = as_number total;
}

pub counter-HasStableKind : HasStableKind Counter
counter-HasStableKind = record { stable = λ c. refl }

pub add-HasStableKind : HasStableKind Add
add-HasStableKind = record { stable = λ a. refl }

pub counter-RoundTrips : (n : ℤ) → RoundTrips (counter n)
counter-RoundTrips n = (Json.number n, refl, refl)

pub add-RoundTrips : (n : ℤ) → RoundTrips (add n)
add-RoundTrips n = (Json.number n, refl, refl)

pub total-RoundTrips : (n : ℤ) → RoundTrips (total n)
total-RoundTrips n = (Json.number n, refl, refl)

-- The first handler ends at once; the second adds a message and ends; the third answers a call.
abbrev pub report : Context → Counter → Context × Option (Continuation Total) × Option String
report ctx (counter n) = (ctx, some (done_with (total n)), none)

abbrev pub on_add : Context → Counter → Add → Context × Option (Continuation Total) × Option String
on_add ctx (counter n) (add m) = (ctx, some (done_with (total (n +ℤ m))), none)

abbrev pub on_call :
    Context → Counter → Add → Context × Total × Option (Continuation Total) × Option String
on_call ctx (counter n) (add m) = (ctx, total (n +ℤ m), some (done_with (total n)), none)

-- A handler that fails, and its recovery handler.
abbrev pub refuse : Context → Counter → Context × Option (Continuation Total) × Option String
refuse ctx c = (ctx, none, some "out of stock")

abbrev pub give_up :
    Context → Counter → String → Context × Option (Continuation Total) × Option String
give_up ctx (counter n) e = (ctx, some (done_with (total n)), none)
