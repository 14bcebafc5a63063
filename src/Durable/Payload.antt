-- ===== src/Durable/Payload.antt =====
-- durable/routine.go: the interface `Payload`, and the values that cross the boundary between typed
-- handlers and the untyped runtime: interface values (`any`) and JSON documents
-- (`json.RawMessage`).
use durableroutine_go.Base.{String, ◌≡◌, Bool}
use durableroutine_go.Base.Int.{ℤ}
use durableroutine_go.Base.Result.{Result}

-- A JSON document. The runtime never looks inside one.
mutual
  pub data Json : Type 0 where
    null : Json
    boolean : Bool → Json
    number : ℤ → Json
    string : String → Json
    array : Items → Json
    object : Fields → Json

  pub data Items : Type 0 where
    nil : Items
    cons : Json → Items → Items

  pub data Fields : Type 0 where
    end : Fields
    field : String → Json → Fields → Fields

-- A non-nil interface value. What the code does with one is to ask its kind (of a `Payload`) and to
-- encode it: `encoding` is what `json.Marshal` returns for it. A nil interface is `none`.
pub record Any : Type 0 where
  pub kind : String
  pub encoding : Result Json

-- What `json.Unmarshal` into an `any` makes of a document: a value that has that encoding and is no
-- `Payload`.
abbrev pub decoded : Json → Any
decoded j = record { kind = ""; encoding = Result.ok j }

-- `Payload`, with the zero value of the type and its JSON encoding. `marshal` and `unmarshal` are
-- those of `encoding/json` at the type, which a type of the user's may define itself.
pub record Payload (A : Type 0) : Type 0 where
  pub durable_kind : A → String
  pub zero_value : A
  pub marshal : A → Result Json
  pub unmarshal : Json → Result A

-- The kind that a type's zero value reports: the code calls `DurableKind` on `var zero T`.
abbrev pub zero_kind : (A : Type 0) → ⦃p : Payload A⦄ → String
zero_kind A ⦃p⦄ = p.durable_kind p.zero_value

-- The conversion of a typed value to an interface value.
abbrev pub to_any : {A : Type 0} ⦃p : Payload A⦄ → A → Any
to_any ⦃p⦄ a = record { kind = p.durable_kind a; encoding = p.marshal a }

-- `DurableKind` "returns a stable string identifier": it is the same for every value of the type.
pub record HasStableKind (A : Type 0) ⦃p : Payload A⦄ : Type 0 where
  pub stable : (a : A) → p.durable_kind a ≡ p.durable_kind p.zero_value

-- A value whose encoding is read back as the value itself.
abbrev pub RoundTrips : {A : Type 0} ⦃p : Payload A⦄ → A → Type 0
RoundTrips ⦃p⦄ a = (j : Json) × (p.marshal a ≡ Result.ok j) × (p.unmarshal j ≡ Result.ok a)
