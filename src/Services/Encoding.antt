-- ===== src/Services/Encoding.antt =====
-- docs/howto: the payloads of the services. A type says its kind, and `encoding/json` encodes it.
use durableroutine_go.Base.{String, Option, none, some}
use durableroutine_go.Base.Result.{Result, ok, err}
use durableroutine_go.Durable.Payload.{Json, Payload}
use durableroutine_go.Durable.Continuation.{Continuation, NoResult, no_result}
use durableroutine_go.Durable.Context.{Context}
use durableroutine_go.Durable.Worker.{HandlerOptions, default_options}
use durableroutine_go.Base.Int.{ℤ}

-- What `encoding/json` does with the values of a type.
pub record Encoding (A : Type 0) : Type 0 where
  pub marshal : A → Result Json
  pub unmarshal : Json → Result A

-- The payload of a type with the given kind and zero value.
abbrev pub of_kind : {A : Type 0} ⦃e : Encoding A⦄ → String → A → Payload A
of_kind ⦃e⦄ kind zero = record {
  durable_kind = λ _. kind;
  zero_value = zero;
  marshal = e.marshal;
  unmarshal = e.unmarshal;
}

-- What a handler returns for an error, and for what it decided otherwise.
abbrev pub returned :
    {A T : Type 0}
    → (A → Continuation T)
    → Context
    → Result A
    → Context × Option (Continuation T) × Option String
returned next ctx (ok a) = (ctx, some (next a), none)
returned next ctx (err e) = (ctx, none, some e)

-- `HandlerOptions{RetryPolicy: RetryPolicy{MaxAttempts: n}}`
abbrev pub attempts : ℤ → HandlerOptions
attempts n = record default_options {
  retry_policy = record default_options.retry_policy { max_attempts = n };
}

-- the payload of `durable.Unit`
instance abbrev pub unit_payload : ⦃e : Encoding NoResult⦄ → Payload NoResult
unit_payload = of_kind "unit" no_result
