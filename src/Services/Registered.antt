-- ===== src/Services/Registered.antt =====
-- docs/howto: every `RegisterHandlers` serves what the handlers of its service wait for.
use durableroutine_go.Base.{◌≡◌, String, true, Option, none, some, All}
use durableroutine_go.Base.Dict.{Dict, get, is_some}
use durableroutine_go.Base.Result.{Result, ok, err}
use durableroutine_go.Durable.Keys.{error_key}
use durableroutine_go.Durable.Continuation.{Case, Continuation}
use durableroutine_go.Durable.Context.{Context}
use durableroutine_go.Durable.Worker.{HandlerEntry}
use durableroutine_go.Services.Encoding.{returned}

-- The call returns, and its result has the property.
abbrev pub Ensures : {A : Type 0} → Result A → (A → Type 0) → Type 0
Ensures (ok a) P = P a
Ensures (err e) P = ⊥

-- A handler is registered under the key.
abbrev pub IsRegistered : Dict HandlerEntry → String → Type 0
IsRegistered handlers key = is_some (get key handlers) ≡ true

-- The handler under the key has a recovery handler, and that is registered too.
abbrev pub HasRecovery : Dict HandlerEntry → String → Type 0
HasRecovery handlers key = elim (get key handlers) [
  | none ↦ ⊥
  | some e ↦
      (e.options.recovery_handler_key ≡ error_key key) × IsRegistered handlers (error_key key)
]

abbrev pub IsServed : Dict HandlerEntry → Case → Type 0
IsServed handlers c = IsRegistered handlers c.handler_key

-- So for each case that a handler returned, where it did not fail.
unfoldable pub Serves :
    {T : Type 0} → Dict HandlerEntry → Context × Option (Continuation T) × Option String → Type 0
Serves handlers (ctx, none, e) = Unit
Serves handlers (ctx, some c, e) = All (IsServed handlers) c.cases

pub returned-Serves :
    {A T : Type 0} (handlers : Dict HandlerEntry) (next : A → Continuation T) (ctx : Context)
    (r : Result A)
    → ((a : A) → All (IsServed handlers) (next a).cases)
    → Serves handlers (returned next ctx r)
unfolding Serves
returned-Serves handlers next ctx (ok a) h = h a
returned-Serves handlers next ctx (err e) h = tt
