-- ===== src/Durable/Worker.antt =====
-- durable/worker.go and durable/options.go, with the types of durable/routine.go that a worker's
-- registry holds: runners and what they return.
use durableroutine_go.Base.{ℕ, String, ◌<>◌, Bool, ◌&&◌, Option, none, some, List, [], ltb, leb}
use durableroutine_go.Base.Int.{ℤ, pos}
use durableroutine_go.Base.Dict.{Dict, get, put}
use durableroutine_go.Base.Result.{Result, ok, err}
use durableroutine_go.Durable.Keys.{error_key}
use durableroutine_go.Durable.Payload.{Json}
use durableroutine_go.Durable.Continuation.{Case}
use durableroutine_go.Durable.Context.{Context}

-- A float64 as its IEEE 754 bit pattern. Its one use here is the test `> 0`: the pattern of a
-- positive number, +Inf included.
abbrev pub Float64 : Type 0
Float64 = ℕ

abbrev pub is_positive_float : Float64 → Bool
is_positive_float b = ltb 0 b && leb b 0x7ff0_0000_0000_0000

-- `RetryPolicy`; intervals are in nanoseconds
pub record RetryPolicy : Type 0 where
  pub max_attempts : ℤ
  pub initial_interval : ℤ
  pub max_interval : ℤ
  pub backoff_coefficient : Float64

-- `HandlerOptions`; `RecoveryHandlerKey` is the last field
pub record HandlerOptions : Type 0 where
  pub retry_policy : RetryPolicy
  pub start_to_close_timeout : ℤ
  pub schedule_to_close_timeout : ℤ
  pub recovery_handler_key : String

-- `HandlerOptions{}`
abbrev pub default_options : HandlerOptions
default_options = record {
  retry_policy = record {
    max_attempts = pos 0;
    initial_interval = pos 0;
    max_interval = pos 0;
    backoff_coefficient = 0;
  };
  start_to_close_timeout = pos 0;
  schedule_to_close_timeout = pos 0;
  recovery_handler_key = "";
}

-- `RunOutput`; a nil `json.RawMessage` is `none`
pub record RunOutput : Type 0 where
  pub done : Bool
  pub result : Option Json
  pub cases : List Case
  pub call_response : Option Json

-- `HandlerRunner`: it runs on a context, which it leaves with the effects that the handler
-- buffered, also when it fails.
abbrev pub HandlerRunner : Type 0
HandlerRunner = Context → Option Json → Option Json → String → Context × Result RunOutput

-- `handlerEntry` and `HandlerEntry`. The handler's function value, which is carried beside the
-- runner and never read, is left out.
pub record HandlerEntry : Type 0 where
  pub options : HandlerOptions
  pub runner : HandlerRunner

pub record Worker : Type 0 where
  pub task_queue : String
  pub handlers : Dict HandlerEntry

-- `NewWorker`
unfoldable pub new_worker : String → Worker
new_worker task_queue = record { task_queue = task_queue; handlers = [] }

-- `addEntry`; the panic is an error
unfoldable pub add_entry : Worker → String → HandlerRunner → HandlerOptions → Result Worker
add_entry w key runner opts = elim (get key w.handlers) [
  | some _ ↦ err ("durable: handler already registered for key: " <> key)
  | none ↦
      ok (record w { handlers = put key (record { options = opts; runner = runner }) w.handlers })
]

-- The zero value of `handlerEntry`, which a map read of a missing key gives: a call of its nil
-- runner is a panic.
abbrev zero_entry : HandlerEntry
zero_entry = record {
  options = default_options;
  runner = λ c _ _ _. (c, err "invalid memory address or nil pointer dereference");
}

-- `registerRecoveryHandler`
unfoldable pub register_recovery_handler : Worker → String → HandlerRunner → HandlerOptions → Worker
register_recovery_handler w primary_key runner opts =
    let with_error =
      put (error_key primary_key) (record { options = opts; runner = runner }) w.handlers in
    let entry : HandlerEntry = elim (get primary_key with_error) [
      | none ↦ zero_entry
      | some e ↦ e
    ] in
    record w {
      handlers =
          put primary_key
            (record entry {
              options = record entry.options { recovery_handler_key = error_key primary_key };
            })
            with_error;
    }
