-- ===== src/Temporal/Options.antt =====
-- backend/temporal/workflow.go: the activity options and the recovery handler of a key.
pub mod Int32
use durableroutine_go.Base.{
  ℕ, ◌+◌, ◌-◌, ◌%◌, String, ◌==◌, Bool, true, false, ◌||◌, Option, none, some, ltb, if◌then◌else◌,
}
use durableroutine_go.Base.Int.{ℤ, pos, negsuc, pos_part, neg_part, sub_ℕ, is_positive}
use durableroutine_go.Base.Dict.{Dict, get, is_some}
use durableroutine_go.Durable.Worker.{
  Float64, is_positive_float, RetryPolicy, HandlerOptions, HandlerEntry,
}

-- The SDK's `temporal.RetryPolicy` and `workflow.ActivityOptions`, as far as the code sets them.
pub record SdkRetryPolicy : Type 0 where
  pub maximum_attempts : ℤ
  pub initial_interval : ℤ
  pub maximum_interval : ℤ
  pub backoff_coefficient : Float64

pub record ActivityOptions : Type 0 where
  pub start_to_close_timeout : ℤ
  pub schedule_to_close_timeout : ℤ
  pub retry_policy : Option SdkRetryPolicy

-- int32(n): the low 32 bits, read with their sign.
unfoldable pub to_int32 : ℤ → ℤ
to_int32 n =
    let low = (pos_part n % 4294967296 + 4294967296 - neg_part n % 4294967296) % 4294967296 in
    if ltb low 2147483648 then pos low else sub_ℕ low 4294967296

-- 30 * time.Second
abbrev pub default_timeout : ℤ
default_timeout = pos 30_000_000_000

abbrev choose : ℤ → ℤ → ℤ
choose given otherwise = if is_positive given then given else otherwise

abbrev is_set : RetryPolicy → Bool
is_set rp =
    is_positive rp.max_attempts
    || is_positive rp.initial_interval
    || is_positive rp.max_interval
    || is_positive_float rp.backoff_coefficient

unfoldable pub sdk_retry_policy : RetryPolicy → Option SdkRetryPolicy
unfolding to_int32
sdk_retry_policy rp =
    if is_set rp
    then some (record {
      maximum_attempts = if is_positive rp.max_attempts then to_int32 rp.max_attempts else pos 0;
      initial_interval = choose rp.initial_interval (pos 0);
      maximum_interval = choose rp.max_interval (pos 0);
      backoff_coefficient =
          if is_positive_float rp.backoff_coefficient then rp.backoff_coefficient else 0;
    })
    else none

-- `lookupActivityOptions`
unfoldable pub lookup_activity_options : Dict HandlerEntry → String → ActivityOptions
unfolding sdk_retry_policy
lookup_activity_options reg handler_key = elim (get handler_key reg) [
  | none ↦ record {
    start_to_close_timeout = default_timeout;
    schedule_to_close_timeout = pos 0;
    retry_policy = none;
  }
  | some entry ↦ record {
    start_to_close_timeout = choose entry.options.start_to_close_timeout default_timeout;
    schedule_to_close_timeout = choose entry.options.schedule_to_close_timeout (pos 0);
    retry_policy = sdk_retry_policy entry.options.retry_policy;
  }
]

-- `lookupRecoveryHandlerKey`
unfoldable pub lookup_recovery_handler_key : Dict HandlerEntry → String → String
lookup_recovery_handler_key reg handler_key = elim (get handler_key reg) [
  | none ↦ ""
  | some entry ↦
      let te_key = entry.options.recovery_handler_key in
      if te_key == "" then "" else elim (get te_key reg) [ none ↦ "" | some _ ↦ te_key ]
]
