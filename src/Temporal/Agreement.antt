-- ===== src/Temporal/Agreement.antt =====
-- Where the two backends run a handler: backend/inmemory/runtime.go (`runHandler`), and
-- backend/temporal/activities.go with the activity calls of backend/temporal/workflow.go.
pub mod Queries
pub mod Effects
use durableroutine_go.Base.{◌≡◌, ℕ, String, ◌==◌, true, Option, some, if◌then◌else◌}
use durableroutine_go.Base.Dict.{Dict, get}
use durableroutine_go.Base.Result.{Result, ok, err}
use durableroutine_go.Durable.Payload.{Json}
use durableroutine_go.Durable.Context.{Context, new_context}
use durableroutine_go.Durable.Worker.{HandlerEntry, RunOutput}
use durableroutine_go.InMemory.Handler.{settle}
use durableroutine_go.Temporal.Types.{ActivityInput, ActivityOutput}
use durableroutine_go.Temporal.Activity.{capture, run_handler_activity}
use durableroutine_go.Temporal.Options.{lookup_activity_options, lookup_recovery_handler_key}
use durableroutine_go.Temporal.Workflow.{Execution, execute}

-- The SDK runs each activity once, on the registry.
pub record RunsOnce (x : Execution) : Type 0 where
  pub runs_once :
      (n : ℕ) (input : ActivityInput)
      → x.sdk.execute_activity n (lookup_activity_options x.reg input.handler_key) input
        ≡ run_handler_activity x.reg input

abbrev pub captured : Result (Context × RunOutput) → Result ActivityOutput
captured (ok (c, out)) = capture c out
captured (err e) = err e

-- The key that is looked up, by the two tests of the code.
pub lookup_recovery-none :
    (reg : Dict HandlerEntry) (key : String) (entry : HandlerEntry)
    → get key reg ≡ some entry
    → (entry.options.recovery_handler_key == "") ≡ true
    → lookup_recovery_handler_key reg key ≡ ""
unfolding lookup_recovery_handler_key
lookup_recovery-none reg key entry h q = rw (h, lookup_recovery_handler_key) (simp q)

-- The end of `execute_with_recovery` on the handler's error `e`.
abbrev on_error :
    Execution → ℕ → String → Option Json → Option Json → String → Result ActivityOutput
on_error x n te_key raw msg e = if te_key == "" then err e else execute x n te_key raw msg e

-- What the runner of a handler without an error leaves can be serialized.
abbrev pub IsSerializable : HandlerEntry → String → Json → Option Json → Type 0
IsSerializable entry id raw msg =
    (c : Context) (out : RunOutput)
    → settle (entry.runner (new_context id) (some raw) msg "") ≡ ok (c, out)
    → (a : ActivityOutput) × (capture c out ≡ ok a)
