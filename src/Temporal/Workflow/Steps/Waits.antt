-- ===== src/Temporal/Workflow/Steps/Waits.antt =====
-- backend/temporal/workflow.go: a call whose handler fails leaves the routine waiting as before.
use durableroutine_go.Base.{◌≡◌, ℕ, String, false, some, List, [], ◌∷◌, ◌++◌}
use durableroutine_go.Base.Result.{err}
use durableroutine_go.Temporal.Types.{ActivityOutput, SerializedCase, empty_output}
use durableroutine_go.Temporal.Workflow.{PendingCall, Workflow, selecting, respond}

-- The cases with which the code enters the selector: some, and not a lone immediate one.
abbrev pub IsWait : List SerializedCase → Type 0
IsWait [] = ⊥
IsWait (c ∷ []) = c.immediate ≡ false
IsWait (c ∷ d ∷ cs) = Unit {0}

-- The output that a failed call leaves for the next pass.
abbrev same_wait : List SerializedCase → ActivityOutput
same_wait cases = record empty_output { continuation = some (record { cases = cases }) }

-- The workflow `u` behind the selector has answered the call with the error, and the workflow `w'`
-- waits on the cases that `w` waited on, with the same variables.
abbrev pub WaitsAgain :
    List SerializedCase → PendingCall → List PendingCall → String → (w u w' : Workflow) → Type 0
WaitsAgain cases pc pcs e w u w' =
    (u.commands ≡ w.commands ++ respond pc.response_ch (err e) ∷ [])
    × (w'.phase ≡ selecting cases)
    × (w'.pending_calls ≡ pcs)
    × (w'.handler_key ≡ w.handler_key)
    × (w'.handler_input ≡ w.handler_input)
    × (w'.message ≡ w.message)
    × (w'.all_query_results ≡ w.all_query_results)
    × (w'.query_handlers ≡ w.query_handlers)

abbrev failed_call :
    List SerializedCase → PendingCall → List PendingCall → ℕ → String → Workflow → Workflow
failed_call cases pc pcs n e w = record w {
  pending_calls = pcs;
  notified = false;
  executed = n;
  commands = w.commands ++ respond pc.response_ch (err e) ∷ [];
  call_handler_output = some (same_wait cases);
}
