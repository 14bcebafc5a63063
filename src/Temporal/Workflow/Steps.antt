-- ===== src/Temporal/Workflow/Steps.antt =====
-- backend/temporal/workflow.go: the executions of `RoutineWorkflow`, as steps of the workflow and
-- of the update handlers, in any order that the SDK allows.
pub mod Panics
pub mod Responses
pub mod Views
pub mod Messages
pub mod Waits
use durableroutine_go.Base.{
  ◌≡◌, ℕ, String, ◌==◌, Bool, true, false, Option, none, some, List, [], ◌∷◌, ◌++◌, get_elem?,
}
use durableroutine_go.Base.Int.{ℤ}
use durableroutine_go.Durable.Payload.{Json}
use durableroutine_go.Temporal.Types.{WorkflowInput, SerializedCase}
use durableroutine_go.Temporal.Workflow.{
  Execution, Phase, Workflow, looping, selecting, draining, completed, failed, continued_as_new,
  panicked, begin,
}
use durableroutine_go.Temporal.Workflow.Select.{
  Choice, timer, call, signal, default, pass, can_check, select_branch, drain, receive_update,
}

-- Behind the selector, unless a branch panicked.
unfoldable pub after_branch : Execution → Bool → ℤ → Phase → Workflow → Workflow
unfolding can_check
after_branch x suggested history_length (selecting cases) w = can_check x suggested history_length w
after_branch x suggested history_length phase w = w

-- The branches that the selector has: a timer, a signal, a default by its case, and the calls once
-- a value came on `callNotifyCh`. Which of them it takes is the SDK's choice.
abbrev pub Offers : List SerializedCase → Workflow → Choice → Type 0
Offers cases w (timer i) =
    (c : SerializedCase) × (d : ℤ) × (get_elem? cases i ≡ some c) × (c.timer_duration ≡ some d)
Offers cases w call = w.notified ≡ true
Offers cases w (signal i msg) =
    (c : SerializedCase) × (get_elem? cases i ≡ some c) × ((c.send_name == "") ≡ false)
Offers cases w (default i) =
    (c : SerializedCase) × (get_elem? cases i ≡ some c) × (c.immediate ≡ true)

-- The workflow function has not returned.
abbrev pub is_live : Phase → Bool
is_live looping = true
is_live (selecting cases) = true
is_live draining = true
is_live (completed result) = false
is_live (failed e) = false
is_live (continued_as_new input) = false
is_live panicked = false

-- One step, with the response channels of the calls that it receives. A value sent on the
-- unbuffered `callNotifyCh` is taken only by a selector that waits.
pub data Step (x : Execution) (w : Workflow) (w' : Workflow) : List ℕ → Type 0 where
  passes :
      (suggested : Bool) (history_length : ℤ)
      → w.phase ≡ looping
      → w' ≡ pass x suggested history_length w
      → Step x w w' []
  selects :
      (cases : List SerializedCase) (choice : Choice) (suggested : Bool) (history_length : ℤ)
      → w.phase ≡ selecting cases
      → Offers cases w choice
      → w'
        ≡ after_branch x suggested history_length
            (select_branch x cases choice w).phase
            (select_branch x cases choice w)
      → Step x w w' []
  drains : w.phase ≡ draining → w' ≡ drain x w.pending_calls w → Step x w w' []
  updates :
      (i : ℕ) (c : SerializedCase) (req : Json) (ch : ℕ) (heard : Bool)
      → is_live w.phase ≡ true
      → get_elem? w.update_handlers i ≡ some c
      → (heard ≡ true → (cases : List SerializedCase) × (w.phase ≡ selecting cases))
      → w' ≡ receive_update c req ch heard w
      → Step x w w' (ch ∷ [])

-- An execution from its input, with the response channels of all the calls received, in order.
pub data Reach (x : Execution) (input : WorkflowInput) : Workflow → List ℕ → Type 0 where
  begun : Reach x input (begin x input) []
  step :
      {w w' : Workflow} {chs new : List ℕ}
      → Reach x input w chs
      → Step x w w' new
      → Reach x input w' (chs ++ new)
