-- ===== src/Temporal/Workflow/Select.antt =====
-- backend/temporal/workflow.go: the rest of the loop of `RoutineWorkflow`: the continuation's
-- cases, what the selector's branches do, and continue-as-new.
use durableroutine_go.Base.{
  ℕ, zero, suc, String, ◌<>◌, Bool, false, ◌||◌, Option, none, some, List, [], ◌∷◌, ◌++◌, get_elem?,
  if◌then◌else◌,
}
use durableroutine_go.Base.Int.{ℤ, ltb_ℤ, is_positive}
use durableroutine_go.Base.Dict.{is_some}
use durableroutine_go.Base.Result.{Result, ok, err}
use durableroutine_go.Durable.Payload.{Json}
use durableroutine_go.Temporal.Types.{
  ActivityOutput, SerializedContinuation, SerializedCase, empty_output,
}
use durableroutine_go.Temporal.Queries.{merge_query_results}
use durableroutine_go.Temporal.Workflow.{
  Execution, PendingCall, Workflow, looping, draining, completed, continued_as_new, panicked,
  respond, failing, set_query_handlers, execute, execute_with_recovery, start_commands,
  signal_commands, enter_select,
}

-- `continueAsNewCheck`: the SDK's suggestion and the history's length are the SDK's to say.
unfoldable pub should_continue_as_new : Execution → Bool → ℤ → Workflow → Bool
should_continue_as_new x suggested history_length w =
    if is_some w.call_handler_output
    then false
    else suggested
      || (if is_positive x.max_history_length
          then ltb_ℤ x.max_history_length history_length
          else false)

unfoldable pub can_check : Execution → Bool → ℤ → Workflow → Workflow
unfolding should_continue_as_new
can_check x suggested history_length w =
    if should_continue_as_new x suggested history_length w
    then record w { phase = draining }
    else record w { phase = looping }

-- The assignments of a branch: the case's handler and input come next.
abbrev pub take_case : SerializedCase → Workflow → Workflow
take_case c w = record w { handler_key = c.handler_key; handler_input = some c.input }

-- 5. and 6.: the workflow ends, goes on at once, or waits.
unfoldable pub interpret_cases : Execution → Bool → ℤ → List SerializedCase → Workflow → Workflow
unfolding can_check enter_select
interpret_cases x suggested history_length [] w =
    failing ("handler " <> w.handler_key <> " returned no continuation cases and is not done") w
interpret_cases x suggested history_length (c ∷ []) w =
    if c.immediate
    then can_check x suggested history_length (take_case c w)
    else enter_select (c ∷ []) w
interpret_cases x suggested history_length (c ∷ d ∷ cs) w = enter_select (c ∷ d ∷ cs) w

abbrev pub cases_of : Option SerializedContinuation → List SerializedCase
cases_of none = []
cases_of (some cont) = cont.cases

-- 2. to 4.: the merge of the query results, the child starts and the signals
unfoldable pub apply_effects : ActivityOutput → Workflow → Workflow
unfolding start_commands signal_commands
apply_effects output w = record w {
  all_query_results = merge_query_results w.all_query_results output.query_results;
  commands =
      w.commands ++ (start_commands output.start_requests ++ signal_commands output.send_requests);
}

-- 5. and 6.
unfoldable pub finish_or_wait : Execution → Bool → ℤ → ActivityOutput → Workflow → Workflow
unfolding interpret_cases
finish_or_wait x suggested history_length output w =
    if output.done
    then record w { phase = completed output.result }
    else interpret_cases x suggested history_length (cases_of output.continuation) w

-- 2. to 6., on an output
unfoldable pub process_output : Execution → Bool → ℤ → ActivityOutput → Workflow → Workflow
unfolding set_query_handlers apply_effects finish_or_wait
process_output x suggested history_length output w =
    elim (set_query_handlers x output.query_results w) [
      | err e ↦ failing e w
      | ok w' ↦ finish_or_wait x suggested history_length output (apply_effects output w')
    ]

-- The handler's activity has returned.
unfoldable pub after_activity :
    Execution → Bool → ℤ → ℕ × Result ActivityOutput → Workflow → Workflow
unfolding process_output
after_activity x suggested history_length (n, err e) w =
    failing e (record w { executed = n; message = none })
after_activity x suggested history_length (n, ok output) w =
    process_output x suggested history_length output (record w { executed = n; message = none })

-- One pass of the loop, up to the selector or to the next pass
unfoldable pub pass : Execution → Bool → ℤ → Workflow → Workflow
unfolding execute_with_recovery after_activity process_output
pass x suggested history_length w = elim w.call_handler_output [
  | some output ↦
      process_output x suggested history_length output (record w { call_handler_output = none })
  | none ↦
      after_activity x suggested history_length
        (execute_with_recovery x w.executed w.handler_key w.handler_input w.message) w
]

-- The response to a call, and the output that the next pass reads: on an error the same
-- continuation again.
unfoldable pub answer_call :
    List SerializedCase → PendingCall → ℕ × Result ActivityOutput → Workflow → Workflow
answer_call cases pc (n, ok output) w = record w {
  executed = n;
  commands = w.commands ++ respond pc.response_ch (ok output.call_response) ∷ [];
  call_handler_output = some output;
}
answer_call cases pc (n, err e) w = record w {
  executed = n;
  commands = w.commands ++ respond pc.response_ch (err e) ∷ [];
  call_handler_output =
      some (record empty_output { continuation = some (record { cases = cases }) });
}

-- The branch of a call: the handler of the oldest pending call runs inside the selector.
unfoldable pub select_call :
    Execution → List SerializedCase → List PendingCall → Workflow → Workflow
unfolding execute_with_recovery answer_call
select_call x cases [] w = record w { phase = panicked }
select_call x cases (pc ∷ pcs) w =
    answer_call cases pc
      (execute_with_recovery x w.executed pc.handler_key (some pc.input) (some pc.req))
      (record w { pending_calls = pcs; notified = false })

-- s[n:]; `none` is the panic of a slice out of range
unfoldable pub drop : ℕ → String → Option String
drop zero s = some s
drop (suc n) String.[] = none
drop (suc n) (String.◌∷◌ c s) = drop n s

-- The signal's name for a case: "send:" + c.HandlerKey[len("send:"):]
unfoldable pub composite_name : SerializedCase → Option String
unfolding drop
composite_name c = elim (drop 5 c.handler_key) [ none ↦ none | some rest ↦ some ("send:" <> rest) ]

-- What the selector chose: the timer, the signal or the default of the case at an index, or the
-- call branch.
pub data Choice : Type 0 where
  timer : ℕ → Choice
  call : Choice
  signal : ℕ → Option Json → Choice
  default : ℕ → Choice

-- The assignments of the branch of a case
unfoldable pub take_case_at : List SerializedCase → ℕ → Workflow → Workflow
take_case_at cases i w = elim (get_elem? cases i) [
  | none ↦ record w { phase = panicked }
  | some c ↦ take_case c w
]

-- The chosen branch, and the check behind the selector
unfoldable pub select_branch : Execution → List SerializedCase → Choice → Workflow → Workflow
unfolding take_case_at select_call
select_branch x cases (timer i) w = take_case_at cases i w
select_branch x cases call w = select_call x cases w.pending_calls w
select_branch x cases (signal i msg) w = take_case_at cases i (record w { message = msg })
select_branch x cases (default i) w = take_case_at cases i w

-- The response of one drained call, and the handler that takes over from it.
unfoldable pub drain_answer : PendingCall → Result ActivityOutput → Workflow → Workflow
drain_answer pc (err e) w = record w {
  commands = w.commands ++ respond pc.response_ch (err e) ∷ [];
}
drain_answer pc (ok output) w =
    let w' = record w {
      commands = w.commands ++ respond pc.response_ch (ok output.call_response) ∷ [];
    } in
    elim (cases_of output.continuation) [ [] ↦ w' | c ∷ cs ↦ take_case c w' ]

-- One pass of the loop that drains the pending calls, or the continue-as-new behind it.
unfoldable pub drain : Execution → List PendingCall → Workflow → Workflow
unfolding execute drain_answer
drain x [] w = record w {
  phase = continued_as_new (record {
    handler_key = w.handler_key;
    input = w.handler_input;
    query_results = w.all_query_results;
    max_history_length = x.max_history_length;
  });
}
drain x (pc ∷ pcs) w =
    drain_answer pc (execute x w.executed pc.handler_key (some pc.input) (some pc.req) "")
      (record w { pending_calls = pcs; executed = suc w.executed })

-- The update handler of a case: the call is queued, and `callNotifyCh.SendAsync` tells the selector,
-- if `heard`.
unfoldable pub receive_update : SerializedCase → Json → ℕ → Bool → Workflow → Workflow
receive_update c req response_ch heard w = record w {
  pending_calls =
      w.pending_calls
      ++ record {
        handler_key = c.handler_key;
        req = req;
        input = c.input;
        response_ch = response_ch;
      }
        ∷ [];
  notified = heard || w.notified;
}
