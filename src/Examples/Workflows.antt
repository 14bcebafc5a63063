-- ===== src/Examples/Workflows.antt =====
-- An execution of the workflow: the first handler waits for calls and sends; a call comes, and its
-- handler fails; a signal comes when the run is to continue as new.
use durableroutine_go.Base.{
  ℕ, zero, suc, String, ◌≡◌, refl, true, false, none, some, List, [], ◌∷◌, ◌++◌,
}
use durableroutine_go.Base.Int.{pos}
use durableroutine_go.Base.Dict.{get, put}
use durableroutine_go.Base.Result.{Result, ok, err}
use durableroutine_go.Durable.Payload.{Json}
use durableroutine_go.Durable.Context.{new_context}
use durableroutine_go.Durable.Routine.{send_handler_runner}
use durableroutine_go.Temporal.Types.{WorkflowInput, ActivityOutput, SerializedCase, empty_output}
use durableroutine_go.Temporal.Queries.{merge_query_results, merge_one}
use durableroutine_go.Temporal.Queries.Lookup.{IsUnique}
use durableroutine_go.Temporal.Options.{lookup_recovery_handler_key}
use durableroutine_go.Temporal.Workflow.{
  Execution, Workflow, PendingCall, looping, selecting, continued_as_new, begin, set_query_handlers,
  execute, execute_with_recovery, start_commands, signal_commands, call_cases, update_commands,
  enter_select,
}
use durableroutine_go.Temporal.Workflow.Select.{
  call, signal, should_continue_as_new, can_check, interpret_cases, apply_effects, finish_or_wait,
  process_output, after_activity, pass, answer_call, select_call, take_case_at, select_branch,
  drain_answer, drain, receive_update,
}
use durableroutine_go.Temporal.Workflow.Queries.{View}
use durableroutine_go.Temporal.Workflow.Calls.{answered, waiting}
use durableroutine_go.Temporal.Workflow.Steps.{
  after_branch, passes, selects, drains, updates, Reach, begun, step,
}
use durableroutine_go.Temporal.Workflow.Steps.Responses.{
  answered-InOrder, continued_as_new-answered,
}
use durableroutine_go.Temporal.Workflow.Steps.Views.{reachable-View, continued_as_new-View}
use durableroutine_go.Temporal.Workflow.Steps.Messages.{signal-runs_handler, signal-loses_message}
use durableroutine_go.Examples.Counter.{
  counter_payload, add_payload, total_payload, counter, on_add,
}

abbrev call_case : SerializedCase
call_case = record {
  timer_duration = none;
  send_name = "";
  call_name = "add";
  immediate = false;
  input = Json.number (pos 3);
  handler_key = "call:counter:add:total:total";
}

abbrev send_case : SerializedCase
send_case = record {
  timer_duration = none;
  send_name = "add";
  call_name = "";
  immediate = false;
  input = Json.number (pos 3);
  handler_key = "send:counter:add:total";
}

abbrev cases : List SerializedCase
cases = call_case ∷ send_case ∷ []

-- The first activity waits and sets a query result; the second fails; the others end the routine.
abbrev script : ℕ → Result ActivityOutput
script zero = ok (record empty_output {
  continuation = some (record { cases = cases });
  query_results = record { query_name = "count"; result = Json.number (pos 3) } ∷ [];
})
script (suc zero) = err "out of stock"
script (suc (suc n)) = ok (record empty_output { done = true; result = some (Json.number (pos 3)) })

abbrev execution : Execution
execution = record {
  reg = [];
  sdk = record { execute_activity = λ n _ _. script n; set_query_handler = λ _. none };
  id = "c1";
  max_history_length = pos 0;
}

abbrev input : WorkflowInput
input = record {
  handler_key = "handler:counter:total";
  input = some (Json.number (pos 3));
  query_results = [];
  max_history_length = pos 0;
}

-- The call's request waits for its answer on the channel 7.
abbrev request : PendingCall
request = record {
  handler_key = "call:counter:add:total:total";
  req = Json.number (pos 4);
  input = Json.number (pos 3);
  response_ch = 7;
}

-- The states: waiting; with the call; behind the failed call; waiting again; with the signal, about
-- to continue as new; the end of the run.
abbrev waits : Workflow
waits = pass execution false (pos 0) (begin execution input)

abbrev called : Workflow
called = receive_update call_case (Json.number (pos 4)) 7 true waits

abbrev failed_call : Workflow
failed_call =
    after_branch execution true (pos 0) (select_branch execution cases call called).phase
      (select_branch execution cases call called)

abbrev waits_again : Workflow
waits_again = pass execution false (pos 0) failed_call

abbrev signalled : Workflow
signalled =
    after_branch execution true (pos 0)
      (select_branch execution cases (signal 1 (some (Json.number (pos 4)))) waits_again).phase
      (select_branch execution cases (signal 1 (some (Json.number (pos 4)))) waits_again)

abbrev handed_over : Workflow
handed_over = drain execution signalled.pending_calls signalled

Reach-end : Reach execution input handed_over (7 ∷ [])
unfolding begin set_query_handlers execute execute_with_recovery lookup_recovery_handler_key
    start_commands signal_commands call_cases update_commands enter_select should_continue_as_new
    can_check interpret_cases apply_effects finish_or_wait process_output after_activity pass
    answer_call select_call take_case_at select_branch drain_answer drain receive_update
    after_branch get put
Reach-end =
    step
      (step
        (step
          (step
            (step (step begun (passes false (pos 0) refl refl)) (
              updates 0 call_case (Json.number (pos 4)) 7 true refl refl (λ _. (cases, refl)) refl))
            (selects cases call true (pos 0) refl refl refl))
          (passes false (pos 0) refl refl))
        (selects cases (signal 1 (some (Json.number (pos 4)))) true (pos 0) refl
          (send_case, refl, refl) refl))
      (drains refl refl)

-- The input that the run hands on.
abbrev next_input : WorkflowInput
next_input = record {
  handler_key = "send:counter:add:total";
  input = some (Json.number (pos 3));
  query_results = record { query_name = "count"; result = Json.number (pos 3) } ∷ [];
  max_history_length = pos 0;
}

ends : handed_over.phase ≡ continued_as_new next_input
unfolding begin set_query_handlers execute execute_with_recovery lookup_recovery_handler_key
    start_commands signal_commands call_cases update_commands enter_select should_continue_as_new
    can_check interpret_cases apply_effects finish_or_wait process_output after_activity pass
    answer_call select_call take_case_at select_branch drain_answer drain receive_update
    after_branch get put merge_query_results merge_one
ends = refl

answered-InOrder_example :
    answered handed_over.commands ++ waiting handed_over.pending_calls ≡ 7 ∷ []
answered-InOrder_example = answered-InOrder execution input handed_over (7 ∷ []) Reach-end

continued_as_new-answered_example : answered handed_over.commands ≡ 7 ∷ []
continued_as_new-answered_example =
    continued_as_new-answered execution input next_input handed_over (7 ∷ []) Reach-end ends

reachable-View_example : View handed_over
unfolding begin set_query_handlers
reachable-View_example = reachable-View execution input handed_over (7 ∷ []) tt refl Reach-end

continued_as_new-View_example :
    IsUnique next_input.query_results
    × ((name : String)
        → get name (begin execution next_input).query_handlers
          ≡ get name handed_over.query_handlers)
unfolding begin set_query_handlers
continued_as_new-View_example =
    continued_as_new-View execution execution input next_input handed_over (7 ∷ []) tt refl
      Reach-end ends refl

-- A workflow that waits, with a registry that has the send handler.
abbrev waiting_workflow : Workflow
waiting_workflow = record {
  phase = selecting cases;
  handler_key = "handler:counter:total";
  handler_input = some (Json.number (pos 3));
  all_query_results = [];
  pending_calls = [];
  notified = false;
  message = none;
  call_handler_output = none;
  query_handlers = [];
  update_handlers = call_case ∷ [];
  commands = [];
  executed = 1;
}

signal-runs_handler_example :
    let v =
      select_branch execution cases (signal 1 (some (Json.number (pos 4)))) waiting_workflow in
    pass execution false (pos 0) (after_branch execution false (pos 0) v.phase v)
    ≡ after_activity execution false
        (pos 0)
        (execute_with_recovery execution 1 "send:counter:add:total"
          (some (Json.number (pos 3)))
          (some (Json.number (pos 4))))
        (record waiting_workflow {
          phase = looping;
          handler_key = "send:counter:add:total";
          handler_input = some (Json.number (pos 3));
          message = some (Json.number (pos 4));
        })
unfolding should_continue_as_new
signal-runs_handler_example =
    signal-runs_handler execution cases waiting_workflow 1 send_case (some (Json.number (pos 4)))
      false false (pos 0) (pos 0) refl refl refl refl

signal-loses_message_example :
    let v =
      select_branch execution cases (signal 1 (some (Json.number (pos 4)))) waiting_workflow in
    let u = after_branch execution true (pos 0) v.phase v in
    let next = record next_input { query_results = [] } in
    let r = begin execution next in
    ((drain execution u.pending_calls u).phase ≡ continued_as_new next)
    × (send_handler_runner "send:counter:add:total" on_add
          (new_context "c1")
          r.handler_input
          r.message
          ""
        ≡ (new_context "c1", err "deserialize externalInput: unexpected end of JSON input"))
unfolding should_continue_as_new
signal-loses_message_example =
    signal-loses_message on_add (new_context "c1") (counter (pos 3)) execution execution cases
      waiting_workflow 1 send_case (some (Json.number (pos 4))) true (pos 0) refl refl refl refl
      refl
