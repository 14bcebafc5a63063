-- ===== src/Temporal/Workflow/Steps/Messages.antt =====
-- backend/temporal/workflow.go: the message of a signal on its way to the send handler.
use durableroutine_go.Base.{
  ◌≡◌, refl, sym, ap, ◌∙◌, ℕ, String, Bool, true, false, Option, none, some, List, [], ◌∷◌,
  get_elem?, inl, inr, Option-cases,
}
use durableroutine_go.Base.Int.{ℤ}
use durableroutine_go.Base.Dict.{put}
use durableroutine_go.Base.Result.{ok, err, Result-cases, ok-injective}
use durableroutine_go.Durable.Payload.{Json, Payload}
use durableroutine_go.Durable.Context.{Context}
use durableroutine_go.Durable.Routine.{SendHandler, send_handler_runner, decode, unmarshal_raw}
use durableroutine_go.Temporal.Types.{QueryEntry, WorkflowInput, SerializedCase}
use durableroutine_go.Temporal.Workflow.{
  Execution, Workflow, looping, selecting, draining, continued_as_new, initial, begin,
  set_query_handlers, execute_with_recovery,
}
use durableroutine_go.Temporal.Workflow.Select.{
  signal, take_case_at, select_branch, should_continue_as_new, can_check, pass, after_activity,
  drain,
}
use durableroutine_go.Temporal.Workflow.Steps.{after_branch}

-- The workflow behind the selector when the signal of the case `c` came with a message.
abbrev signalled : SerializedCase → Option Json → Workflow → Workflow
signalled c msg w = record w {
  handler_key = c.handler_key;
  handler_input = some c.input;
  message = msg;
}

after_signal :
    (x : Execution) (cases : List SerializedCase) (w : Workflow) (i : ℕ) (c : SerializedCase)
    (msg : Option Json) (s : Bool) (l : ℤ)
    → w.phase ≡ selecting cases
    → get_elem? cases i ≡ some c
    → after_branch x s l
        (select_branch x cases (signal i msg) w).phase
        (select_branch x cases (signal i msg) w)
      ≡ can_check x s l (signalled c msg w)
unfolding select_branch take_case_at after_branch
after_signal x cases w i c msg s l p e =
    rw (e, take_case_at) (ap (λ k. after_branch x s l k (signalled c msg w)) p)

can_check-goes_on :
    (x : Execution) (s : Bool) (l : ℤ) (w : Workflow)
    → should_continue_as_new x s l w ≡ false
    → can_check x s l w ≡ record w { phase = looping }
unfolding can_check
can_check-goes_on x s l w h = rw h refl

can_check-drains :
    (x : Execution) (s : Bool) (l : ℤ) (w : Workflow)
    → should_continue_as_new x s l w ≡ true
    → can_check x s l w ≡ record w { phase = draining }
unfolding can_check
can_check-drains x s l w h = rw h refl

pass-runs_handler :
    (x : Execution) (s : Bool) (l : ℤ) (w : Workflow)
    → w.call_handler_output ≡ none
    → pass x s l w
      ≡ after_activity x s l
          (execute_with_recovery x w.executed w.handler_key w.handler_input w.message)
          w
unfolding pass
pass-runs_handler x s l w e =
    rw (e, pass)
      (ap
        (λ o.
          after_activity x s l
            (execute_with_recovery x w.executed w.handler_key w.handler_input w.message)
            (record w { call_handler_output = o }))
        e)

-- A signal's message reaches the send handler, where the run goes on: the next pass is what follows
-- on the activity of the case's handler with the case's input and the message.
pub signal-runs_handler :
    (x : Execution) (cases : List SerializedCase) (w : Workflow) (i : ℕ) (c : SerializedCase)
    (msg : Option Json) (s t : Bool) (l m : ℤ)
    → w.phase ≡ selecting cases
    → w.call_handler_output ≡ none
    → get_elem? cases i ≡ some c
    → should_continue_as_new x s l w ≡ false
    → let v = select_branch x cases (signal i msg) w in
      let u = after_branch x s l v.phase v in
      pass x t m u
      ≡ after_activity x t m
          (execute_with_recovery x w.executed c.handler_key (some c.input) msg)
          (record (signalled c msg w) { phase = looping })
unfolding should_continue_as_new
signal-runs_handler x cases w i c msg s t l m p o e h =
    ap (pass x t m)
      (after_signal x cases w i c msg s l p e ∙ can_check-goes_on x s l (signalled c msg w) h)
    ∙ pass-runs_handler x t m (record (signalled c msg w) { phase = looping }) o

-- The variables that a handler's activity is made from.
abbrev next_activity : Workflow → String × Option Json × Option Json
next_activity w = (w.handler_key, w.handler_input, w.message)

set_query_handlers-next_activity :
    (x : Execution) (qs : List QueryEntry) (w w' : Workflow)
    → set_query_handlers x qs w ≡ ok w'
    → next_activity w' ≡ next_activity w
unfolding set_query_handlers
set_query_handlers-next_activity x [] w w' h = ap next_activity (sym (ok-injective w w' h))
set_query_handlers-next_activity x (q ∷ qs) w w' h =
    elim (Option-cases (x.sdk.set_query_handler q.query_name)) [
      | inl e ↦
          set_query_handlers-next_activity x qs
            (record w { query_handlers = put q.query_name q.result w.query_handlers }) w'
            (rw (e, set_query_handlers) at h)
      | inr (m, e) ↦ absurd (cc (rw (e, set_query_handlers) at h))
    ]

-- A run begins with its input's handler and no message.
pub begin-next_activity :
    (x : Execution) (input : WorkflowInput)
    → next_activity (begin x input) ≡ (input.handler_key, input.input, none)
unfolding begin
begin-next_activity x input =
    elim (Result-cases (set_query_handlers x input.query_results (initial input))) [
      | inr (e, h) ↦ rw (h, begin) refl
      | inl (w, h) ↦ rw (h, begin) (set_query_handlers-next_activity x _ _ w h)
    ]

-- The input of the next run
abbrev handed_on : Execution → SerializedCase → Workflow → WorkflowInput
handed_on x c w = record {
  handler_key = c.handler_key;
  input = some c.input;
  query_results = w.all_query_results;
  max_history_length = x.max_history_length;
}

drained :
    (x : Execution) (w : Workflow)
    → (drain x [] w).phase
      ≡ continued_as_new (record {
        handler_key = w.handler_key;
        input = w.handler_input;
        query_results = w.all_query_results;
        max_history_length = x.max_history_length;
      })
unfolding drain
drained x w = refl

no_message :
    {I E T : Type 0} ⦃i : Payload I⦄ ⦃e : Payload E⦄ ⦃t : Payload T⦄ (h : SendHandler I E T)
    (ctx : Context) (input : I) (key : String) (raw : Json)
    → i.unmarshal raw ≡ ok input
    → send_handler_runner key h ctx (some raw) none ""
      ≡ (ctx, err "deserialize externalInput: unexpected end of JSON input")
unfolding send_handler_runner unmarshal_raw decode
no_message h ctx input key raw d = rw d refl

-- A signal is received just when the run is to continue as new, and no call is pending: the next run
-- begins with the send handler and without the message, whatever the message was, so that the
-- handler's runner does not call the handler and fails.
pub signal-loses_message :
    {I E T : Type 0} ⦃i : Payload I⦄ ⦃e : Payload E⦄ ⦃t : Payload T⦄ (h : SendHandler I E T)
    (ctx : Context) (input : I) (x y : Execution) (cases : List SerializedCase) (w : Workflow)
    (k : ℕ) (c : SerializedCase) (msg : Option Json) (s : Bool) (l : ℤ)
    → w.phase ≡ selecting cases
    → w.pending_calls ≡ []
    → get_elem? cases k ≡ some c
    → should_continue_as_new x s l w ≡ true
    → i.unmarshal c.input ≡ ok input
    → let v = select_branch x cases (signal k msg) w in
      let u = after_branch x s l v.phase v in
      let r = begin y (handed_on x c w) in
      ((drain x u.pending_calls u).phase ≡ continued_as_new (handed_on x c w))
      × (send_handler_runner c.handler_key h ctx r.handler_input r.message ""
          ≡ (ctx, err "deserialize externalInput: unexpected end of JSON input"))
unfolding should_continue_as_new
signal-loses_message h ctx input x y cases w k c msg s l p q e b d =
    let u = record (signalled c msg w) { phase = draining } in
    (
      ap (λ v. (drain x v.pending_calls v).phase)
            (after_signal x cases w k c msg s l p e ∙ can_check-drains x s l (signalled c msg w) b)
          ∙ ap (λ pcs. (drain x pcs u).phase) q
          ∙ drained x u,
      ap (λ r. send_handler_runner c.handler_key h ctx r.1 r.2 "")
            (begin-next_activity y (handed_on x c w))
          ∙ no_message h ctx input c.handler_key c.input d,
    )
