-- ===== src/Temporal/Workflow/Calls.antt =====
-- backend/temporal/workflow.go: the pending calls of `RoutineWorkflow` and their responses.
use durableroutine_go.Base.{
  ◌≡◌, refl, ℕ, suc, some, List, [], ◌∷◌, ◌++◌, Bool, true, false, arith, append-nil, append_assoc,
  ◌∙◌, if◌then◌else◌, List-cases, inl, inr, ap, sym, Option-cases,
}
use durableroutine_go.Base.Int.{ℤ}
use durableroutine_go.Base.Result.{Result, ok, err, Result-cases, ok-injective}
use durableroutine_go.Durable.Payload.{Json}
use durableroutine_go.Temporal.Types.{
  QueryEntry, ActivityOutput, SerializedCase, StartEntry, SendEntry,
}
use durableroutine_go.Temporal.Workflow.{
  Execution, PendingCall, Command, Workflow, start_child, signal_external, set_update_handler,
  respond, set_query_handlers, execute, execute_with_recovery, start_commands, signal_commands,
  update_commands, call_cases, enter_select,
}
use durableroutine_go.Temporal.Workflow.Select.{
  can_check, interpret_cases, apply_effects, finish_or_wait, process_output, after_activity, pass,
  answer_call, select_call, drain_answer, drain, receive_update, cases_of, take_case,
}

-- The response channels that were answered, and those of the calls that wait, in order.
abbrev pub answered : List Command → List ℕ
answered [] = []
answered (respond ch resp ∷ cs) = ch ∷ answered cs
answered (start_child id input ∷ cs) = answered cs
answered (signal_external id name msg ∷ cs) = answered cs
answered (set_update_handler key ∷ cs) = answered cs

abbrev pub waiting : List PendingCall → List ℕ
waiting [] = []
waiting (pc ∷ pcs) = pc.response_ch ∷ waiting pcs

-- All the calls received so far: those answered, and behind them those that wait.
abbrev pub received : Workflow → List ℕ
received w = answered w.commands ++ waiting w.pending_calls

answered-append : (cs ds : List Command) → answered (cs ++ ds) ≡ answered cs ++ answered ds
answered-append [] ds = refl
answered-append (respond ch resp ∷ cs) ds = ap (λ l. ch ∷ l) (answered-append cs ds)
answered-append (start_child id input ∷ cs) ds = answered-append cs ds
answered-append (signal_external id name msg ∷ cs) ds = answered-append cs ds
answered-append (set_update_handler key ∷ cs) ds = answered-append cs ds

answered-starts : (ss : List StartEntry) → answered (start_commands ss) ≡ []
unfolding start_commands
answered-starts [] = refl
answered-starts (s ∷ ss) = answered-starts ss

answered-signals : (ss : List SendEntry) → answered (signal_commands ss) ≡ []
unfolding signal_commands
answered-signals [] = refl
answered-signals (s ∷ ss) = answered-signals ss

answered-updates : (cs : List SerializedCase) → answered (update_commands cs) ≡ []
unfolding update_commands
answered-updates [] = refl
answered-updates (c ∷ cs) = answered-updates cs

-- Commands that answer nothing leave the answers as they are.
answered-silent : (cs ds : List Command) → answered ds ≡ [] → answered (cs ++ ds) ≡ answered cs
answered-silent cs ds h = simp (answered-append, h, append-nil)

waiting-append :
    (pcs : List PendingCall) (pc : PendingCall)
    → waiting (pcs ++ pc ∷ []) ≡ waiting pcs ++ pc.response_ch ∷ []
waiting-append [] pc = refl
waiting-append (p ∷ pcs) pc = ap (λ l. p.response_ch ∷ l) (waiting-append pcs pc)

received-enter_select :
    (cases : List SerializedCase) (w : Workflow) → received (enter_select cases w) ≡ received w
unfolding enter_select
received-enter_select cases w =
    ap (λ l. l ++ waiting w.pending_calls)
      (answered-silent w.commands (update_commands (call_cases cases))
        (answered-updates (call_cases cases)))

pub received-can_check :
    (x : Execution) (s : Bool) (l : ℤ) (w : Workflow) → received (can_check x s l w) ≡ received w
unfolding can_check
received-can_check x s l w = ground arith

received-if :
    (b : Bool) (u v : Workflow) (chs : List ℕ)
    → received u ≡ chs
    → received v ≡ chs
    → received (if b then u else v) ≡ chs
received-if true u v chs hu hv = hu
received-if false u v chs hu hv = hv

received-interpret_cases :
    (x : Execution) (s : Bool) (l : ℤ) (cases : List SerializedCase) (w : Workflow)
    → received (interpret_cases x s l cases w) ≡ received w
unfolding interpret_cases
received-interpret_cases x s l [] w = refl
received-interpret_cases x s l (c ∷ []) w =
    received-if c.immediate (can_check x s l (take_case c w)) (enter_select (c ∷ []) w) _
      (received-can_check x s l (take_case c w)) (received-enter_select (c ∷ []) w)
received-interpret_cases x s l (c ∷ d ∷ cs) w = received-enter_select (c ∷ d ∷ cs) w

pub received-set_query_handlers :
    (x : Execution) (qs : List QueryEntry) (w w' : Workflow)
    → set_query_handlers x qs w ≡ ok w'
    → received w' ≡ received w
unfolding set_query_handlers
received-set_query_handlers x [] w w' h = ap received (sym (ok-injective w w' h))
received-set_query_handlers x (q ∷ qs) w w' h =
    elim (Option-cases (x.sdk.set_query_handler q.query_name)) [
      | inl e ↦ received-set_query_handlers x qs _ w' (rw (e, set_query_handlers) at h)
      | inr (m, e) ↦ absurd (cc (rw (e, set_query_handlers) at h))
    ]

received-apply_effects :
    (o : ActivityOutput) (w : Workflow) → received (apply_effects o w) ≡ received w
unfolding apply_effects
received-apply_effects o w =
    ap (λ l. l ++ waiting w.pending_calls)
      (answered-silent w.commands
        (start_commands o.start_requests ++ signal_commands o.send_requests)
        (simp (answered-append, answered-starts, answered-signals)))

received-finish_or_wait :
    (x : Execution) (s : Bool) (l : ℤ) (o : ActivityOutput) (w : Workflow)
    → received (finish_or_wait x s l o w) ≡ received w
unfolding finish_or_wait
received-finish_or_wait x s l o w =
    received-if o.done _ (interpret_cases x s l (cases_of o.continuation) w) _ refl
      (received-interpret_cases x s l (cases_of o.continuation) w)

received-process_output :
    (x : Execution) (s : Bool) (l : ℤ) (o : ActivityOutput) (w : Workflow)
    → received (process_output x s l o w) ≡ received w
unfolding process_output
received-process_output x s l o w = elim (Result-cases (set_query_handlers x o.query_results w)) [
  | inr (e, h) ↦ rw (h, process_output) refl
  | inl (w', h) ↦
      rw (h, process_output)
        (received-finish_or_wait x s l o (apply_effects o w')
          ∙ received-apply_effects o w'
          ∙ received-set_query_handlers x o.query_results w w' h)
]

received-after_activity :
    (x : Execution) (s : Bool) (l : ℤ) (r : ℕ × Result ActivityOutput) (w : Workflow)
    → received (after_activity x s l r w) ≡ received w
unfolding after_activity
received-after_activity x s l (n, err e) w = refl
received-after_activity x s l (n, ok o) w = received-process_output x s l o _

pub received-pass :
    (x : Execution) (s : Bool) (l : ℤ) (w : Workflow) → received (pass x s l w) ≡ received w
unfolding pass
received-pass x s l w = elim (Option-cases w.call_handler_output) [
  | inl e ↦ rw (e, pass) (received-after_activity x s l _ w)
  | inr (o, e) ↦ rw (e, pass) (received-process_output x s l o _)
]

received-answer_call :
    (cases : List SerializedCase) (pc : PendingCall) (r : ℕ × Result ActivityOutput) (w : Workflow)
    → received (answer_call cases pc r w)
      ≡ answered w.commands ++ pc.response_ch ∷ waiting w.pending_calls
unfolding answer_call
received-answer_call cases pc (n, ok o) w = simp (answered-append, append_assoc)
received-answer_call cases pc (n, err e) w = simp (answered-append, append_assoc)

pub received-select_call :
    (x : Execution) (cases : List SerializedCase) (pcs : List PendingCall) (w : Workflow)
    → w.pending_calls ≡ pcs
    → received (select_call x cases pcs w) ≡ received w
unfolding select_call
received-select_call x cases [] w h = refl
received-select_call x cases (pc ∷ pcs) w h =
    received-answer_call cases pc
      (execute_with_recovery x w.executed pc.handler_key (some pc.input) (some pc.req))
      (record w { pending_calls = pcs; notified = false })
    ∙ ap (λ l. answered w.commands ++ waiting l) (sym h)

received-drain_answer :
    (pc : PendingCall) (r : Result ActivityOutput) (w : Workflow)
    → received (drain_answer pc r w)
      ≡ answered w.commands ++ pc.response_ch ∷ waiting w.pending_calls
unfolding drain_answer
received-drain_answer pc (err e) w = simp (answered-append, append_assoc)
received-drain_answer pc (ok o) w = elim (List-cases (cases_of o.continuation)) [
  | inl e ↦ rw (e, drain_answer) (simp (answered-append, append_assoc))
  | inr (c, cs, e) ↦ rw (e, drain_answer) (simp (answered-append, append_assoc))
]

pub received-drain :
    (x : Execution) (pcs : List PendingCall) (w : Workflow)
    → w.pending_calls ≡ pcs
    → received (drain x pcs w) ≡ received w
unfolding drain
received-drain x [] w h = refl
received-drain x (pc ∷ pcs) w h =
    received-drain_answer pc (execute x w.executed pc.handler_key (some pc.input) (some pc.req) "")
      (record w { pending_calls = pcs; executed = suc w.executed })
    ∙ ap (λ l. answered w.commands ++ waiting l) (sym h)

pub received-update :
    (c : SerializedCase) (req : Json) (ch : ℕ) (heard : Bool) (w : Workflow)
    → received (receive_update c req ch heard w) ≡ received w ++ ch ∷ []
unfolding receive_update
received-update c req ch heard w = simp (waiting-append, append_assoc)
