-- ===== src/InMemory/Machine/Handlers.antt =====
-- The registry of a running program is that of its worker.
use mathlib.Core.Option.{some-injective}
use durableroutine_go.Base.{
  ℕ, String, ◌≡◌, refl, ap, sym, ◌∙◌, inl, inr, Option, none, some, List, [], ◌∷◌, arith,
  Bool-cases, Option-cases,
}
use durableroutine_go.Base.Int.{ℤ}
use durableroutine_go.Base.Result.{Result, Result-cases}
use durableroutine_go.Durable.Payload.{Any}
use durableroutine_go.Durable.Context.{QueryEntry, SendRequest, StartEntry, start_entries}
use durableroutine_go.Durable.Continuation.{Case}
use durableroutine_go.Durable.Worker.{RunOutput}
use durableroutine_go.InMemory.Runtime.{
  CallResp, Runtime, Thread, push_send, set_instance, set_thread, start,
}
use durableroutine_go.InMemory.Handler.{
  apply_queries, start_child, start_children, deliver, deliver_all, apply_context_effects,
  run_outcome, run_handler,
}
use durableroutine_go.InMemory.Wait.{Fired, Received}
use durableroutine_go.InMemory.Machine.{
  respond, finish, fire, enter_wait, after_output, run_step, add_reply, after_receive, client_send,
  client_call, Step, runs, polls, wakes, starts, sends, calls, Reach, here, next,
}

start_child-handlers : (c : StartEntry) (r : Runtime) → (start_child c r).handlers ≡ r.handlers
unfolding start_child start
start_child-handlers c r = ground arith

start_children-handlers :
    (cs : List StartEntry) (r : Runtime) → (start_children cs r).handlers ≡ r.handlers
unfolding start_children
start_children-handlers [] r = refl
start_children-handlers (c ∷ cs) r =
    start_children-handlers cs (start_child c r) ∙ start_child-handlers c r

deliver-handlers :
    (q : SendRequest) (r r' : Runtime) → deliver q r ≡ some r' → r'.handlers ≡ r.handlers
unfolding deliver push_send set_instance
deliver-handlers q r r' e = ground arith

deliver_all-handlers :
    (qs : List SendRequest) (r r' : Runtime) → deliver_all qs r ≡ some r' → r'.handlers ≡ r.handlers
unfolding deliver_all
deliver_all-handlers [] r r' e = ap (λ (x : Runtime). x.handlers) (sym (some-injective r r' e))
deliver_all-handlers (q ∷ qs) r r' e = elim (Option-cases (deliver q r)) [
  | inl e' ↦ absurd (cc (rw (e', deliver_all) at e))
  | inr (m, e') ↦
      deliver_all-handlers qs m r' (rw (e', deliver_all) at e) ∙ deliver-handlers q r m e'
]

apply_queries-handlers :
    (id : String) (qs : List QueryEntry) (r : Runtime)
    → (apply_queries id qs r).handlers ≡ r.handlers
unfolding apply_queries set_instance
apply_queries-handlers id qs r = ground arith

run_handler-handlers :
    (r : Runtime) (id key : String) (input : Any) (msg : Option Any) (r' : Runtime)
    (res : Result RunOutput)
    → run_handler r id key input msg ≡ some (r', res)
    → r'.handlers ≡ r.handlers
unfolding run_handler apply_context_effects
run_handler-handlers r id key input msg r' res e =
    elim (Result-cases (run_outcome r.handlers id key input msg)) [
      | inl ((sctx, out), e') ↦
          let queried = apply_queries id sctx.query_results r in
          let grown = start_children (start_entries sctx) queried in
          elim (Option-cases (deliver_all sctx.send_requests grown)) [
            | inl full ↦ absurd (cc (rw (e', full, run_handler) at e))
            | inr (m, applied) ↦
                let same : m ≡ r' =
                  ap (λ p. p.0) (some-injective _ (r', res) (rw (e', applied, run_handler) at e)) in
                ap (λ (x : Runtime). x.handlers) (sym same)
                ∙ deliver_all-handlers sctx.send_requests grown m applied
                ∙ start_children-handlers (start_entries sctx) queried
                ∙ apply_queries-handlers id sctx.query_results r
          ]
      | inr (x, e') ↦
          let same : r ≡ r' =
            ap (λ p. p.0) (some-injective _ (r', res) (rw (e', run_handler) at e)) in
          ap (λ (x : Runtime). x.handlers) (sym same)
    ]

respond-handlers :
    (ch : Option ℕ) (resp : CallResp) (r : Runtime) → (respond ch resp r).handlers ≡ r.handlers
unfolding respond
respond-handlers none resp r = refl
respond-handlers (some ch) resp r = refl

finish-handlers :
    (id : String) (result : Option Any) (error : Option String) (r : Runtime)
    → (finish id result error r).handlers ≡ r.handlers
unfolding finish set_instance set_thread
finish-handlers id result error r = ground arith

fire-handlers :
    (id : String) (cases : List Case) (f : Fired) (r : Runtime)
    → (fire id cases f r).handlers ≡ r.handlers
unfolding fire set_thread
fire-handlers id cases f r = ground arith

enter_wait-handlers :
    (id : String) (now : ℤ) (cases : List Case) (r : Runtime)
    → (enter_wait id now cases r).handlers ≡ r.handlers
unfolding enter_wait fire set_thread
enter_wait-handlers id now cases r = ground arith

after_output-handlers :
    (id : String) (ch : Option ℕ) (now : ℤ) (out : RunOutput) (r : Runtime)
    → (after_output id ch now out r).handlers ≡ r.handlers
unfolding after_output
after_output-handlers id ch now out r = elim (Bool-cases out.done) [
  | inl e ↦ rw (e, after_output) (finish-handlers id _ none _ ∙ respond-handlers ch _ r)
  | inr e ↦ rw (e, after_output) (enter_wait-handlers id now out.cases _ ∙ respond-handlers ch _ r)
]

run_step-handlers :
    (r r' : Runtime) (id key : String) (input : Any) (msg : Option Any) (ch : Option ℕ) (now : ℤ)
    → run_step r id key input msg ch now ≡ some r'
    → r'.handlers ≡ r.handlers
unfolding run_step
run_step-handlers r r' id key input msg ch now e =
    elim (Option-cases (run_handler r id key input msg)) [
      | inl e' ↦ absurd (cc (rw (e', run_step) at e))
      | inr ((m, res), e') ↦
          let ran = run_handler-handlers r id key input msg m res e' in
          elim (Result-cases res) [
            | inl (out, e'') ↦
                let same = some-injective _ r' (rw (e', e'', run_step) at e) in
                ap (λ (x : Runtime). x.handlers) (sym same)
                ∙ after_output-handlers id ch now out m
                ∙ ran
            | inr (x, e'') ↦
                let same = some-injective _ r' (rw (e', e'', run_step) at e) in
                ap (λ (x : Runtime). x.handlers) (sym same)
                ∙ finish-handlers id none (some x) _
                ∙ respond-handlers ch _ m
                ∙ ran
          ]
    ]

add_reply-handlers :
    (reply : Option (ℕ × CallResp)) (r : Runtime) → (add_reply reply r).handlers ≡ r.handlers
unfolding add_reply
add_reply-handlers none r = refl
add_reply-handlers (some x) r = refl

after_receive-handlers :
    (id : String) (cases : List Case) (waits : Thread) (rc : Received) (r : Runtime)
    → (after_receive id cases waits rc r).handlers ≡ r.handlers
unfolding after_receive set_instance set_thread
after_receive-handlers id cases waits rc r =
    let replied = add_reply-handlers rc.reply (set_instance id rc.inst r) in
    elim (Option-cases rc.fired) [
      | inl e ↦ rw (e, after_receive) replied
      | inr (f, e) ↦ rw (e, after_receive) (fire-handlers id cases f _ ∙ replied)
    ]

Step-handlers : {r r' : Runtime} → Step r r' → r'.handlers ≡ r.handlers
unfolding start client_send client_call push_send set_instance
Step-handlers {r} {r'} (runs id key input msg ch now e h) =
    run_step-handlers r r' id key input msg ch now h
Step-handlers {r} {r'} (polls id cases timers inst now e there h) =
    rw h (after_receive-handlers id cases _ _ r)
Step-handlers {r} {r'} (wakes id cases timers inst now w rc e there b h) =
    rw h (after_receive-handlers id cases _ rc r)
Step-handlers {r} {r'} (starts id kind result_kind input h) = ground arith
Step-handlers {r} {r'} (sends id i e t msg h) = ground arith
Step-handlers {r} {r'} (calls id i q p t req ch h) = ground arith

pub Reach-handlers : {r r' : Runtime} → Reach r r' → r'.handlers ≡ r.handlers
Reach-handlers here = refl
Reach-handlers (next steps last) = Step-handlers last ∙ Reach-handlers steps
