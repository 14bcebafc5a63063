-- ===== src/InMemory/Machine/Results.antt =====
-- The outcome of a routine, once it has one, is final.
use mathlib.Core.Option.{some-injective}
use durableroutine_go.Base.{
  ℕ, String, ◌≡◌, refl, ◌∙◌, subst, inl, inr, Option, none, some, List, arith, Bool-cases,
  Option-cases, length, ltb,
}
use durableroutine_go.Base.Int.{ℤ}
use durableroutine_go.Base.Dict.{get}
use durableroutine_go.Base.Result.{Result, ok, Result-cases, ok-injective}
use durableroutine_go.Durable.Payload.{Any}
use durableroutine_go.Durable.Continuation.{Case}
use durableroutine_go.Durable.Worker.{Worker, RunOutput}
use durableroutine_go.InMemory.Runtime.{
  CallResp, Instance, Runtime, Thread, new_runtime, send_capacity, set_instance, start,
}
use durableroutine_go.InMemory.Handler.{run_handler}
use durableroutine_go.InMemory.Wait.{Fired, Received}
use durableroutine_go.InMemory.Machine.{
  respond, finish, fire, enter_wait, after_output, run_step, add_reply, after_receive, client_send,
  client_call, client_get, Step, runs, polls, wakes, starts, sends, calls, Reach, here, next,
}
use durableroutine_go.InMemory.Machine.Sound.{IsSound}
use durableroutine_go.InMemory.Machine.Alive.{IsAlive, run_handler-IsAlive, respond-IsAlive}
use durableroutine_go.InMemory.Machine.Safety.{live_instance, Reach-IsSound, new_runtime-IsSound}
use durableroutine_go.InMemory.Machine.Outcomes.{
  outcome, reply_of, KeepsOutcomes, KeepsOutcomes-refl, KeepsOutcomes-trans, same_instances,
  set_instance-Keeps, put-Keeps, started-Keeps, run_handler-Keeps,
}

-- The instance of a running goroutine has no outcome yet.
outcome-alive : (id : String) (r : Runtime) → IsAlive id r → outcome (get id r.instances) ≡ none
outcome-alive id r a = rw (a.there, a.unfinished)

finish-Keeps :
    (id : String) (result : Option Any) (error : Option String) (r : Runtime)
    → IsAlive id r
    → KeepsOutcomes r (finish id result error r)
unfolding finish
finish-Keeps id result error r a =
    rw (a.there, finish)
      (KeepsOutcomes-trans r _ _ (put-Keeps r id _ (outcome-alive id r a))
        (same_instances _ _ refl))

fire-instances :
    (id : String) (cases : List Case) (f : Fired) (r : Runtime)
    → (fire id cases f r).instances ≡ r.instances
unfolding fire
fire-instances id cases f r = ground arith

enter_wait-instances :
    (id : String) (now : ℤ) (cases : List Case) (r : Runtime)
    → (enter_wait id now cases r).instances ≡ r.instances
unfolding enter_wait
enter_wait-instances id now cases r = ground arith

respond-instances :
    (ch : Option ℕ) (resp : CallResp) (r : Runtime) → (respond ch resp r).instances ≡ r.instances
unfolding respond
respond-instances none resp r = refl
respond-instances (some ch) resp r = refl

add_reply-instances :
    (reply : Option (ℕ × CallResp)) (r : Runtime) → (add_reply reply r).instances ≡ r.instances
unfolding add_reply
add_reply-instances none r = refl
add_reply-instances (some x) r = refl

-- A response, and then the end of the routine.
respond-finish-Keeps :
    (id : String) (result : Option Any) (error : Option String) (ch : Option ℕ) (resp : CallResp)
    (r : Runtime)
    → IsAlive id r
    → KeepsOutcomes r (finish id result error (respond ch resp r))
respond-finish-Keeps id result error ch resp r a =
    KeepsOutcomes-trans r (respond ch resp r) _
      (same_instances r (respond ch resp r) (respond-instances ch resp r))
      (finish-Keeps id result error (respond ch resp r) (respond-IsAlive id ch resp r a))

after_output-Keeps :
    (id : String) (ch : Option ℕ) (now : ℤ) (out : RunOutput) (r : Runtime)
    → IsAlive id r
    → KeepsOutcomes r (after_output id ch now out r)
unfolding after_output
after_output-Keeps id ch now out r a = elim (Bool-cases out.done) [
  | inl e ↦ rw (e, after_output) (respond-finish-Keeps id _ none ch _ r a)
  | inr e ↦
      rw (e, after_output)
        (same_instances r _ (enter_wait-instances id now out.cases _ ∙ respond-instances ch _ r))
]

run_step-Keeps :
    (r r' : Runtime) (id key : String) (input : Any) (msg : Option Any) (ch : Option ℕ) (now : ℤ)
    → run_step r id key input msg ch now ≡ some r'
    → IsAlive id r
    → KeepsOutcomes r r'
unfolding run_step
run_step-Keeps r r' id key input msg ch now e a =
    elim (Option-cases (run_handler r id key input msg)) [
      | inl e' ↦ absurd (cc (rw (e', run_step) at e))
      | inr ((m, res), e') ↦
          let ran = run_handler-Keeps r id key input msg m res e' in
          let alive = run_handler-IsAlive r id key input msg m res e' a in
          elim (Result-cases res) [
            | inl (out, e'') ↦
                subst (KeepsOutcomes r) (some-injective _ r' (rw (e', e'', run_step) at e))
                  (KeepsOutcomes-trans r m _ ran (after_output-Keeps id ch now out m alive))
            | inr (x, e'') ↦
                subst (KeepsOutcomes r) (some-injective _ r' (rw (e', e'', run_step) at e)) (
                  KeepsOutcomes-trans r m _ ran
                    (respond-finish-Keeps id none (some x) ch _ m alive))
          ]
    ]

after_receive-Keeps :
    (id : String) (cases : List Case) (waits : Thread) (rc : Received) (r : Runtime)
    → IsAlive id r
    → KeepsOutcomes r (after_receive id cases waits rc r)
unfolding after_receive
after_receive-Keeps id cases waits rc r a =
    let written = set_instance id rc.inst r in
    let kept = put-Keeps r id rc.inst (outcome-alive id r a) in
    let replied = add_reply-instances rc.reply written in
    elim (Option-cases rc.fired) [
      | inl e ↦
          rw (e, after_receive)
            (KeepsOutcomes-trans r written _ kept (same_instances written _ replied))
      | inr (f, e) ↦
          rw (e, after_receive)
            (KeepsOutcomes-trans r written _ kept
              (same_instances written _ (fire-instances id cases f _ ∙ replied)))
    ]

client_send-Keeps :
    (r r' : Runtime) (id i e t : String) (msg : Any)
    → client_send r id i e t msg ≡ some (ok r')
    → KeepsOutcomes r r'
unfolding client_send
client_send-Keeps r r' id i e t msg h = elim (Option-cases (get id r.instances)) [
  | inl missing ↦ absurd (cc (rw (missing, client_send) at h))
  | inr (inst, there) ↦ elim (Bool-cases (ltb (length inst.send_ch) send_capacity)) [
    | inl room ↦
        subst (KeepsOutcomes r)
          (ok-injective _ r' (some-injective _ _ (rw (there, room, client_send) at h)))
          (set_instance-Keeps r id inst _ there refl)
    | inr full ↦ absurd (cc (rw (there, full, client_send) at h))
  ]
]

client_call-Keeps :
    (r r' : Runtime) (id i q p t : String) (req : Any) (ch : ℕ)
    → client_call r id i q p t req ch ≡ ok r'
    → KeepsOutcomes r r'
unfolding client_call
client_call-Keeps r r' id i q p t req ch h = elim (Option-cases (get id r.instances)) [
  | inl missing ↦ absurd (cc (rw (missing, client_call) at h))
  | inr (inst, there) ↦
      subst (KeepsOutcomes r) (ok-injective _ r' (rw (there, client_call) at h))
        (set_instance-Keeps r id inst _ there refl)
]

start-Keeps :
    (r r' : Runtime) (id kind result_kind : String) (input : Any)
    → start r id kind result_kind input ≡ ok r'
    → KeepsOutcomes r r'
unfolding start
start-Keeps r r' id kind result_kind input e = elim (Option-cases (get id r.instances)) [
  | inl fresh ↦
      subst (KeepsOutcomes r) (ok-injective _ r' (rw (fresh, start) at e))
        (started-Keeps r id _ _ (rw fresh))
  | inr (inst, old) ↦ absurd (cc (rw (old, start) at e))
]

Step-Keeps : {r r' : Runtime} → IsSound r → Step r r' → KeepsOutcomes r r'
Step-Keeps {r} {r'} s (runs id key input msg ch now e h) =
    run_step-Keeps r r' id key input msg ch now h (live_instance r id _ (λ d k. k) s e)
Step-Keeps {r} {r'} s (polls id cases timers inst now e there h) =
    rw h (after_receive-Keeps id cases _ _ r (live_instance r id _ (λ d k. k.0) s e))
Step-Keeps {r} {r'} s (wakes id cases timers inst now w rc e there b h) =
    rw h (after_receive-Keeps id cases _ rc r (live_instance r id _ (λ d k. k.0) s e))
Step-Keeps {r} {r'} s (starts id kind result_kind input h) =
    start-Keeps r r' id kind result_kind input h
Step-Keeps {r} {r'} s (sends id i e t msg h) = client_send-Keeps r r' id i e t msg h
Step-Keeps {r} {r'} s (calls id i q p t req ch h) = client_call-Keeps r r' id i q p t req ch h

Reach-Keeps : {s t : Runtime} → IsSound s → Reach s t → KeepsOutcomes s t
Reach-Keeps {s} h here = KeepsOutcomes-refl s
Reach-Keeps {s} h (next {t = m} {u = u} steps last) =
    KeepsOutcomes-trans s m u (Reach-Keeps h steps) (Step-Keeps (Reach-IsSound h steps) last)

client_get-outcome :
    (r : Runtime) (id : String) (o : Option Any × Option String)
    → outcome (get id r.instances) ≡ some o
    → client_get r id ≡ some (reply_of o)
unfolding client_get
client_get-outcome r id (result, error) e = ground arith

outcome-client_get :
    (r : Runtime) (id : String) (inst : Instance) (x : Result (Option Any))
    → get id r.instances ≡ some inst
    → client_get r id ≡ some x
    → (outcome (get id r.instances) ≡ some (inst.result, inst.err))
      × (x ≡ reply_of (inst.result, inst.err))
unfolding client_get
outcome-client_get r id inst x there e = ground arith

-- In a program that starts with a new runtime, what `Get` returns for a routine is final: once it
-- has returned for a routine that exists, it returns the same result or error ever after, whatever
-- handlers, clients, timers and other routines do.
pub client_get-final :
    (w : Worker) (r r' : Runtime) (id : String) (inst : Instance) (x : Result (Option Any))
    → Reach (new_runtime w) r
    → Reach r r'
    → get id r.instances ≡ some inst
    → client_get r id ≡ some x
    → client_get r' id ≡ some x
client_get-final w r r' id inst x before after there e =
    let (done, same) = outcome-client_get r id inst x there e in
    let kept = Reach-Keeps (Reach-IsSound (new_runtime-IsSound w) before) after in
    rw same (client_get-outcome r' id _ (kept.at id _ done))
