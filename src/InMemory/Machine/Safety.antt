-- ===== src/InMemory/Machine/Safety.antt =====
-- Every step of a running program keeps the invariant of `Sound`.
use mathlib.Core.Option.{some-injective}
use durableroutine_go.Base.{
  ℕ, zero, String, ◌≡◌, ◌≢◌, ◌↔◌, refl, sym, ap, ◌∙◌, eq_refl, subst, inl, inr, Bool, true, false,
  Option, none, some, List, Bool-cases, Option-cases, length, ltb,
}
use durableroutine_go.Base.Int.{ℤ}
use durableroutine_go.Base.Dict.{get, get-put}
use durableroutine_go.Base.Result.{ok, Result-cases, ok-injective}
use durableroutine_go.Durable.Payload.{Any}
use durableroutine_go.Durable.Continuation.{Case}
use durableroutine_go.Durable.Worker.{Worker, RunOutput}
use durableroutine_go.InMemory.Runtime.{
  Instance, Runtime, Thread, running, polling, blocked, finished, crashed, new_runtime,
  send_capacity, set_instance,
}
use durableroutine_go.InMemory.Handler.{run_handler}
use durableroutine_go.InMemory.Wait.{Fired, Received}
use durableroutine_go.InMemory.Poll.{bare, poll}
use durableroutine_go.InMemory.Poll.Fits.{Fits, FitsAny, poll-Fits, block_for_case-Fits}
use durableroutine_go.InMemory.Poll.Kept.{poll-kept, block_for_case-kept}
use durableroutine_go.InMemory.WaitLoop.{is_continue}
use durableroutine_go.InMemory.WaitLoop.Fits.{timers-AreTimers, is_continue-Fits}
use durableroutine_go.InMemory.Machine.{
  finish, fire, enter_wait, after_output, run_step, after_receive, client_send, client_call, Step,
  runs, polls, wakes, starts, sends, calls, Reach, here, next,
}
use durableroutine_go.InMemory.Machine.Sound.{
  IsSound, ThreadOk, Paired-put, instance_of, set_instance-IsSound, set_thread-IsSound,
  start-IsSound,
}
use durableroutine_go.InMemory.Machine.Alive.{
  IsAlive, run_handler-IsAlive, respond-IsAlive, add_reply-IsAlive,
}

finish-IsSound :
    (id : String) (result : Option Any) (error : Option String) (r : Runtime)
    → IsAlive id r
    → IsSound (finish id result error r)
unfolding finish
finish-IsSound id result error r a =
    rw (a.there, finish)
      (record {
        paired = λ j. Paired-put r.threads r.instances id j finished _ (a.sound.paired j) refl;
      })

fire-IsSound :
    (id : String) (cases : List Case) (f : Fired) (r : Runtime)
    → Fits cases f
    → IsAlive id r
    → IsSound (fire id cases f r)
unfolding fire
fire-IsSound id cases f r (c, at, fit) a =
    rw (at, fire) (set_thread-IsSound r id _ a.inst a.there a.unfinished a.sound)

enter_wait-IsSound :
    (id : String) (now : ℤ) (cases : List Case) (r : Runtime)
    → IsAlive id r
    → IsSound (enter_wait id now cases r)
unfolding enter_wait
enter_wait-IsSound id now cases r a = elim (Bool-cases (is_continue cases)) [
  | inl e ↦ rw (e, enter_wait) (fire-IsSound id cases (bare zero) r (is_continue-Fits cases e) a)
  | inr e ↦
      rw (e, enter_wait)
        (set_thread-IsSound r id _ a.inst a.there (a.unfinished, timers-AreTimers now cases)
          a.sound)
]

after_output-IsSound :
    (id : String) (ch : Option ℕ) (now : ℤ) (out : RunOutput) (r : Runtime)
    → IsAlive id r
    → IsSound (after_output id ch now out r)
unfolding after_output
after_output-IsSound id ch now out r a =
    let answered = respond-IsAlive id ch _ r a in
    elim (Bool-cases out.done) [
      | inl e ↦ rw (e, after_output) (finish-IsSound id _ none _ answered)
      | inr e ↦ rw (e, after_output) (enter_wait-IsSound id now out.cases _ answered)
    ]

run_step-IsSound :
    (r r' : Runtime) (id key : String) (input : Any) (msg : Option Any) (ch : Option ℕ) (now : ℤ)
    → run_step r id key input msg ch now ≡ some r'
    → IsAlive id r
    → IsSound r'
unfolding run_step
run_step-IsSound r r' id key input msg ch now e a =
    elim (Option-cases (run_handler r id key input msg)) [
      | inl e' ↦ absurd (cc (rw (e', run_step) at e))
      | inr ((m, res), e') ↦
          let alive = run_handler-IsAlive r id key input msg m res e' a in
          elim (Result-cases res) [
            | inl (out, e'') ↦
                subst IsSound (some-injective _ r' (rw (e', e'', run_step) at e))
                  (after_output-IsSound id ch now out m alive)
            | inr (x, e'') ↦
                subst IsSound (some-injective _ r' (rw (e', e'', run_step) at e))
                  (finish-IsSound id none (some x) _ (respond-IsAlive id ch _ m alive))
          ]
    ]

there_now :
    (r : Runtime) (id : String) (inst : Instance)
    → get id (set_instance id inst r).instances ≡ some inst
unfolding set_instance
there_now r id inst = rw (get-put, eq_refl)

after_receive-IsSound :
    (id : String) (cases : List Case) (waits : Thread) (rc : Received) (r : Runtime)
    → FitsAny cases rc.fired
    → ((done : Bool) → done ≡ false → ThreadOk waits done)
    → rc.inst.done ≡ false
    → IsAlive id r
    → IsSound (after_receive id cases waits rc r)
unfolding after_receive
after_receive-IsSound id cases waits rc r fits k u a =
    let written : IsAlive id (set_instance id rc.inst r) = record {
      sound = set_instance-IsSound r id a.inst rc.inst a.there (u ∙ sym a.unfinished) a.sound;
      inst = rc.inst;
      there = there_now r id rc.inst;
      unfinished = u;
    } in
    let replied = add_reply-IsAlive id rc.reply _ written in
    elim (Option-cases rc.fired) [
      | inl e ↦
          rw (e, after_receive)
            (set_thread-IsSound _ id waits replied.inst replied.there (k _ replied.unfinished)
              replied.sound)
      | inr (f, e) ↦ rw (e, after_receive) (fire-IsSound id cases f _ (rw e at fits) replied)
    ]

client_send-IsSound :
    (r r' : Runtime) (id i e t : String) (msg : Any)
    → client_send r id i e t msg ≡ some (ok r')
    → IsSound r
    → IsSound r'
unfolding client_send
client_send-IsSound r r' id i e t msg h s = elim (Option-cases (get id r.instances)) [
  | inl missing ↦ absurd (cc (rw (missing, client_send) at h))
  | inr (inst, there) ↦ elim (Bool-cases (ltb (length inst.send_ch) send_capacity)) [
    | inl room ↦
        subst IsSound (ok-injective _ r' (some-injective _ _ (rw (there, room, client_send) at h)))
          (set_instance-IsSound r id inst _ there refl s)
    | inr full ↦ absurd (cc (rw (there, full, client_send) at h))
  ]
]

client_call-IsSound :
    (r r' : Runtime) (id i q p t : String) (req : Any) (ch : ℕ)
    → client_call r id i q p t req ch ≡ ok r'
    → IsSound r
    → IsSound r'
unfolding client_call
client_call-IsSound r r' id i q p t req ch h s = elim (Option-cases (get id r.instances)) [
  | inl missing ↦ absurd (cc (rw (missing, client_call) at h))
  | inr (inst, there) ↦
      subst IsSound (ok-injective _ r' (rw (there, client_call) at h))
        (set_instance-IsSound r id inst _ there refl s)
]

pub live_instance :
    (r : Runtime) (id : String) (t : Thread)
    → ((done : Bool) → ThreadOk t done → done ≡ false)
    → IsSound r
    → get id r.threads ≡ some t
    → IsAlive id r
live_instance r id t k s e =
    let (inst, there, ok') = instance_of r id t s e in
    record { sound = s; inst = inst; there = there; unfinished = k inst.done ok' }

pub Step-IsSound : {r r' : Runtime} → IsSound r → Step r r' → IsSound r'
Step-IsSound {r} {r'} s (runs id key input msg ch now e h) =
    run_step-IsSound r r' id key input msg ch now h (live_instance r id _ (λ d k. k) s e)
Step-IsSound {r} {r'} s (polls id cases timers inst now e there h) =
    let alive = live_instance r id _ (λ d k. k.0) s e in
    let (mine, there', (u, a)) = instance_of r id _ s e in
    let same = some-injective mine inst (sym there' ∙ there) in
    rw h (
      after_receive-IsSound id cases (blocked cases timers) (poll now inst cases timers) r
        (poll-Fits now inst cases timers a) (λ d k. (k, a))
        (ap (λ p. p.0) (poll-kept now inst cases timers) ∙ subst (λ x. x.done ≡ false) same u)
        alive)
Step-IsSound {r} {r'} s (wakes id cases timers inst now w rc e there b h) =
    let alive = live_instance r id _ (λ d k. k.0) s e in
    let (mine, there', (u, a)) = instance_of r id _ s e in
    let same = some-injective mine inst (sym there' ∙ there) in
    rw h (
      after_receive-IsSound id cases (polling cases timers) rc r
        (block_for_case-Fits now w inst cases timers rc a b) (λ d k. (k, a))
        (ap (λ p. p.0) (block_for_case-kept now w inst cases timers rc b)
          ∙ subst (λ x. x.done ≡ false) same u)
        alive)
Step-IsSound {r} {r'} s (starts id kind result_kind input h) =
    start-IsSound r r' id kind result_kind input h s
Step-IsSound {r} {r'} s (sends id i e t msg h) = client_send-IsSound r r' id i e t msg h s
Step-IsSound {r} {r'} s (calls id i q p t req ch h) = client_call-IsSound r r' id i q p t req ch h s

pub Reach-IsSound : {s t : Runtime} → IsSound s → Reach s t → IsSound t
Reach-IsSound h here = h
Reach-IsSound h (next steps last) = Step-IsSound (Reach-IsSound h steps) last

pub new_runtime-IsSound : (w : Worker) → IsSound (new_runtime w)
unfolding new_runtime get
new_runtime-IsSound w = record { paired = λ id. tt }

ThreadOk-crashed : (t : Thread) (done : Bool) → ThreadOk t done → t ≢ crashed
ThreadOk-crashed crashed done k = absurd k
ThreadOk-crashed (running key input msg ch) done k = λ e. cc
ThreadOk-crashed (polling cases timers) done k = λ e. cc
ThreadOk-crashed (blocked cases timers) done k = λ e. cc
ThreadOk-crashed finished done k = λ e. cc

ThreadOk-finished : (t : Thread) (done : Bool) → ThreadOk t done → (done ≡ true) ↔ (t ≡ finished)
ThreadOk-finished finished done k = (λ _. refl, λ _. k)
ThreadOk-finished crashed done k = absurd k
ThreadOk-finished (running key input msg ch) done k = (λ d. cc, λ e. cc)
ThreadOk-finished (polling cases timers) done k =
    let unfinished = k.0 in (λ d. cc unfinished, λ e. cc)
ThreadOk-finished (blocked cases timers) done k =
    let unfinished = k.0 in (λ d. cc unfinished, λ e. cc)

-- In every state that a program reaches from a new runtime, whatever its handlers, clients, timers
-- and schedule: no goroutine has died of an index outside the cases that its handler returned; each
-- goroutine has its instance; and the instance is done exactly if its goroutine has returned.
pub reachable-IsSound :
    (w : Worker) (r : Runtime)
    → Reach (new_runtime w) r
    → (id : String) (t : Thread) → get id r.threads ≡ some t
    → (inst : Instance) × (get id r.instances ≡ some inst)
      × (t ≢ crashed)
      × ((inst.done ≡ true) ↔ (t ≡ finished))
reachable-IsSound w r steps id t e =
    let (inst, there, ok') = instance_of r id t (Reach-IsSound (new_runtime-IsSound w) steps) e in
    (inst, there, ThreadOk-crashed t inst.done ok', ThreadOk-finished t inst.done ok')
