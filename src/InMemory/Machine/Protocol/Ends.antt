-- ===== src/InMemory/Machine/Protocol/Ends.antt =====
-- A routine whose handlers keep to a protocol is seen to end by it.
use mathlib.Core.Option.{some-injective}
use durableroutine_go.Base.{
  ℕ, String, ◌==◌, ◌≡◌, refl, sym, ap, ◌∙◌, subst, inl, inr, Bool, false, Option, none, some, List,
  [], eq_iff, eq_refl, Bool-cases, Option-cases, All,
}
use durableroutine_go.Base.Int.{ℤ}
use durableroutine_go.Base.Dict.{Dict, get, get-put}
use durableroutine_go.Base.Result.{Result, ok, err, ok-injective}
use durableroutine_go.Durable.Keys.{handler_key}
use durableroutine_go.Durable.Payload.{Any}
use durableroutine_go.Durable.Continuation.{Case}
use durableroutine_go.Durable.Worker.{HandlerEntry, Worker}
use durableroutine_go.InMemory.Runtime.{
  Instance, Runtime, Thread, running, polling, blocked, start, new_instance, new_runtime,
}
use durableroutine_go.InMemory.Wait.{Received}
use durableroutine_go.InMemory.Poll.{poll}
use durableroutine_go.InMemory.Poll.Kept.{poll-kept, block_for_case-kept, kept}
use durableroutine_go.InMemory.Machine.{
  after_receive, run_step, client_get, Step, runs, polls, wakes, starts, sends, calls, Reach, here,
  next,
}
use durableroutine_go.InMemory.Machine.Sound.{IsSound, instance_of, ThreadOk, start-IsSound}
use durableroutine_go.InMemory.Machine.Handlers.{Reach-handlers}
use durableroutine_go.InMemory.Machine.Safety.{Reach-IsSound, new_runtime-IsSound}
use durableroutine_go.InMemory.Machine.Protocol.{
  Stands, Protocol, EntersCase, Allowed, Obeys, Keeps,
}
use durableroutine_go.InMemory.Machine.Protocol.Frame.{
  start-Stands, client_send-Stands, client_call-Stands,
}
use durableroutine_go.InMemory.Machine.Protocol.Others.{run_step-other, after_receive-other}
use durableroutine_go.InMemory.Machine.Protocol.Own.{run_step-own, after_receive-own}

module _ (hs : Dict HandlerEntry) (id : String) (P : Protocol) where
  -- The goroutine of the routine is where it was seen to be.
  Allowed-at :
      (t : Thread) (r : Runtime)
      → get id r.threads ≡ some t
      → (s : Stands hs id (Obeys P) r) → Allowed P s.inst.query_results t
  Allowed-at t r e s =
      subst (Allowed P s.inst.query_results) (some-injective s.thread t (sym s.at_thread ∙ e))
        s.holds.0

  receives :
      (cases : List Case) (before after : Thread) (rc : Received) (inst : Instance) (r : Runtime)
      → IsSound r
      → get id r.threads ≡ some before
      → get id r.instances ≡ some inst
      → ((done : Bool) → ThreadOk before done → done ≡ false)
      → ((m : Dict Any) → Allowed P m before → All (EntersCase P m) cases)
      → ((m : Dict Any) → All (EntersCase P m) cases → Allowed P m after)
      → kept rc.inst ≡ kept inst
      → Stands hs id (Obeys P) r
      → Stands hs id (Obeys P) (after_receive id cases after rc r)
  receives cases before after rc inst r sound e at unfinished f g k s =
      let (mine, at_mine, t) = instance_of r id before sound e in
      let same : mine ≡ inst = some-injective mine inst (sym at_mine ∙ at) in
      after_receive-own hs id P cases after rc inst r at (ap (λ (p : Bool × Dict Any). p.1) k)
        (ap (λ (p : Bool × Dict Any). p.0) k
          ∙ subst (λ (i : Instance). i.done ≡ false) same (unfinished mine.done t))
        g
        (record {
          same_handlers = s.same_handlers;
          thread = s.thread;
          at_thread = s.at_thread;
          inst = s.inst;
          at_inst = s.at_inst;
          holds = f s.inst.query_results (Allowed-at before r e s);
        })

  runs-Obeys :
      (r r' : Runtime) (key : String) (input : Any) (msg : Option Any) (ch : Option ℕ) (now : ℤ)
      → IsSound r
      → Keeps P hs id
      → get id r.threads ≡ some (running key input msg ch)
      → run_step r id key input msg ch now ≡ some r'
      → Stands hs id (Obeys P) r
      → Stands hs id (Obeys P) r'
  runs-Obeys r r' key input msg ch now sound k e h s =
      let (mine, at_mine, u) = instance_of r id _ sound e in
      let same : mine ≡ s.inst = some-injective mine s.inst (sym at_mine ∙ s.at_inst) in
      let u' : s.inst.done ≡ false = subst (λ (i : Instance). i.done ≡ false) same u in
      run_step-own hs id P r r' key input msg ch now k h (record {
        same_handlers = s.same_handlers;
        thread = s.thread;
        at_thread = s.at_thread;
        inst = s.inst;
        at_inst = s.at_inst;
        holds = (Allowed-at (running key input msg ch) r e s, rw u' refl);
      })

  Step-Obeys :
      {r r' : Runtime}
      → IsSound r
      → Keeps P hs id
      → Step r r'
      → Stands hs id (Obeys P) r
      → Stands hs id (Obeys P) r'
  Step-Obeys {r} {r'} sound k (runs j key input msg ch now e h) s = elim (Bool-cases (j == id)) [
    | inr other ↦ run_step-other hs id (Obeys P) j other r r' key input msg ch now h s
    | inl mine ↦
        let q = (eq_iff j id).0 mine in
        runs-Obeys r r' key input msg ch now sound k
          (subst (λ i. get i r.threads ≡ some (running key input msg ch)) q e)
          (subst (λ i. run_step r i key input msg ch now ≡ some r') q h) s
  ]
  Step-Obeys {r} {r'} sound k (polls j cases timers inst now e there h) s =
      rw h (elim (Bool-cases (j == id)) [
        | inr other ↦ after_receive-other hs id (Obeys P) j other cases _ _ r s
        | inl mine ↦
            let q = (eq_iff j id).0 mine in
            subst
              (λ i.
                Stands hs id (Obeys P)
                  (after_receive i cases (blocked cases timers) (poll now inst cases timers) r))
              (sym q)
              (receives cases (polling cases timers) (blocked cases timers)
                (poll now inst cases timers) inst r sound
                (subst (λ i. get i r.threads ≡ some (polling cases timers)) q e)
                (subst (λ i. get i r.instances ≡ some inst) q there) (λ d k. k.0) (λ m a. a)
                (λ m a. a) (poll-kept now inst cases timers) s)
      ])
  Step-Obeys {r} {r'} sound k (wakes j cases timers inst now w rc e there b h) s =
      rw h (elim (Bool-cases (j == id)) [
        | inr other ↦ after_receive-other hs id (Obeys P) j other cases _ _ r s
        | inl mine ↦
            let q = (eq_iff j id).0 mine in
            subst (λ i. Stands hs id (Obeys P) (after_receive i cases (polling cases timers) rc r))
              (sym q)
              (receives cases (blocked cases timers) (polling cases timers) rc inst r sound
                (subst (λ i. get i r.threads ≡ some (blocked cases timers)) q e)
                (subst (λ i. get i r.instances ≡ some inst) q there) (λ d k. k.0) (λ m a. a)
                (λ m a. a) (block_for_case-kept now w inst cases timers rc b) s)
      ])
  Step-Obeys {r} {r'} sound k (starts j kind result_kind input h) s =
      start-Stands hs id (Obeys P) r r' j kind result_kind input h s
  Step-Obeys {r} {r'} sound k (sends j i e t msg h) s =
      client_send-Stands hs id (Obeys P) r r' j i e t msg h s
  Step-Obeys {r} {r'} sound k (calls j i q p t req ch h) s =
      client_call-Stands hs id (Obeys P) r r' j i q p t req ch h s

  Reach-Obeys :
      {r r' : Runtime}
      → IsSound r
      → Keeps P hs id
      → Reach r r'
      → Stands hs id (Obeys P) r
      → Stands hs id (Obeys P) r'
  Reach-Obeys sound k here s = s
  Reach-Obeys sound k (next steps last) s =
      Step-Obeys (Reach-IsSound sound steps) k last (Reach-Obeys sound k steps s)

  started-Obeys :
      (r s : Runtime) (kind result_kind : String) (input : Any)
      → r.handlers ≡ hs
      → start r id kind result_kind input ≡ ok s
      → P.Enters [] (handler_key kind result_kind) input
      → Stands hs id (Obeys P) s
  unfolding start new_instance
  started-Obeys r s kind result_kind input same h enters =
      elim (Option-cases (get id r.instances)) [
        | inr (inst, old) ↦ absurd (cc (rw (old, start) at h))
        | inl fresh ↦
            subst (Stands hs id (Obeys P)) (ok-injective _ s (rw (fresh, start) at h)) (record {
              same_handlers = same;
              thread = running (handler_key kind result_kind) input none none;
              at_thread = rw (get-put, eq_refl) refl;
              inst = new_instance id;
              at_inst = rw (get-put, eq_refl) refl;
              holds = (enters, tt);
            })
      ]

  client_get-Ends :
      (t : Runtime) (x : Result (Option Any))
      → client_get t id ≡ some x
      → Stands hs id (Obeys P) t
      → (inst : Instance) × (get id t.instances ≡ some inst) × P.Ends inst.query_results x
  unfolding client_get
  client_get-Ends t x e s = elim (Bool-cases s.inst.done) [
    | inr u ↦ absurd (cc (rw (s.at_inst, client_get, u) at e))
    | inl d ↦ elim (Option-cases s.inst.err) [
      | inl n ↦
          let same : ok s.inst.result ≡ x =
            some-injective (ok s.inst.result) x (rw (s.at_inst, client_get, d, n) at e) in
          (s.inst, s.at_inst, subst (P.Ends s.inst.query_results) same (rw (d, n) at s.holds.1))
      | inr (z, n) ↦
          let same : err z ≡ x = some-injective (err z) x (rw (s.at_inst, client_get, d, n) at e) in
          (s.inst, s.at_inst, subst (P.Ends s.inst.query_results) same (rw (d, n) at s.holds.1))
    ]
  ]

-- A routine whose handlers keep to a protocol: whatever runs before it is started, and whatever
-- messages, calls, timers and other routines there are, what `Get` returns for it is an end that the
-- protocol has, with the query results of the routine.
pub protocol-client_get :
    (w : Worker) (id kind result_kind : String) (P : Protocol) (input : Any) (r s t : Runtime)
    (x : Result (Option Any))
    → Keeps P w.handlers id
    → P.Enters [] (handler_key kind result_kind) input
    → Reach (new_runtime w) r
    → start r id kind result_kind input ≡ ok s
    → Reach s t
    → client_get t id ≡ some x
    → (inst : Instance) × (get id t.instances ≡ some inst) × P.Ends inst.query_results x
unfolding new_runtime
protocol-client_get w id kind result_kind P input r s t x k enters before h after e =
    let sound = Reach-IsSound (new_runtime-IsSound w) before in
    client_get-Ends w.handlers id P t x e (
      Reach-Obeys w.handlers id P (start-IsSound r s id kind result_kind input h sound) k after
        (started-Obeys w.handlers id P r s kind result_kind input (Reach-handlers before) h enters))
