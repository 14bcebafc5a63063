-- ===== src/InMemory/Machine/Protocol/Own.antt =====
-- The steps of a routine that keeps to its protocol.
use mathlib.Core.Option.{some-injective}
use durableroutine_go.Base.{
  ℕ, String, ◌≡◌, refl, sym, ◌∙◌, subst, inl, inr, false, Option, none, some, List, eq_refl,
  Bool-cases, Option-cases, All, All-at, get_elem?,
}
use durableroutine_go.Base.Int.{ℤ}
use durableroutine_go.Base.Dict.{Dict, get, get-put}
use durableroutine_go.Base.Result.{ok, err, Result-cases}
use durableroutine_go.Durable.Payload.{Any}
use durableroutine_go.Durable.Context.{Context}
use durableroutine_go.Durable.Continuation.{Case}
use durableroutine_go.Durable.Worker.{HandlerEntry, RunOutput}
use durableroutine_go.InMemory.Runtime.{
  Instance, Runtime, Thread, finished, set_instance, set_thread,
}
use durableroutine_go.InMemory.Handler.{
  merge_queries, apply_queries, apply_context_effects, run_outcome, run_handler,
}
use durableroutine_go.InMemory.Wait.{Fired, Received}
use durableroutine_go.InMemory.Poll.{bare}
use durableroutine_go.InMemory.WaitLoop.{is_continue}
use durableroutine_go.InMemory.Machine.{
  unmarshal_any, finish, fire, enter_wait, after_output, run_step, after_receive,
}
use durableroutine_go.InMemory.Machine.Outcomes.{outcome, reply_of}
use durableroutine_go.InMemory.Machine.Protocol.{
  Aspect, Stands, Protocol, EntersCase, Allowed, MayEnd, Obeys, Goes, GoesOn, Keeps,
}
use durableroutine_go.InMemory.Machine.Protocol.Frame.{
  respond-Stands, add_reply-Stands, sent-Stands,
}

abbrev Outcome : Type 0
Outcome = Option (Option Any × Option String)

-- A routine that has not ended, with a property of its query results.
abbrev pub Going : (Dict Any → Type 0) → Aspect
Going Q m t o = Q m × (o ≡ none)

module _ (hs : Dict HandlerEntry) (id : String) where
  weaken :
      (T T' : Aspect) (r : Runtime)
      → ((m : Dict Any) (t : Thread) (o : Outcome) → T m t o → T' m t o)
      → Stands hs id T r
      → Stands hs id T' r
  weaken T T' r f s = record {
    same_handlers = s.same_handlers;
    thread = s.thread;
    at_thread = s.at_thread;
    inst = s.inst;
    at_inst = s.at_inst;
    holds = f s.inst.query_results s.thread _ s.holds;
  }

  set_thread-own :
      (T T' : Aspect) (t : Thread) (r : Runtime)
      → ((m : Dict Any) (t' : Thread) (o : Outcome) → T m t' o → T' m t o)
      → Stands hs id T r
      → Stands hs id T' (set_thread id t r)
  unfolding set_thread
  set_thread-own T T' t r f s = record {
    same_handlers = s.same_handlers;
    thread = t;
    at_thread = rw (get-put, eq_refl) refl;
    inst = s.inst;
    at_inst = s.at_inst;
    holds = f s.inst.query_results s.thread _ s.holds;
  }

  -- A write of the instance that was read.
  set_instance-own :
      (T T' : Aspect) (inst inst' : Instance) (r : Runtime)
      → get id r.instances ≡ some inst
      → ((t : Thread)
          → T inst.query_results t (outcome (some inst))
          → T' inst'.query_results t (outcome (some inst')))
      → Stands hs id T r
      → Stands hs id T' (set_instance id inst' r)
  unfolding set_instance
  set_instance-own T T' inst inst' r there f s =
      let mine : s.inst ≡ inst = some-injective s.inst inst (sym s.at_inst ∙ there) in
      record {
        same_handlers = s.same_handlers;
        thread = s.thread;
        at_thread = s.at_thread;
        inst = inst';
        at_inst = rw (get-put, eq_refl) refl;
        holds =
            f s.thread (
              subst (λ (i : Instance). T i.query_results s.thread (outcome (some i))) mine s.holds);
      }

  module _ (P : Protocol) where
    finish-own :
        (result : Option Any) (error : Option String) (r : Runtime)
        → Stands hs id (Going λ m. P.Ends m (reply_of (result, error))) r
        → Stands hs id (Obeys P) (finish id result error r)
    unfolding finish
    finish-own result error r s =
        rw (s.at_inst, finish)
          (set_thread-own (λ m t o. MayEnd P m o) (Obeys P) finished _ (λ m t o h. (tt, h))
            (set_instance-own (Going λ m. P.Ends m (reply_of (result, error)))
              (λ m t o. MayEnd P m o) s.inst _ r s.at_inst (λ t h. h.0) s))

    fire-own :
        (cases : List Case) (f : Fired) (r : Runtime)
        → Stands hs id (Going λ m. All (EntersCase P m) cases) r
        → Stands hs id (Obeys P) (fire id cases f r)
    unfolding fire
    fire-own cases f r s = elim (Option-cases (get_elem? cases f.idx)) [
      | inl e ↦ rw (e, fire) (set_thread-own _ (Obeys P) _ r (λ m t o h. (tt, rw h.1 tt)) s)
      | inr (c, e) ↦
          rw (e, fire)
            (set_thread-own (Going λ m. All (EntersCase P m) cases) (Obeys P) _ r
              (λ m t o h. (All-at (EntersCase P m) cases f.idx c h.0 e, rw h.1 tt)) s)
    ]

    enter_wait-own :
        (now : ℤ) (cases : List Case) (r : Runtime)
        → Stands hs id (Going λ m. All (EntersCase P m) cases) r
        → Stands hs id (Obeys P) (enter_wait id now cases r)
    unfolding enter_wait
    enter_wait-own now cases r s = elim (Bool-cases (is_continue cases)) [
      | inl e ↦ rw (e, enter_wait) (fire-own cases (bare 0) r s)
      | inr e ↦
          rw (e, enter_wait)
            (set_thread-own (Going λ m. All (EntersCase P m) cases) (Obeys P) _ r
              (λ m t o h. (h.0, rw h.1 tt)) s)
    ]

    after_output-own :
        (ch : Option ℕ) (now : ℤ) (out : RunOutput) (r : Runtime)
        → Stands hs id (Going λ m. Goes P m out) r
        → Stands hs id (Obeys P) (after_output id ch now out r)
    unfolding after_output
    after_output-own ch now out r s =
        let answered = respond-Stands hs id (Going λ m. Goes P m out) ch _ r s in
        elim (Bool-cases out.done) [
          | inl e ↦
              rw (e, after_output)
                (finish-own (unmarshal_any out.result) none _
                  (weaken (Going λ m. Goes P m out) _ _ (λ m t o h. (h.0.ends e, h.1)) answered))
          | inr e ↦
              rw (e, after_output)
                (enter_wait-own now out.cases _
                  (weaken (Going λ m. Goes P m out) _ _ (λ m t o h. (h.0.enters e, h.1)) answered))
        ]

    -- The effects of the routine's own handler.
    apply_context_effects-own :
        (Q Q' : Dict Any → Type 0) (sctx : Context) (r r' : Runtime)
        → ((m : Dict Any) → Q m → Q' (merge_queries sctx.query_results m))
        → apply_context_effects id sctx r ≡ some r'
        → Stands hs id (Going Q) r
        → Stands hs id (Going Q') r'
    unfolding apply_context_effects apply_queries
    apply_context_effects-own Q Q' sctx r r' f e s = sent-Stands hs id (Going Q') sctx _ r' e (
        rw (s.at_inst, apply_queries)
          (set_instance-own (Going Q) (Going Q') s.inst _ r s.at_inst
            (λ t h. (f s.inst.query_results h.0, h.1)) s))

    pub run_step-own :
        (r r' : Runtime) (key : String) (input : Any) (msg : Option Any) (ch : Option ℕ) (now : ℤ)
        → Keeps P hs id
        → run_step r id key input msg ch now ≡ some r'
        → Stands hs id (Going λ m. P.Enters m key input) r
        → Stands hs id (Obeys P) r'
    unfolding run_step run_handler
    run_step-own r r' key input msg ch now k e s =
        elim (Result-cases (run_outcome hs id key input msg)) [
          | inr (x, q) ↦
              let q' : run_outcome r.handlers id key input msg ≡ err x = rw s.same_handlers q in
              subst (Stands hs id (Obeys P)) (some-injective _ r' (rw (q', run_step) at e)) (
                finish-own none (some x) _ (
                  respond-Stands hs id _ ch _ r (
                    weaken (Going λ m. P.Enters m key input) _ r
                      (λ m t o h. (subst (GoesOn P m) q (k.keeps m key input msg h.0), h.1)) s)))
          | inl ((sctx, out), q) ↦
              let q' : run_outcome r.handlers id key input msg ≡ ok (sctx, out) =
                rw s.same_handlers q in
              elim (Option-cases (apply_context_effects id sctx r)) [
                | inl full ↦ absurd (cc (rw (q', full, run_step) at e))
                | inr (m, applied) ↦
                    subst (Stands hs id (Obeys P))
                      (some-injective _ r' (rw (q', applied, run_step) at e))
                      (after_output-own ch now out m (
                        apply_context_effects-own (λ m. P.Enters m key input) (λ m. Goes P m out)
                          sctx r m (λ m h. subst (GoesOn P m) q (k.keeps m key input msg h)) applied
                          s))
              ]
        ]

    pub after_receive-own :
        (cases : List Case) (waits : Thread) (rc : Received) (inst : Instance) (r : Runtime)
        → get id r.instances ≡ some inst
        → rc.inst.query_results ≡ inst.query_results
        → rc.inst.done ≡ false
        → ((m : Dict Any) → All (EntersCase P m) cases → Allowed P m waits)
        → Stands hs id (λ m t o. All (EntersCase P m) cases) r
        → Stands hs id (Obeys P) (after_receive id cases waits rc r)
    unfolding after_receive
    after_receive-own cases waits rc inst r there same u w s =
        let written : Stands hs id (Going λ m. All (EntersCase P m) cases)
            (set_instance id rc.inst r) =
          set_instance-own (λ m t o. All (EntersCase P m) cases)
            (Going λ m. All (EntersCase P m) cases) inst rc.inst r there
            (λ t h. (rw same h, rw u refl)) s in
        let replied = add_reply-Stands hs id _ rc.reply _ written in
        elim (Option-cases rc.fired) [
          | inl e ↦
              rw (e, after_receive)
                (set_thread-own (Going λ m. All (EntersCase P m) cases) (Obeys P) waits _
                  (λ m t o h. (w m h.0, rw h.1 tt)) replied)
          | inr (f, e) ↦ rw (e, after_receive) (fire-own cases f _ replied)
        ]
