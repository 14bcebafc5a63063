-- ===== src/Temporal/Workflow/Protocol/Passes.antt =====
-- backend/temporal/workflow.go: the passes of the loop of a routine that keeps to its protocol.
use durableroutine_go.Base.{
  ◌≡◌, refl, sym, ap, subst, ℕ, Bool, true, false, inl, inr, List, [], ◌∷◌, if◌then◌else◌, All,
  All-append, Option-cases, Bool-cases, ◌==◌,
}
use durableroutine_go.Base.Int.{ℤ}
use durableroutine_go.Base.Dict.{put}
use durableroutine_go.Base.Result.{Result, ok, err, Result-cases, ok-injective}
use durableroutine_go.Temporal.Types.{QueryEntry, ActivityOutput, SerializedCase}
use durableroutine_go.Temporal.Workflow.{
  Execution, Workflow, set_query_handlers, call_cases, enter_select,
}
use durableroutine_go.Temporal.Workflow.Select.{
  should_continue_as_new, can_check, interpret_cases, apply_effects, finish_or_wait, process_output,
  after_activity, pass, take_case,
}
use durableroutine_go.Temporal.Workflow.Protocol.{
  Protocol, EntersCase, Goes, Keeps, AllowsOutput, Obeys, Holds, obeys_as,
}

module _ (P : Protocol) where
  pub can_check-Holds :
      (x : Execution) (s : Bool) (l : ℤ) (w : Workflow) → Obeys P w → Holds P (can_check x s l w)
  unfolding can_check
  can_check-Holds x s l w o = elim (Bool-cases (should_continue_as_new x s l w)) [
    | inl e ↦ rw (e, can_check) (obeys_as P w _ refl refl refl refl refl o, tt)
    | inr e ↦ rw (e, can_check) (obeys_as P w _ refl refl refl refl refl o, tt)
  ]

  pub take_case-Obeys :
      (c : SerializedCase) (w : Workflow) → EntersCase P c → Obeys P w → Obeys P (take_case c w)
  take_case-Obeys c w h o = record {
    current = h;
    handlers = o.handlers;
    pending = o.pending;
    output = o.output;
  }

  pub All-call_cases :
      (cs : List SerializedCase) → All (EntersCase P) cs → All (EntersCase P) (call_cases cs)
  unfolding call_cases
  All-call_cases [] h = tt
  All-call_cases (c ∷ cs) (h, hs) = elim (Bool-cases (c.call_name == "")) [
    | inl e ↦ rw e (All-call_cases cs hs)
    | inr e ↦ rw e (h, All-call_cases cs hs)
  ]

  pub enter_select-Holds :
      (cases : List SerializedCase) (w : Workflow)
      → All (EntersCase P) cases
      → Obeys P w
      → Holds P (enter_select cases w)
  unfolding enter_select
  enter_select-Holds cases w h o = (
    record {
      current = o.current;
      handlers =
          All-append (EntersCase P) w.update_handlers (call_cases cases) o.handlers
            (All-call_cases cases h);
      pending = o.pending;
      output = o.output;
    },
    h,
  )

  pub Holds-if : (b : Bool) (u v : Workflow) → Holds P u → Holds P v → Holds P (if b then u else v)
  Holds-if true u v hu hv = hu
  Holds-if false u v hu hv = hv

  pub interpret_cases-Holds :
      (x : Execution) (s : Bool) (l : ℤ) (cases : List SerializedCase) (w : Workflow)
      → All (EntersCase P) cases
      → Obeys P w
      → Holds P (interpret_cases x s l cases w)
  unfolding interpret_cases
  interpret_cases-Holds x s l [] w h o = (obeys_as P w _ refl refl refl refl refl o, tt)
  interpret_cases-Holds x s l (c ∷ []) w h o =
      Holds-if c.immediate (can_check x s l (take_case c w)) (enter_select (c ∷ []) w)
        (can_check-Holds x s l (take_case c w) (take_case-Obeys c w h.0 o))
        (enter_select-Holds (c ∷ []) w h o)
  interpret_cases-Holds x s l (c ∷ d ∷ cs) w h o = enter_select-Holds (c ∷ d ∷ cs) w h o

  pub finish_or_wait-Holds :
      (x : Execution) (s : Bool) (l : ℤ) (out : ActivityOutput) (w : Workflow)
      → Goes P out
      → Obeys P w
      → Holds P (finish_or_wait x s l out w)
  unfolding finish_or_wait
  finish_or_wait-Holds x s l out w g o = elim (Bool-cases out.done) [
    | inl e ↦ rw (e, finish_or_wait) (obeys_as P w _ refl refl refl refl refl o, g.ends e)
    | inr e ↦ rw (e, finish_or_wait) (interpret_cases-Holds x s l _ w g.enters o)
  ]

  -- Setting query handlers changes nothing else.
  pub set_query_handlers-Obeys :
      (x : Execution) (qs : List QueryEntry) (w w' : Workflow)
      → set_query_handlers x qs w ≡ ok w'
      → Obeys P w
      → Obeys P w'
  unfolding set_query_handlers
  set_query_handlers-Obeys x [] w w' h o = subst (Obeys P) (ok-injective w w' h) o
  set_query_handlers-Obeys x (q ∷ qs) w w' h o =
      elim (Option-cases (x.sdk.set_query_handler q.query_name)) [
        | inl e ↦
            set_query_handlers-Obeys x qs _ w' (rw (e, set_query_handlers) at h)
              (obeys_as P w _ refl refl refl refl refl o)
        | inr (m, e) ↦ absurd (cc (rw (e, set_query_handlers) at h))
      ]

  pub set_query_handlers-phase :
      (x : Execution) (qs : List QueryEntry) (w w' : Workflow)
      → set_query_handlers x qs w ≡ ok w'
      → w'.phase ≡ w.phase
  unfolding set_query_handlers
  set_query_handlers-phase x [] w w' h = ap (λ (v : Workflow). v.phase) (sym (ok-injective w w' h))
  set_query_handlers-phase x (q ∷ qs) w w' h =
      elim (Option-cases (x.sdk.set_query_handler q.query_name)) [
        | inl e ↦
            set_query_handlers-phase x qs
              (record w { query_handlers = put q.query_name q.result w.query_handlers }) w'
              (rw (e, set_query_handlers) at h)
        | inr (m, e) ↦ absurd (cc (rw (e, set_query_handlers) at h))
      ]

  pub process_output-Holds :
      (x : Execution) (s : Bool) (l : ℤ) (out : ActivityOutput) (w : Workflow)
      → Goes P out
      → Obeys P w
      → Holds P (process_output x s l out w)
  unfolding process_output apply_effects
  process_output-Holds x s l out w g o =
      elim (Result-cases (set_query_handlers x out.query_results w)) [
        | inr (e, h) ↦ rw (h, process_output) (obeys_as P w _ refl refl refl refl refl o, tt)
        | inl (w', h) ↦
            let o' = set_query_handlers-Obeys x out.query_results w w' h o in
            rw (h, process_output)
              (finish_or_wait-Holds x s l out (apply_effects out w') g
                (obeys_as P w' _ refl refl refl refl refl o'))
      ]

  -- An output that is not an error is as the protocol says.
  pub after_activity-Holds :
      (x : Execution) (s : Bool) (l : ℤ) (r : ℕ × Result ActivityOutput) (w : Workflow)
      → ((out : ActivityOutput) → r.1 ≡ ok out → Goes P out)
      → Obeys P w
      → Holds P (after_activity x s l r w)
  unfolding after_activity
  after_activity-Holds x s l (n, err e) w g o = (obeys_as P w _ refl refl refl refl refl o, tt)
  after_activity-Holds x s l (n, ok out) w g o =
      process_output-Holds x s l out _ (g out refl) (obeys_as P w _ refl refl refl refl refl o)

  pub pass-Holds :
      (x : Execution) (s : Bool) (l : ℤ) (w : Workflow)
      → Keeps P x
      → Obeys P w
      → Holds P (pass x s l w)
  unfolding pass
  pass-Holds x s l w k o = elim (Option-cases w.call_handler_output) [
    | inl e ↦
        rw (e, pass)
          (after_activity-Holds x s l _ w
            (λ out q. k.keeps w.executed w.handler_key w.handler_input w.message out o.current q) o)
    | inr (out, e) ↦
        let g : Goes P out = subst (AllowsOutput P) e o.output in
        rw (e, pass)
          (process_output-Holds x s l out _ g (record {
            current = o.current;
            handlers = o.handlers;
            pending = o.pending;
            output = tt;
          }))
  ]
