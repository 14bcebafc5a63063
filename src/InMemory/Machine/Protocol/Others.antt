-- ===== src/InMemory/Machine/Protocol/Others.antt =====
-- The steps of other routines leave a routine as it was.
use mathlib.Core.Option.{some-injective}
use durableroutine_go.Base.{
  ℕ, String, ◌==◌, ◌≡◌, subst, inl, inr, false, Option, none, some, List, Bool-cases, Option-cases,
  get_elem?,
}
use durableroutine_go.Base.Int.{ℤ}
use durableroutine_go.Base.Dict.{Dict, get}
use durableroutine_go.Base.Result.{Result-cases}
use durableroutine_go.Durable.Payload.{Any}
use durableroutine_go.Durable.Continuation.{Case}
use durableroutine_go.Durable.Worker.{HandlerEntry, RunOutput}
use durableroutine_go.InMemory.Runtime.{Runtime, Thread}
use durableroutine_go.InMemory.Handler.{apply_context_effects, run_outcome, run_handler}
use durableroutine_go.InMemory.Wait.{Fired, Received}
use durableroutine_go.InMemory.Poll.{bare}
use durableroutine_go.InMemory.WaitLoop.{is_continue}
use durableroutine_go.InMemory.Machine.{
  finish, fire, enter_wait, after_output, run_step, after_receive,
}
use durableroutine_go.InMemory.Machine.Protocol.{Aspect, Stands}
use durableroutine_go.InMemory.Machine.Protocol.Frame.{
  set_thread-other, set_instance-other, respond-Stands, add_reply-Stands,
  apply_context_effects-other,
}

module _ (hs : Dict HandlerEntry) (id : String) (T : Aspect) (j : String)
    (other : (j == id) ≡ false) where
  finish-other :
      (result : Option Any) (error : Option String) (r : Runtime)
      → Stands hs id T r
      → Stands hs id T (finish j result error r)
  unfolding finish
  finish-other result error r s = elim (Option-cases (get j r.instances)) [
    | inl e ↦ rw (e, finish) (set_thread-other hs id T j _ r other s)
    | inr (inst, e) ↦
        rw (e, finish)
          (set_thread-other hs id T j _ _ other (set_instance-other hs id T j _ r other s))
  ]

  fire-other :
      (cases : List Case) (f : Fired) (r : Runtime)
      → Stands hs id T r
      → Stands hs id T (fire j cases f r)
  unfolding fire
  fire-other cases f r s = elim (Option-cases (get_elem? cases f.idx)) [
    | inl e ↦ rw (e, fire) (set_thread-other hs id T j _ r other s)
    | inr (c, e) ↦ rw (e, fire) (set_thread-other hs id T j _ r other s)
  ]

  enter_wait-other :
      (now : ℤ) (cases : List Case) (r : Runtime)
      → Stands hs id T r
      → Stands hs id T (enter_wait j now cases r)
  unfolding enter_wait
  enter_wait-other now cases r s = elim (Bool-cases (is_continue cases)) [
    | inl e ↦ rw (e, enter_wait) (fire-other cases (bare 0) r s)
    | inr e ↦ rw (e, enter_wait) (set_thread-other hs id T j _ r other s)
  ]

  after_output-other :
      (ch : Option ℕ) (now : ℤ) (out : RunOutput) (r : Runtime)
      → Stands hs id T r
      → Stands hs id T (after_output j ch now out r)
  unfolding after_output
  after_output-other ch now out r s =
      let answered = respond-Stands hs id T ch _ r s in
      elim (Bool-cases out.done) [
        | inl e ↦ rw (e, after_output) (finish-other _ none _ answered)
        | inr e ↦ rw (e, after_output) (enter_wait-other now out.cases _ answered)
      ]

  pub run_step-other :
      (r r' : Runtime) (key : String) (input : Any) (msg : Option Any) (ch : Option ℕ) (now : ℤ)
      → run_step r j key input msg ch now ≡ some r'
      → Stands hs id T r
      → Stands hs id T r'
  unfolding run_step run_handler
  run_step-other r r' key input msg ch now e s =
      elim (Result-cases (run_outcome r.handlers j key input msg)) [
        | inr (x, q) ↦
            subst (Stands hs id T) (some-injective _ r' (rw (q, run_step) at e))
              (finish-other none (some x) _ (respond-Stands hs id T ch _ r s))
        | inl ((sctx, out), q) ↦ elim (Option-cases (apply_context_effects j sctx r)) [
          | inl full ↦ absurd (cc (rw (q, full, run_step) at e))
          | inr (m, applied) ↦
              subst (Stands hs id T) (some-injective _ r' (rw (q, applied, run_step) at e)) (
                after_output-other ch now out m
                  (apply_context_effects-other hs id T j sctx r m other applied s))
        ]
      ]

  pub after_receive-other :
      (cases : List Case) (waits : Thread) (rc : Received) (r : Runtime)
      → Stands hs id T r
      → Stands hs id T (after_receive j cases waits rc r)
  unfolding after_receive
  after_receive-other cases waits rc r s =
      let replied =
        add_reply-Stands hs id T rc.reply _ (set_instance-other hs id T j rc.inst r other s) in
      elim (Option-cases rc.fired) [
        | inl e ↦ rw (e, after_receive) (set_thread-other hs id T j waits _ other replied)
        | inr (f, e) ↦ rw (e, after_receive) (fire-other cases f _ replied)
      ]
