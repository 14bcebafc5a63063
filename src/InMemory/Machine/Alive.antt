-- ===== src/InMemory/Machine/Alive.antt =====
-- A goroutine's own instance stays, and stays unfinished, while the effects of its handler are
-- applied.
use mathlib.Core.Option.{some-injective}
use durableroutine_go.Base.{
  ℕ, String, ◌==◌, ◌≡◌, refl, sym, ap, ◌∙◌, subst, inl, inr, false, Option, none, some, List, [],
  ◌∷◌, length, ltb, eq_iff, Bool-cases, Option-cases,
}
use durableroutine_go.Base.Dict.{get, get-put}
use durableroutine_go.Base.Result.{Result, Result-cases}
use durableroutine_go.Durable.Payload.{Any}
use durableroutine_go.Durable.Context.{Context, QueryEntry, SendRequest, StartEntry, start_entries}
use durableroutine_go.Durable.Worker.{RunOutput}
use durableroutine_go.InMemory.Runtime.{CallResp, Instance, Runtime, send_capacity, set_instance}
use durableroutine_go.InMemory.Handler.{
  apply_queries, start_child, start_children, deliver, deliver_all, apply_context_effects,
  run_outcome, run_handler,
}
use durableroutine_go.InMemory.Machine.{respond, add_reply}
use durableroutine_go.InMemory.Machine.Sound.{
  IsSound, at_same, respond-IsSound, add_reply-IsSound, apply_queries-IsSound,
  start_children-IsSound, deliver_all-IsSound,
}

pub record IsAlive (id : String) (r : Runtime) : Type 0 where
  pub sound : IsSound r
  pub inst : Instance
  pub there : get id r.instances ≡ some inst
  pub unfinished : inst.done ≡ false

-- What is left of `IsAlive` without the invariant.
abbrev Unfinished : String → Runtime → Type 0
Unfinished id r = (inst : Instance) × (get id r.instances ≡ some inst) × (inst.done ≡ false)

set_instance-Unfinished :
    (r : Runtime) (id j : String) (inst inst' : Instance)
    → get j r.instances ≡ some inst
    → inst'.done ≡ inst.done
    → Unfinished id r
    → Unfinished id (set_instance j inst' r)
unfolding set_instance
set_instance-Unfinished r id j inst inst' e d (mine, there, u) = elim (Bool-cases (j == id)) [
  | inl same ↦
      let is_mine = some-injective mine inst (sym there ∙ at_same r.instances j id inst e same) in
      (inst', rw (get-put, same), d ∙ subst (λ i. i.done ≡ false) is_mine u)
  | inr other ↦ (mine, rw (get-put, other) there, u)
]

apply_queries-Unfinished :
    (id j : String) (qs : List QueryEntry) (r : Runtime)
    → Unfinished id r
    → Unfinished id (apply_queries j qs r)
unfolding apply_queries
apply_queries-Unfinished id j qs r u = elim (Option-cases (get j r.instances)) [
  | inl e ↦ rw (e, apply_queries) u
  | inr (inst, e) ↦ rw (e, apply_queries) (set_instance-Unfinished r id j inst _ e refl u)
]

start_child-Unfinished :
    (id : String) (c : StartEntry) (r : Runtime) → Unfinished id r → Unfinished id (start_child c r)
unfolding start_child
start_child-Unfinished id c r (mine, there, u) =
    elim (Option-cases (get c.routine_id r.instances)) [
      | inl e ↦ elim (Bool-cases (c.routine_id == id)) [
        | inl same ↦ absurd (cc (sym there, rw ((eq_iff c.routine_id id).0 same) at e))
        | inr other ↦ rw (e, start_child) (mine, rw (get-put, other) there, u)
      ]
      | inr (inst, e) ↦ rw (e, start_child) (mine, there, u)
    ]

start_children-Unfinished :
    (id : String) (cs : List StartEntry) (r : Runtime)
    → Unfinished id r
    → Unfinished id (start_children cs r)
unfolding start_children
start_children-Unfinished id [] r u = u
start_children-Unfinished id (c ∷ cs) r u =
    start_children-Unfinished id cs (start_child c r) (start_child-Unfinished id c r u)

deliver-Unfinished :
    (id : String) (q : SendRequest) (r r' : Runtime)
    → deliver q r ≡ some r'
    → Unfinished id r
    → Unfinished id r'
unfolding deliver
deliver-Unfinished id q r r' e u = elim (Option-cases (get q.routine_id r.instances)) [
  | inl none_there ↦ subst (Unfinished id) (some-injective r r' (rw (none_there, deliver) at e)) u
  | inr (target, there) ↦ elim (Bool-cases (ltb (length target.send_ch) send_capacity)) [
    | inl room ↦
        subst (Unfinished id) (some-injective _ r' (rw (there, room, deliver) at e))
          (set_instance-Unfinished r id q.routine_id target _ there refl u)
    | inr full ↦ absurd (cc (rw (there, full, deliver) at e))
  ]
]

deliver_all-Unfinished :
    (id : String) (qs : List SendRequest) (r r' : Runtime)
    → deliver_all qs r ≡ some r'
    → Unfinished id r
    → Unfinished id r'
unfolding deliver_all
deliver_all-Unfinished id [] r r' e u = subst (Unfinished id) (some-injective r r' e) u
deliver_all-Unfinished id (q ∷ qs) r r' e u = elim (Option-cases (deliver q r)) [
  | inl e' ↦ absurd (cc (rw (e', deliver_all) at e))
  | inr (m, e') ↦
      deliver_all-Unfinished id qs m r' (rw (e', deliver_all) at e)
        (deliver-Unfinished id q r m e' u)
]

-- The effects of a handler of `id` leave the runtime sound and the instance unfinished.
pub apply_context_effects-IsAlive :
    (id : String) (sctx : Context) (r r' : Runtime)
    → apply_context_effects id sctx r ≡ some r'
    → IsAlive id r
    → IsAlive id r'
unfolding apply_context_effects
apply_context_effects-IsAlive id sctx r r' e a =
    let queried = apply_queries id sctx.query_results r in
    let grown = start_children (start_entries sctx) queried in
    let (inst, there, u) = deliver_all-Unfinished id sctx.send_requests grown r' e (
      start_children-Unfinished id (start_entries sctx) queried
        (apply_queries-Unfinished id id sctx.query_results r (a.inst, a.there, a.unfinished))) in
    record {
      sound = deliver_all-IsSound sctx.send_requests grown r' e (
          start_children-IsSound (start_entries sctx) queried
            (apply_queries-IsSound id sctx.query_results r a.sound));
      inst = inst;
      there = there;
      unfinished = u;
    }

pub run_handler-IsAlive :
    (r : Runtime) (id key : String) (input : Any) (msg : Option Any) (r' : Runtime)
    (res : Result RunOutput)
    → run_handler r id key input msg ≡ some (r', res)
    → IsAlive id r
    → IsAlive id r'
unfolding run_handler
run_handler-IsAlive r id key input msg r' res e a =
    elim (Result-cases (run_outcome r.handlers id key input msg)) [
      | inl ((sctx, out), e') ↦ elim (Option-cases (apply_context_effects id sctx r)) [
        | inl full ↦ absurd (cc (rw (e', full, run_handler) at e))
        | inr (m, applied) ↦
            let same =
              ap (λ p. p.0) (some-injective _ (r', res) (rw (e', applied, run_handler) at e)) in
            subst (IsAlive id) same (apply_context_effects-IsAlive id sctx r m applied a)
      ]
      | inr (x, e') ↦
          let same = ap (λ p. p.0) (some-injective _ (r', res) (rw (e', run_handler) at e)) in
          subst (IsAlive id) same a
    ]

pub respond-IsAlive :
    (id : String) (ch : Option ℕ) (resp : CallResp) (r : Runtime)
    → IsAlive id r
    → IsAlive id (respond ch resp r)
unfolding respond
respond-IsAlive id none resp r a = a
respond-IsAlive id (some ch) resp r a = record {
  sound = unfold respond in respond-IsSound (some ch) resp r a.sound;
  inst = a.inst;
  there = a.there;
  unfinished = a.unfinished;
}

pub add_reply-IsAlive :
    (id : String) (reply : Option (ℕ × CallResp)) (r : Runtime)
    → IsAlive id r
    → IsAlive id (add_reply reply r)
unfolding add_reply
add_reply-IsAlive id none r a = a
add_reply-IsAlive id (some x) r a = record {
  sound = add_reply-IsSound (some x) r a.sound;
  inst = a.inst;
  there = a.there;
  unfinished = a.unfinished;
}
