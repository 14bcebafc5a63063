-- ===== src/InMemory/Machine/Outcomes.antt =====
-- What writes to instances, and the effects of handlers, do to the outcomes of routines.
use mathlib.Core.Option.{some-injective}
use durableroutine_go.Base.{
  String, ◌==◌, ◌≡◌, refl, sym, ap, ◌∙◌, subst, inl, inr, true, false, Option, none, some, List, [],
  ◌∷◌, eq_iff, Bool-cases, Option-cases, length, ltb,
}
use durableroutine_go.Base.Dict.{get, put, get-put}
use durableroutine_go.Base.Result.{Result, ok, err, Result-cases}
use durableroutine_go.Durable.Payload.{Any}
use durableroutine_go.Durable.Context.{QueryEntry, SendRequest, StartEntry, start_entries}
use durableroutine_go.Durable.Worker.{RunOutput}
use durableroutine_go.InMemory.Runtime.{Instance, Runtime, Thread, send_capacity, set_instance}
use durableroutine_go.InMemory.Handler.{
  apply_queries, start_child, start_children, deliver, deliver_all, apply_context_effects,
  run_outcome, run_handler,
}
use durableroutine_go.InMemory.Machine.Sound.{at_same}

-- What the instance with this id returned, if it is done.
abbrev pub outcome : Option Instance → Option (Option Any × Option String)
outcome none = none
outcome (some inst) = elim inst.done [ true ↦ some (inst.result, inst.err) | false ↦ none ]

-- What `Get` returns for an outcome.
abbrev pub reply_of : Option Any × Option String → Result (Option Any)
reply_of (result, none) = ok result
reply_of (result, some e) = err e

-- From `r` to `r'` no outcome is lost or changed.
pub record KeepsOutcomes (r r' : Runtime) : Type 0 where
  pub at :
      (id : String) (o : Option Any × Option String)
      → outcome (get id r.instances) ≡ some o
      → outcome (get id r'.instances) ≡ some o

pub KeepsOutcomes-refl : (r : Runtime) → KeepsOutcomes r r
KeepsOutcomes-refl r = record { at = λ id o e. e }

pub KeepsOutcomes-trans :
    (r s t : Runtime) → KeepsOutcomes r s → KeepsOutcomes s t → KeepsOutcomes r t
KeepsOutcomes-trans r s t f g = record { at = λ id o e. g.at id o (f.at id o e) }

pub same_instances : (r r' : Runtime) → r'.instances ≡ r.instances → KeepsOutcomes r r'
same_instances r r' same = record { at = λ id o e. rw same e }

-- A write to an instance that leaves its outcome.
pub set_instance-Keeps :
    (r : Runtime) (j : String) (inst inst' : Instance)
    → get j r.instances ≡ some inst
    → outcome (some inst') ≡ outcome (some inst)
    → KeepsOutcomes r (set_instance j inst' r)
unfolding set_instance
set_instance-Keeps r j inst inst' there same = record {
  at = λ id o e. elim (Bool-cases (j == id)) [
    | inl mine ↦ rw (get-put, mine) (same ∙ (rw (at_same r.instances j id inst there mine) at e))
    | inr other ↦ rw (get-put, other) e
  ];
}

-- A write to an instance that has no outcome.
pub put-Keeps :
    (r : Runtime) (j : String) (inst' : Instance)
    → outcome (get j r.instances) ≡ none
    → KeepsOutcomes r (set_instance j inst' r)
unfolding set_instance
put-Keeps r j inst' fresh = record {
  at = λ id o e. elim (Bool-cases (j == id)) [
    | inl mine ↦ absurd (cc (sym (rw ((eq_iff j id).0 mine) at fresh), e))
    | inr other ↦ rw (get-put, other) e
  ];
}

-- A write of a new instance and its goroutine.
pub started-Keeps :
    (r : Runtime) (j : String) (inst : Instance) (t : Thread)
    → outcome (get j r.instances) ≡ none
    → KeepsOutcomes r (record r { instances = put j inst r.instances; threads = put j t r.threads })
unfolding set_instance
started-Keeps r j inst t fresh =
    KeepsOutcomes-trans r (set_instance j inst r) _ (put-Keeps r j inst fresh)
      (same_instances (set_instance j inst r) _ refl)

apply_queries-Keeps :
    (j : String) (qs : List QueryEntry) (r : Runtime) → KeepsOutcomes r (apply_queries j qs r)
unfolding apply_queries
apply_queries-Keeps j qs r = elim (Option-cases (get j r.instances)) [
  | inl e ↦ rw (e, apply_queries) (KeepsOutcomes-refl r)
  | inr (inst, e) ↦ rw (e, apply_queries) (set_instance-Keeps r j inst _ e refl)
]

start_child-Keeps : (c : StartEntry) (r : Runtime) → KeepsOutcomes r (start_child c r)
unfolding start_child
start_child-Keeps c r = elim (Option-cases (get c.routine_id r.instances)) [
  | inl e ↦ rw (e, start_child) (started-Keeps r c.routine_id _ _ (rw e))
  | inr (inst, e) ↦ rw (e, start_child) (KeepsOutcomes-refl r)
]

start_children-Keeps : (cs : List StartEntry) (r : Runtime) → KeepsOutcomes r (start_children cs r)
unfolding start_children
start_children-Keeps [] r = KeepsOutcomes-refl r
start_children-Keeps (c ∷ cs) r =
    KeepsOutcomes-trans r (start_child c r) (start_children cs (start_child c r))
      (start_child-Keeps c r) (start_children-Keeps cs (start_child c r))

deliver-Keeps : (q : SendRequest) (r r' : Runtime) → deliver q r ≡ some r' → KeepsOutcomes r r'
unfolding deliver
deliver-Keeps q r r' e = elim (Option-cases (get q.routine_id r.instances)) [
  | inl none_there ↦
      subst (KeepsOutcomes r) (some-injective r r' (rw (none_there, deliver) at e))
        (KeepsOutcomes-refl r)
  | inr (target, there) ↦ elim (Bool-cases (ltb (length target.send_ch) send_capacity)) [
    | inl room ↦
        subst (KeepsOutcomes r) (some-injective _ r' (rw (there, room, deliver) at e))
          (set_instance-Keeps r q.routine_id target _ there refl)
    | inr full ↦ absurd (cc (rw (there, full, deliver) at e))
  ]
]

deliver_all-Keeps :
    (qs : List SendRequest) (r r' : Runtime) → deliver_all qs r ≡ some r' → KeepsOutcomes r r'
unfolding deliver_all
deliver_all-Keeps [] r r' e = subst (KeepsOutcomes r) (some-injective r r' e) (KeepsOutcomes-refl r)
deliver_all-Keeps (q ∷ qs) r r' e = elim (Option-cases (deliver q r)) [
  | inl e' ↦ absurd (cc (rw (e', deliver_all) at e))
  | inr (m, e') ↦
      KeepsOutcomes-trans r m r' (deliver-Keeps q r m e')
        (deliver_all-Keeps qs m r' (rw (e', deliver_all) at e))
]

pub run_handler-Keeps :
    (r : Runtime) (id key : String) (input : Any) (msg : Option Any) (r' : Runtime)
    (res : Result RunOutput)
    → run_handler r id key input msg ≡ some (r', res)
    → KeepsOutcomes r r'
unfolding run_handler apply_context_effects
run_handler-Keeps r id key input msg r' res e =
    elim (Result-cases (run_outcome r.handlers id key input msg)) [
      | inl ((sctx, out), e') ↦
          let queried = apply_queries id sctx.query_results r in
          let grown = start_children (start_entries sctx) queried in
          elim (Option-cases (deliver_all sctx.send_requests grown)) [
            | inl full ↦ absurd (cc (rw (e', full, run_handler) at e))
            | inr (m, applied) ↦
                subst (KeepsOutcomes r)
                  (ap (λ p. p.0) (some-injective _ (r', res) (rw (e', applied, run_handler) at e)))
                  (KeepsOutcomes-trans r queried m (apply_queries-Keeps id sctx.query_results r) (
                    KeepsOutcomes-trans queried grown m
                      (start_children-Keeps (start_entries sctx) queried)
                      (deliver_all-Keeps sctx.send_requests grown m applied)))
          ]
      | inr (x, e') ↦
          subst (KeepsOutcomes r)
            (ap (λ p. p.0) (some-injective _ (r', res) (rw (e', run_handler) at e)))
            (KeepsOutcomes-refl r)
    ]
