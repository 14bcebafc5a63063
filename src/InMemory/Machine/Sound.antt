-- ===== src/InMemory/Machine/Sound.antt =====
-- Every goroutine that runs has its instance, an instance is marked as done just when its
-- goroutine has returned, and no goroutine ever panics on a case's index.
use mathlib.Core.Option.{some-injective}
use durableroutine_go.Base.{
  ℕ, String, ◌==◌, ◌≡◌, refl, sym, subst, inl, inr, Bool, true, false, Option, none, some, List, [],
  ◌∷◌, length, ltb, eq_iff, Bool-cases, Option-cases,
}
use durableroutine_go.Base.Dict.{Dict, get, put, get-put}
use durableroutine_go.Base.Result.{ok, ok-injective}
use durableroutine_go.Durable.Keys.{handler_key}
use durableroutine_go.Durable.Payload.{Any}
use durableroutine_go.Durable.Context.{QueryEntry, SendRequest, StartEntry}
use durableroutine_go.InMemory.Runtime.{
  CallResp, Instance, Runtime, Thread, running, polling, blocked, finished, crashed, new_instance,
  send_capacity, set_instance, set_thread, start,
}
use durableroutine_go.InMemory.Handler.{
  apply_queries, start_child, start_children, deliver, deliver_all,
}
use durableroutine_go.InMemory.Poll.Fits.{AreTimers}
use durableroutine_go.InMemory.Machine.{respond, add_reply}

abbrev pub ThreadOk : Thread → Bool → Type 0
ThreadOk (running key input msg ch) done = done ≡ false
ThreadOk (polling cases timers) done = (done ≡ false) × AreTimers cases timers
ThreadOk (blocked cases timers) done = (done ≡ false) × AreTimers cases timers
ThreadOk finished done = done ≡ true
ThreadOk crashed done = ⊥

-- An instance and its goroutine, or neither.
abbrev pub Paired : Option Thread → Option Instance → Type 0
Paired none none = Unit {0}
Paired none (some inst) = ⊥
Paired (some t) none = ⊥
Paired (some t) (some inst) = ThreadOk t inst.done

pub record IsSound (r : Runtime) : Type 0 where
  pub paired : (id : String) → Paired (get id r.threads) (get id r.instances)

-- The instance of a goroutine.
pub instance_of :
    (r : Runtime) (id : String) (t : Thread)
    → IsSound r
    → get id r.threads ≡ some t
    → (inst : Instance) × (get id r.instances ≡ some inst) × ThreadOk t inst.done
instance_of r id t s e = elim (Option-cases (get id r.instances)) [
  | inl e' ↦ absurd (rw (e, e') at (s.paired id))
  | inr (inst, e') ↦ (inst, e', rw (e, e') at (s.paired id))
]

-- A write of an instance and its goroutine.
pub Paired-put :
    (threads : Dict Thread) (instances : Dict Instance) (id j : String) (t : Thread)
    (inst : Instance)
    → Paired (get j threads) (get j instances)
    → ThreadOk t inst.done
    → Paired (get j (put id t threads)) (get j (put id inst instances))
Paired-put threads instances id j t inst p k = elim (Bool-cases (id == j)) [
  | inl e ↦ rw (get-put, get-put, e) k
  | inr e ↦ rw (get-put, get-put, e) p
]

pub at_same :
    {V : Type 0} (m : Dict V) (id j : String) (v : V)
    → get id m ≡ some v
    → (id == j) ≡ true
    → get j m ≡ some v
at_same m id j v e same = rw (← (eq_iff id j).0 same) e

Paired-done :
    (t : Option Thread) (inst inst' : Instance)
    → inst'.done ≡ inst.done
    → Paired t (some inst)
    → Paired t (some inst')
Paired-done none inst inst' d p = p
Paired-done (some t) inst inst' d p = subst (ThreadOk t) (sym d) p

-- A write of the instance alone, which does not change whether it is done.
Paired-put_instance :
    (threads : Dict Thread) (instances : Dict Instance) (id j : String) (inst inst' : Instance)
    → get id instances ≡ some inst
    → inst'.done ≡ inst.done
    → Paired (get j threads) (get j instances)
    → Paired (get j threads) (get j (put id inst' instances))
Paired-put_instance threads instances id j inst inst' e d p = elim (Bool-cases (id == j)) [
  | inl same ↦
      rw (get-put, same)
        (Paired-done (get j threads) inst inst' d (rw (at_same instances id j inst e same) at p))
  | inr other ↦ rw (get-put, other) p
]

pub set_instance-IsSound :
    (r : Runtime) (id : String) (inst inst' : Instance)
    → get id r.instances ≡ some inst
    → inst'.done ≡ inst.done
    → IsSound r
    → IsSound (set_instance id inst' r)
unfolding set_instance
set_instance-IsSound r id inst inst' e d s = record {
  paired = λ j. Paired-put_instance r.threads r.instances id j inst inst' e d (s.paired j);
}

pub set_thread-IsSound :
    (r : Runtime) (id : String) (t : Thread) (inst : Instance)
    → get id r.instances ≡ some inst
    → ThreadOk t inst.done
    → IsSound r
    → IsSound (set_thread id t r)
unfolding set_thread
set_thread-IsSound r id t inst e k s = record {
  paired = λ j. elim (Bool-cases (id == j)) [
    | inl same ↦ rw (get-put, same, at_same r.instances id j inst e same) k
    | inr other ↦ rw (get-put, other) (s.paired j)
  ];
}

-- The responses that were sent do not matter.
with_responses-IsSound :
    (r : Runtime) (rs : List (ℕ × CallResp)) → IsSound r → IsSound (record r { responses = rs })
with_responses-IsSound r rs s = record { paired = s.paired }

pub respond-IsSound :
    (ch : Option ℕ) (resp : CallResp) (r : Runtime) → IsSound r → IsSound (respond ch resp r)
unfolding respond
respond-IsSound none resp r s = s
respond-IsSound (some ch) resp r s = with_responses-IsSound r _ s

pub add_reply-IsSound :
    (reply : Option (ℕ × CallResp)) (r : Runtime) → IsSound r → IsSound (add_reply reply r)
unfolding add_reply
add_reply-IsSound none r s = s
add_reply-IsSound (some x) r s = with_responses-IsSound r _ s

-- The runtime after a start.
abbrev started : Runtime → String → Thread → Runtime
started r id t = record r {
  instances = put id (new_instance id) r.instances;
  threads = put id t r.threads;
}

started-IsSound :
    (r : Runtime) (id key : String) (input : Any)
    → IsSound r
    → IsSound (started r id (running key input none none))
unfolding new_instance
started-IsSound r id key input s = record {
  paired = λ j.
      Paired-put r.threads r.instances id j (running key input none none) (new_instance id)
        (s.paired j) refl;
}

pub start-IsSound :
    (r r' : Runtime) (id kind result_kind : String) (input : Any)
    → start r id kind result_kind input ≡ ok r'
    → IsSound r
    → IsSound r'
unfolding start
start-IsSound r r' id kind result_kind input e s = elim (Option-cases (get id r.instances)) [
  | inl fresh ↦
      subst IsSound (ok-injective _ r' (rw (fresh, start) at e))
        (started-IsSound r id (handler_key kind result_kind) input s)
  | inr (inst, old) ↦ absurd (cc (rw (old, start) at e))
]

pub apply_queries-IsSound :
    (id : String) (qs : List QueryEntry) (r : Runtime) → IsSound r → IsSound (apply_queries id qs r)
unfolding apply_queries
apply_queries-IsSound id qs r s = elim (Option-cases (get id r.instances)) [
  | inl e ↦ rw (e, apply_queries) s
  | inr (inst, e) ↦ rw (e, apply_queries) (set_instance-IsSound r id inst _ e refl s)
]

start_child-IsSound : (c : StartEntry) (r : Runtime) → IsSound r → IsSound (start_child c r)
unfolding start_child
start_child-IsSound c r s = elim (Option-cases (get c.routine_id r.instances)) [
  | inl e ↦
      rw (e, start_child)
        (started-IsSound r c.routine_id (handler_key c.input_kind c.result_kind) c.input s)
  | inr (inst, e) ↦ rw (e, start_child) s
]

pub start_children-IsSound :
    (cs : List StartEntry) (r : Runtime) → IsSound r → IsSound (start_children cs r)
unfolding start_children
start_children-IsSound [] r s = s
start_children-IsSound (c ∷ cs) r s =
    start_children-IsSound cs (start_child c r) (start_child-IsSound c r s)

deliver-IsSound :
    (q : SendRequest) (r r' : Runtime) → deliver q r ≡ some r' → IsSound r → IsSound r'
unfolding deliver
deliver-IsSound q r r' e s = elim (Option-cases (get q.routine_id r.instances)) [
  | inl none_there ↦ subst IsSound (some-injective r r' (rw (none_there, deliver) at e)) s
  | inr (target, there) ↦ elim (Bool-cases (ltb (length target.send_ch) send_capacity)) [
    | inl room ↦
        subst IsSound (some-injective _ r' (rw (there, room, deliver) at e))
          (set_instance-IsSound r q.routine_id target _ there refl s)
    | inr full ↦ absurd (cc (rw (there, full, deliver) at e))
  ]
]

pub deliver_all-IsSound :
    (qs : List SendRequest) (r r' : Runtime) → deliver_all qs r ≡ some r' → IsSound r → IsSound r'
unfolding deliver_all
deliver_all-IsSound [] r r' e s = subst IsSound (some-injective r r' e) s
deliver_all-IsSound (q ∷ qs) r r' e s = elim (Option-cases (deliver q r)) [
  | inl e' ↦ absurd (cc (rw (e', deliver_all) at e))
  | inr (m, e') ↦
      deliver_all-IsSound qs m r' (rw (e', deliver_all) at e) (deliver-IsSound q r m e' s)
]
