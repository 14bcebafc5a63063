-- ===== src/InMemory/Machine/Protocol/Frame.antt =====
-- What is true of one routine's goroutine and instance, while other routines and clients act.
use mathlib.Core.Option.{some-injective}
use durableroutine_go.Base.{
  ℕ, String, ◌==◌, ◌≡◌, refl, sym, ap, ◌∙◌, subst, inl, inr, false, Option, none, some, List, [],
  ◌∷◌, eq_iff, eq_refl, Bool-cases, Option-cases, length, ltb,
}
use durableroutine_go.Base.Dict.{Dict, get, put, get-put}
use durableroutine_go.Base.Result.{ok, ok-injective}
use durableroutine_go.Durable.Payload.{Any}
use durableroutine_go.Durable.Context.{Context, QueryEntry, SendRequest, StartEntry, start_entries}
use durableroutine_go.Durable.Worker.{HandlerEntry}
use durableroutine_go.InMemory.Runtime.{
  CallResp, Instance, Runtime, Thread, send_capacity, set_instance, set_thread, start,
}
use durableroutine_go.InMemory.Handler.{
  apply_queries, start_child, start_children, deliver, deliver_all, apply_context_effects,
}
use durableroutine_go.InMemory.Machine.{respond, add_reply, client_send, client_call}
use durableroutine_go.InMemory.Machine.Protocol.{Aspect, Stands, seen}

module _ (hs : Dict HandlerEntry) (id : String) (T : Aspect) where
  pub set_thread-other :
      (j : String) (t : Thread) (r : Runtime)
      → (j == id) ≡ false
      → Stands hs id T r
      → Stands hs id T (set_thread j t r)
  unfolding set_thread
  set_thread-other j t r other s = record {
    same_handlers = s.same_handlers;
    thread = s.thread;
    at_thread = rw (get-put, other) s.at_thread;
    inst = s.inst;
    at_inst = s.at_inst;
    holds = s.holds;
  }

  pub set_instance-other :
      (j : String) (inst : Instance) (r : Runtime)
      → (j == id) ≡ false
      → Stands hs id T r
      → Stands hs id T (set_instance j inst r)
  unfolding set_instance
  set_instance-other j inst r other s = record {
    same_handlers = s.same_handlers;
    thread = s.thread;
    at_thread = s.at_thread;
    inst = s.inst;
    at_inst = rw (get-put, other) s.at_inst;
    holds = s.holds;
  }

  -- A write of the routine's own instance that shows what it showed.
  own_instance :
      (inst inst' : Instance) (r : Runtime)
      → get id r.instances ≡ some inst
      → seen inst' ≡ seen inst
      → Stands hs id T r
      → Stands hs id T (set_instance id inst' r)
  unfolding set_instance
  own_instance inst inst' r there same s =
      let mine : inst ≡ s.inst = some-injective inst s.inst (sym there ∙ s.at_inst) in
      record {
        same_handlers = s.same_handlers;
        thread = s.thread;
        at_thread = s.at_thread;
        inst = inst';
        at_inst = rw (get-put, eq_refl) refl;
        holds =
            subst (λ (v : Dict Any × Option (Option Any × Option String)). T v.0 s.thread v.1)
              (sym (same ∙ ap seen mine)) s.holds;
      }

  set_instance-same :
      (j : String) (inst inst' : Instance) (r : Runtime)
      → get j r.instances ≡ some inst
      → seen inst' ≡ seen inst
      → Stands hs id T r
      → Stands hs id T (set_instance j inst' r)
  set_instance-same j inst inst' r there same s = elim (Bool-cases (j == id)) [
    | inr other ↦ set_instance-other j inst' r other s
    | inl mine ↦
        let e = (eq_iff j id).0 mine in
        subst (λ i. Stands hs id T (set_instance i inst' r)) (sym e)
          (own_instance inst inst' r (subst (λ i. get i r.instances ≡ some inst) e there) same s)
  ]

  with_responses :
      (r : Runtime) (rs : List (ℕ × CallResp))
      → Stands hs id T r
      → Stands hs id T (record r { responses = rs })
  with_responses r rs s = record {
    same_handlers = s.same_handlers;
    thread = s.thread;
    at_thread = s.at_thread;
    inst = s.inst;
    at_inst = s.at_inst;
    holds = s.holds;
  }

  pub respond-Stands :
      (ch : Option ℕ) (resp : CallResp) (r : Runtime)
      → Stands hs id T r
      → Stands hs id T (respond ch resp r)
  unfolding respond
  respond-Stands none resp r s = s
  respond-Stands (some ch) resp r s = with_responses r _ s

  pub add_reply-Stands :
      (reply : Option (ℕ × CallResp)) (r : Runtime)
      → Stands hs id T r
      → Stands hs id T (add_reply reply r)
  unfolding add_reply
  add_reply-Stands none r s = s
  add_reply-Stands (some x) r s = with_responses r _ s

  -- A new instance with its goroutine is another routine's.
  started-Stands :
      (j : String) (inst : Instance) (t : Thread) (r : Runtime)
      → get j r.instances ≡ none
      → Stands hs id T r
      → Stands hs id T
          (record r { instances = put j inst r.instances; threads = put j t r.threads })
  started-Stands j inst t r fresh s = elim (Bool-cases (j == id)) [
    | inl mine ↦
        absurd
          (cc (sym s.at_inst, subst (λ i. get i r.instances ≡ none) ((eq_iff j id).0 mine) fresh))
    | inr other ↦ record {
      same_handlers = s.same_handlers;
      thread = s.thread;
      at_thread = rw (get-put, other) s.at_thread;
      inst = s.inst;
      at_inst = rw (get-put, other) s.at_inst;
      holds = s.holds;
    }
  ]

  pub start-Stands :
      (r r' : Runtime) (j kind result_kind : String) (input : Any)
      → start r j kind result_kind input ≡ ok r'
      → Stands hs id T r
      → Stands hs id T r'
  unfolding start
  start-Stands r r' j kind result_kind input e s = elim (Option-cases (get j r.instances)) [
    | inl fresh ↦
        subst (Stands hs id T) (ok-injective _ r' (rw (fresh, start) at e))
          (started-Stands j _ _ r fresh s)
    | inr (inst, old) ↦ absurd (cc (rw (old, start) at e))
  ]

  start_child-Stands :
      (c : StartEntry) (r : Runtime) → Stands hs id T r → Stands hs id T (start_child c r)
  unfolding start_child
  start_child-Stands c r s = elim (Option-cases (get c.routine_id r.instances)) [
    | inl e ↦ rw (e, start_child) (started-Stands c.routine_id _ _ r e s)
    | inr (inst, e) ↦ rw (e, start_child) s
  ]

  start_children-Stands :
      (cs : List StartEntry) (r : Runtime) → Stands hs id T r → Stands hs id T (start_children cs r)
  unfolding start_children
  start_children-Stands [] r s = s
  start_children-Stands (c ∷ cs) r s =
      start_children-Stands cs (start_child c r) (start_child-Stands c r s)

  deliver-Stands :
      (q : SendRequest) (r r' : Runtime)
      → deliver q r ≡ some r'
      → Stands hs id T r
      → Stands hs id T r'
  unfolding deliver
  deliver-Stands q r r' e s = elim (Option-cases (get q.routine_id r.instances)) [
    | inl missing ↦ subst (Stands hs id T) (some-injective r r' (rw (missing, deliver) at e)) s
    | inr (target, there) ↦ elim (Bool-cases (ltb (length target.send_ch) send_capacity)) [
      | inl room ↦
          subst (Stands hs id T) (some-injective _ r' (rw (there, room, deliver) at e))
            (set_instance-same q.routine_id target _ r there refl s)
      | inr full ↦ absurd (cc (rw (there, full, deliver) at e))
    ]
  ]

  deliver_all-Stands :
      (qs : List SendRequest) (r r' : Runtime)
      → deliver_all qs r ≡ some r'
      → Stands hs id T r
      → Stands hs id T r'
  unfolding deliver_all
  deliver_all-Stands [] r r' e s = subst (Stands hs id T) (some-injective r r' e) s
  deliver_all-Stands (q ∷ qs) r r' e s = elim (Option-cases (deliver q r)) [
    | inl e' ↦ absurd (cc (rw (e', deliver_all) at e))
    | inr (m, e') ↦
        deliver_all-Stands qs m r' (rw (e', deliver_all) at e) (deliver-Stands q r m e' s)
  ]

  apply_queries-other :
      (j : String) (qs : List QueryEntry) (r : Runtime)
      → (j == id) ≡ false
      → Stands hs id T r
      → Stands hs id T (apply_queries j qs r)
  unfolding apply_queries
  apply_queries-other j qs r other s = elim (Option-cases (get j r.instances)) [
    | inl e ↦ rw (e, apply_queries) s
    | inr (inst, e) ↦ rw (e, apply_queries) (set_instance-other j _ r other s)
  ]

  -- The starts and the sends of a context.
  pub sent-Stands :
      (sctx : Context) (r r' : Runtime)
      → deliver_all sctx.send_requests (start_children (start_entries sctx) r) ≡ some r'
      → Stands hs id T r
      → Stands hs id T r'
  sent-Stands sctx r r' e s =
      deliver_all-Stands sctx.send_requests _ r' e (start_children-Stands (start_entries sctx) r s)

  pub apply_context_effects-other :
      (j : String) (sctx : Context) (r r' : Runtime)
      → (j == id) ≡ false
      → apply_context_effects j sctx r ≡ some r'
      → Stands hs id T r
      → Stands hs id T r'
  unfolding apply_context_effects
  apply_context_effects-other j sctx r r' other e s =
      sent-Stands sctx _ r' e (apply_queries-other j sctx.query_results r other s)

  pub client_send-Stands :
      (r r' : Runtime) (j i e t : String) (msg : Any)
      → client_send r j i e t msg ≡ some (ok r')
      → Stands hs id T r
      → Stands hs id T r'
  unfolding client_send
  client_send-Stands r r' j i e t msg h s = elim (Option-cases (get j r.instances)) [
    | inl missing ↦ absurd (cc (rw (missing, client_send) at h))
    | inr (inst, there) ↦ elim (Bool-cases (ltb (length inst.send_ch) send_capacity)) [
      | inl room ↦
          subst (Stands hs id T)
            (ok-injective _ r' (some-injective _ _ (rw (there, room, client_send) at h)))
            (set_instance-same j inst _ r there refl s)
      | inr full ↦ absurd (cc (rw (there, full, client_send) at h))
    ]
  ]

  pub client_call-Stands :
      (r r' : Runtime) (j i q p t : String) (req : Any) (ch : ℕ)
      → client_call r j i q p t req ch ≡ ok r'
      → Stands hs id T r
      → Stands hs id T r'
  unfolding client_call
  client_call-Stands r r' j i q p t req ch h s = elim (Option-cases (get j r.instances)) [
    | inl missing ↦ absurd (cc (rw (missing, client_call) at h))
    | inr (inst, there) ↦
        subst (Stands hs id T) (ok-injective _ r' (rw (there, client_call) at h))
          (set_instance-same j inst _ r there refl s)
  ]
