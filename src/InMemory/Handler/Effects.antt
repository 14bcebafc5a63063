-- ===== src/InMemory/Handler/Effects.antt =====
-- backend/inmemory/runtime.go: what `applyContextEffects` does to the instances that exist.
use durableroutine_go.Base.{
  ◌≡◌, refl, sym, ap, ◌∙◌, String, ◌==◌, some, some-injective, List, [], ◌∷◌, ◌++◌, inl, inr,
  if◌then◌else◌, Bool-cases, Option-cases, eq_iff, append-nil, append_assoc, length, ltb,
}
use durableroutine_go.Base.Dict.{get, get-put}
use durableroutine_go.Durable.Keys.{send_key}
use durableroutine_go.Durable.Context.{Context, QueryEntry, SendRequest, StartEntry, start_entries}
use durableroutine_go.InMemory.Runtime.{
  SendMsg, Instance, Runtime, start, push_send, set_instance, send_capacity, new_instance,
}
use durableroutine_go.InMemory.Handler.{
  merge_queries, apply_queries, start_child, start_children, deliver, deliver_all,
  apply_context_effects,
}

-- The message that a request puts on the target's channel.
abbrev pub message_of : SendRequest → SendMsg
message_of s = record {
  key = send_key s.input_kind s.external_input_kind s.result_kind;
  msg = s.msg;
}

-- The messages for a routine, in order.
abbrev pub addressed : String → List SendRequest → List SendMsg
addressed id [] = []
addressed id (s ∷ ss) = (if s.routine_id == id then message_of s ∷ [] else []) ++ addressed id ss

-- An instance that has received messages.
abbrev pub with_messages : List SendMsg → Instance → Instance
with_messages ms t = record t { send_ch = t.send_ch ++ ms }

push_send-messages :
    (m : SendMsg) (t t' : Instance) → push_send m t ≡ some t' → t' ≡ with_messages (m ∷ []) t
unfolding push_send
push_send-messages m t t' h = elim (Bool-cases (ltb (length t.send_ch) send_capacity)) [
  | inl e ↦ sym (some-injective _ t' (rw (e, push_send) at h))
  | inr e ↦ absurd (cc (rw (e, push_send) at h))
]

with_messages-none : (t : Instance) → with_messages [] t ≡ t
with_messages-none t = ap (λ ms. record t { send_ch = ms }) (append-nil t.send_ch)

-- One request, and the instance of a routine.
deliver-addressed :
    (s : SendRequest) (r r' : Runtime) (id : String) (t : Instance)
    → get id r.instances ≡ some t
    → deliver s r ≡ some r'
    → get id r'.instances
      ≡ some (with_messages (if s.routine_id == id then message_of s ∷ [] else []) t)
unfolding deliver set_instance
deliver-addressed s r r' id t g h = elim (Bool-cases (s.routine_id == id)) [
  | inl e ↦
      let here : get s.routine_id r.instances ≡ some t =
        ap (λ k. get k r.instances) ((eq_iff s.routine_id id).0 e) ∙ g in
      elim (Option-cases (push_send (message_of s) t)) [
        | inl p ↦ absurd (cc (rw p at (rw (here, deliver) at h)))
        | inr (t', p) ↦
            let same = some-injective _ r' (rw p at (rw (here, deliver) at h)) in
            ap (λ q. get id q.instances) (sym same)
            ∙ get-put s.routine_id id t' r.instances
            ∙ rw e (ap some (push_send-messages (message_of s) t t' p))
      ]
  | inr e ↦ rw e (elim (Option-cases (get s.routine_id r.instances)) [
    | inl n ↦
        ap (λ q. get id q.instances) (sym (some-injective _ r' (rw (n, deliver) at h)))
        ∙ g
        ∙ ap some (sym (with_messages-none t))
    | inr (u, n) ↦ elim (Option-cases (push_send (message_of s) u)) [
      | inl p ↦ absurd (cc (rw p at (rw (n, deliver) at h)))
      | inr (u', p) ↦
          ap (λ q. get id q.instances) (sym (some-injective _ r' (rw p at (rw (n, deliver) at h))))
          ∙ get-put s.routine_id id u' r.instances
          ∙ rw e (g ∙ ap some (sym (with_messages-none t)))
    ]
  ])
]

deliver_all-addressed :
    (ss : List SendRequest) (r r' : Runtime) (id : String) (t : Instance)
    → get id r.instances ≡ some t
    → deliver_all ss r ≡ some r'
    → get id r'.instances ≡ some (with_messages (addressed id ss) t)
unfolding deliver_all
deliver_all-addressed [] r r' id t g h =
    ap (λ q. get id q.instances) (sym (some-injective r r' h))
    ∙ g
    ∙ ap some (sym (with_messages-none t))
deliver_all-addressed (s ∷ ss) r r' id t g h = elim (Option-cases (deliver s r)) [
  | inl e ↦ absurd (cc (rw (e, deliver_all) at h))
  | inr (q, e) ↦
      deliver_all-addressed ss q r' id _ (deliver-addressed s r q id t g e)
        (rw (e, deliver_all) at h)
      ∙ ap (λ ms. some (record t { send_ch = ms })) (append_assoc t.send_ch _ _)
]

start_child-keeps :
    (s : StartEntry) (r : Runtime) (id : String) (t : Instance)
    → get id r.instances ≡ some t
    → get id (start_child s r).instances ≡ some t
unfolding start_child start
start_child-keeps s r id t g = elim (Option-cases (get s.routine_id r.instances)) [
  | inr (u, e) ↦ rw (e, start_child, start) g
  | inl e ↦ elim (Bool-cases (s.routine_id == id)) [
    | inl q ↦
        let missing = ap (λ k. get k r.instances) (sym ((eq_iff s.routine_id id).0 q)) ∙ e in
        absurd (cc (sym g ∙ missing))
    | inr q ↦
        rw (e, start_child, start)
          (get-put s.routine_id id (new_instance s.routine_id) r.instances ∙ rw q g)
  ]
]

start_children-keeps :
    (ss : List StartEntry) (r : Runtime) (id : String) (t : Instance)
    → get id r.instances ≡ some t
    → get id (start_children ss r).instances ≡ some t
unfolding start_children
start_children-keeps [] r id t g = g
start_children-keeps (s ∷ ss) r id t g =
    start_children-keeps ss (start_child s r) id t (start_child-keeps s r id t g)

-- The queries of the instance that ran the handler.
abbrev pub with_queries : String → String → List QueryEntry → Instance → Instance
with_queries own id qs t =
    if own == id then record t { query_results = merge_queries qs t.query_results } else t

apply_queries-with_queries :
    (own id : String) (qs : List QueryEntry) (r : Runtime) (t : Instance)
    → get id r.instances ≡ some t
    → get id (apply_queries own qs r).instances ≡ some (with_queries own id qs t)
unfolding apply_queries set_instance
apply_queries-with_queries own id qs r t g = elim (Bool-cases (own == id)) [
  | inl e ↦
      let here : get own r.instances ≡ some t =
        ap (λ k. get k r.instances) ((eq_iff own id).0 e) ∙ g in
      rw (here, apply_queries) (get-put own id _ r.instances ∙ rw e refl)
  | inr e ↦ elim (Option-cases (get own r.instances)) [
    | inl n ↦ rw (n, apply_queries, e) g
    | inr (u, n) ↦ rw (n, apply_queries) (get-put own id _ r.instances ∙ rw e g)
  ]
]

-- The effects of a handler's run on an instance that exists: its channel gains, behind what it
-- holds, exactly the messages that the handler buffered for it, in order and under their keys; the
-- query results change for the routine that ran the handler only; nothing else of it changes. So no
-- buffered start replaces an instance.
pub apply_context_effects-get :
    (own id : String) (sctx : Context) (r r' : Runtime) (t : Instance)
    → get id r.instances ≡ some t
    → apply_context_effects own sctx r ≡ some r'
    → get id r'.instances
      ≡ some (
          with_messages
            (addressed id sctx.send_requests)
            (with_queries own id sctx.query_results t))
unfolding apply_context_effects
apply_context_effects-get own id sctx r r' t g h =
    deliver_all-addressed sctx.send_requests
      (start_children (start_entries sctx) (apply_queries own sctx.query_results r)) r' id
      (with_queries own id sctx.query_results t)
      (start_children-keeps (start_entries sctx) (apply_queries own sctx.query_results r) id
        (with_queries own id sctx.query_results t)
        (apply_queries-with_queries own id sctx.query_results r t g))
      h
