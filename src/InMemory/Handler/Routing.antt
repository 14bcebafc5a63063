-- ===== src/InMemory/Handler/Routing.antt =====
-- durable/routine.go, durable/continuation.go and backend/inmemory/runtime.go: what is registered
-- under a key is what runs for the inputs and the messages that carry the key.
use durableroutine_go.Base.{
  ◌≡◌, refl, sym, ap, ◌∙◌, String, Option, some, inl, inr, Option-cases, eq_refl,
}
use durableroutine_go.Base.Dict.{Dict, get, get-put}
use durableroutine_go.Base.Result.{Result, ok, err, ◌>>=◌, Result-cases, ok-injective}
use durableroutine_go.Durable.Keys.{call_key}
use durableroutine_go.Durable.Payload.{
  Any, Json, Payload, zero_kind, to_any, HasStableKind, RoundTrips,
}
use durableroutine_go.Durable.Context.{new_context}
use durableroutine_go.Durable.Worker.{
  HandlerEntry, HandlerOptions, HandlerRunner, Worker, add_entry,
}
use durableroutine_go.Durable.Routine.{
  CallHandler, call_handler_runner, finish_call, decode, unmarshal_raw,
}
use durableroutine_go.Durable.Registration.{CallHandlerReg, register_call_handler}
use durableroutine_go.InMemory.Handler.{settle, recover, run_entry, marshal_msg, run_outcome}

-- The registry after a registration that did not panic.
pub add_entry-get :
    (w w' : Worker) (key : String) (runner : HandlerRunner) (opts : HandlerOptions)
    → add_entry w key runner opts ≡ ok w'
    → get key w'.handlers ≡ some (record { options = opts; runner = runner })
unfolding add_entry
add_entry-get w w' key runner opts h = elim (Option-cases (get key w.handlers)) [
  | inr (e, g) ↦ absurd (cc (rw (g, add_entry) at h))
  | inl g ↦
      ap (λ v. get key v.handlers) (sym (ok-injective _ w' (rw (g, add_entry) at h)))
      ∙ get-put key key (record { options = opts; runner = runner }) w.handlers
      ∙ rw (eq_refl key) refl
]

-- Without a recovery handler, an entry's run is its runner's result.
pub run_entry-plain :
    (handlers : Dict HandlerEntry) (id : String) (entry : HandlerEntry) (raw : Json)
    (msg : Option Json)
    → entry.options.recovery_handler_key ≡ ""
    → run_entry handlers id entry raw msg ≡ settle (entry.runner (new_context id) (some raw) msg "")
unfolding run_entry recover
run_entry-plain handlers id entry raw msg e =
    elim (Result-cases (settle (entry.runner (new_context id) (some raw) msg ""))) [
      | inl (d, q) ↦ rw (q, run_entry) refl
      | inr (m, q) ↦ rw (q, run_entry, e) refl
    ]

-- The outcome for an input and a message that can be encoded.
run_outcome-plain :
    (w w' : Worker) (key id : String) (runner : HandlerRunner) (opts : HandlerOptions) (input : Any)
    (msg : Option Any) (raw : Json) (raw_msg : Option Json)
    → add_entry w key runner opts ≡ ok w'
    → opts.recovery_handler_key ≡ ""
    → input.encoding ≡ ok raw
    → marshal_msg msg ≡ ok raw_msg
    → run_outcome w'.handlers id key input msg
      ≡ settle (runner (new_context id) (some raw) raw_msg "")
unfolding run_outcome
run_outcome-plain w w' key id runner opts input msg raw raw_msg h o e m =
    rw (add_entry-get w w' key runner opts h, run_outcome, e, m)
      (run_entry-plain w'.handlers id (record { options = opts; runner = runner }) raw raw_msg o)

-- The worker and the key of a registration's result
pub registered :
    {R : Type 0} (w : Result Worker) (w' : Worker) (r r' : R)
    → ◌>>=◌ {B = Worker × R} w (λ v. ok (v, r)) ≡ ok (w', r')
    → (w ≡ ok w') × (r ≡ r')
registered (ok v) w' r r' h =
    let e = ok-injective (v, r) (w', r') h in (ap ok (ap (λ p. p.0) e), ap (λ p. p.1) e)
registered (err e) w' r r' h = absurd (cc h)

module _ {I Req Resp T : Type 0} ⦃i : Payload I⦄ ⦃q : Payload Req⦄ ⦃p : Payload Resp⦄
    ⦃t : Payload T⦄ where
  -- A call handler that was registered without a recovery handler runs on exactly the input that the
  -- `ReceiveCall` case names and the request that was made, where the kinds are stable and both
  -- values survive their encoding.
  pub register_call_handler-run_outcome :
      (w w' : Worker) (h : CallHandler I Req Resp T) (opts : HandlerOptions)
      (r : CallHandlerReg I Req Resp T) (id : String) (input : I) (req : Req)
      → HasStableKind I
      → HasStableKind Req
      → RoundTrips input
      → RoundTrips req
      → opts.recovery_handler_key ≡ ""
      → register_call_handler w h opts ≡ ok (w', r)
      → run_outcome w'.handlers id
          (call_key (i.durable_kind input) (q.durable_kind req) (zero_kind Resp) (zero_kind T))
          (to_any input)
          (some (to_any req))
        ≡ settle (finish_call r.key (h (new_context id) input req))
  unfolding register_call_handler call_handler_runner decode unmarshal_raw marshal_msg
  register_call_handler-run_outcome w w' h opts r id input req si sq (j, m, u) (b, n, v) o e =
      let key = call_key (zero_kind I) (zero_kind Req) (zero_kind Resp) (zero_kind T) in
      let (g, k) =
        registered (add_entry w key (call_handler_runner key h) opts) w' (record { key = key }) r
          e in
      ap
        (λ (kinds : String × String).
          run_outcome w'.handlers id (call_key kinds.0 kinds.1 (zero_kind Resp) (zero_kind T))
            (to_any input) (some (to_any req)))
        (λ x. (si.stable input x, sq.stable req x))
      ∙ run_outcome-plain w w' key id (call_handler_runner key h) opts (to_any input)
          (some (to_any req)) j (some b) g o m (rw n refl)
      ∙ rw (u, v) (ap (λ r. settle (finish_call r.key (h (new_context id) input req))) k)
