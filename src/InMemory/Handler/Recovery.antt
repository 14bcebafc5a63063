-- ===== src/InMemory/Handler/Recovery.antt =====
-- durable/routine.go (`WithRecoveryHandler`, `registerRecoveryHandler`) and the end of `runHandler`
-- in backend/inmemory/runtime.go: the recovery handler runs when the handler fails.
use Prim.Native.Char.{code}
use text.Mathlib.TextLemmas.{head-eq_of_cons-eq, cons-append}
use durableroutine_go.Base.{
  ◌≡◌, ◌≢◌, refl, sym, ap, ◌∙◌, String, ◌<>◌, ◌==◌, false, Option, none, some, inl, inr, Bool-cases,
  eq_refl, eq_iff, arith,
}
use durableroutine_go.Base.Dict.{Dict, get, put, get-put}
use durableroutine_go.Base.Result.{ok, err}
use durableroutine_go.Durable.Keys.{handler_key, error_key}
use durableroutine_go.Durable.Payload.{
  Any, Json, Payload, zero_kind, to_any, HasStableKind, RoundTrips,
}
use durableroutine_go.Durable.Continuation.{Continuation}
use durableroutine_go.Durable.Context.{Context, new_context}
use durableroutine_go.Durable.Worker.{
  HandlerEntry, HandlerOptions, HandlerRunner, Worker, add_entry, register_recovery_handler,
}
use durableroutine_go.Durable.Routine.{
  Handler, RecoveryHandler, handler_runner, recovery_runner, finish, decode, unmarshal_raw,
}
use durableroutine_go.Durable.Registration.{HandlerReg, register_handler, with_recovery_handler}
use durableroutine_go.InMemory.Handler.{settle, recover, run_entry, marshal_msg, run_outcome}
use durableroutine_go.InMemory.Handler.Routing.{registered, add_entry-get}

-- The key of a handler and the key of a recovery handler differ in their first letter.
error_key-handler_key : (k r s : String) → error_key s ≢ handler_key k r
unfolding error_key handler_key
error_key-handler_key k r s e =
    let heads =
      head-eq_of_cons-eq
        (sym (cons-append "e" "rror:" s) ∙ e ∙ cons-append "h" "andler:" (k <> ":" <> r)) in
    absurd (omega (arith, ap code heads))

error_key-nonempty : (s : String) → (error_key s == "") ≡ false
unfolding error_key
error_key-nonempty s = elim (Bool-cases (error_key s == "")) [
  | inl e ↦ absurd (cc (sym (cons-append "e" "rror:" s) ∙ (eq_iff (error_key s) "").0 e))
  | inr e ↦ e
]

test-false : (a b : String) → a ≢ b → (a == b) ≡ false
test-false a b ne = elim (Bool-cases (a == b)) [
  | inl e ↦ absurd (ne ((eq_iff a b).0 e))
  | inr e ↦ e
]

-- The registry behind `registerRecoveryHandler`, for a primary handler that is registered.
recovery-get :
    (w : Worker) (key : String) (entry : HandlerEntry) (runner : HandlerRunner)
    (opts : HandlerOptions)
    → error_key key ≢ key
    → get key w.handlers ≡ some entry
    → let handlers = (register_recovery_handler w key runner opts).handlers in
      (get key handlers
        ≡ some (record entry {
          options = record entry.options { recovery_handler_key = error_key key };
        }))
      × (get (error_key key) handlers ≡ some (record { options = opts; runner = runner }))
unfolding register_recovery_handler
recovery-get w key entry runner opts ne g =
    let te : HandlerEntry = record { options = opts; runner = runner } in
    let found : get key (put (error_key key) te w.handlers) ≡ some entry =
      get-put (error_key key) key te w.handlers ∙ rw (test-false (error_key key) key ne) g in
    rw found (
      get-put key key _ (put (error_key key) te w.handlers) ∙ rw (eq_refl key) refl,
      get-put key (error_key key) _ (put (error_key key) te w.handlers)
          ∙ rw (test-false key (error_key key) (λ e. ne (sym e))) (
              get-put (error_key key) (error_key key) te w.handlers
              ∙ rw (eq_refl (error_key key)) refl),
    )

-- A handler that fails with `e` and has a recovery handler.
run_entry-recovers :
    (handlers : Dict HandlerEntry) (id key : String) (entry te : HandlerEntry) (raw : Json)
    (msg : Option Json) (e : String)
    → settle (entry.runner (new_context id) (some raw) msg "") ≡ err e
    → entry.options.recovery_handler_key ≡ error_key key
    → get (error_key key) handlers ≡ some te
    → run_entry handlers id entry raw msg ≡ settle (te.runner (new_context id) (some raw) msg e)
unfolding run_entry recover
run_entry-recovers handlers id key entry te raw msg e f k g =
    rw (f, run_entry, k, recover, error_key-nonempty key, g) refl

pub run_outcome-get :
    (handlers : Dict HandlerEntry) (id key : String) (entry : HandlerEntry) (input : Any)
    (msg : Option Any) (raw : Json) (raw_msg : Option Json)
    → get key handlers ≡ some entry
    → input.encoding ≡ ok raw
    → marshal_msg msg ≡ ok raw_msg
    → run_outcome handlers id key input msg ≡ run_entry handlers id entry raw raw_msg
unfolding run_outcome
run_outcome-get handlers id key entry input msg raw raw_msg g e m = rw (g, run_outcome, e, m) refl

module _ {I T : Type 0} ⦃i : Payload I⦄ ⦃t : Payload T⦄ where
  handler_runner-fails :
      (key : String) (h : Handler I T) (ctx c : Context) (input : I) (j : Json)
      (cont : Option (Continuation T)) (e : String)
      → i.unmarshal j ≡ ok input
      → h ctx input ≡ (c, cont, some e)
      → settle (handler_runner key h ctx (some j) none "") ≡ err e
  unfolding settle handler_runner decode unmarshal_raw finish
  handler_runner-fails key h ctx c input j cont e u fails = rw (u, fails) refl

  recovery_runner-runs :
      (key e : String) (te : RecoveryHandler I T) (ctx : Context) (input : I) (j : Json)
      → i.unmarshal j ≡ ok input
      → settle (recovery_runner key te ctx (some j) none e)
        ≡ settle (finish (error_key key) (te ctx input e))
  unfolding recovery_runner decode unmarshal_raw
  recovery_runner-runs key e te ctx input j u = rw u refl

  -- A handler with a recovery handler fails: the routine goes on with what the recovery handler
  -- returns for the same input and the error's text, and with what that one buffered on a new
  -- context. The kind of `I` is stable, and the input survives its encoding.
  pub with_recovery_handler-run_outcome :
      (w w' : Worker) (h : Handler I T) (te : RecoveryHandler I T) (opts te_opts : HandlerOptions)
      (r : HandlerReg I T) (id : String) (input : I) (c : Context) (cont : Option (Continuation T))
      (e : String)
      → HasStableKind I
      → RoundTrips input
      → register_handler w h opts ≡ ok (w', r)
      → h (new_context id) input ≡ (c, cont, some e)
      → run_outcome
          (with_recovery_handler w' r te te_opts).handlers
          id
          (handler_key (i.durable_kind input) (zero_kind T))
          (to_any input)
          none
        ≡ settle (finish (error_key r.key) (te (new_context id) input e))
  unfolding register_handler with_recovery_handler marshal_msg
  with_recovery_handler-run_outcome w w' h te opts te_opts r id input c cont e s (j, m, u) q fails =
      let key = handler_key (zero_kind I) (zero_kind T) in
      let (g, k) =
        registered (add_entry w key (handler_runner key h) opts) w' (record { key = key }) r q in
      let (primary, recovery) =
        recovery-get w' key _ (recovery_runner key te) te_opts
          (error_key-handler_key (zero_kind I) (zero_kind T) key)
          (add_entry-get w w' key (handler_runner key h) opts g) in
      let handlers = (register_recovery_handler w' key (recovery_runner key te) te_opts).handlers in
      ap
        (λ (r : HandlerReg I T).
          run_outcome (with_recovery_handler w' r te te_opts).handlers id
            (handler_key (i.durable_kind input) (zero_kind T)) (to_any input) none)
        (sym k)
      ∙ ap (λ kind. run_outcome handlers id (handler_key kind (zero_kind T)) (to_any input) none)
          (s.stable input)
      ∙ run_outcome-get handlers id key _ (to_any input) none j none primary m refl
      ∙ run_entry-recovers handlers id key _ _ j none e
          (handler_runner-fails key h (new_context id) c input j cont e u fails) refl recovery
      ∙ recovery_runner-runs key e te (new_context id) input j u
      ∙ ap (λ (r : HandlerReg I T). settle (finish (error_key r.key) (te (new_context id) input e)))
          k
