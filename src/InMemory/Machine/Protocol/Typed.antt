-- ===== src/InMemory/Machine/Protocol/Typed.antt =====
-- Handlers that keep to a protocol, by what they return for typed values; durable/routine.go wraps
-- them. A protocol of this kind lets a routine end with any error.
use durableroutine_go.Base.{
  String, ◌≡◌, sym, ap, ◌∙◌, inl, inr, true, false, Option, none, some, Bool-cases, All,
}
use durableroutine_go.Base.Dict.{Dict, get}
use durableroutine_go.Base.Result.{ok, err, Result-cases, ok-injective}
use durableroutine_go.Durable.Payload.{Any, Json, Payload, RoundTrips, decoded, to_any}
use durableroutine_go.Durable.Context.{Context, new_context}
use durableroutine_go.Durable.Continuation.{Continuation}
use durableroutine_go.Durable.Worker.{HandlerEntry, HandlerRunner, HandlerOptions}
use durableroutine_go.Durable.Routine.{
  Handler, SendHandler, handler_runner, send_handler_runner, finish, build_run_output, decode,
  unmarshal_raw,
}
use durableroutine_go.InMemory.Handler.{merge_queries, marshal_msg, run_outcome, settle}
use durableroutine_go.InMemory.Handler.Routing.{run_entry-plain}
use durableroutine_go.InMemory.Machine.Protocol.{Protocol, EntersCase, GoesOn}

-- Any error is an end.
pub record MayFail (P : Protocol) : Type 0 where
  pub may_fail : (m : Dict Any) (e : String) → P.Ends m (err e)

-- The input is the encoding of this value.
pub record Encodes {I : Type 0} ⦃p : Payload I⦄ (input : Any) (i : I) : Type 0 where
  pub json : Json
  pub encoding : input.encoding ≡ ok json
  pub unmarshal : p.unmarshal json ≡ ok i

module _ (P : Protocol) (m : Dict Any) where
  -- A handler's continuation keeps to the protocol.
  pub record Continues {T : Type 0} ⦃t : Payload T⦄ (ctx : Context) (cont : Continuation T)
      : Type 0 where
    pub ends :
        cont.done ≡ true
        → (j : Json) → t.marshal cont.result ≡ ok j
        → P.Ends (merge_queries ctx.query_results m) (ok (some (decoded j)))
    pub enters :
        cont.done ≡ false → All (EntersCase P (merge_queries ctx.query_results m)) cont.cases

  abbrev pub Returns :
      {T : Type 0} ⦃t : Payload T⦄ → Context × Option (Continuation T) × Option String → Type 0
  Returns (ctx, some cont, none) = Continues ctx cont
  Returns (ctx, none, none) = Unit
  Returns (ctx, cont, some e) = Unit

  module _ (fails : MayFail P) where
    finish-GoesOn :
        {T : Type 0} ⦃t : Payload T⦄ (key : String)
        (r : Context × Option (Continuation T) × Option String)
        → Returns r
        → GoesOn P m (settle (finish key r))
    unfolding finish settle build_run_output
    finish-GoesOn key (ctx, cont, some e) h = fails.may_fail m e
    finish-GoesOn key (ctx, none, none) h = fails.may_fail m _
    finish-GoesOn ⦃t⦄ key (ctx, some cont, none) h = elim (Bool-cases cont.done) [
      | inr d ↦ rw (d, build_run_output) (record { ends = λ e. cc; enters = λ _. h.enters d })
      | inl d ↦ elim (Result-cases (t.marshal cont.result)) [
        | inl (j, q) ↦
            rw (d, q, build_run_output) (record { ends = λ _. h.ends d j q; enters = λ e. cc })
        | inr (e, q) ↦ rw (d, q, build_run_output) (fails.may_fail m _)
      ]
    ]

    -- The outcome of a runner, for an input that can be encoded or not.
    run_outcome-GoesOn :
        (hs : Dict HandlerEntry) (id key : String) (runner : HandlerRunner) (opts : HandlerOptions)
        (input : Any) (msg : Option Any)
        → get key hs ≡ some (record { options = opts; runner = runner })
        → opts.recovery_handler_key ≡ ""
        → ((raw : Json) (raw_msg : Option Json)
            → input.encoding ≡ ok raw
            → GoesOn P m (settle (runner (new_context id) (some raw) raw_msg "")))
        → GoesOn P m (run_outcome hs id key input msg)
    unfolding run_outcome
    run_outcome-GoesOn hs id key runner opts input msg g o f = elim (Result-cases input.encoding) [
      | inr (e, q) ↦ rw (g, run_outcome, q) (fails.may_fail m _)
      | inl (raw, q) ↦ elim (Result-cases (marshal_msg msg)) [
        | inr (e, q') ↦ rw (g, run_outcome, q, q') (fails.may_fail m _)
        | inl (raw_msg, q') ↦
            rw
              (
                g,
                run_outcome,
                q,
                q',
                run_entry-plain hs id (record { options = opts; runner = runner }) raw raw_msg o,
              )
              (f raw raw_msg q)
      ]
    ]

    pub handler-GoesOn :
        {I T : Type 0} ⦃i : Payload I⦄ ⦃t : Payload T⦄ (hs : Dict HandlerEntry) (id key : String)
        (h : Handler I T) (opts : HandlerOptions) (input : Any) (msg : Option Any)
        → get key hs ≡ some (record { options = opts; runner = handler_runner key h })
        → opts.recovery_handler_key ≡ ""
        → ((x : I) → Encodes input x → Returns (h (new_context id) x))
        → GoesOn P m (run_outcome hs id key input msg)
    unfolding handler_runner decode unmarshal_raw settle
    handler-GoesOn ⦃i = i⦄ hs id key h opts input msg g o f =
        run_outcome-GoesOn hs id key _ opts input msg g o λ raw raw_msg q.
          elim (Result-cases (i.unmarshal raw)) [
            | inr (e, u) ↦ rw (u) (fails.may_fail m _)
            | inl (x, u) ↦
                rw (u)
                  (finish-GoesOn key _ (f x (record { json = raw; encoding = q; unmarshal = u })))
          ]

    pub send_handler-GoesOn :
        {I E T : Type 0} ⦃i : Payload I⦄ ⦃e : Payload E⦄ ⦃t : Payload T⦄ (hs : Dict HandlerEntry)
        (id key : String) (h : SendHandler I E T) (opts : HandlerOptions) (input : Any)
        (msg : Option Any)
        → get key hs ≡ some (record { options = opts; runner = send_handler_runner key h })
        → opts.recovery_handler_key ≡ ""
        → ((x : I) (y : E) → Encodes input x → Returns (h (new_context id) x y))
        → GoesOn P m (run_outcome hs id key input msg)
    unfolding send_handler_runner decode settle
    send_handler-GoesOn {E = E} ⦃i = i⦄ hs id key h opts input msg g o f =
        run_outcome-GoesOn hs id key _ opts input msg g o λ raw raw_msg q.
          elim (Result-cases (i.unmarshal raw)) [
            | inr (e, u) ↦ rw (unmarshal_raw, u) (fails.may_fail m _)
            | inl (x, u) ↦ elim (Result-cases (unmarshal_raw {A = E} raw_msg)) [
              | inr (e, v) ↦ rw (unmarshal_raw, u, v) (fails.may_fail m _)
              | inl (y, v) ↦
                  rw (unmarshal_raw, u, v)
                    (finish-GoesOn key _
                      (f x y (record { json = raw; encoding = q; unmarshal = u })))
            ]
          ]

-- A value that survives its encoding is the one that is decoded.
pub Encodes-unique :
    {I : Type 0} ⦃p : Payload I⦄ (i x : I) → RoundTrips i → Encodes (to_any i) x → x ≡ i
Encodes-unique ⦃p⦄ i x (j, m, u) e =
    let same : e.json ≡ j = ok-injective e.json j (sym e.encoding ∙ m) in
    ok-injective x i (sym e.unmarshal ∙ ap p.unmarshal same ∙ u)
