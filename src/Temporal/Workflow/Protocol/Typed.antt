-- ===== src/Temporal/Workflow/Protocol/Typed.antt =====
-- Handlers that keep to a protocol of the workflow, by what they return for typed values.
use durableroutine_go.Base.{
  String, ◌≡◌, refl, sym, ◌∙◌, subst, ℕ, inl, inr, true, false, Option, none, some, List, [], ◌∷◌,
  All, Bool-cases,
}
use durableroutine_go.Base.Dict.{Dict, get}
use durableroutine_go.Base.Result.{ok, Result-cases, ok-injective}
use durableroutine_go.Durable.Payload.{Json, Payload}
use durableroutine_go.Durable.Context.{Context, new_context, start_entries}
use durableroutine_go.Durable.Continuation.{Case, Continuation}
use durableroutine_go.Durable.Worker.{HandlerEntry, HandlerOptions, RunOutput}
use durableroutine_go.Durable.Routine.{
  Handler, SendHandler, handler_runner, send_handler_runner, finish, build_run_output, decode,
  unmarshal_raw,
}
use durableroutine_go.Temporal.Types.{ActivityOutput, SerializedCase}
use durableroutine_go.Temporal.Activity.{
  serialize_cases, serialize_output, serialize_queries, serialize_starts, serialize_sends, capture,
  after_runner, run_handler_activity,
}
use durableroutine_go.Temporal.Agreement.{lookup_recovery-none}
use durableroutine_go.Temporal.Workflow.{Execution, execute, execute_with_recovery}
use durableroutine_go.Temporal.Workflow.Protocol.{Protocol, EntersCase, Goes, Keeps}
use durableroutine_go.Temporal.Workflow.Protocol.Runs.{RunsOn}

module _ (P : Protocol) where
  -- A case's handler may run on the case's input, where that can be encoded.
  abbrev pub EntersEncoded : Case → Type 0
  EntersEncoded c = (j : Json) → c.input.encoding ≡ ok j → P.Enters c.handler_key (some j)

  serialize_cases-Enters :
      (cs : List Case) (out : List SerializedCase)
      → serialize_cases cs ≡ ok out
      → All EntersEncoded cs
      → All (EntersCase P) out
  unfolding serialize_cases
  serialize_cases-Enters [] out h a = rw (← ok-injective [] out h) tt
  serialize_cases-Enters (c ∷ cs) out h (f, a) = elim (Result-cases c.input.encoding) [
    | inr (e, q) ↦ absurd (cc (rw (q, serialize_cases) at h))
    | inl (j, q) ↦ elim (Result-cases (serialize_cases cs)) [
      | inr (e, q') ↦ absurd (cc (rw (q, q') at h))
      | inl (rest, q') ↦
          rw (← ok-injective _ out (rw (q, q') at h)) (f j q, serialize_cases-Enters cs rest q' a)
    ]
  ]

  -- What a run's output may be.
  pub record GoesOut (out : RunOutput) : Type 0 where
    pub ends : out.done ≡ true → P.Ends out.result
    pub enters : All EntersEncoded out.cases

  serialize_output-Goes :
      (out : RunOutput) (a : ActivityOutput) → serialize_output out ≡ ok a → GoesOut out → Goes P a
  unfolding serialize_output
  serialize_output-Goes out a h g = elim (Bool-cases out.done) [
    | inl d ↦
        subst (Goes P) (ok-injective _ a (rw (d, serialize_output) at h))
          (record { ends = λ _. g.ends d; enters = tt })
    | inr d ↦ elim (Result-cases (serialize_cases out.cases)) [
      | inr (e, q) ↦ absurd (cc (rw (d, q, serialize_output) at h))
      | inl (cs, q) ↦
          subst (Goes P) (ok-injective _ a (rw (d, q, serialize_output) at h))
            (record { ends = λ e. cc; enters = serialize_cases-Enters out.cases cs q g.enters })
    ]
  ]

  same_output :
      (a b : ActivityOutput)
      → b.done ≡ a.done
      → b.result ≡ a.result
      → b.continuation ≡ a.continuation
      → Goes P a
      → Goes P b
  same_output a b d r c g = record { ends = λ e. rw r (g.ends (sym d ∙ e)); enters = rw c g.enters }

  capture-Goes :
      (ctx : Context) (out : RunOutput) (a : ActivityOutput)
      → capture ctx out ≡ ok a
      → GoesOut out
      → Goes P a
  unfolding capture
  capture-Goes ctx out a h g = elim (Result-cases (serialize_output out)) [
    | inr (x, e) ↦ absurd (cc (rw (e, capture) at h))
    | inl (o, e) ↦ elim (Result-cases (serialize_queries ctx.query_results)) [
      | inr (x, q) ↦ absurd (cc (rw (e, q) at h))
      | inl (queries, q) ↦ elim (Result-cases (serialize_starts (start_entries ctx))) [
        | inr (x, s) ↦ absurd (cc (rw (e, q, s) at h))
        | inl (starts, s) ↦ elim (Result-cases (serialize_sends ctx.send_requests)) [
          | inr (x, m) ↦ absurd (cc (rw (e, q, s, m) at h))
          | inl (sends, m) ↦
              subst (Goes P) (ok-injective _ a (rw (e, q, s, m) at h))
                (same_output o _ refl refl refl (serialize_output-Goes out o e g))
        ]
      ]
    ]
  ]

  -- A handler's continuation keeps to the protocol.
  pub record Continues {T : Type 0} ⦃t : Payload T⦄ (cont : Continuation T) : Type 0 where
    pub ends : cont.done ≡ true → (j : Json) → t.marshal cont.result ≡ ok j → P.Ends (some j)
    pub enters : cont.done ≡ false → All EntersEncoded cont.cases

  abbrev pub Returns :
      {T : Type 0} ⦃t : Payload T⦄ → Context × Option (Continuation T) × Option String → Type 0
  Returns (ctx, some cont, none) = Continues cont
  Returns (ctx, none, none) = Unit
  Returns (ctx, cont, some e) = Unit

  finish-Goes :
      {T : Type 0} ⦃t : Payload T⦄ (key : String)
      (r : Context × Option (Continuation T) × Option String) (a : ActivityOutput)
      → after_runner (finish key r) ≡ ok a
      → Returns r
      → Goes P a
  unfolding finish after_runner build_run_output
  finish-Goes key (ctx, cont, some e) a h g = absurd (cc h)
  finish-Goes key (ctx, none, none) a h g = absurd (cc h)
  finish-Goes ⦃t⦄ key (ctx, some cont, none) a h g = elim (Bool-cases cont.done) [
    | inr d ↦
        capture-Goes ctx _ a (rw (d, build_run_output) at h)
          (record { ends = λ e. cc; enters = g.enters d })
    | inl d ↦ elim (Result-cases (t.marshal cont.result)) [
      | inr (e, q) ↦ absurd (cc (rw (d, q, build_run_output) at h))
      | inl (j, q) ↦
          capture-Goes ctx _ a (rw (d, q, build_run_output) at h)
            (record { ends = λ _. g.ends d j q; enters = tt })
    ]
  ]

  -- Where no recovery handler is registered, an output is that of the handler itself.
  alone :
      (x : Execution) (n : ℕ) (key : String) (input msg : Option Json) (entry : HandlerEntry)
      (a : ActivityOutput)
      → get key x.reg ≡ some entry
      → entry.options.recovery_handler_key ≡ ""
      → (execute_with_recovery x n key input msg).1 ≡ ok a
      → execute x n key input msg "" ≡ ok a
  unfolding execute_with_recovery
  alone x n key input msg entry a g o h = elim (Result-cases (execute x n key input msg "")) [
    | inl (b, q) ↦ q ∙ (rw (q, execute_with_recovery) at h)
    | inr (e, q) ↦
        let none_there = lookup_recovery-none x.reg key entry g (rw o refl) in
        absurd (cc (rw (q, execute_with_recovery, none_there) at h))
  ]

  module _ (reg : Dict HandlerEntry) (x : Execution) (on : RunsOn reg x) where
    -- The activity of a registered handler.
    execute-entry :
        (n : ℕ) (key : String) (input msg : Option Json) (entry : HandlerEntry)
        → get key reg ≡ some entry
        → execute x n key input msg "" ≡ after_runner (entry.runner (new_context x.id) input msg "")
    unfolding execute run_handler_activity
    execute-entry n key input msg entry g =
        on.once.runs_once n _ ∙ rw (on.same_registry, g, run_handler_activity) refl

    -- The output of a handler, with a recovery handler or without, when none is registered.
    pub record KeepsAt (key : String) (input : Option Json) : Type 0 where
      pub at :
          (n : ℕ) (msg : Option Json) (a : ActivityOutput)
          → execute x n key input msg "" ≡ ok a
          → Goes P a
      pub entry : HandlerEntry
      pub is_entry : get key reg ≡ some entry
      pub plain : entry.options.recovery_handler_key ≡ ""

    pub handler-KeepsAt :
        {I T : Type 0} ⦃i : Payload I⦄ ⦃t : Payload T⦄ (key : String) (h : Handler I T)
        (opts : HandlerOptions) (input : Option Json)
        → get key reg ≡ some (record { options = opts; runner = handler_runner key h })
        → opts.recovery_handler_key ≡ ""
        → ((v : I) → unmarshal_raw input ≡ ok v → Returns (h (new_context x.id) v))
        → KeepsAt key input
    unfolding handler_runner decode after_runner
    handler-KeepsAt {I = I} key h opts input g o f = record {
      at = λ n msg a q. elim (Result-cases (unmarshal_raw {A = I} input)) [
        | inl (v, u) ↦
            finish-Goes key _ a (rw u at (sym (execute-entry n key input msg _ g) ∙ q)) (f v u)
        | inr (e, u) ↦ absurd (cc (rw u at (sym (execute-entry n key input msg _ g) ∙ q)))
      ];
      entry = record { options = opts; runner = handler_runner key h };
      is_entry = g;
      plain = o;
    }

    pub send_handler-KeepsAt :
        {I E T : Type 0} ⦃i : Payload I⦄ ⦃e : Payload E⦄ ⦃t : Payload T⦄ (key : String)
        (h : SendHandler I E T) (opts : HandlerOptions) (input : Option Json)
        → get key reg ≡ some (record { options = opts; runner = send_handler_runner key h })
        → opts.recovery_handler_key ≡ ""
        → ((v : I) (y : E) → unmarshal_raw input ≡ ok v → Returns (h (new_context x.id) v y))
        → KeepsAt key input
    unfolding send_handler_runner decode after_runner
    send_handler-KeepsAt {I = I} {E = E} key h opts input g o f = record {
      at = λ n msg a q. elim (Result-cases (unmarshal_raw {A = I} input)) [
        | inr (e, u) ↦ absurd (cc (rw u at (sym (execute-entry n key input msg _ g) ∙ q)))
        | inl (v, u) ↦ elim (Result-cases (unmarshal_raw {A = E} msg)) [
          | inr (e, u') ↦ absurd (cc (rw (u, u') at (sym (execute-entry n key input msg _ g) ∙ q)))
          | inl (y, u') ↦
              finish-Goes key _ a (rw (u, u') at (sym (execute-entry n key input msg _ g) ∙ q))
                (f v y u)
        ]
      ];
      entry = record { options = opts; runner = send_handler_runner key h };
      is_entry = g;
      plain = o;
    }

    pub KeepsAt-Keeps :
        ((key : String) (input : Option Json) → P.Enters key input → KeepsAt key input) → Keeps P x
    KeepsAt-Keeps f = record {
      keeps = λ n key input msg a h q.
          let k = f key input h in
          k.at n msg a (
            alone x n key input msg k.entry a
              (subst (λ (r : Dict HandlerEntry). get key r ≡ some k.entry) (sym on.same_registry)
                k.is_entry)
              k.plain q);
      keeps_alone = λ n key input msg a h q. (f key input h).at n msg a q;
    }
