-- ===== src/Temporal/Client/Names.antt =====
-- backend/temporal/client.go beside backend/temporal/workflow.go: the names of signals.
use text.Mathlib.TextLemmas.{nil-append, cons-append}
use durableroutine_go.Base.{String, ◌<>◌, ◌≡◌, refl, sym, ap, ◌∙◌, some, List, [], ◌∷◌, inl, inr}
use durableroutine_go.Base.Result.{ok, Result-cases, ok-injective}
use durableroutine_go.Durable.Keys.{send_key}
use durableroutine_go.Durable.Payload.{Payload, zero_kind, to_any, HasStableKind}
use durableroutine_go.Durable.Continuation.{Case, receive_send}
use durableroutine_go.Temporal.Types.{SerializedCase}
use durableroutine_go.Temporal.Activity.{serialize_cases}
use durableroutine_go.Temporal.Workflow.Select.{composite_name, drop}
use durableroutine_go.Temporal.Client.{signal_workflow, send}

drop-send_prefix : (s : String) → drop 5 ("send:" <> s) ≡ some s
unfolding drop
drop-send_prefix s =
    ap (drop 5) (cons-append "s" "end:" s)
    ∙ ap (drop 4) (cons-append "e" "nd:" s)
    ∙ ap (drop 3) (cons-append "n" "d:" s)
    ∙ ap (drop 2) (cons-append "d" ":" s)
    ∙ ap (drop 1) (cons-append ":" String.[] s)
    ∙ ap some (nil-append s)

send_key-prefix : (i e r : String) → send_key i e r ≡ "send:" <> (i <> ":" <> e <> ":" <> r)
unfolding send_key
send_key-prefix i e r = refl

composite_name-send_key :
    (c : SerializedCase) (i e r : String)
    → c.handler_key ≡ send_key i e r
    → composite_name c ≡ some (send_key i e r)
unfolding composite_name
composite_name-send_key c i e r h =
    let rest = i <> ":" <> e <> ":" <> r in
    let prefix = ap (drop 5) (h ∙ send_key-prefix i e r) ∙ drop-send_prefix rest in
    rw (prefix, composite_name) (ap some (sym (send_key-prefix i e r)))

abbrev first_key : List SerializedCase → String
first_key [] = ""
first_key (c ∷ cs) = c.handler_key

-- Serializing one case keeps its handler's key.
serialize_one :
    (k : Case) (c : SerializedCase)
    → serialize_cases (k ∷ []) ≡ ok (c ∷ [])
    → c.handler_key ≡ k.handler_key
unfolding serialize_cases
serialize_one k c h = elim (Result-cases k.input.encoding) [
  | inl (j, e) ↦ sym (ap first_key (ok-injective _ (c ∷ []) (rw (e, serialize_cases) at h)))
  | inr (m, e) ↦ absurd (cc (rw (e, serialize_cases) at h))
]

module _ {I E : Type 0} (T : Type 0) ⦃i : Payload I⦄ ⦃e : Payload E⦄ ⦃t : Payload T⦄ where
  -- The workflow's `ReceiveSend` case for a handler, once serialized, waits for the signal that the
  -- client sends for the same handler, where the kinds are stable.
  pub receive_send-composite_name :
      (id : String) (input : I) (external_input : E) (c : SerializedCase)
      → HasStableKind I
      → HasStableKind E
      → serialize_cases (receive_send {T = T} E input).cases ≡ ok (c ∷ [])
      → (name : String) × (composite_name c ≡ some name)
        × (send id
              (zero_kind I)
              (e.durable_kind external_input)
              (zero_kind T)
              (to_any external_input)
            ≡ signal_workflow id name (to_any external_input))
  unfolding receive_send send
  receive_send-composite_name id input external_input c si se h =
      let key = send_key (zero_kind I) (zero_kind E) (zero_kind T) in
      (
        key,
        composite_name-send_key c (zero_kind I) (zero_kind E) (zero_kind T) (
            serialize_one _ c h
            ∙ ap (λ kind. send_key kind (zero_kind E) (zero_kind T)) (si.stable input)),
        ap
            (λ kind.
              signal_workflow id (send_key (zero_kind I) kind (zero_kind T))
                (to_any external_input))
            (se.stable external_input),
      )
