-- ===== src/Durable/Client.antt =====
-- durable/client.go: the interface that a backend fills, and the typed functions around it.
pub mod Uuid
use durableroutine_go.Base.{ℕ, String, ◌<>◌, ◌==◌, Option, none, some, if◌then◌else◌}
use durableroutine_go.Base.Result.{Result, ok, err, ◌>>=◌, wrap}
use durableroutine_go.Durable.Payload.{Any, Json, Payload, zero_kind, to_any}

-- `ClientImpl`, over the state `S` of a backend; `none` means that the client waits. `Call` is a
-- request, with a name for the channel of its response, and a later answer. The interface `Client`
-- has the same methods, and `NewClientFrom` passes them on: here they are one.
pub record ClientImpl (S : Type 0) : Type 0 where
  pub start : S → String → String → String → Any → Result S
  pub send : S → String → String → String → String → Any → Option (Result S)
  pub call : S → String → String → String → String → String → Any → ℕ → Result S
  pub query : S → String → String → Result Any
  pub get : S → String → Option (Result (Option Any))

-- `json.Marshal` of an interface value; a nil one is `null`
unfoldable pub encode_any : Option Any → Result Json
encode_any none = ok Json.null
encode_any (some a) = a.encoding

-- `convertResult`; `typed` is what the type assertion `raw.(T)` gives
unfoldable pub convert_result :
    {T : Type 0} ⦃t : Payload T⦄ → String → Option T → Option Any → Result T
unfolding encode_any
convert_result type_name (some v) raw = ok v
convert_result ⦃t⦄ type_name none raw =
    wrap (λ e. "marshal result: " <> e) (encode_any raw) >>= λ raw_json.
    wrap (λ e. "unmarshal result into " <> type_name <> ": " <> e) (t.unmarshal raw_json)

-- `Handle[T]`, without the client
pub record Handle (T : Type 0) : Type 0 where
  pub id : String

module _ {S : Type 0} (impl : ClientImpl S) {I : Type 0} (T : Type 0) ⦃i : Payload I⦄
    ⦃t : Payload T⦄ where
  -- `Go`; `random` is what `newUUID` would make
  unfoldable pub go : S → String → String → I → Result (S × Handle T)
  go s random id input =
      let id' = if id == "" then random else id in
      impl.start s id' (i.durable_kind input) (zero_kind T) (to_any input) >>= λ s'.
      ok (s', record { id = id' })

module _ {S : Type 0} (impl : ClientImpl S) (I : Type 0) {E : Type 0} (T : Type 0) ⦃i : Payload I⦄
    ⦃e : Payload E⦄ ⦃t : Payload T⦄ where
  -- `Send`
  unfoldable pub send : S → String → E → Option (Result S)
  send s id external_input =
      impl.send s id (zero_kind I) (e.durable_kind external_input) (zero_kind T)
        (to_any external_input)

-- `Get`; the backends return decoded values, which are of no type `T`
unfoldable pub get_result :
    {S : Type 0}
    → ClientImpl S
    → {T : Type 0} ⦃t : Payload T⦄ → String
    → S
    → String
    → Option (Result T)
unfolding convert_result
get_result impl type_name s id = elim (impl.get s id) [
  | none ↦ none
  | some (err e) ↦ some (err e)
  | some (ok raw) ↦ some (convert_result type_name none raw)
]

-- `Handle.Get`
unfoldable pub handle_get :
    {S : Type 0}
    → ClientImpl S
    → {T : Type 0} ⦃t : Payload T⦄ → String
    → S
    → Handle T
    → Option (Result T)
unfolding get_result
handle_get impl type_name s h = get_result impl type_name s h.id

module _ {S : Type 0} (impl : ClientImpl S) (I : Type 0) {Req : Type 0} (Resp T : Type 0)
    ⦃i : Payload I⦄ ⦃q : Payload Req⦄ ⦃p : Payload Resp⦄ ⦃t : Payload T⦄ where
  -- `Call` up to its wait
  unfoldable pub call : S → ℕ → String → Req → Result S
  call s ch id external_req =
      impl.call s id (zero_kind I) (q.durable_kind external_req) (zero_kind Resp) (zero_kind T)
        (to_any external_req) ch

-- The end of `Call`, at the backend's answer
unfoldable pub call_result :
    {Resp : Type 0} ⦃p : Payload Resp⦄ → String → Result (Option Any) → Result Resp
unfolding convert_result
call_result type_name answer = answer >>= convert_result type_name none

-- `Query`; `typed` is what the type assertion `raw.(Resp)` gives for the backend's value
unfoldable pub query :
    {S : Type 0}
    → ClientImpl S
    → {Resp : Type 0} ⦃p : Payload Resp⦄ → String
    → (Any → Option Resp)
    → S
    → String
    → Resp
    → Result Resp
unfolding convert_result
query impl ⦃p⦄ type_name typed s id resp =
    impl.query s id (p.durable_kind resp) >>= λ raw. convert_result type_name (typed raw) (some raw)
