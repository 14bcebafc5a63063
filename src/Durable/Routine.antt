-- ===== src/Durable/Routine.antt =====
-- durable/routine.go: the signatures of handlers, the runners that registration builds around
-- them, and registration.
use durableroutine_go.Base.{String, ◌<>◌, true, false, Option, none, some, [], if◌then◌else◌}
use durableroutine_go.Base.Result.{Result, ok, err, ◌>>=◌}
use durableroutine_go.Durable.Keys.{error_key}
use durableroutine_go.Durable.Payload.{Json, Payload}
use durableroutine_go.Durable.Continuation.{Continuation}
use durableroutine_go.Durable.Context.{Context}
use durableroutine_go.Durable.Worker.{HandlerRunner, RunOutput}

-- What a handler returns: a continuation or nil, and an error or nil, beside the context with what
-- it buffered.
abbrev pub Handler : Type 0 → Type 0 → Type 0
Handler I T = Context → I → Context × Option (Continuation T) × Option String

abbrev pub SendHandler : Type 0 → Type 0 → Type 0 → Type 0
SendHandler I E T = Context → I → E → Context × Option (Continuation T) × Option String

abbrev pub CallHandler : Type 0 → Type 0 → Type 0 → Type 0 → Type 0
CallHandler I Req Resp T =
    Context → I → Req → Context × Resp × Option (Continuation T) × Option String

-- A recovery handler takes the error's text too.
abbrev pub RecoveryHandler : Type 0 → Type 0 → Type 0
RecoveryHandler I T = Context → I → String → Context × Option (Continuation T) × Option String

abbrev pub SendRecoveryHandler : Type 0 → Type 0 → Type 0 → Type 0
SendRecoveryHandler I E T =
    Context → I → E → String → Context × Option (Continuation T) × Option String

abbrev pub CallRecoveryHandler : Type 0 → Type 0 → Type 0 → Type 0 → Type 0
CallRecoveryHandler I Req Resp T =
    Context → I → Req → String → Context × Resp × Option (Continuation T) × Option String

-- `json.Unmarshal` of a raw message, which may be nil
unfoldable pub unmarshal_raw : {A : Type 0} ⦃p : Payload A⦄ → Option Json → Result A
unmarshal_raw none = err "unexpected end of JSON input"
unmarshal_raw ⦃p⦄ (some j) = p.unmarshal j

-- The text of the error for a handler that returned nothing.
abbrev nil_continuation : String → String
nil_continuation key =
    "handler " <> key
    <> " returned nil Continuation with nil error — must always return a Continuation when there is no error"

-- `buildRunOutput`
unfoldable pub build_run_output :
    {T : Type 0} ⦃t : Payload T⦄ → Option (Continuation T) → String → Result RunOutput
build_run_output none key = err (nil_continuation key)
build_run_output ⦃t⦄ (some cont) key =
    if cont.done
    then elim (t.marshal cont.result) [
      | err e ↦ err ("marshal result: " <> e)
      | ok j ↦ ok (record { done = true; result = some j; cases = []; call_response = none })
    ]
    else ok (record { done = false; result = none; cases = cont.cases; call_response = none })

-- The end of a runner: the handler's error, or its continuation as an output.
unfoldable pub finish :
    {T : Type 0} ⦃t : Payload T⦄
    → String
    → Context × Option (Continuation T) × Option String
    → Context × Result RunOutput
unfolding build_run_output
finish key (c, cont, some herr) = (c, err herr)
finish key (c, cont, none) = (c, build_run_output cont key)

-- The end of a call handler's runner: the response is encoded after the output is built.
unfoldable pub with_response :
    {Resp : Type 0} ⦃p : Payload Resp⦄ → Resp → RunOutput → Result RunOutput
with_response ⦃p⦄ resp out = elim (p.marshal resp) [
  | err e ↦ err ("marshal call response: " <> e)
  | ok j ↦ ok (record out { call_response = some j })
]

unfoldable pub finish_call :
    {Resp T : Type 0} ⦃p : Payload Resp⦄ ⦃t : Payload T⦄
    → String
    → Context × Resp × Option (Continuation T) × Option String
    → Context × Result RunOutput
unfolding build_run_output with_response
finish_call key (c, resp, cont, some herr) = (c, err herr)
finish_call key (c, resp, cont, none) =
    (c, (build_run_output cont key >>= λ out. with_response resp out))

-- A decoded value is passed on; an error ends the run with the context as it was.
unfoldable pub decode :
    {A : Type 0}
    → String
    → Context
    → Result A
    → (A → Context × Result RunOutput)
    → Context × Result RunOutput
decode what c (err e) k = (c, err ("deserialize " <> what <> ": " <> e))
decode what c (ok a) k = k a

module _ {I T : Type 0} ⦃i : Payload I⦄ ⦃t : Payload T⦄ where
  -- the runner of `RegisterHandler`
  unfoldable pub handler_runner : String → Handler I T → HandlerRunner
  unfolding decode unmarshal_raw finish
  handler_runner key h ctx raw_input raw_msg err_str =
      decode "input" ctx (unmarshal_raw raw_input) λ input. finish key (h ctx input)

  -- the runner of `handlerReg.WithRecoveryHandler`
  unfoldable pub recovery_runner : String → RecoveryHandler I T → HandlerRunner
  unfolding decode unmarshal_raw finish
  recovery_runner key te ctx raw_input raw_msg err_str =
      decode "input" ctx (unmarshal_raw raw_input)
        λ input. finish (error_key key) (te ctx input err_str)

module _ {I E T : Type 0} ⦃i : Payload I⦄ ⦃e : Payload E⦄ ⦃t : Payload T⦄ where
  -- the runner of `RegisterSendHandler`
  unfoldable pub send_handler_runner : String → SendHandler I E T → HandlerRunner
  unfolding decode unmarshal_raw finish
  send_handler_runner key h ctx raw_input raw_msg err_str =
      decode "input" ctx (unmarshal_raw raw_input) λ input.
        decode "externalInput" ctx (unmarshal_raw raw_msg)
          λ external_input. finish key (h ctx input external_input)

  -- the runner of `sendHandlerReg.WithRecoveryHandler`
  unfoldable pub send_recovery_runner : String → SendRecoveryHandler I E T → HandlerRunner
  unfolding decode unmarshal_raw finish
  send_recovery_runner key te ctx raw_input raw_msg err_str =
      decode "input" ctx (unmarshal_raw raw_input) λ input.
        decode "externalInput" ctx (unmarshal_raw raw_msg)
          λ external_input. finish (error_key key) (te ctx input external_input err_str)

module _ {I Req Resp T : Type 0} ⦃i : Payload I⦄ ⦃q : Payload Req⦄ ⦃p : Payload Resp⦄
    ⦃t : Payload T⦄ where
  -- the runner of `RegisterCallHandler`
  unfoldable pub call_handler_runner : String → CallHandler I Req Resp T → HandlerRunner
  unfolding decode unmarshal_raw finish_call
  call_handler_runner key h ctx raw_input raw_msg err_str =
      decode "input" ctx (unmarshal_raw raw_input) λ input.
        decode "externalReq" ctx (unmarshal_raw raw_msg)
          λ external_req. finish_call key (h ctx input external_req)

  -- the runner of `callHandlerReg.WithRecoveryHandler`
  unfoldable pub call_recovery_runner : String → CallRecoveryHandler I Req Resp T → HandlerRunner
  unfolding decode unmarshal_raw finish_call
  call_recovery_runner key te ctx raw_input raw_msg err_str =
      decode "input" ctx (unmarshal_raw raw_input) λ input.
        decode "externalReq" ctx (unmarshal_raw raw_msg)
          λ external_req. finish_call ("error:" <> key) (te ctx input external_req err_str)
