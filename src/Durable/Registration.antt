-- ===== src/Durable/Registration.antt =====
-- durable/routine.go: the functions `Register*` and `WithRecoveryHandler`. A registration value
-- holds the worker's pointer and a key: here the worker is passed along, and the key is kept.
use durableroutine_go.Base.{String}
use durableroutine_go.Base.Result.{Result, ◌>>=◌, ok}
use durableroutine_go.Durable.Keys.{handler_key, send_key, call_key}
use durableroutine_go.Durable.Payload.{Payload, zero_kind}
use durableroutine_go.Durable.Worker.{HandlerOptions, Worker, add_entry, register_recovery_handler}
use durableroutine_go.Durable.Routine.{
  Handler, SendHandler, CallHandler, RecoveryHandler, SendRecoveryHandler, CallRecoveryHandler,
  handler_runner, send_handler_runner, call_handler_runner, recovery_runner, send_recovery_runner,
  call_recovery_runner,
}

-- `handlerReg`, `sendHandlerReg`, `callHandlerReg`
pub record HandlerReg (I T : Type 0) : Type 0 where
  pub key : String

pub record SendHandlerReg (I E T : Type 0) : Type 0 where
  pub key : String

pub record CallHandlerReg (I Req Resp T : Type 0) : Type 0 where
  pub key : String

module _ {I T : Type 0} ⦃i : Payload I⦄ ⦃t : Payload T⦄ where
  -- `RegisterHandler`
  unfoldable pub register_handler :
      Worker → Handler I T → HandlerOptions → Result (Worker × HandlerReg I T)
  register_handler w h opts =
      let key = handler_key (zero_kind I) (zero_kind T) in
      add_entry w key (handler_runner key h) opts >>= λ w'. ok (w', record { key = key })

  -- `handlerReg.WithRecoveryHandler`
  unfoldable pub with_recovery_handler :
      Worker → HandlerReg I T → RecoveryHandler I T → HandlerOptions → Worker
  with_recovery_handler w r te opts =
      register_recovery_handler w r.key (recovery_runner r.key te) opts

module _ {I E T : Type 0} ⦃i : Payload I⦄ ⦃e : Payload E⦄ ⦃t : Payload T⦄ where
  -- `RegisterSendHandler`
  unfoldable pub register_send_handler :
      Worker → SendHandler I E T → HandlerOptions → Result (Worker × SendHandlerReg I E T)
  register_send_handler w h opts =
      let key = send_key (zero_kind I) (zero_kind E) (zero_kind T) in
      add_entry w key (send_handler_runner key h) opts >>= λ w'. ok (w', record { key = key })

  -- `sendHandlerReg.WithRecoveryHandler`
  unfoldable pub with_send_recovery_handler :
      Worker → SendHandlerReg I E T → SendRecoveryHandler I E T → HandlerOptions → Worker
  with_send_recovery_handler w r te opts =
      register_recovery_handler w r.key (send_recovery_runner r.key te) opts

module _ {I Req Resp T : Type 0} ⦃i : Payload I⦄ ⦃q : Payload Req⦄ ⦃p : Payload Resp⦄
    ⦃t : Payload T⦄ where
  -- `RegisterCallHandler`
  unfoldable pub register_call_handler :
      Worker
      → CallHandler I Req Resp T
      → HandlerOptions
      → Result (Worker × CallHandlerReg I Req Resp T)
  register_call_handler w h opts =
      let key = call_key (zero_kind I) (zero_kind Req) (zero_kind Resp) (zero_kind T) in
      add_entry w key (call_handler_runner key h) opts >>= λ w'. ok (w', record { key = key })

  -- `callHandlerReg.WithRecoveryHandler`
  unfoldable pub with_call_recovery_handler :
      Worker
      → CallHandlerReg I Req Resp T
      → CallRecoveryHandler I Req Resp T
      → HandlerOptions
      → Worker
  with_call_recovery_handler w r te opts =
      register_recovery_handler w r.key (call_recovery_runner r.key te) opts
