-- ===== src/Durable/Continuation.antt =====
-- durable/continuation.go: what a routine waits for before its next handler.
use durableroutine_go.Base.{String, Bool, true, false, Option, none, some, List, [], ◌∷◌, ◌++◌}
use durableroutine_go.Base.Int.{ℤ}
use durableroutine_go.Durable.Keys.{handler_key, send_key, call_key}
use durableroutine_go.Durable.Payload.{Any, Payload, zero_kind, to_any}

-- `Case`. Its accessors are its fields.
pub record Case : Type 0 where
  pub timer_duration : Option ℤ
  pub send_name : String
  pub call_name : String
  pub immediate : Bool
  pub input : Any
  pub handler_key : String

-- `Continuation[T]`; `IsDone`, `Result` and `Cases` are its fields.
pub record Continuation (T : Type 0) : Type 0 where
  pub done : Bool
  pub result : T
  pub cases : List Case

-- `Unit`, the result type of routines that produce none.
pub data NoResult : Type 0 where
  no_result : NoResult

module _ {T : Type 0} ⦃t : Payload T⦄ where
  -- `Done`
  unfoldable pub done_with : T → Continuation T
  done_with result = record { done = true; result = result; cases = [] }

  -- `Select`
  unfoldable pub select_cases : List (Continuation T) → List Case
  select_cases [] = []
  select_cases (c ∷ conts) = c.cases ++ select_cases conts

  unfoldable pub select : List (Continuation T) → Continuation T
  unfolding select_cases
  select conts = record { done = false; result = t.zero_value; cases = select_cases conts }

  -- A continuation with one case, as the constructors build it.
  abbrev single : Case → Continuation T
  single c = record { done = false; result = t.zero_value; cases = c ∷ [] }

module _ {I T : Type 0} ⦃i : Payload I⦄ ⦃t : Payload T⦄ where
  -- `After`; the handler is used for its type only
  unfoldable pub after : ℤ → I → Continuation T
  after d input = single (record {
    timer_duration = some d;
    send_name = "";
    call_name = "";
    immediate = false;
    input = to_any input;
    handler_key = handler_key (i.durable_kind input) (zero_kind T);
  })

  -- `Continue` and `Default`
  unfoldable pub continue_with : I → Continuation T
  continue_with input = single (record {
    timer_duration = none;
    send_name = "";
    call_name = "";
    immediate = true;
    input = to_any input;
    handler_key = handler_key (i.durable_kind input) (zero_kind T);
  })

  unfoldable pub default : I → Continuation T
  default input = single (record {
    timer_duration = none;
    send_name = "";
    call_name = "";
    immediate = true;
    input = to_any input;
    handler_key = handler_key (i.durable_kind input) (zero_kind T);
  })

module _ {I T : Type 0} (E : Type 0) ⦃i : Payload I⦄ ⦃e : Payload E⦄ ⦃t : Payload T⦄ where
  -- `ReceiveSend`, at the message type `E` of the handler
  unfoldable pub receive_send : I → Continuation T
  receive_send input = single (record {
    timer_duration = none;
    send_name = zero_kind E;
    call_name = "";
    immediate = false;
    input = to_any input;
    handler_key = send_key (i.durable_kind input) (zero_kind E) (zero_kind T);
  })

module _ {I T : Type 0} (Req Resp : Type 0) ⦃i : Payload I⦄ ⦃q : Payload Req⦄ ⦃p : Payload Resp⦄
    ⦃t : Payload T⦄ where
  -- `ReceiveCall`, at the request and response types of the handler
  unfoldable pub receive_call : I → Continuation T
  receive_call input = single (record {
    timer_duration = none;
    send_name = "";
    call_name = zero_kind Req;
    immediate = false;
    input = to_any input;
    handler_key = call_key (i.durable_kind input) (zero_kind Req) (zero_kind Resp) (zero_kind T);
  })
