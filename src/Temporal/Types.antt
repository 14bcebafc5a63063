-- ===== src/Temporal/Types.antt =====
-- backend/temporal/types.go: the records that cross between workflows, activities and clients. A
-- `json.RawMessage` that may be nil is an `Option`.
use durableroutine_go.Base.{String, Bool, false, Option, none, List, []}
use durableroutine_go.Base.Int.{ℤ}
use durableroutine_go.Durable.Payload.{Json}

pub record QueryEntry : Type 0 where
  pub query_name : String
  pub result : Json

-- `MaxHistoryLength` is an int32.
pub record WorkflowInput : Type 0 where
  pub handler_key : String
  pub input : Option Json
  pub query_results : List QueryEntry
  pub max_history_length : ℤ

pub record ActivityInput : Type 0 where
  pub handler_key : String
  pub routine_id : String
  pub input : Option Json
  pub message : Option Json
  pub error : String

pub record SerializedCase : Type 0 where
  pub timer_duration : Option ℤ
  pub send_name : String
  pub call_name : String
  pub immediate : Bool
  pub input : Json
  pub handler_key : String

pub record SerializedContinuation : Type 0 where
  pub cases : List SerializedCase

pub record StartEntry : Type 0 where
  pub routine_id : String
  pub input_kind : String
  pub result_kind : String
  pub input : Json

pub record SendEntry : Type 0 where
  pub routine_id : String
  pub input_kind : String
  pub external_input_kind : String
  pub result_kind : String
  pub msg : Json

pub record ActivityOutput : Type 0 where
  pub done : Bool
  pub result : Option Json
  pub continuation : Option SerializedContinuation
  pub query_results : List QueryEntry
  pub start_requests : List StartEntry
  pub send_requests : List SendEntry
  pub call_response : Option Json

-- `ActivityOutput{}`
abbrev pub empty_output : ActivityOutput
empty_output = record {
  done = false;
  result = none;
  continuation = none;
  query_results = [];
  start_requests = [];
  send_requests = [];
  call_response = none;
}
