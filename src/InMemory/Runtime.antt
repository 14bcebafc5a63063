-- ===== src/InMemory/Runtime.antt =====
-- backend/inmemory/runtime.go: the state of the runtime and of its instances, and `start`.
use durableroutine_go.Base.{
  ℕ, String, ◌<>◌, Bool, false, Option, none, some, List, [], ◌∷◌, ◌++◌, length, ltb, if◌then◌else◌,
}
use durableroutine_go.Base.Int.{ℤ}
use durableroutine_go.Base.Dict.{Dict, get, put}
use durableroutine_go.Base.Result.{Result, ok, err}
use durableroutine_go.Durable.Keys.{handler_key}
use durableroutine_go.Durable.Payload.{Any}
use durableroutine_go.Durable.Continuation.{Case}
use durableroutine_go.Durable.Worker.{HandlerEntry, Worker}

pub record SendMsg : Type 0 where
  pub key : String
  pub msg : Any

-- A response channel is named by a number. It has room for one response.
pub record CallReq : Type 0 where
  pub call_name : String
  pub handler_key : String
  pub req : Any
  pub resp_ch : ℕ

-- `callResp`: an error, or a result that may be nil
abbrev pub CallResp : Type 0
CallResp = Result (Option Any)

-- `instance`. `send_ch` is the content of the buffered channel; `call_chan` holds the callers that
-- wait to hand over their request on the unbuffered one, in order. `done` says that `doneChan` is
-- closed.
pub record Instance : Type 0 where
  pub id : String
  pub send_ch : List SendMsg
  pub call_chan : List CallReq
  pub done : Bool
  pub query_results : Dict Any
  pub buffered : Dict (List Any)
  pub result : Option Any
  pub err : Option String

pub record TimerInfo : Type 0 where
  pub idx : ℕ
  pub deadline : ℤ

-- Where the goroutine of an instance is: before `runHandler` with the variables of `runInstance`;
-- at the top of the loop of `waitForCase`; in the `select` of `blockForCase`; returned; dead of a
-- panic.
pub data Thread : Type 0 where
  running : String → Any → Option Any → Option ℕ → Thread
  polling : List Case → List TimerInfo → Thread
  blocked : List Case → List TimerInfo → Thread
  finished : Thread
  crashed : Thread

-- `Runtime`, with the goroutines that it has launched and the responses that were sent, by response
-- channel.
pub record Runtime : Type 0 where
  pub handlers : Dict HandlerEntry
  pub instances : Dict Instance
  pub threads : Dict Thread
  pub responses : List (ℕ × CallResp)

-- `NewRuntime`; `Worker.Handlers` copies the registry
unfoldable pub new_runtime : Worker → Runtime
new_runtime w = record { handlers = w.handlers; instances = []; threads = []; responses = [] }

-- make(chan sendMsg, 1024)
abbrev pub send_capacity : ℕ
send_capacity = 1024

unfoldable pub new_instance : String → Instance
new_instance id = record {
  id = id;
  send_ch = [];
  call_chan = [];
  done = false;
  query_results = [];
  buffered = [];
  result = none;
  err = none;
}

-- `Runtime.start`
unfoldable pub start : Runtime → String → String → String → Any → Result Runtime
unfolding new_instance
start r id kind result_kind input = elim (get id r.instances) [
  | some _ ↦ err ("routine " <> id <> " already exists")
  | none ↦ ok (record r {
    instances = put id (new_instance id) r.instances;
    threads = put id (running (handler_key kind result_kind) input none none) r.threads;
  })
]

-- A send on an instance's channel; `none` means that the channel is full and the sender waits.
unfoldable pub push_send : SendMsg → Instance → Option Instance
push_send m inst =
    if ltb (length inst.send_ch) send_capacity
    then some (record inst { send_ch = inst.send_ch ++ m ∷ [] })
    else none

-- An instance is a pointer in the code: a write through it is a write to the map's entry.
unfoldable pub set_instance : String → Instance → Runtime → Runtime
set_instance id inst r = record r { instances = put id inst r.instances }

unfoldable pub set_thread : String → Thread → Runtime → Runtime
set_thread id t r = record r { threads = put id t r.threads }
