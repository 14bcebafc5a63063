-- ===== src/InMemory/Wait.antt =====
-- backend/inmemory/runtime.go: `waitForCase` and the functions that it calls. One round of its loop
-- is `poll`, which does not block, and then `block_for_case`.
pub mod Search
use durableroutine_go.Base.{
  ℕ, zero, suc, String, ◌<>◌, ◌==◌, Bool, not, ◌&&◌, Option, none, some, List, [], ◌∷◌, ◌++◌,
  if◌then◌else◌,
}
use durableroutine_go.Base.Int.{ℤ, ◌+ℤ◌, ltb_ℤ}
use durableroutine_go.Base.Dict.{Dict, get, put}
use durableroutine_go.Base.Result.{err}
use durableroutine_go.Durable.Payload.{Any}
use durableroutine_go.Durable.Continuation.{Case}
use durableroutine_go.InMemory.Runtime.{SendMsg, CallReq, CallResp, Instance, TimerInfo}

-- The index of the first case that passes a test, counted from `i`.
unfoldable pub first_case : (Case → Bool) → ℕ → List Case → Option ℕ
first_case p i [] = none
first_case p i (c ∷ cs) = let rest = first_case p (suc i) cs in if p c then some i else rest

-- The deadlines of the timer cases, at the time of the wait's beginning.
unfoldable pub timers_of : ℤ → ℕ → List Case → List TimerInfo
timers_of now i [] = []
timers_of now i (c ∷ cs) =
    let rest = timers_of now (suc i) cs in
    elim c.timer_duration [ none ↦ rest | some d ↦ record { idx = i; deadline = now +ℤ d } ∷ rest ]

-- A case that waits for the sends with this key.
abbrev pub takes_send : String → Case → Bool
takes_send key c = not (c.send_name == "") && c.handler_key == key

-- A case that waits for the calls of this name.
abbrev pub takes_call : String → Case → Bool
takes_call name c = not (c.call_name == "") && name == c.call_name

abbrev pub is_call : Case → Bool
is_call c = not (c.call_name == "")

-- inst.buffered[key]
unfoldable pub buffered_for : String → Dict (List Any) → List Any
buffered_for key b = elim (get key b) [ none ↦ [] | some msgs ↦ msgs ]

-- 2. The first send case with a buffered message: its index, the message, and what stays buffered.
unfoldable pub take_buffered : ℕ → List Case → Dict (List Any) → Option (ℕ × Any × Dict (List Any))
unfolding buffered_for
take_buffered i [] b = none
take_buffered i (c ∷ cs) b =
    let rest = take_buffered (suc i) cs b in
    if c.send_name == "" then rest else elim (buffered_for c.handler_key b) [
      | [] ↦ rest
      | m ∷ ms ↦ some (i, m, put c.handler_key ms b)
    ]

-- 3. The first timer whose deadline has come.
unfoldable pub first_expired : ℤ → List TimerInfo → Option ℕ
first_expired now [] = none
first_expired now (t ∷ ts) =
    let rest = first_expired now ts in if not (ltb_ℤ now t.deadline) then some t.idx else rest

-- inst.buffered[sm.key] = append(inst.buffered[sm.key], sm.msg)
unfoldable pub buffer_msg : SendMsg → Dict (List Any) → Dict (List Any)
unfolding buffered_for
buffer_msg sm b = put sm.key (buffered_for sm.key b ++ sm.msg ∷ []) b

-- The error that an unmatched call is answered with.
unfoldable pub no_matching_case : CallReq → CallResp
no_matching_case req = err ("no matching ReceiveCall case for " <> req.handler_key)

-- What `waitForCase` returns when a case fires.
pub record Fired : Type 0 where
  pub idx : ℕ
  pub msg : Option Any
  pub resp_ch : Option ℕ

-- The instance after a receive, the case that fired, and the response that was sent, if any.
pub record Received : Type 0 where
  pub inst : Instance
  pub fired : Option Fired
  pub reply : Option (ℕ × CallResp)

-- `matchSend`: a received message fires the first case that takes its key, or is buffered.
unfoldable pub match_send : Instance → List Case → SendMsg → Received
unfolding buffer_msg first_case
match_send inst cases sm = elim (first_case (takes_send sm.key) zero cases) [
  | some i ↦ record {
    inst = inst;
    fired = some (record { idx = i; msg = some sm.msg; resp_ch = none });
    reply = none;
  }
  | none ↦ record {
    inst = record inst { buffered = buffer_msg sm inst.buffered };
    fired = none;
    reply = none;
  }
]

-- `matchCall`: a received call fires the first case of its name, or is answered with an error.
unfoldable pub match_call : Instance → List Case → CallReq → Received
unfolding first_case no_matching_case
match_call inst cases req = elim (first_case (takes_call req.call_name) zero cases) [
  | some i ↦ record {
    inst = inst;
    fired = some (record { idx = i; msg = some req.req; resp_ch = some req.resp_ch });
    reply = none;
  }
  | none ↦ record { inst = inst; fired = none; reply = some (req.resp_ch, no_matching_case req) }
]

abbrev nothing : Instance → Received
nothing inst = record { inst = inst; fired = none; reply = none }

-- A receive on `sendCh` and on `callChan`, by what the channel holds.
unfoldable pub receive_send_from : List SendMsg → Instance → List Case → Received
unfolding match_send
receive_send_from [] inst cases = nothing inst
receive_send_from (sm ∷ rest) inst cases = match_send (record inst { send_ch = rest }) cases sm

unfoldable pub receive_call_from : List CallReq → Instance → List Case → Received
unfolding match_call
receive_call_from [] inst cases = nothing inst
receive_call_from (req ∷ rest) inst cases = match_call (record inst { call_chan = rest }) cases req

-- `tryReceiveSend`
unfoldable pub try_receive_send : Instance → List Case → Received
unfolding receive_send_from
try_receive_send inst cases = receive_send_from inst.send_ch inst cases

-- `tryReceiveCall`: the channel is read only if some case waits for calls
unfoldable pub try_receive_call : Instance → List Case → Received
unfolding receive_call_from first_case
try_receive_call inst cases = elim (first_case is_call zero cases) [
  | none ↦ nothing inst
  | some _ ↦ receive_call_from inst.call_chan inst cases
]
