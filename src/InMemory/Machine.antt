-- ===== src/InMemory/Machine.antt =====
-- backend/inmemory/runtime.go: `runInstance`, and backend/inmemory/client.go. The goroutines of the
-- instances and of the clients run in any order: each step below is what one of them does between
-- two points at which it may wait. A handler's run with its effects is one step.
pub mod Sound
pub mod Alive
pub mod Safety
pub mod Outcomes
pub mod Results
pub mod Delivery
pub mod Queries
pub mod Answers
pub mod Handlers
pub mod Progress
pub mod Protocol
use durableroutine_go.Base.{
  ◌≡◌, ℕ, zero, String, ◌<>◌, ◌==◌, Bool, true, false, Option, none, some, List, [], ◌∷◌, ◌++◌,
  get_elem?, if◌then◌else◌,
}
use durableroutine_go.Base.Int.{ℤ}
use durableroutine_go.Base.Dict.{Dict, get, put}
use durableroutine_go.Base.Result.{Result, ok, err}
use durableroutine_go.Durable.Keys.{send_key, call_key}
use durableroutine_go.Durable.Payload.{Any, Json, decoded}
use durableroutine_go.Durable.Continuation.{Case}
use durableroutine_go.Durable.Worker.{RunOutput}
use durableroutine_go.InMemory.Runtime.{
  CallReq, CallResp, Instance, Runtime, Thread, TimerInfo, running, polling, blocked, finished,
  crashed, push_send, set_instance, set_thread, start,
}
use durableroutine_go.InMemory.Handler.{run_handler}
use durableroutine_go.InMemory.Wait.{Fired, Received, timers_of}
use durableroutine_go.InMemory.Poll.{Wakes, bare, poll, block_for_case}
use durableroutine_go.InMemory.WaitLoop.{is_continue}

-- `json.Unmarshal` of a response or a result into an `any`. It cannot fail: the document is one
-- that `json.Marshal` returned. A nil message leaves nil.
abbrev pub unmarshal_any : Option Json → Option Any
unmarshal_any none = none
unmarshal_any (some j) = some (decoded j)

-- respCh <- resp, where there is a caller
unfoldable pub respond : Option ℕ → CallResp → Runtime → Runtime
respond none resp r = r
respond (some ch) resp r = record r { responses = r.responses ++ (ch, resp) ∷ [] }

-- The instance's `result` and `err` are written, and `doneChan` is closed.
unfoldable pub finish : String → Option Any → Option String → Runtime → Runtime
unfolding set_instance set_thread
finish id result error r = elim (get id r.instances) [
  | none ↦ set_thread id finished r
  | some inst ↦
      set_thread id finished
        (set_instance id (record inst { result = result; err = error; done = true }) r)
]

-- The next pass of the loop: `output.Cases[caseIdx]` and the assignments behind it.
unfoldable pub fire : String → List Case → Fired → Runtime → Runtime
unfolding set_thread
fire id cases f r = elim (get_elem? cases f.idx) [
  | none ↦ set_thread id crashed r
  | some c ↦ set_thread id (running c.handler_key c.input f.msg f.resp_ch) r
]

-- `waitForCase`, up to its loop
unfoldable pub enter_wait : String → ℤ → List Case → Runtime → Runtime
unfolding fire is_continue timers_of
enter_wait id now cases r =
    if is_continue cases
    then fire id cases (bare zero) r
    else set_thread id (polling cases (timers_of now zero cases)) r

-- What follows on a handler's output.
unfoldable pub after_output : String → Option ℕ → ℤ → RunOutput → Runtime → Runtime
unfolding respond finish enter_wait
after_output id resp_ch now out r =
    let answered = respond resp_ch (ok (unmarshal_any out.call_response)) r in
    if out.done
    then finish id (unmarshal_any out.result) none answered
    else enter_wait id now out.cases answered

-- One pass of the loop of `runInstance` up to the wait; `none` means that a send of the handler
-- waits on a full channel.
unfoldable pub run_step :
    Runtime → String → String → Any → Option Any → Option ℕ → ℤ → Option Runtime
unfolding after_output
run_step r id key input msg resp_ch now = elim (run_handler r id key input msg) [
  | none ↦ none
  | some (r', err e) ↦ some (finish id none (some e) (respond resp_ch (err e) r'))
  | some (r', ok out) ↦ some (after_output id resp_ch now out r')
]

unfoldable pub add_reply : Option (ℕ × CallResp) → Runtime → Runtime
add_reply none r = r
add_reply (some reply) r = record r { responses = r.responses ++ reply ∷ [] }

-- The end of a round or of a `select`: the case that fired runs, or the goroutine goes on to
-- `next`.
unfoldable pub after_receive : String → List Case → Thread → Received → Runtime → Runtime
unfolding set_instance add_reply fire set_thread
after_receive id cases next rc r =
    let r' = add_reply rc.reply (set_instance id rc.inst r) in
    elim rc.fired [ none ↦ set_thread id next r' | some f ↦ fire id cases f r' ]

-- `client.Send`; `none` means that the channel is full and the client waits.
unfoldable pub client_send :
    Runtime → String → String → String → String → Any → Option (Result Runtime)
unfolding push_send
client_send r id input_kind external_input_kind result_kind msg = elim (get id r.instances) [
  | none ↦ some (err ("routine " <> id <> " not found"))
  | some inst ↦
      elim (push_send
        (record { key = send_key input_kind external_input_kind result_kind; msg = msg }) inst) [
          | none ↦ none
          | some inst' ↦ some (ok (set_instance id inst' r))
        ]
]

-- `client.Call` up to its wait for a response on the new channel `ch`: the caller stands in line
-- on the unbuffered channel.
unfoldable pub client_call :
    Runtime → String → String → String → String → String → Any → ℕ → Result Runtime
client_call r id input_kind external_req_kind external_resp_kind result_kind req ch =
    elim (get id r.instances) [
      | none ↦ err ("routine " <> id <> " not found")
      | some inst ↦ ok (
          set_instance id
            (record inst {
              call_chan =
                  inst.call_chan
                  ++ record {
                    call_name = external_req_kind;
                    handler_key =
                        call_key input_kind external_req_kind external_resp_kind result_kind;
                    req = req;
                    resp_ch = ch;
                  }
                    ∷ [];
            })
            r)
    ]

-- `client.Query`
unfoldable pub client_query : Runtime → String → String → Result Any
client_query r id query_name = elim (get id r.instances) [
  | none ↦ err ("routine " <> id <> " not found")
  | some inst ↦ elim (get query_name inst.query_results) [
    | none ↦ err ("no query result for " <> query_name <> " on routine " <> id)
    | some result ↦ ok result
  ]
]

-- `client.Get`; `none` means that it waits for the routine's end.
unfoldable pub client_get : Runtime → String → Option (Result (Option Any))
client_get r id = elim (get id r.instances) [
  | none ↦ some (err ("routine " <> id <> " not found"))
  | some inst ↦
      if inst.done
      then elim inst.err [ some e ↦ some (err e) | none ↦ some (ok inst.result) ]
      else none
]

-- The steps of a running program. `client.Go` is `start`.
pub data Step (r : Runtime) (r' : Runtime) : Type 0 where
  runs :
      (id key : String) (input : Any) (msg : Option Any) (ch : Option ℕ) (now : ℤ)
      → get id r.threads ≡ some (running key input msg ch)
      → run_step r id key input msg ch now ≡ some r'
      → Step r r'
  polls :
      (id : String) (cases : List Case) (timers : List TimerInfo) (inst : Instance) (now : ℤ)
      → get id r.threads ≡ some (polling cases timers)
      → get id r.instances ≡ some inst
      → r' ≡ after_receive id cases (blocked cases timers) (poll now inst cases timers) r
      → Step r r'
  wakes :
      (id : String) (cases : List Case) (timers : List TimerInfo) (inst : Instance) (now : ℤ)
      (w : Wakes) (rc : Received)
      → get id r.threads ≡ some (blocked cases timers)
      → get id r.instances ≡ some inst
      → block_for_case now w inst cases timers ≡ some rc
      → r' ≡ after_receive id cases (polling cases timers) rc r
      → Step r r'
  starts :
      (id kind result_kind : String) (input : Any)
      → start r id kind result_kind input ≡ ok r'
      → Step r r'
  sends : (id i e t : String) (msg : Any) → client_send r id i e t msg ≡ some (ok r') → Step r r'
  calls :
      (id i q p t : String) (req : Any) (ch : ℕ)
      → client_call r id i q p t req ch ≡ ok r'
      → Step r r'

pub data Reach (s : Runtime) : Runtime → Type 0 where
  here : Reach s s
  next : {t u : Runtime} → Reach s t → Step t u → Reach s u
