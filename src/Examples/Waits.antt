-- ===== src/Examples/Waits.antt =====
-- The in-memory wait at concrete channels.
use durableroutine_go.Base.{◌≡◌, refl, true, false, none, some, List, [], ◌∷◌, ◌++◌, ◌⊎◌}
use durableroutine_go.Base.Int.{pos, ◌+ℤ◌}
use durableroutine_go.Base.Dict.{get}
use durableroutine_go.Durable.Payload.{Any, Json, decoded}
use durableroutine_go.Durable.Continuation.{Case}
use durableroutine_go.InMemory.Runtime.{SendMsg, CallReq, Instance}
use durableroutine_go.InMemory.Wait.{
  buffered_for, timers_of, take_buffered, first_case, try_receive_call, match_call,
  receive_call_from, first_expired, try_receive_send, receive_send_from,
}
use durableroutine_go.InMemory.Wait.Search.{CaseAt}
use durableroutine_go.InMemory.Poll.{
  bare, poll, after_call, by_send, by_timer, after_send, default_fired, block_for_case, nearest,
  select_channel,
}
use durableroutine_go.InMemory.Poll.Fits.{Fits}
use durableroutine_go.InMemory.WaitLoop.{
  Event, send_arrives, call_arrives, polls, wakes, wait_for_case, wait_loop, is_continue,
}
use durableroutine_go.InMemory.Poll.Fifo.{pending, delivered}
use durableroutine_go.InMemory.WaitLoop.Fifo.{wait_for_case-fifo, arrivals}
use durableroutine_go.InMemory.WaitLoop.Calls.{
  wait_for_case-calls, answered, handed, waiting, calls_of,
}
use durableroutine_go.InMemory.WaitLoop.Timers.{wait_for_case-IsOver, EndsAt, IsOver, clock_of}
use durableroutine_go.InMemory.WaitLoop.Fits.{wait_for_case-Fits}

abbrev three : Any
three = decoded (Json.number (pos 3))

abbrev four : Any
four = decoded (Json.number (pos 4))

abbrev on_add_case : Case
on_add_case = record {
  timer_duration = none;
  send_name = "add";
  call_name = "";
  immediate = false;
  input = three;
  handler_key = "send:counter:add:total";
}

abbrev call_case : Case
call_case = record {
  timer_duration = none;
  send_name = "";
  call_name = "add";
  immediate = false;
  input = three;
  handler_key = "call:counter:add:total:total";
}

abbrev adds : SendMsg
adds = record { key = "send:counter:add:total"; msg = four }

abbrev other : SendMsg
other = record { key = "send:counter:reset:total"; msg = three }

abbrev asks : CallReq
asks = record {
  call_name = "add";
  handler_key = "call:counter:add:total:total";
  req = four;
  resp_ch = 7;
}

abbrev idle : Instance
idle = record {
  id = "c1";
  send_ch = [];
  call_chan = [];
  done = false;
  query_results = [];
  buffered = [];
  result = none;
  err = none;
}

abbrev with_two : Instance
with_two = record idle { send_ch = other ∷ adds ∷ [] }

wait_for_case-fifo_example :
    let w =
      wait_for_case
        (pos 0)
        (polls (pos 1) ∷ send_arrives adds ∷ wakes (pos 2) by_send ∷ [])
        with_two
        (on_add_case ∷ []) in
    delivered (on_add_case ∷ []) "send:counter:add:total" w.fired
      ++ (pending "send:counter:add:total" w.inst ++ arrivals "send:counter:add:total" w.left)
    ≡ four ∷ four ∷ []
unfolding buffered_for get
wait_for_case-fifo_example =
    wait_for_case-fifo "send:counter:add:total" (pos 0)
      (polls (pos 1) ∷ send_arrives adds ∷ wakes (pos 2) by_send ∷ []) with_two (on_add_case ∷ [])

wait_for_case-calls_example :
    let w = wait_for_case (pos 0) (call_arrives asks ∷ polls (pos 1) ∷ []) idle (call_case ∷ []) in
    answered w.replies ++ (handed w.fired ++ (waiting w.inst.call_chan ++ calls_of w.left)) ≡ 7 ∷ []
wait_for_case-calls_example =
    wait_for_case-calls (pos 0) (call_arrives asks ∷ polls (pos 1) ∷ []) idle (call_case ∷ [])

wait_for_case-Fits_example :
    Fits (call_case ∷ []) (record { idx = 0; msg = some four; resp_ch = some 7 })
unfolding wait_for_case wait_loop is_continue timers_of poll take_buffered first_expired
    try_receive_call after_call receive_call_from match_call first_case
wait_for_case-Fits_example =
    wait_for_case-Fits (pos 0) (call_arrives asks ∷ polls (pos 1) ∷ []) idle (call_case ∷ [])
      (record { idx = 0; msg = some four; resp_ch = some 7 }) refl

abbrev timer_case : Case
timer_case = record {
  timer_duration = some (pos 5);
  send_name = "";
  call_name = "";
  immediate = false;
  input = three;
  handler_key = "handler:counter:total";
}

-- A wait from 10 on: a round at 11, and a `select` that wakes at 15.
abbrev until_15 : List Event
until_15 = polls (pos 11) ∷ wakes (pos 12) (by_timer (pos 15)) ∷ []

wait_for_case-IsOver_example :
    CaseAt (timer_case ∷ []) 0 (λ c. c.immediate ≡ true)
    ⊎ EndsAt
        (λ e. CaseAt (timer_case ∷ []) 0 (IsOver (pos 10) (clock_of e)))
        until_15
        (wait_for_case (pos 10) until_15 idle (timer_case ∷ [])).left
unfolding wait_for_case wait_loop is_continue timers_of poll take_buffered first_expired
    try_receive_call after_call receive_call_from first_case try_receive_send receive_send_from
    after_send default_fired block_for_case nearest select_channel ◌+ℤ◌ buffered_for get
wait_for_case-IsOver_example =
    wait_for_case-IsOver (pos 10) until_15 idle (timer_case ∷ []) (bare 0) refl refl
