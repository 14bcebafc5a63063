-- ===== src/InMemory/Poll/Kept.antt =====
-- A round and a `select` leave the instance's `done` and its query results alone.
use durableroutine_go.Base.{◌≡◌, refl, Bool, Option, none, some, List, [], ◌∷◌, arith}
use durableroutine_go.Base.Int.{ℤ}
use durableroutine_go.Base.Dict.{Dict}
use durableroutine_go.Durable.Payload.{Any}
use durableroutine_go.Durable.Continuation.{Case}
use durableroutine_go.InMemory.Runtime.{CallReq, Instance, SendMsg, TimerInfo}
use durableroutine_go.InMemory.Wait.{
  Received, receive_send_from, receive_call_from, try_receive_call,
}
use durableroutine_go.InMemory.Poll.{
  Wakes, by_send, by_call, by_timer, nearest, after_call, poll, select_channel, block_for_case,
}

abbrev pub kept : Instance → Bool × Dict Any
kept inst = (inst.done, inst.query_results)

receive_send_from-kept :
    (ch : List SendMsg) (inst : Instance) (cases : List Case)
    → kept (receive_send_from ch inst cases).inst ≡ kept inst
unfolding receive_send_from
receive_send_from-kept [] inst cases = refl
receive_send_from-kept (m ∷ rest) inst cases = ground arith

receive_call_from-kept :
    (ch : List CallReq) (inst : Instance) (cases : List Case)
    → kept (receive_call_from ch inst cases).inst ≡ kept inst
unfolding receive_call_from
receive_call_from-kept [] inst cases = refl
receive_call_from-kept (c ∷ rest) inst cases = ground arith

try_receive_call-kept :
    (inst : Instance) (cases : List Case) → kept (try_receive_call inst cases).inst ≡ kept inst
unfolding try_receive_call
try_receive_call-kept inst cases = ground (arith, receive_call_from-kept inst.call_chan inst cases)

after_call-kept :
    (cases : List Case) (rc : Received) → kept (after_call cases rc).inst ≡ kept rc.inst
unfolding after_call
after_call-kept cases rc = ground (arith, receive_send_from-kept rc.inst.send_ch rc.inst cases)

pub poll-kept :
    (now : ℤ) (inst : Instance) (cases : List Case) (timers : List TimerInfo)
    → kept (poll now inst cases timers).inst ≡ kept inst
unfolding poll
poll-kept now inst cases timers =
    ground
      (arith, after_call-kept cases (try_receive_call inst cases), try_receive_call-kept inst cases)

select_channel-kept :
    (w : Wakes) (inst : Instance) (cases : List Case) (t : Option TimerInfo) (rc : Received)
    → select_channel w inst cases t ≡ some rc
    → kept rc.inst ≡ kept inst
unfolding select_channel
select_channel-kept by_send inst cases t rc h =
    ground (arith, receive_send_from-kept inst.send_ch inst cases)
select_channel-kept by_call inst cases t rc h =
    ground (arith, receive_call_from-kept inst.call_chan inst cases)
select_channel-kept (by_timer now) inst cases t rc h = ground arith

pub block_for_case-kept :
    (now : ℤ) (w : Wakes) (inst : Instance) (cases : List Case) (timers : List TimerInfo)
    (rc : Received)
    → block_for_case now w inst cases timers ≡ some rc
    → kept rc.inst ≡ kept inst
unfolding block_for_case
block_for_case-kept now w inst cases timers rc h =
    ground (arith, select_channel-kept w inst cases (nearest none timers) rc)
