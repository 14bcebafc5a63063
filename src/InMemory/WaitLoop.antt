-- ===== src/InMemory/WaitLoop.antt =====
-- backend/inmemory/runtime.go: the loop of `waitForCase`, driven by what happens around it.
pub mod Fifo
pub mod Calls
pub mod Fits
pub mod Timers
pub mod Progress
use durableroutine_go.Base.{
  ℕ, zero, Bool, true, false, Option, none, some, List, [], ◌∷◌, ◌++◌, if◌then◌else◌,
}
use durableroutine_go.Base.Int.{ℤ}
use durableroutine_go.Durable.Continuation.{Case}
use durableroutine_go.InMemory.Runtime.{SendMsg, CallReq, CallResp, Instance, TimerInfo}
use durableroutine_go.InMemory.Wait.{Fired, Received, timers_of}
use durableroutine_go.InMemory.Poll.{Wakes, bare, poll, block_for_case}

-- Whether the goroutine is at the top of the loop, or in the `select`.
pub data Phase : Type 0 where
  at_top : Phase
  in_select : Phase

-- What happens while it waits: another goroutine completes a send to the instance, a caller comes
-- to wait on the unbuffered channel, the waiting goroutine runs a round at some time, or its
-- `select`, entered at some time, is woken.
pub data Event : Type 0 where
  send_arrives : SendMsg → Event
  call_arrives : CallReq → Event
  polls : ℤ → Event
  wakes : ℤ → Wakes → Event

-- The instance when the wait is over or the events run out; the case that fired, if one did; the
-- responses that were sent; the events that come later.
pub record Waited : Type 0 where
  pub inst : Instance
  pub fired : Option Fired
  pub replies : List (ℕ × CallResp)
  pub left : List Event

abbrev pub reply_list : Option (ℕ × CallResp) → List (ℕ × CallResp)
reply_list none = []
reply_list (some r) = r ∷ []

abbrev add_replies : Option (ℕ × CallResp) → Waited → Waited
add_replies reply w = record w { replies = reply_list reply ++ w.replies }

-- The loop. An event of the waiting goroutine that its phase does not allow, or a `select` on a
-- channel that is not ready, is no step.
unfoldable pub wait_loop : List Event → Phase → Instance → List Case → List TimerInfo → Waited
wait_loop [] ph inst cases timers = record { inst = inst; fired = none; replies = []; left = [] }
wait_loop (send_arrives m ∷ es) ph inst cases timers =
    wait_loop es ph (record inst { send_ch = inst.send_ch ++ m ∷ [] }) cases timers
wait_loop (call_arrives c ∷ es) ph inst cases timers =
    wait_loop es ph (record inst { call_chan = inst.call_chan ++ c ∷ [] }) cases timers
wait_loop (polls now ∷ es) in_select inst cases timers = wait_loop es in_select inst cases timers
wait_loop (polls now ∷ es) at_top inst cases timers =
    let rc = poll now inst cases timers in
    let rest = wait_loop es in_select rc.inst cases timers in
    elim rc.fired [
      | some f ↦ record { inst = rc.inst; fired = some f; replies = reply_list rc.reply; left = es }
      | none ↦ add_replies rc.reply rest
    ]
wait_loop (wakes now w ∷ es) at_top inst cases timers = wait_loop es at_top inst cases timers
wait_loop (wakes now w ∷ es) in_select inst cases timers =
    let blocked = wait_loop es in_select inst cases timers in
    elim (block_for_case now w inst cases timers) [
      | none ↦ blocked
      | some rc ↦
          let rest = wait_loop es at_top rc.inst cases timers in
          elim rc.fired [
            | some f ↦ record {
              inst = rc.inst;
              fired = some f;
              replies = reply_list rc.reply;
              left = es;
            }
            | none ↦ add_replies rc.reply rest
          ]
    ]

-- 1. `len(cases) == 1 && cases[0].Immediate()`
unfoldable pub is_continue : List Case → Bool
is_continue (c ∷ []) = c.immediate
is_continue _ = false

-- `waitForCase`, entered at time `now`
unfoldable pub wait_for_case : ℤ → List Event → Instance → List Case → Waited
unfolding is_continue
wait_for_case now es inst cases =
    if is_continue cases
    then record { inst = inst; fired = some (bare zero); replies = []; left = es }
    else wait_loop es at_top inst cases (timers_of now zero cases)
