-- ===== src/InMemory/Poll.antt =====
-- backend/inmemory/runtime.go: one round of the loop of `waitForCase`.
pub mod Fits
pub mod Timely
pub mod Fifo
pub mod Block
pub mod Kept
use durableroutine_go.Base.{
  zero, ℕ, Bool, true, false, not, Option, none, some, List, [], ◌∷◌, if◌then◌else◌,
}
use durableroutine_go.Base.Int.{ℤ, ltb_ℤ}
use durableroutine_go.Durable.Continuation.{Case}
use durableroutine_go.InMemory.Runtime.{CallResp, Instance, TimerInfo}
use durableroutine_go.InMemory.Wait.{
  Fired, Received, first_case, take_buffered, first_expired, try_receive_send, try_receive_call,
  receive_send_from, receive_call_from,
}

-- A case that fires with nothing.
abbrev pub bare : ℕ → Fired
bare i = record { idx = i; msg = none; resp_ch = none }

-- 5. The default, where there is one.
unfoldable pub default_fired : List Case → Option Fired
unfolding first_case
default_fired cases = elim (first_case (λ c. c.immediate) zero cases) [
  | none ↦ none
  | some i ↦ some (bare i)
]

-- The rest of the round after `tryReceiveSend`.
unfoldable pub after_send : Option (ℕ × CallResp) → List Case → Received → Received
unfolding default_fired
after_send reply cases rs = elim rs.fired [
  | some f ↦ record rs { reply = reply }
  | none ↦ record rs { fired = default_fired cases; reply = reply }
]

-- The rest of the round after `tryReceiveCall`.
unfoldable pub after_call : List Case → Received → Received
unfolding after_send try_receive_send
after_call cases rc = elim rc.fired [
  | some f ↦ rc
  | none ↦ after_send rc.reply cases (try_receive_send rc.inst cases)
]

-- 2 to 5 of `waitForCase`
unfoldable pub poll : ℤ → Instance → List Case → List TimerInfo → Received
unfolding take_buffered first_expired try_receive_call after_call
poll now inst cases timers = elim (take_buffered zero cases inst.buffered) [
  | some (i, m, b) ↦ record {
    inst = record inst { buffered = b };
    fired = some (record { idx = i; msg = some m; resp_ch = none });
    reply = none;
  }
  | none ↦ elim (first_expired now timers) [
    | some i ↦ record { inst = inst; fired = some (bare i); reply = none }
    | none ↦ after_call cases (try_receive_call inst cases)
  ]
]

-- What wakes the `select` of `blockForCase`: a send, a call, or the timer channel at some time.
pub data Wakes : Type 0 where
  by_send : Wakes
  by_call : Wakes
  by_timer : ℤ → Wakes

-- the loop that finds the nearest timer
unfoldable pub nearest : Option TimerInfo → List TimerInfo → Option TimerInfo
nearest best [] = best
nearest none (t ∷ ts) = nearest (some t) ts
nearest (some b) (t ∷ ts) = nearest (some (if ltb_ℤ t.deadline b.deadline then t else b)) ts

abbrev timer_fired : Instance → TimerInfo → Option Received
timer_fired inst t = some (record { inst = inst; fired = some (bare t.idx); reply = none })

-- The `select`; `none` means that this channel is not ready. `time.After` never fires early.
unfoldable pub select_channel : Wakes → Instance → List Case → Option TimerInfo → Option Received
unfolding receive_send_from receive_call_from
select_channel by_send inst cases t = elim inst.send_ch [
  | [] ↦ none
  | sm ∷ rest ↦ some (receive_send_from (sm ∷ rest) inst cases)
]
select_channel by_call inst cases t = elim inst.call_chan [
  | [] ↦ none
  | req ∷ rest ↦ some (receive_call_from (req ∷ rest) inst cases)
]
select_channel (by_timer now) inst cases none = none
select_channel (by_timer now) inst cases (some t) =
    if ltb_ℤ now t.deadline then none else timer_fired inst t

-- `blockForCase`, entered at time `now`
unfoldable pub block_for_case : ℤ → Wakes → Instance → List Case → List TimerInfo → Option Received
unfolding nearest select_channel
block_for_case now wakes inst cases timers = elim (nearest none timers) [
  | none ↦ select_channel wakes inst cases none
  | some t ↦
      if not (ltb_ℤ now t.deadline)
      then timer_fired inst t
      else select_channel wakes inst cases (some t)
]
