-- ===== src/InMemory/Poll/Block.antt =====
-- What `blockForCase` delivers and what stays pending.
use durableroutine_go.Base.{
  String, ◌≡◌, subst, inl, inr, Option, none, some, List, ◌∷◌, arith, List-cases,
}
use durableroutine_go.Base.Int.{ℤ}
use durableroutine_go.Durable.Continuation.{Case}
use durableroutine_go.InMemory.Runtime.{Instance, TimerInfo}
use durableroutine_go.InMemory.Wait.{Received, receive_send_from, receive_call_from}
use durableroutine_go.InMemory.Wait.Search.{NoBuffered}
use durableroutine_go.InMemory.Poll.{
  Wakes, by_send, by_call, by_timer, nearest, block_for_case, select_channel,
}
use durableroutine_go.InMemory.Poll.Fifo.{
  pending, Keeps, receive_send_from-fifo, receive_call_from-fifo,
}

select_channel-fifo :
    (key : String) (w : Wakes) (inst : Instance) (cases : List Case) (t : Option TimerInfo)
    (rc : Received)
    → NoBuffered cases inst.buffered
    → select_channel w inst cases t ≡ some rc
    → Keeps cases key (pending key inst) rc
unfolding select_channel
select_channel-fifo key by_send inst cases t rc n h = elim (List-cases inst.send_ch) [
  | inl e ↦ ground arith
  | inr (sm, rest, e) ↦
      let same : receive_send_from (sm ∷ rest) inst cases ≡ rc = ground arith in
      subst (Keeps cases key (pending key inst)) same
        (receive_send_from-fifo key (sm ∷ rest) inst cases n e)
]
select_channel-fifo key by_call inst cases t rc n h = elim (List-cases inst.call_chan) [
  | inl e ↦ ground arith
  | inr (req, rest, e) ↦
      let same : receive_call_from (req ∷ rest) inst cases ≡ rc = ground arith in
      subst (Keeps cases key (pending key inst)) same
        (receive_call_from-fifo key (req ∷ rest) inst cases)
]
select_channel-fifo key (by_timer now) inst cases t rc n h = ground arith

-- The same of `blockForCase`, where no send case has a buffered message.
pub block_for_case-fifo :
    (key : String) (now : ℤ) (w : Wakes) (inst : Instance) (cases : List Case)
    (timers : List TimerInfo) (rc : Received)
    → NoBuffered cases inst.buffered
    → block_for_case now w inst cases timers ≡ some rc
    → Keeps cases key (pending key inst) rc
unfolding block_for_case
block_for_case-fifo key now w inst cases timers rc n h =
    ground (arith, select_channel-fifo key w inst cases (nearest none timers) rc n)
