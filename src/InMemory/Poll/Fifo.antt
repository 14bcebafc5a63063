-- ===== src/InMemory/Poll/Fifo.antt =====
-- Sends to one instance under one key: what `waitForCase` delivers, and what stays pending, in the
-- instance's buffer and behind that in its channel.
use durableroutine_go.Base.{
  ℕ, zero, String, ◌==◌, ◌≡◌, refl, ap, inl, inr, true, false, Option, none, some, List, [], ◌∷◌,
  ◌++◌, append_assoc, get_elem?, All, All-at, arith, eq_iff, if◌then◌else◌, Option-cases,
}
use durableroutine_go.Base.Int.{ℤ}
use durableroutine_go.Base.Dict.{Dict, put, get-put}
use durableroutine_go.Durable.Payload.{Any}
use durableroutine_go.Durable.Continuation.{Case}
use durableroutine_go.InMemory.Runtime.{Instance, SendMsg, CallReq, TimerInfo}
use durableroutine_go.InMemory.Wait.{
  Fired, Received, first_case, take_buffered, first_expired, takes_send, buffered_for, buffer_msg,
  match_send, match_call, receive_send_from, receive_call_from, try_receive_call,
}
use durableroutine_go.InMemory.Wait.Search.{
  first_case-CaseAt, first_case-none, NoBuffered, is_send, take_buffered-Taken, take_buffered-none,
}
use durableroutine_go.InMemory.Poll.{poll, after_call}

-- The messages under a key in a channel, oldest first.
abbrev pub msgs_for : String → List SendMsg → List Any
msgs_for key [] = []
msgs_for key (m ∷ ms) = let rest = msgs_for key ms in if m.key == key then m.msg ∷ rest else rest

-- The messages under a key that the instance has not handled, oldest first.
abbrev pub pending : String → Instance → List Any
pending key inst = buffered_for key inst.buffered ++ msgs_for key inst.send_ch

-- The message that a case of this key was fired with, if it was fired by a send.
abbrev case_takes : String → Any → Option Case → List Any
case_takes key m none = []
case_takes key m (some c) = if c.handler_key == key then m ∷ [] else []

abbrev pub delivered : List Case → String → Option Fired → List Any
delivered cases key none = []
delivered cases key (some f) = elim f.resp_ch [
  | some _ ↦ []
  | none ↦ elim f.msg [ none ↦ [] | some m ↦ case_takes key m (get_elem? cases f.idx) ]
]

buffered_for-put :
    (k j : String) (ms : List Any) (b : Dict (List Any))
    → buffered_for j (put k ms b) ≡ (if k == j then ms else buffered_for j b)
unfolding buffered_for
buffered_for-put k j ms b = ground (arith, get-put k j ms b)

-- A message that is matched or buffered goes behind all that was buffered under its key.
match_send-fifo :
    (key : String) (inst : Instance) (cases : List Case) (sm : SendMsg)
    → NoBuffered cases inst.buffered
    → delivered cases key (match_send inst cases sm).fired
        ++ pending key (match_send inst cases sm).inst
      ≡ buffered_for key inst.buffered ++ msgs_for key (sm ∷ inst.send_ch)
unfolding match_send buffer_msg
match_send-fifo key inst cases sm h =
    elim (Option-cases (first_case (takes_send sm.key) zero cases)) [
      | inl e ↦ ground (
        arith,
        e,
        get-put sm.key key (buffered_for sm.key inst.buffered ++ sm.msg ∷ []) inst.buffered,
        eq_iff sm.key key,
        append_assoc (buffered_for key inst.buffered) (sm.msg ∷ []) (msgs_for key inst.send_ch),
      )
      | inr (i, e) ↦
          let (c, at, takes) = first_case-CaseAt (takes_send sm.key) cases i e in
          let empty =
            All-at (λ c. is_send c ≡ true → buffered_for c.handler_key inst.buffered ≡ []) cases i c
              h at in
          ground (
            arith,
            e,
            at,
            takes,
            empty,
            eq_iff sm.key key,
            eq_iff c.handler_key sm.key,
            eq_iff c.handler_key key,
          )
    ]

-- What a receive leaves: everything under the key, in its order, is delivered or pending.
abbrev pub Keeps : List Case → String → List Any → Received → Type 0
Keeps cases key before rc = delivered cases key rc.fired ++ pending key rc.inst ≡ before

match_call-fifo :
    (key : String) (inst : Instance) (cases : List Case) (req : CallReq)
    → Keeps cases key (pending key inst) (match_call inst cases req)
unfolding match_call
match_call-fifo key inst cases req = ground arith

pub receive_send_from-fifo :
    (key : String) (ch : List SendMsg) (inst : Instance) (cases : List Case)
    → NoBuffered cases inst.buffered
    → inst.send_ch ≡ ch
    → Keeps cases key (pending key inst) (receive_send_from ch inst cases)
unfolding receive_send_from
receive_send_from-fifo key [] inst cases h e = refl
receive_send_from-fifo key (sm ∷ rest) inst cases h e =
    rw (ap (msgs_for key) e) (match_send-fifo key (record inst { send_ch = rest }) cases sm h)

pub receive_call_from-fifo :
    (key : String) (ch : List CallReq) (inst : Instance) (cases : List Case)
    → Keeps cases key (pending key inst) (receive_call_from ch inst cases)
unfolding receive_call_from
receive_call_from-fifo key [] inst cases = refl
receive_call_from-fifo key (req ∷ rest) inst cases =
    match_call-fifo key (record inst { call_chan = rest }) cases req

try_receive_call-fifo :
    (key : String) (inst : Instance) (cases : List Case)
    → Keeps cases key (pending key inst) (try_receive_call inst cases)
unfolding try_receive_call
try_receive_call-fifo key inst cases =
    ground (arith, receive_call_from-fifo key inst.call_chan inst cases)

-- A call leaves the buffer and the channel of sends alone.
try_receive_call-sends :
    (inst : Instance) (cases : List Case)
    → ((try_receive_call inst cases).inst.buffered ≡ inst.buffered)
      × ((try_receive_call inst cases).inst.send_ch ≡ inst.send_ch)
unfolding try_receive_call
try_receive_call-sends inst cases = ground arith

-- A message that no case takes is buffered under a key that no send case has.
buffer_msg-NoBuffered :
    (sm : SendMsg) (cases : List Case) (b : Dict (List Any))
    → All (λ c. takes_send sm.key c ≡ false) cases
    → NoBuffered cases b
    → NoBuffered cases (buffer_msg sm b)
unfolding buffer_msg
buffer_msg-NoBuffered sm [] b h n = tt
buffer_msg-NoBuffered sm (c ∷ cs) b h n = (
  λ sends. ground (
    arith,
    h.0,
    n.0,
    eq_iff sm.key c.handler_key,
    eq_iff c.handler_key sm.key,
    get-put sm.key c.handler_key (buffered_for sm.key b ++ sm.msg ∷ []) b,
  ),
  buffer_msg-NoBuffered sm cs b h.1 n.1,
)

-- A receive of a send that fires nothing leaves no send case with a buffered message.
receive_send_from-NoBuffered :
    (ch : List SendMsg) (inst : Instance) (cases : List Case)
    → NoBuffered cases inst.buffered
    → (receive_send_from ch inst cases).fired ≡ none
    → NoBuffered cases (receive_send_from ch inst cases).inst.buffered
unfolding receive_send_from
receive_send_from-NoBuffered [] inst cases n h = n
receive_send_from-NoBuffered (sm ∷ rest) inst cases n h =
    elim (Option-cases (first_case (takes_send sm.key) zero cases)) [
      | inl e ↦
          rw (e, match_send)
            (buffer_msg-NoBuffered sm cases inst.buffered (first_case-none _ zero cases e) n)
      | inr (i, e) ↦ ground arith
    ]

after_call-fifo :
    (key : String) (before : List Any) (cases : List Case) (rc : Received)
    → NoBuffered cases rc.inst.buffered
    → Keeps cases key before rc
    → Keeps cases key before (after_call cases rc)
unfolding after_call
after_call-fifo key before cases rc n k =
    ground (arith, receive_send_from-fifo key rc.inst.send_ch rc.inst cases n refl)

take_buffered-fifo :
    (key : String) (inst : Instance) (cases : List Case) (i : ℕ) (m : Any) (b : Dict (List Any))
    → take_buffered zero cases inst.buffered ≡ some (i, m, b)
    → case_takes key m (get_elem? cases i) ++ (buffered_for key b ++ msgs_for key inst.send_ch)
      ≡ pending key inst
take_buffered-fifo key inst cases i m b h =
    let t = take_buffered-Taken cases inst.buffered i m b h in
    rw (t.at, t.now)
      (ground (
        arith,
        t.was,
        eq_iff t.case.handler_key key,
        buffered_for-put t.case.handler_key key t.rest inst.buffered,
      ))

-- In one round, under every key: what was pending is what is delivered and what stays pending.
pub poll-fifo :
    (key : String) (now : ℤ) (inst : Instance) (cases : List Case) (timers : List TimerInfo)
    → Keeps cases key (pending key inst) (poll now inst cases timers)
unfolding poll
poll-fifo key now inst cases timers = elim (Option-cases (take_buffered zero cases inst.buffered)) [
  | inl e ↦ elim (Option-cases (first_expired now timers)) [
    | inl e' ↦
        rw (e, e', poll)
          (after_call-fifo key (pending key inst) cases (try_receive_call inst cases)
            (rw (try_receive_call-sends inst cases).0
              (take_buffered-none zero cases inst.buffered e))
            (try_receive_call-fifo key inst cases))
    | inr (i, e') ↦ rw (e, e', poll)
  ]
  | inr ((i, m, b), e) ↦ rw (e, poll) (take_buffered-fifo key inst cases i m b e)
]

after_call-NoBuffered :
    (cases : List Case) (rc : Received)
    → NoBuffered cases rc.inst.buffered
    → (after_call cases rc).fired ≡ none
    → NoBuffered cases (after_call cases rc).inst.buffered
unfolding after_call
after_call-NoBuffered cases rc n h =
    ground (arith, receive_send_from-NoBuffered rc.inst.send_ch rc.inst cases n)

-- A round that fires nothing leaves no send case with a buffered message.
pub poll-NoBuffered :
    (now : ℤ) (inst : Instance) (cases : List Case) (timers : List TimerInfo)
    → (poll now inst cases timers).fired ≡ none
    → NoBuffered cases (poll now inst cases timers).inst.buffered
unfolding poll
poll-NoBuffered now inst cases timers h =
    elim (Option-cases (take_buffered zero cases inst.buffered)) [
      | inl e ↦ elim (Option-cases (first_expired now timers)) [
        | inl e' ↦
            rw (e, e', poll)
              (after_call-NoBuffered cases (try_receive_call inst cases)
                (rw (try_receive_call-sends inst cases).0
                  (take_buffered-none zero cases inst.buffered e))
                (rw (e, e', poll) at h))
        | inr (i, e') ↦ ground arith
      ]
      | inr ((i, m, b), e) ↦ ground arith
    ]
