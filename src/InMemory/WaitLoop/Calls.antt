-- ===== src/InMemory/WaitLoop/Calls.antt =====
-- The calls to a waiting instance, over a whole wait.
use durableroutine_go.Base.{
  ℕ, ◌≡◌, refl, sym, ap, ◌∙◌, inl, inr, Option, none, some, List, [], ◌∷◌, ◌++◌, append_assoc,
  arith, Bool-cases, Option-cases,
}
use durableroutine_go.Base.Int.{ℤ}
use durableroutine_go.Durable.Continuation.{Case}
use durableroutine_go.InMemory.Runtime.{CallReq, CallResp, Instance, SendMsg, TimerInfo}
use durableroutine_go.InMemory.Wait.{
  Fired, Received, match_send, match_call, receive_send_from, receive_call_from, try_receive_call,
}
use durableroutine_go.InMemory.Poll.{
  Wakes, by_send, by_call, by_timer, poll, block_for_case, after_call, nearest, select_channel,
}
use durableroutine_go.InMemory.WaitLoop.{
  Phase, at_top, in_select, Event, send_arrives, call_arrives, polls, wakes, Waited, reply_list,
  wait_loop, is_continue, wait_for_case,
}

-- The response channels of the callers that wait, in order.
abbrev pub waiting : List CallReq → List ℕ
waiting [] = []
waiting (c ∷ cs) = c.resp_ch ∷ waiting cs

-- The response channels that were answered.
abbrev pub answered : List (ℕ × CallResp) → List ℕ
answered [] = []
answered ((ch, r) ∷ rs) = ch ∷ answered rs

-- The response channel that a fired case hands to the call handler.
abbrev pub handed : Option Fired → List ℕ
handed none = []
handed (some f) = elim f.resp_ch [ none ↦ [] | some ch ↦ ch ∷ [] ]

-- The response channels of the callers that come.
abbrev pub calls_of : List Event → List ℕ
calls_of [] = []
calls_of (send_arrives m ∷ es) = calls_of es
calls_of (call_arrives c ∷ es) = c.resp_ch ∷ calls_of es
calls_of (polls now ∷ es) = calls_of es
calls_of (wakes now w ∷ es) = calls_of es

-- What a receive does with the callers `before`: in their order some are answered, the next may be
-- handed over, the others go on waiting.
abbrev Serves : List ℕ → Received → Type 0
Serves before rc =
    answered (reply_list rc.reply) ++ (handed rc.fired ++ waiting rc.inst.call_chan) ≡ before

match_send-calls :
    (inst : Instance) (cases : List Case) (m : SendMsg)
    → Serves (waiting inst.call_chan) (match_send inst cases m)
unfolding match_send
match_send-calls inst cases m = ground arith

match_call-calls :
    (inst : Instance) (cases : List Case) (req : CallReq)
    → Serves (req.resp_ch ∷ waiting inst.call_chan) (match_call inst cases req)
unfolding match_call
match_call-calls inst cases req = ground arith

receive_send_from-calls :
    (ch : List SendMsg) (inst : Instance) (cases : List Case)
    → Serves (waiting inst.call_chan) (receive_send_from ch inst cases)
unfolding receive_send_from
receive_send_from-calls [] inst cases = refl
receive_send_from-calls (m ∷ rest) inst cases =
    match_send-calls (record inst { send_ch = rest }) cases m

receive_call_from-calls :
    (ch : List CallReq) (inst : Instance) (cases : List Case)
    → inst.call_chan ≡ ch
    → Serves (waiting inst.call_chan) (receive_call_from ch inst cases)
unfolding receive_call_from
receive_call_from-calls [] inst cases e = refl
receive_call_from-calls (req ∷ rest) inst cases e =
    rw (ap waiting e) (match_call-calls (record inst { call_chan = rest }) cases req)

try_receive_call-calls :
    (inst : Instance) (cases : List Case)
    → Serves (waiting inst.call_chan) (try_receive_call inst cases)
unfolding try_receive_call
try_receive_call-calls inst cases =
    ground (arith, receive_call_from-calls inst.call_chan inst cases refl)

-- A receive of sends answers nobody.
receive_send_from-reply :
    (ch : List SendMsg) (inst : Instance) (cases : List Case)
    → ((receive_send_from ch inst cases).reply ≡ none)
      × (handed (receive_send_from ch inst cases).fired ≡ [])
      × ((receive_send_from ch inst cases).inst.call_chan ≡ inst.call_chan)
unfolding receive_send_from
receive_send_from-reply [] inst cases = (refl, refl, refl)
receive_send_from-reply (m ∷ rest) inst cases = ground arith

after_call-calls :
    (before : List ℕ) (cases : List Case) (rc : Received)
    → Serves before rc
    → Serves before (after_call cases rc)
unfolding after_call
after_call-calls before cases rc s =
    ground (arith, receive_send_from-reply rc.inst.send_ch rc.inst cases)

poll-calls :
    (now : ℤ) (inst : Instance) (cases : List Case) (timers : List TimerInfo)
    → Serves (waiting inst.call_chan) (poll now inst cases timers)
unfolding poll
poll-calls now inst cases timers = ground (
  arith,
  after_call-calls (waiting inst.call_chan) cases (try_receive_call inst cases)
      (try_receive_call-calls inst cases),
)

select_channel-calls :
    (w : Wakes) (inst : Instance) (cases : List Case) (t : Option TimerInfo) (rc : Received)
    → select_channel w inst cases t ≡ some rc
    → Serves (waiting inst.call_chan) rc
unfolding select_channel
select_channel-calls by_send inst cases t rc h =
    ground (arith, receive_send_from-calls inst.send_ch inst cases)
select_channel-calls by_call inst cases t rc h =
    ground (arith, receive_call_from-calls inst.call_chan inst cases refl)
select_channel-calls (by_timer now) inst cases t rc h = ground arith

block_for_case-calls :
    (now : ℤ) (w : Wakes) (inst : Instance) (cases : List Case) (timers : List TimerInfo)
    (rc : Received)
    → block_for_case now w inst cases timers ≡ some rc
    → Serves (waiting inst.call_chan) rc
unfolding block_for_case
block_for_case-calls now w inst cases timers rc h =
    ground (arith, select_channel-calls w inst cases (nearest none timers) rc)

-- Over a wait: who is answered, handed over, still waiting or comes later.
abbrev Accounts : Instance → List Event → Waited → Type 0
Accounts inst es w =
    answered w.replies ++ (handed w.fired ++ (waiting w.inst.call_chan ++ calls_of w.left))
    ≡ waiting inst.call_chan ++ calls_of es

answered-append :
    (r : Option (ℕ × CallResp)) (rs : List (ℕ × CallResp))
    → answered (reply_list r ++ rs) ≡ answered (reply_list r) ++ answered rs
answered-append none rs = refl
answered-append (some r) rs = refl

waiting-append :
    (cs : List CallReq) (c : CallReq) → waiting (cs ++ c ∷ []) ≡ waiting cs ++ c.resp_ch ∷ []
waiting-append [] c = refl
waiting-append (x ∷ cs) c = ap (λ l. x.resp_ch ∷ l) (waiting-append cs c)

-- A step that fires nothing can stand before a wait; a step that fires ends it.
after_step :
    (inst : Instance) (es : List Event) (rc : Received) (w : Waited)
    → Serves (waiting inst.call_chan) rc
    → rc.fired ≡ none
    → Accounts rc.inst es w
    → Accounts inst es (record w { replies = reply_list rc.reply ++ w.replies })
after_step inst es rc w s f a =
    rw (answered-append, append_assoc, a)
      (sym (append_assoc (answered (reply_list rc.reply)) (waiting rc.inst.call_chan) (calls_of es))
        ∙ ap (λ l. l ++ calls_of es) (rw f at s))

last_step :
    (inst : Instance) (es : List Event) (rc : Received)
    → Serves (waiting inst.call_chan) rc
    → answered (reply_list rc.reply)
        ++ (handed rc.fired ++ (waiting rc.inst.call_chan ++ calls_of es))
      ≡ waiting inst.call_chan ++ calls_of es
last_step inst es rc s = rw (← s) (simp append_assoc)

wait_loop-calls :
    (es : List Event) (ph : Phase) (inst : Instance) (cases : List Case) (timers : List TimerInfo)
    → Accounts inst es (wait_loop es ph inst cases timers)
unfolding wait_loop
wait_loop-calls [] ph inst cases timers = refl
wait_loop-calls (send_arrives m ∷ es) ph inst cases timers =
    wait_loop-calls es ph (record inst { send_ch = inst.send_ch ++ m ∷ [] }) cases timers
wait_loop-calls (call_arrives c ∷ es) ph inst cases timers =
    wait_loop-calls es ph (record inst { call_chan = inst.call_chan ++ c ∷ [] }) cases timers
    ∙ rw waiting-append (append_assoc (waiting inst.call_chan) (c.resp_ch ∷ []) (calls_of es))
wait_loop-calls (polls now ∷ es) in_select inst cases timers =
    wait_loop-calls es in_select inst cases timers
wait_loop-calls (polls now ∷ es) at_top inst cases timers =
    let rc = poll now inst cases timers in
    let served = poll-calls now inst cases timers in
    elim (Option-cases rc.fired) [
      | inl e ↦
          rw (e, wait_loop)
            (after_step inst es rc (wait_loop es in_select rc.inst cases timers) served e
              (wait_loop-calls es in_select rc.inst cases timers))
      | inr (f, e) ↦ rw (e, wait_loop) (rw e at (last_step inst es rc served))
    ]
wait_loop-calls (wakes now w ∷ es) at_top inst cases timers =
    wait_loop-calls es at_top inst cases timers
wait_loop-calls (wakes now w ∷ es) in_select inst cases timers =
    elim (Option-cases (block_for_case now w inst cases timers)) [
      | inl e ↦ rw (e, wait_loop) (wait_loop-calls es in_select inst cases timers)
      | inr (rc, e) ↦
          let served = block_for_case-calls now w inst cases timers rc e in
          elim (Option-cases rc.fired) [
            | inl e' ↦
                rw (e, e', wait_loop)
                  (after_step inst es rc (wait_loop es at_top rc.inst cases timers) served e'
                    (wait_loop-calls es at_top rc.inst cases timers))
            | inr (f, e') ↦ rw (e, e', wait_loop) (rw e' at (last_step inst es rc served))
          ]
    ]

-- Whatever happens during a wait, the callers that waited or came are, in their order: those that
-- were answered with an error; the one whose call the wait hands over, if a call fired a case;
-- those that still wait; those that come after the wait. So no call is answered twice, and none
-- that was taken from the channel goes without an answer or a handler.
pub wait_for_case-calls :
    (now : ℤ) (es : List Event) (inst : Instance) (cases : List Case)
    → answered (wait_for_case now es inst cases).replies
        ++ (handed (wait_for_case now es inst cases).fired
            ++ (waiting (wait_for_case now es inst cases).inst.call_chan
                ++ calls_of (wait_for_case now es inst cases).left))
      ≡ waiting inst.call_chan ++ calls_of es
unfolding wait_for_case
wait_for_case-calls now es inst cases = elim (Bool-cases (is_continue cases)) [
  | inl e ↦ rw e
  | inr e ↦ rw e (wait_loop-calls es at_top inst cases _)
]
