-- ===== src/InMemory/WaitLoop/Fifo.antt =====
-- The sends to a waiting instance, over a whole wait.
use durableroutine_go.Base.{
  String, ◌==◌, ◌≡◌, refl, sym, ap, ◌∙◌, inl, inr, none, List, [], ◌∷◌, ◌++◌, append-nil,
  append_assoc, arith, if◌then◌else◌, Bool-cases, Option-cases,
}
use durableroutine_go.Base.Int.{ℤ}
use durableroutine_go.Base.Dict.{Dict}
use durableroutine_go.Durable.Payload.{Any}
use durableroutine_go.Durable.Continuation.{Case}
use durableroutine_go.InMemory.Runtime.{SendMsg, Instance, TimerInfo}
use durableroutine_go.InMemory.Wait.{Received}
use durableroutine_go.InMemory.Wait.Search.{NoBuffered}
use durableroutine_go.InMemory.Poll.{poll, block_for_case}
use durableroutine_go.InMemory.Poll.Fifo.{
  msgs_for, pending, delivered, Keeps, poll-fifo, poll-NoBuffered,
}
use durableroutine_go.InMemory.Poll.Block.{block_for_case-fifo}
use durableroutine_go.InMemory.WaitLoop.{
  Phase, at_top, in_select, Event, send_arrives, call_arrives, polls, wakes, Waited, wait_loop,
  is_continue, wait_for_case,
}

-- The messages under a key that arrive, oldest first.
abbrev pub arrivals : String → List Event → List Any
arrivals key [] = []
arrivals key (send_arrives m ∷ es) =
    let rest = arrivals key es in if m.key == key then m.msg ∷ rest else rest
arrivals key (call_arrives c ∷ es) = arrivals key es
arrivals key (polls now ∷ es) = arrivals key es
arrivals key (wakes now w ∷ es) = arrivals key es

-- In the `select` no send case has a buffered message.
abbrev IsDrained : Phase → List Case → Dict (List Any) → Type 0
IsDrained at_top cases b = Unit {0}
IsDrained in_select cases b = NoBuffered cases b

msgs_for-append :
    (key : String) (ms : List SendMsg) (m : SendMsg)
    → msgs_for key (ms ++ m ∷ []) ≡ msgs_for key ms ++ msgs_for key (m ∷ [])
msgs_for-append key [] m = refl
msgs_for-append key (x ∷ ms) m = ground (arith, msgs_for-append key ms m)

-- A send that arrives goes behind all that is pending.
pending-send_arrives :
    (key : String) (inst : Instance) (m : SendMsg) (es : List Event)
    → pending key (record inst { send_ch = inst.send_ch ++ m ∷ [] }) ++ arrivals key es
      ≡ pending key inst ++ arrivals key (send_arrives m ∷ es)
pending-send_arrives key inst m es =
    rw (msgs_for-append key inst.send_ch m) (elim (Bool-cases (m.key == key)) [
      | inl e ↦ rw e (simp append_assoc)
      | inr e ↦ rw e (simp (append_assoc, append-nil))
    ])

-- Over a wait, under every key: what is delivered, what stays pending and what arrives later are,
-- in this order, what was pending and what arrived.
abbrev pub Conserves : String → List Case → Instance → List Event → Waited → Type 0
Conserves key cases inst es w =
    delivered cases key w.fired ++ (pending key w.inst ++ arrivals key w.left)
    ≡ pending key inst ++ arrivals key es

-- A step that keeps what is pending can stand before a wait.
after_step :
    (key : String) (cases : List Case) (inst : Instance) (es : List Event) (rc : Received)
    (w : Waited)
    → Keeps cases key (pending key inst) rc
    → rc.fired ≡ none
    → Conserves key cases rc.inst es w
    → Conserves key cases inst es w
after_step key cases inst es rc w k f c = c ∙ ap (λ p. p ++ arrivals key es) (rw f at k)

-- A step that fires ends a wait.
last_step :
    (key : String) (cases : List Case) (inst : Instance) (es : List Event) (rc : Received)
    → Keeps cases key (pending key inst) rc
    → delivered cases key rc.fired ++ (pending key rc.inst ++ arrivals key es)
      ≡ pending key inst ++ arrivals key es
last_step key cases inst es rc k =
    sym (append_assoc (delivered cases key rc.fired) (pending key rc.inst) (arrivals key es))
    ∙ ap (λ p. p ++ arrivals key es) k

wait_loop-fifo :
    (key : String) (es : List Event) (ph : Phase) (inst : Instance) (cases : List Case)
    (timers : List TimerInfo)
    → IsDrained ph cases inst.buffered
    → Conserves key cases inst es (wait_loop es ph inst cases timers)
unfolding wait_loop
wait_loop-fifo key [] ph inst cases timers d = refl
wait_loop-fifo key (send_arrives m ∷ es) ph inst cases timers d =
    wait_loop-fifo key es ph (record inst { send_ch = inst.send_ch ++ m ∷ [] }) cases timers d
    ∙ pending-send_arrives key inst m es
wait_loop-fifo key (call_arrives c ∷ es) ph inst cases timers d =
    wait_loop-fifo key es ph (record inst { call_chan = inst.call_chan ++ c ∷ [] }) cases timers d
wait_loop-fifo key (polls now ∷ es) in_select inst cases timers d =
    wait_loop-fifo key es in_select inst cases timers d
wait_loop-fifo key (polls now ∷ es) at_top inst cases timers d =
    let rc = poll now inst cases timers in
    let kept = poll-fifo key now inst cases timers in
    elim (Option-cases rc.fired) [
      | inl e ↦
          rw (e, wait_loop)
            (after_step key cases inst es rc (wait_loop es in_select rc.inst cases timers) kept e (
              wait_loop-fifo key es in_select rc.inst cases timers
                (poll-NoBuffered now inst cases timers e)))
      | inr (f, e) ↦ rw (e, wait_loop) (rw e at (last_step key cases inst es rc kept))
    ]
wait_loop-fifo key (wakes now w ∷ es) at_top inst cases timers d =
    wait_loop-fifo key es at_top inst cases timers d
wait_loop-fifo key (wakes now w ∷ es) in_select inst cases timers d =
    elim (Option-cases (block_for_case now w inst cases timers)) [
      | inl e ↦ rw (e, wait_loop) (wait_loop-fifo key es in_select inst cases timers d)
      | inr (rc, e) ↦
          let kept = block_for_case-fifo key now w inst cases timers rc d e in
          elim (Option-cases rc.fired) [
            | inl e' ↦
                rw (e, e', wait_loop)
                  (after_step key cases inst es rc (wait_loop es at_top rc.inst cases timers) kept
                    e' (wait_loop-fifo key es at_top rc.inst cases timers tt))
            | inr (f, e') ↦ rw (e, e', wait_loop) (rw e' at (last_step key cases inst es rc kept))
          ]
    ]

-- Whatever happens during a wait, and under every key, the sends that were pending or arrived are,
-- in their order: the one that the wait delivers, if it fires a case of that key by a send; those
-- that stay pending for a later wait; those that arrive after the wait. None is lost, doubled or
-- overtaken.
pub wait_for_case-fifo :
    (key : String) (now : ℤ) (es : List Event) (inst : Instance) (cases : List Case)
    → delivered cases key (wait_for_case now es inst cases).fired
        ++ (pending key (wait_for_case now es inst cases).inst
            ++ arrivals key (wait_for_case now es inst cases).left)
      ≡ pending key inst ++ arrivals key es
unfolding wait_for_case
wait_for_case-fifo key now es inst cases = elim (Bool-cases (is_continue cases)) [
  | inl e ↦ rw e
  | inr e ↦ rw e (wait_loop-fifo key es at_top inst cases _ tt)
]
