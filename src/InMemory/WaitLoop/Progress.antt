-- ===== src/InMemory/WaitLoop/Progress.antt =====
-- backend/inmemory/runtime.go: a wait for which a message is pending ends.
use durableroutine_go.Base.{◌≡◌, ℕ, zero, suc, none, List, [], ◌∷◌}
use durableroutine_go.Base.Int.{ℤ}
use durableroutine_go.Durable.Continuation.{Case}
use durableroutine_go.InMemory.Runtime.{SendMsg}
use durableroutine_go.InMemory.Wait.{Received, first_case, takes_send}
use durableroutine_go.InMemory.Poll.{by_send}
use durableroutine_go.InMemory.WaitLoop.{Phase, at_top, in_select, Event, polls, wakes}

-- A receive that fires nothing has taken a message that no case takes.
abbrev Skips : SendMsg → List SendMsg → List Case → Received → Type 0
Skips m rest cases rs =
    rs.fired ≡ none → (first_case (takes_send m.key) zero cases ≡ none) × (rs.inst.send_ch ≡ rest)

-- Rounds and wake-ups by sends, alternating as the loop does.
abbrev pub rounds : ℤ → Phase → ℕ → List Event
rounds now ph zero = []
rounds now at_top (suc n) = polls now ∷ rounds now in_select n
rounds now in_select (suc n) = wakes now by_send ∷ rounds now at_top n
