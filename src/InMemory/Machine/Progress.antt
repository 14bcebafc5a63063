-- ===== src/InMemory/Machine/Progress.antt =====
-- What a goroutine of the in-memory runtime can wait for.
use durableroutine_go.Base.{ℕ, String, ◌≡◌, ◌≤◌, Option, none, some, List, [], ◌∷◌, ◌++◌, length}
use durableroutine_go.Base.Dict.{get}
use durableroutine_go.Base.Result.{ok}
use durableroutine_go.Durable.Payload.{Any}
use durableroutine_go.Durable.Context.{Context, SendRequest, start_entries}
use durableroutine_go.Durable.Continuation.{Case}
use durableroutine_go.Durable.Worker.{Worker, RunOutput}
use durableroutine_go.InMemory.Runtime.{Instance, Runtime, Thread, running, blocked, send_capacity}
use durableroutine_go.InMemory.Handler.{apply_queries, start_children, deliver_all, run_outcome}
use durableroutine_go.InMemory.Machine.{Step, runs, polls, wakes, starts, sends, calls}

-- Whose goroutine takes a step; a client's step is nobody's.
abbrev pub actor : {r r' : Runtime} → Step r r' → Option String
actor (runs id key input msg ch now e h) = some id
actor (polls id cases timers inst now e there h) = some id
actor (wakes id cases timers inst now w rc e there b h) = some id
actor (starts id kind result_kind input h) = none
actor (sends id i e t msg h) = none
actor (calls id i q p t req ch h) = none

-- A send of the handler that runs waits for room: those before it are delivered, and its target's
-- channel is full.
pub record AwaitsRoom (r : Runtime) (id : String) (sctx : Context) : Type 0 where
  pub earlier : List SendRequest
  pub request : SendRequest
  pub later : List SendRequest
  pub in_order : sctx.send_requests ≡ earlier ++ (request ∷ later)
  pub reached : Runtime
  pub delivered :
      deliver_all earlier
        (start_children (start_entries sctx) (apply_queries id sctx.query_results r))
      ≡ some reached
  pub target : Instance
  pub at_target : get request.routine_id reached.instances ≡ some target
  pub is_full : send_capacity ≤ length target.send_ch

pub data Waits (r : Runtime) (id : String) : Thread → Type 0 where
  for_message :
      (cases : List Case) (inst : Instance)
      → get id r.instances ≡ some inst
      → inst.send_ch ≡ []
      → inst.call_chan ≡ []
      → Waits r id (blocked cases [])
  for_room :
      (key : String) (input : Any) (msg : Option Any) (ch : Option ℕ) (sctx : Context)
      (out : RunOutput)
      → run_outcome r.handlers id key input msg ≡ ok (sctx, out)
      → AwaitsRoom r id sctx
      → Waits r id (running key input msg ch)

-- The goroutine of the routine can take a step.
abbrev pub Turns : Runtime → String → Type 0
Turns r id = (r' : Runtime) × (s : Step r r') × (actor s ≡ some id)
