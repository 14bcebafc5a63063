-- ===== src/InMemory/Machine/Protocol.antt =====
-- What one routine may do in the in-memory runtime, as a protocol: where it may be, given its query
-- results, and how it may end.
pub mod Frame
pub mod Others
pub mod Own
pub mod Ends
pub mod Typed
use durableroutine_go.Base.{String, ◌≡◌, Option, none, some, Bool, true, false, All}
use durableroutine_go.Base.Dict.{Dict, get}
use durableroutine_go.Base.Result.{Result, ok, err}
use durableroutine_go.Durable.Payload.{Any}
use durableroutine_go.Durable.Context.{Context}
use durableroutine_go.Durable.Continuation.{Case}
use durableroutine_go.Durable.Worker.{HandlerEntry, RunOutput}
use durableroutine_go.InMemory.Runtime.{
  Instance, Runtime, Thread, running, polling, blocked, finished, crashed,
}
use durableroutine_go.InMemory.Handler.{merge_queries, run_outcome}
use durableroutine_go.InMemory.Machine.{unmarshal_any}
use durableroutine_go.InMemory.Machine.Outcomes.{outcome, reply_of}

-- A property of a routine: of its query results, of where its goroutine is, and of its outcome.
abbrev pub Aspect : Type 1
Aspect = Dict Any → Thread → Option (Option Any × Option String) → Type 0

-- The routine `id` exists and has the property, in a runtime with these handlers.
pub record Stands (hs : Dict HandlerEntry) (id : String) (T : Aspect) (r : Runtime) : Type 0 where
  pub same_handlers : r.handlers ≡ hs
  pub thread : Thread
  pub at_thread : get id r.threads ≡ some thread
  pub inst : Instance
  pub at_inst : get id r.instances ≡ some inst
  pub holds : T inst.query_results thread (outcome (some inst))

-- What a property looks at in an instance.
abbrev pub seen : Instance → Dict Any × Option (Option Any × Option String)
seen inst = (inst.query_results, outcome (some inst))

-- With these query results, the handler under this key may run on this input; and the routine may
-- end so for a caller of `Get`.
pub record Protocol : Type 1 where
  pub Enters : Dict Any → String → Any → Type 0
  pub Ends : Dict Any → Result (Option Any) → Type 0

module _ (P : Protocol) where
  abbrev pub EntersCase : Dict Any → Case → Type 0
  EntersCase m c = P.Enters m c.handler_key c.input

  abbrev pub Allowed : Dict Any → Thread → Type 0
  Allowed m (running key input msg ch) = P.Enters m key input
  Allowed m (polling cases timers) = All (EntersCase m) cases
  Allowed m (blocked cases timers) = All (EntersCase m) cases
  Allowed m finished = Unit
  Allowed m crashed = Unit

  abbrev pub MayEnd : Dict Any → Option (Option Any × Option String) → Type 0
  MayEnd m none = Unit
  MayEnd m (some o) = P.Ends m (reply_of o)

  abbrev pub Obeys : Aspect
  Obeys m t o = Allowed m t × MayEnd m o

  -- What a handler's output may be.
  pub record Goes (m : Dict Any) (out : RunOutput) : Type 0 where
    pub ends : out.done ≡ true → P.Ends m (ok (unmarshal_any out.result))
    pub enters : out.done ≡ false → All (EntersCase m) out.cases

  abbrev pub GoesOn : Dict Any → Result (Context × RunOutput) → Type 0
  GoesOn m (err e) = P.Ends m (err e)
  GoesOn m (ok (sctx, out)) = Goes (merge_queries sctx.query_results m) out

  -- The handlers keep to the protocol, whatever messages they are given.
  pub record Keeps (hs : Dict HandlerEntry) (id : String) : Type 0 where
    pub keeps :
        (m : Dict Any) (key : String) (input : Any) (msg : Option Any)
        → P.Enters m key input
        → GoesOn m (run_outcome hs id key input msg)
