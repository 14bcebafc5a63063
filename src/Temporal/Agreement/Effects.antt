-- ===== src/Temporal/Agreement/Effects.antt =====
-- What the two backends do with the starts and sends that a handler buffered: `applyContextEffects`
-- of backend/inmemory/runtime.go, and backend/temporal/activities.go with steps 3 and 4 of
-- `RoutineWorkflow` in backend/temporal/workflow.go.
use durableroutine_go.Base.{String, ◌==◌, Option, none, some, List, [], ◌∷◌, ◌++◌, if◌then◌else◌}
use durableroutine_go.Base.Result.{Result, ok}
use durableroutine_go.Durable.Keys.{handler_key}
use durableroutine_go.Durable.Payload.{Json}
use durableroutine_go.Durable.Context
use durableroutine_go.Durable.Context.{Context}
use durableroutine_go.InMemory.Runtime.{SendMsg}
use durableroutine_go.Temporal.Types.{StartEntry, WorkflowInput}
use durableroutine_go.Temporal.Workflow.{
  Workflow, Command, start_child, signal_external, set_update_handler, respond,
}

-- The signals to a routine among the commands, in order: the name, and the document.
abbrev pub signals : String → List Command → List (String × Result Json)
signals id [] = []
signals id (signal_external target name j ∷ cs) =
    (if target == id then (name, ok j) ∷ [] else []) ++ signals id cs
signals id (start_child child input ∷ cs) = signals id cs
signals id (set_update_handler name ∷ cs) = signals id cs
signals id (respond ch r ∷ cs) = signals id cs

-- A child workflow: its id, its handler's key, and its input.
abbrev pub child_entry : String → WorkflowInput → String × String × Option (Result Json)
child_entry id input =
    (id, input.handler_key, (elim input.input [ none ↦ none | some j ↦ some (ok j) ]))

-- The children among the commands, in order.
abbrev pub children : List Command → List (String × String × Option (Result Json))
children [] = []
children (start_child id input ∷ cs) = child_entry id input ∷ children cs
children (signal_external target name j ∷ cs) = children cs
children (set_update_handler name ∷ cs) = children cs
children (respond ch r ∷ cs) = children cs

-- What the in-memory backend puts on a routine's channel, and what it starts, encoded.
abbrev pub encoded : List SendMsg → List (String × Result Json)
encoded [] = []
encoded (m ∷ ms) = (m.key, m.msg.encoding) ∷ encoded ms

abbrev pub encoded_starts : List Context.StartEntry → List (String × String × Option (Result Json))
encoded_starts [] = []
encoded_starts (s ∷ ss) =
    (s.routine_id, handler_key s.input_kind s.result_kind, some s.input.encoding)
    ∷ encoded_starts ss
