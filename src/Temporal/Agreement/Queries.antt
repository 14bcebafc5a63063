-- ===== src/Temporal/Agreement/Queries.antt =====
-- Where the two backends keep query results: backend/inmemory/runtime.go (`applyContextEffects`), and
-- backend/temporal/activities.go with `mergeQueryResults` of backend/temporal/workflow.go.
use durableroutine_go.Base.{◌≡◌, String, Option, none, some, List, [], ◌∷◌}
use durableroutine_go.Base.Dict.{Dict, get}
use durableroutine_go.Base.Result.{Result, ok}
use durableroutine_go.Durable.Payload.{Any, Json}
use durableroutine_go.Durable.Context
use durableroutine_go.InMemory.Handler.{merge_queries}
use durableroutine_go.Temporal.Types.{QueryEntry}
use durableroutine_go.Temporal.Activity.{serialize_queries}
use durableroutine_go.Temporal.Queries.{merge_query_results}
use durableroutine_go.Temporal.Queries.Lookup.{result_of}

-- The encoding of what a map of the in-memory backend answers, and what a list of the workflow does.
abbrev pub answered : Option Any → Option (Result Json)
answered none = none
answered (some a) = some a.encoding

abbrev pub found : Option Json → Option (Result Json)
found none = none
found (some j) = some (ok j)

-- The results of a routine on either backend answer every query by the same document.
abbrev pub Agree : Dict Any → List QueryEntry → Type 0
Agree m es = (name : String) → answered (get name m) ≡ found (result_of name es)

-- The results of the handlers that a routine has run, one list for each, on either backend.
abbrev pub memory_results : List (List Context.QueryEntry) → Dict Any → Dict Any
memory_results [] m = m
memory_results (qs ∷ runs) m = memory_results runs (merge_queries qs m)

abbrev pub workflow_results : List (List QueryEntry) → List QueryEntry → List QueryEntry
workflow_results [] es = es
workflow_results (qs ∷ runs) es = workflow_results runs (merge_query_results es qs)

-- What the activities return for the handlers.
abbrev pub Serialized : List (List Context.QueryEntry) → List (List QueryEntry) → Type 0
Serialized [] [] = Unit
Serialized (qs ∷ runs) (out ∷ outs) = (serialize_queries qs ≡ ok out) × Serialized runs outs
Serialized _ _ = ⊥
