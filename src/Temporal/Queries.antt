-- ===== src/Temporal/Queries.antt =====
-- backend/temporal/workflow.go: `mergeQueryResults`.
pub mod Lookup
use durableroutine_go.Base.{
  String, ◌==◌, ◌≡◌, refl, Option, none, some, List, [], ◌∷◌, if◌then◌else◌, arith, eq_iff,
}
use durableroutine_go.Durable.Payload.{Json}
use durableroutine_go.Temporal.Types.{QueryEntry}

-- The inner loop over `result`, and the append behind it.
unfoldable pub merge_one : QueryEntry → List QueryEntry → List QueryEntry
merge_one n [] = n ∷ []
merge_one n (e ∷ es) = if e.query_name == n.query_name then n ∷ es else e ∷ merge_one n es

unfoldable pub merge_query_results : List QueryEntry → List QueryEntry → List QueryEntry
merge_query_results existing [] = existing
merge_query_results existing (n ∷ ns) = merge_query_results (merge_one n existing) ns
