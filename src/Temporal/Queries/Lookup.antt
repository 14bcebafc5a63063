-- ===== src/Temporal/Queries/Lookup.antt =====
-- backend/temporal/workflow.go: what a list of query results says of a query, and how
-- `mergeQueryResults` changes it.
use durableroutine_go.Base.{
  String, ◌==◌, ◌≡◌, refl, sym, ap, ◌∙◌, Option, none, some, List, [], ◌∷◌, if◌then◌else◌, arith,
  eq_iff, Bool-cases, inl, inr,
}
use durableroutine_go.Durable.Payload.{Json}
use durableroutine_go.Temporal.Types.{QueryEntry}
use durableroutine_go.Temporal.Queries.{merge_one, merge_query_results}

-- The first result under a name.
abbrev pub result_of : String → List QueryEntry → Option Json
result_of name [] = none
result_of name (e ∷ es) = if e.query_name == name then some e.result else result_of name es

-- No name has two results.
abbrev pub IsUnique : List QueryEntry → Type 0
IsUnique [] = Unit {0}
IsUnique (e ∷ es) = (result_of e.query_name es ≡ none) × IsUnique es

pub result_of-merge_one :
    (name : String) (n : QueryEntry) (es : List QueryEntry)
    → result_of name (merge_one n es)
      ≡ (if n.query_name == name then some n.result else result_of name es)
unfolding merge_one
result_of-merge_one name n [] = refl
result_of-merge_one name n (e ∷ es) = ground (
  arith,
  eq_iff e.query_name n.query_name,
  eq_iff e.query_name name,
  eq_iff n.query_name name,
  result_of-merge_one name n es,
)

pub merge_one-IsUnique :
    (n : QueryEntry) (es : List QueryEntry) → IsUnique es → IsUnique (merge_one n es)
unfolding merge_one
merge_one-IsUnique n [] u = (refl, tt)
merge_one-IsUnique n (e ∷ es) (h, u) = elim (Bool-cases (e.query_name == n.query_name)) [
  | inl q ↦
      rw (q, merge_one)
        (ap (λ k. result_of k es) (sym ((eq_iff e.query_name n.query_name).0 q)) ∙ h, u)
  | inr q ↦
      rw (q, merge_one)
        (
          ground (
            arith,
            h,
            q,
            eq_iff n.query_name e.query_name,
            eq_iff e.query_name n.query_name,
            result_of-merge_one e.query_name n es,
          ),
          merge_one-IsUnique n es u,
        )
]

-- Merging keeps a list of results free of duplicates.
pub merge_query_results-IsUnique :
    (es ns : List QueryEntry) → IsUnique es → IsUnique (merge_query_results es ns)
unfolding merge_query_results
merge_query_results-IsUnique es [] u = u
merge_query_results-IsUnique es (n ∷ ns) u =
    merge_query_results-IsUnique (merge_one n es) ns (merge_one-IsUnique n es u)
