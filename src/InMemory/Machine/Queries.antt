-- ===== src/InMemory/Machine/Queries.antt =====
-- durable/context.go and durable/client.go over backend/inmemory: what a handler sets as a query's
-- result is what `Query` returns.
use durableroutine_go.Base.{
  ◌≡◌, refl, sym, ap, subst, ◌∙◌, ◌⊎◌, inl, inr, String, ◌==◌, true, false, Option, none, some,
  List, [], ◌∷◌, if◌then◌else◌, Bool-cases, eq_iff, eq_refl, arith,
}
use durableroutine_go.Base.Dict.{Dict, get, put, get-put}
use durableroutine_go.Base.Result.{ok}
use durableroutine_go.Durable.Payload.{
  Any, Json, Payload, to_any, zero_kind, RoundTrips, HasStableKind,
}
use durableroutine_go.Durable.Context.{Context, QueryEntry, set_query_entry, set_query_result}
use durableroutine_go.Durable.Client.{query, convert_result, encode_any}
use durableroutine_go.InMemory.Runtime.{Runtime, Instance}
use durableroutine_go.InMemory.Handler.{merge_queries, apply_context_effects}
use durableroutine_go.InMemory.Handler.Effects.{apply_context_effects-get}
use durableroutine_go.InMemory.Machine.{client_query}
use durableroutine_go.InMemory.Machine.Delivery.{memory_client}

-- The last result under a name.
abbrev last_of : String → List QueryEntry → Option Any
last_of name [] = none
last_of name (e ∷ es) = elim (last_of name es) [
  | some a ↦ some a
  | none ↦ if e.query_name == name then some e.result else none
]

-- No two entries of the context have the name: so it is for a new context, and `SetQueryResult` adds
-- no second entry.
abbrev pub HasOnce : String → List QueryEntry → Type 0
HasOnce name [] = Unit
HasOnce name (e ∷ es) = ((e.query_name == name) ≡ true → last_of name es ≡ none) × HasOnce name es

merge_queries-get :
    (name : String) (es : List QueryEntry) (m : Dict Any)
    → get name (merge_queries es m)
      ≡ elim (last_of name es) as (λ _. Option Any) [ some a ↦ some a | none ↦ get name m ]
unfolding merge_queries
merge_queries-get name [] m = refl
merge_queries-get name (e ∷ es) m = ground (
  arith,
  merge_queries-get name es (put e.query_name e.result m),
  get-put e.query_name name e.result m,
)

set_query_entry-last_of :
    (name : String) (a : Any) (es : List QueryEntry)
    → HasOnce name es
    → last_of name (set_query_entry name a es) ≡ some a
unfolding set_query_entry
set_query_entry-last_of name a [] once = rw (eq_refl name) refl
set_query_entry-last_of name a (e ∷ es) once = elim (Bool-cases (e.query_name == name)) [
  | inl q ↦ rw (q, once.0 q, eq_refl name) refl
  | inr q ↦ rw (q, set_query_entry-last_of name a es once.1) refl
]

set_query_entry-other :
    (name other : String) (a : Any) (es : List QueryEntry)
    → (name == other) ≡ false
    → last_of other (set_query_entry name a es) ≡ last_of other es
unfolding set_query_entry
set_query_entry-other name other a [] h = rw h refl
set_query_entry-other name other a (e ∷ es) h = ground (
  arith,
  eq_iff e.query_name name,
  eq_iff e.query_name other,
  eq_iff name other,
  set_query_entry-other name other a es h,
)

-- `SetQueryResult` keeps a context free of second entries.
pub set_query_entry-HasOnce :
    (name other : String) (a : Any) (es : List QueryEntry)
    → HasOnce other es
    → HasOnce other (set_query_entry name a es)
unfolding set_query_entry
set_query_entry-HasOnce name other a [] once = ((λ _. refl), tt)
set_query_entry-HasOnce name other a (e ∷ es) once = elim (Bool-cases (e.query_name == name)) [
  | inl q ↦
      let same = (eq_iff e.query_name name).0 q in
      rw (q, set_query_entry) ((λ h. once.0 (ap (λ k. k == other) same ∙ h)), once.1)
  | inr q ↦
      rw (q, set_query_entry)
        (
          (λ h.
              set_query_entry-other name other a es (
                ground (
                  arith,
                  q,
                  h,
                  eq_iff e.query_name other,
                  eq_iff name other,
                  eq_iff e.query_name name,
                ))
              ∙ once.0 h),
          set_query_entry-HasOnce name other a es once.1,
        )
]

-- What a client reads once the effects of a handler's context are applied.
client_query-last_of :
    (own name : String) (ctx : Context) (a : Any) (r r' : Runtime) (t : Instance)
    → last_of name ctx.query_results ≡ some a
    → get own r.instances ≡ some t
    → apply_context_effects own ctx r ≡ some r'
    → client_query r' own name ≡ ok a
unfolding client_query
client_query-last_of own name ctx a r r' t l g h =
    let merged : get name (merge_queries ctx.query_results t.query_results) ≡ some a =
      merge_queries-get name ctx.query_results t.query_results ∙ rw l refl in
    rw (apply_context_effects-get own own ctx r r' t g h, client_query, eq_refl own, merged) refl

-- A value, or what its encoding is read as.
convert_result-typed :
    {R : Type 0} ⦃p : Payload R⦄ (type_name : String) (typed : Option R) (v : R) (j : Json)
    → p.marshal v ≡ ok j
    → p.unmarshal j ≡ ok v
    → (typed ≡ none) ⊎ (typed ≡ some v)
    → convert_result type_name typed (some (to_any v)) ≡ ok v
unfolding convert_result encode_any
convert_result-typed type_name typed v j m u (inl n) = rw (n, convert_result, m, u) refl
convert_result-typed type_name typed v j m u (inr q) = rw (q, convert_result) refl

-- A handler of an existing routine sets `v` as a query's result, where its context had no second
-- entry under the name: once the effects are applied, `Query` returns `v`, and it does so for every
-- value that is passed for its type. The kind of the type is stable and `v` survives its encoding; a
-- type assertion on the stored value gives `v` or nothing.
pub set_query_result-query :
    {R : Type 0} ⦃p : Payload R⦄ (type_name own : String) (typed : Any → Option R) (ctx : Context)
    (v w : R) (r r' : Runtime) (t : Instance)
    → HasStableKind R
    → RoundTrips v
    → (typed (to_any v) ≡ none) ⊎ (typed (to_any v) ≡ some v)
    → HasOnce (zero_kind R) ctx.query_results
    → get own r.instances ≡ some t
    → apply_context_effects own (set_query_result ctx v) r ≡ some r'
    → query memory_client type_name typed r' own w ≡ ok v
unfolding set_query_result query client_query convert_result encode_any
set_query_result-query {R} ⦃p⦄ type_name own typed ctx v w r r' t s (j, m, u) kept once g h =
    let kind = p.durable_kind in
    let l : last_of (kind w) (set_query_result ctx v).query_results ≡ some (to_any v) =
      ap (λ k. last_of k (set_query_entry (kind v) (to_any v) ctx.query_results))
        (s.stable w ∙ sym (s.stable v))
      ∙ set_query_entry-last_of (kind v) (to_any v) ctx.query_results
          (subst (λ k. HasOnce k ctx.query_results) (sym (s.stable v)) once) in
    let read = client_query-last_of own (kind w) (set_query_result ctx v) (to_any v) r r' t l g h in
    rw (read, query) (convert_result-typed type_name (typed (to_any v)) v j m u kept)
