-- ===== src/Temporal/Workflow/Queries.antt =====
-- backend/temporal/workflow.go: `allQueryResults`, beside the query handlers that are set.
use durableroutine_go.Base.{
  ◌≡◌, refl, sym, ap, ◌∙◌, subst, String, ◌==◌, ℕ, Bool, true, false, Option, none, some, List, [],
  ◌∷◌, if◌then◌else◌, eq_iff, Option-cases, Bool-cases, inl, inr,
}
use durableroutine_go.Base.Int.{ℤ}
use durableroutine_go.Base.Dict.{Dict, get, put, get-put}
use durableroutine_go.Base.Result.{Result, ok, err, Result-cases, ok-injective}
use durableroutine_go.Durable.Payload.{Json}
use durableroutine_go.Temporal.Types.{QueryEntry, WorkflowInput, ActivityOutput, SerializedCase}
use durableroutine_go.Temporal.Queries.{merge_one, merge_query_results}
use durableroutine_go.Temporal.Queries.Lookup.{
  result_of, IsUnique, result_of-merge_one, merge_one-IsUnique,
}
use durableroutine_go.Temporal.Workflow.{
  Execution, Workflow, initial, begin, looping, completed, set_query_handlers,
  execute_with_recovery, enter_select,
}
use durableroutine_go.Temporal.Workflow.Select.{
  should_continue_as_new, can_check, interpret_cases, apply_effects, finish_or_wait, process_output,
  after_activity, pass, cases_of, take_case,
}

-- What the query handlers answer is what the list of results says.
abbrev pub Agrees : List QueryEntry → Dict Json → Type 0
Agrees qs handlers = IsUnique qs × ((name : String) → get name handlers ≡ result_of name qs)

abbrev pub View : Workflow → Type 0
View w = Agrees w.all_query_results w.query_handlers

-- What setting the handlers for `qs` over `handlers` answers, in the end.
abbrev put_all : List QueryEntry → Dict Json → Dict Json
put_all [] handlers = handlers
put_all (q ∷ qs) handlers = put_all qs (put q.query_name q.result handlers)

set_query_handlers-handlers :
    (x : Execution) (qs : List QueryEntry) (w w' : Workflow)
    → set_query_handlers x qs w ≡ ok w'
    → (w'.query_handlers ≡ put_all qs w.query_handlers)
      × (w'.all_query_results ≡ w.all_query_results)
unfolding set_query_handlers
set_query_handlers-handlers x [] w w' h =
    let e = sym (ok-injective w w' h) in
    (ap (λ v. v.query_handlers) e, ap (λ v. v.all_query_results) e)
set_query_handlers-handlers x (q ∷ qs) w w' h =
    elim (Option-cases (x.sdk.set_query_handler q.query_name)) [
      | inl e ↦
          set_query_handlers-handlers x qs
            (record w { query_handlers = put q.query_name q.result w.query_handlers }) w'
            (rw (e, set_query_handlers) at h)
      | inr (m, e) ↦ absurd (cc (rw (e, set_query_handlers) at h))
    ]

Agrees-merge :
    (qs ns : List QueryEntry) (handlers : Dict Json)
    → Agrees qs handlers
    → Agrees (merge_query_results qs ns) (put_all ns handlers)
unfolding merge_query_results
Agrees-merge qs [] handlers a = a
Agrees-merge qs (n ∷ ns) handlers a =
    Agrees-merge (merge_one n qs) ns (put n.query_name n.result handlers) (
      merge_one-IsUnique n qs a.0,
      λ name.
          get-put n.query_name name n.result handlers
          ∙ ap (λ o. if n.query_name == name then some n.result else o) (a.1 name)
          ∙ sym (result_of-merge_one name n qs),
    )

abbrev or_else : Option Json → Option Json → Option Json
or_else none o = o
or_else (some r) o = some r

-- A list without duplicates answers for itself, and `handlers` for the other names.
get-put_all :
    (name : String) (qs : List QueryEntry) (handlers : Dict Json)
    → IsUnique qs
    → get name (put_all qs handlers) ≡ or_else (result_of name qs) (get name handlers)
get-put_all name [] handlers u = refl
get-put_all name (q ∷ qs) handlers (h, u) = elim (Bool-cases (q.query_name == name)) [
  | inl e ↦
      let hn = subst (λ k. result_of k qs ≡ none) ((eq_iff q.query_name name).0 e) h in
      get-put_all name qs (put q.query_name q.result handlers) u
      ∙ rw (hn, e) (get-put q.query_name name q.result handlers ∙ rw e refl)
  | inr e ↦
      get-put_all name qs (put q.query_name q.result handlers) u
      ∙ rw e (
          ap (or_else (result_of name qs))
            (get-put q.query_name name q.result handlers ∙ rw e refl))
]

or_else-none : (o : Option Json) → or_else o none ≡ o
or_else-none none = refl
or_else-none (some r) = refl

pub begin-View :
    (x : Execution) (input : WorkflowInput)
    → IsUnique input.query_results
    → (begin x input).phase ≡ looping
    → View (begin x input)
unfolding begin get
begin-View x input u p =
    elim (Result-cases (set_query_handlers x input.query_results (initial input))) [
      | inr (e, h) ↦ absurd (cc (rw (h, begin) at p))
      | inl (w, h) ↦
          let (e, a) = set_query_handlers-handlers x input.query_results (initial input) w h in
          rw (h, begin)
            (
              rw a u,
              λ name.
                  rw (e, a)
                    (get-put_all name input.query_results [] u
                      ∙ or_else-none (result_of name input.query_results)),
            )
    ]

-- The two variables are all that `View` reads.
abbrev pub queries : Workflow → List QueryEntry × Dict Json
queries w = (w.all_query_results, w.query_handlers)

pub View-from : (v w : Workflow) → queries v ≡ queries w → View w → View v
View-from v w e h = subst (λ q. Agrees q.0 q.1) (sym e) h

queries-if :
    (b : Bool) (u v w : Workflow)
    → queries u ≡ queries w
    → queries v ≡ queries w
    → queries (if b then u else v) ≡ queries w
queries-if true u v w hu hv = hu
queries-if false u v w hu hv = hv

pub queries-can_check :
    (x : Execution) (s : Bool) (l : ℤ) (w : Workflow) → queries (can_check x s l w) ≡ queries w
unfolding can_check
queries-can_check x s l w = queries-if (should_continue_as_new x s l w) _ _ w refl refl

queries-interpret_cases :
    (x : Execution) (s : Bool) (l : ℤ) (cases : List SerializedCase) (w : Workflow)
    → queries (interpret_cases x s l cases w) ≡ queries w
unfolding interpret_cases enter_select
queries-interpret_cases x s l [] w = refl
queries-interpret_cases x s l (c ∷ []) w =
    queries-if c.immediate (can_check x s l (take_case c w)) (enter_select (c ∷ []) w) w
      (queries-can_check x s l (take_case c w)) refl
queries-interpret_cases x s l (c ∷ d ∷ cs) w = refl

queries-finish_or_wait :
    (x : Execution) (s : Bool) (l : ℤ) (o : ActivityOutput) (w : Workflow)
    → queries (finish_or_wait x s l o w) ≡ queries w
unfolding finish_or_wait
queries-finish_or_wait x s l o w =
    queries-if o.done (record w { phase = completed o.result })
      (interpret_cases x s l (cases_of o.continuation) w) w refl
      (queries-interpret_cases x s l (cases_of o.continuation) w)

process_output-View :
    (x : Execution) (s : Bool) (l : ℤ) (o : ActivityOutput) (w : Workflow)
    → View w
    → View (process_output x s l o w)
unfolding process_output apply_effects
process_output-View x s l o w v = elim (Result-cases (set_query_handlers x o.query_results w)) [
  | inr (e, h) ↦ rw (h, process_output) v
  | inl (w', h) ↦
      let (e, a) = set_query_handlers-handlers x o.query_results w w' h in
      rw (h, process_output)
        (View-from (finish_or_wait x s l o (apply_effects o w')) (apply_effects o w')
          (queries-finish_or_wait x s l o (apply_effects o w'))
          (rw (e, a) (Agrees-merge w.all_query_results o.query_results w.query_handlers v)))
]

after_activity-View :
    (x : Execution) (s : Bool) (l : ℤ) (r : ℕ × Result ActivityOutput) (w : Workflow)
    → View w
    → View (after_activity x s l r w)
unfolding after_activity
after_activity-View x s l (n, err e) w v = v
after_activity-View x s l (n, ok o) w v = process_output-View x s l o _ v

pub pass-View : (x : Execution) (s : Bool) (l : ℤ) (w : Workflow) → View w → View (pass x s l w)
unfolding pass
pass-View x s l w v = elim (Option-cases w.call_handler_output) [
  | inl e ↦
      rw (e, pass)
        (after_activity-View x s l
          (execute_with_recovery x w.executed w.handler_key w.handler_input w.message) w v)
  | inr (o, e) ↦
      rw (e, pass) (process_output-View x s l o (record w { call_handler_output = none }) v)
]

pub begin-all_query_results :
    (x : Execution) (input : WorkflowInput)
    → (begin x input).all_query_results ≡ input.query_results
unfolding begin
begin-all_query_results x input =
    elim (Result-cases (set_query_handlers x input.query_results (initial input))) [
      | inr (e, h) ↦ rw (h, begin) refl
      | inl (w, h) ↦
          rw (h, begin) (set_query_handlers-handlers x input.query_results (initial input) w h).1
    ]
