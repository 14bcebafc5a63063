-- ===== src/Services/Fanout/Collect.antt =====
-- docs/howto/fanout/fanout.go: what a parent has collected, whatever the order of its children.
use durableroutine_go.Base.{
  ℕ, zero, suc, ◌≡◌, refl, ap, ◌∙◌, subst, String, List, [], ◌∷◌, ◌++◌, append_assoc, map, length,
  length-append, if◌then◌else◌, arith,
}
use durableroutine_go.Base.Int.{pos, ◌-ℤ◌}
use mathlib.Core.List.{Perm, perm_middle, map-append}
use mathlib.Core.List.Perm
use durableroutine_go.Services.Fanout.{
  ItemInput, ItemResult, FanoutItem, FanoutInput, FanoutResult, CollectingInput, item_input,
  collecting, item_result, collected, waits_for_more,
}

-- The parent: it waits for a result, or is done. A message to a routine that is done is lost.
pub data Parent : Type 0 where
  waiting : CollectingInput → Parent
  finished : FanoutResult → Parent

unfoldable pub receive : Parent → ItemResult → Parent
unfolding collected waits_for_more
receive (finished r) m = finished r
receive (waiting input) m =
    let next = collected input m in
    if waits_for_more next then waiting next else finished (record { results = next.results })

-- The children of a list run once each, in any order, and the parent takes what they send.
pub data Run (end : Parent) : List ItemInput → Parent → Type 0 where
  all_done : Run end [] end
  child :
      {children : List ItemInput} {p : Parent} (before : List ItemInput) (c : ItemInput)
      (later : List ItemInput)
      → children ≡ before ++ (c ∷ later)
      → Run end (before ++ later) (receive p (item_result c))
      → Run end children p

-- The parent is done with the results that it had and those of the children, in some order.
pub record IsCollected (earlier : List ItemResult) (children : List ItemInput) (end : Parent)
    : Type 0 where
  pub results : List ItemResult
  pub is_finished : end ≡ finished (record { results = earlier ++ results })
  pub perm : Perm results (map item_result children)

-- The last result ends the collection, and any other is kept.
receive-last :
    (input : CollectingInput) (m : ItemResult)
    → input.pending ≡ pos 1
    → receive (waiting input) m ≡ finished (record { results = input.results ++ (m ∷ []) })
unfolding receive ◌-ℤ◌
receive-last input m h = ground arith

receive-more :
    (input : CollectingInput) (m : ItemResult) (n : ℕ)
    → input.pending ≡ pos (suc (suc n))
    → receive (waiting input) m
      ≡ waiting (record { pending = pos (suc n); results = input.results ++ (m ∷ []) })
unfolding receive ◌-ℤ◌
receive-more input m n h = ground arith

Run-finished :
    {end : Parent} {children : List ItemInput} (r : FanoutResult)
    → Run end children (finished r)
    → end ≡ finished r
unfolding receive
Run-finished r all_done = refl
Run-finished r (child before c later e rest) = Run-finished r rest

eq_nil : (cs : List ItemInput) → length cs ≡ 0 → cs ≡ []
eq_nil [] h = refl
eq_nil (c ∷ cs) h = absurd (omega (arith, h))

length-inputs :
    (parent : String) (items : List FanoutItem)
    → length (map (item_input parent) items) ≡ length items
length-inputs parent [] = refl
length-inputs parent (i ∷ is) = omega (arith, length-inputs parent is)

length-without :
    (n : ℕ) (children before : List ItemInput) (c : ItemInput) (later : List ItemInput)
    → length children ≡ suc n
    → children ≡ before ++ (c ∷ later)
    → length (before ++ later) ≡ n
length-without n children before c later l e =
    omega (arith, ap length e, length-append before (c ∷ later), length-append before later)

perm_child :
    (rs : List ItemResult) (children before : List ItemInput) (c : ItemInput)
    (later : List ItemInput)
    → children ≡ before ++ (c ∷ later)
    → Perm rs (map item_result (before ++ later))
    → Perm (item_result c ∷ rs) (map item_result children)
perm_child rs children before c later e p =
    rw (e, map-append)
      (Perm.trans (Perm.cons (item_result c) (rw (← map-append item_result before later) p))
        (Perm.symm (perm_middle (map item_result before) (map item_result later))))

Run-IsCollected :
    (n : ℕ) (end : Parent) (children : List ItemInput) (input : CollectingInput)
    → length children ≡ suc n
    → input.pending ≡ pos (suc n)
    → Run end children (waiting input)
    → IsCollected input.results children end
Run-IsCollected n end _ input l h all_done = absurd (omega (arith, l))
Run-IsCollected zero end children input l h (child before c later e rest) =
    let r : Run end (before ++ later) (finished _) =
      subst (λ p. Run end (before ++ later) p) (receive-last input (item_result c) h) rest in
    record {
      results = item_result c ∷ [];
      is_finished = Run-finished _ r;
      perm = perm_child [] children before c later e (
          rw (eq_nil (before ++ later) (length-without 0 children before c later l e))
            (Perm.refl []));
    }
Run-IsCollected (suc n) end children input l h (child before c later e rest) =
    let next : CollectingInput = record {
      pending = pos (suc n);
      results = input.results ++ (item_result c ∷ []);
    } in
    let r : Run end (before ++ later) (waiting next) =
      subst (λ p. Run end (before ++ later) p) (receive-more input (item_result c) n h) rest in
    let ih =
      Run-IsCollected n end (before ++ later) next
        (length-without (suc n) children before c later l e) refl r in
    record {
      results = item_result c ∷ ih.results;
      is_finished =
          ih.is_finished
          ∙ ap (λ rs. finished (record { results = rs }))
              (append_assoc input.results (item_result c ∷ []) ih.results);
      perm = perm_child ih.results children before c later e ih.perm;
    }

-- In whatever order the children of a fan-out over at least one item run, the parent is done when
-- all have run, and its results are those of the items, each once, in the order of arrival.
pub Run-collects :
    (parent : String) (first : FanoutItem) (rest : List FanoutItem) (end : Parent)
    → let input : FanoutInput = record { items = first ∷ rest } in
      Run end (map (item_input parent) (first ∷ rest)) (waiting (collecting input))
      → (results : List ItemResult) × (end ≡ finished (record { results = results }))
        × Perm results (map item_result (map (item_input parent) (first ∷ rest)))
unfolding collecting
Run-collects parent first rest end r =
    let c =
      Run-IsCollected (length rest) end (map (item_input parent) (first ∷ rest)) _
        (length-inputs parent (first ∷ rest)) refl r in
    (c.results, c.is_finished, c.perm)
