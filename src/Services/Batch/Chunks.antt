-- ===== src/Services/Batch/Chunks.antt =====
-- docs/howto/batch/batch.go: a whole batch, chunk by chunk.
use durableroutine_go.Base.{
  ℕ, zero, suc, ◌+◌, ◌-◌, ◌*◌, ◌/◌, ◌≤◌, ◌<◌, ◌≡◌, refl, ap, ◌∙◌, String, Bool, true, false, Option,
  none, some, List, [], ◌∷◌, ◌++◌, length, take, drop, take-add, take-length, ltb, leb,
  if◌then◌else◌, arith,
}
use native.Mathlib.Decide.{dec_lt}
use durableroutine_go.Services.Batch.{
  chunk_size, BatchInput, BatchResult, ProcessingInput, slice, first_input, completed,
  cancelled_result, process_items, advance_to, advance, is_complete,
}

module _ (process : String → Option String) where
  -- How many items are processed with no error, and with one.
  abbrev pub succeeded : List String → ℕ
  succeeded [] = 0
  succeeded (x ∷ xs) = elim (process x) [ none ↦ suc (succeeded xs) | some e ↦ succeeded xs ]

  abbrev pub failed : List String → ℕ
  failed [] = 0
  failed (x ∷ xs) = elim (process x) [ none ↦ failed xs | some e ↦ suc (failed xs) ]

  -- The routine from a state on, where the cancellation arrives when so many further chunks are
  -- done. It runs `processChunk`, then `CancelBatch` or, with no message, the default case. `none`
  -- is a panic, or an end of the fuel.
  unfoldable pub run_batch : ℕ → ℕ → ProcessingInput → Option BatchResult
  run_batch chunks zero p = none
  run_batch chunks (suc fuel) p = elim (advance process p) [
    | none ↦ none
    | some next ↦ elim (is_complete next) [
      | true ↦ some (completed next)
      | false ↦ elim chunks [
        | zero ↦ some (cancelled_result next)
        | suc more ↦ run_batch more fuel next
      ]
    ]
  ]

  -- The counts over a prefix of the items.
  abbrev counts : List String → ℕ → Bool → BatchResult
  counts items n cancelled = record {
    processed = succeeded (take n items);
    errors = failed (take n items);
    cancelled = cancelled;
  }

  abbrev pub after : ℕ → List String → ProcessingInput
  after n items = record {
    items = items;
    offset = n;
    processed = succeeded (take n items);
    errors = failed (take n items);
  }

  process_items-counts :
      (items : List String) (p : ProcessingInput)
      → process_items process items p
        ≡ record p { processed = p.processed + succeeded items; errors = p.errors + failed items }
  unfolding process_items
  process_items-counts [] p = ground arith
  process_items-counts (x ∷ xs) p = ground (
    arith,
    process_items-counts xs (record p { errors = p.errors + 1 }),
    process_items-counts xs (record p { processed = p.processed + 1 }),
  )

  succeeded-append : (xs ys : List String) → succeeded (xs ++ ys) ≡ succeeded xs + succeeded ys
  succeeded-append [] ys = omega arith
  succeeded-append (x ∷ xs) ys = ground (arith, succeeded-append xs ys)

  failed-append : (xs ys : List String) → failed (xs ++ ys) ≡ failed xs + failed ys
  failed-append [] ys = omega arith
  failed-append (x ∷ xs) ys = ground (arith, failed-append xs ys)

  slice-within :
      (items : List String) (n m : ℕ)
      → n + m ≤ length items
      → slice items n (n + m) ≡ some (take m (drop n items))
  unfolding slice
  slice-within items n m h = let e : n + m - n ≡ m = omega arith in rw e (ground arith)

  -- The items up to `n`, and a chunk of `m` more.
  process_items-after :
      (items : List String) (n m : ℕ)
      → record (process_items process (take m (drop n items)) (after n items)) { offset = n + m }
        ≡ after (n + m) items
  process_items-after items n m =
      rw
        (
          process_items-counts (take m (drop n items)) (after n items),
          take-add n m items,
          succeeded-append (take n items) (take m (drop n items)),
          failed-append (take n items) (take m (drop n items)),
        )
        refl

  -- The end of the chunk that starts at `n`.
  abbrev chunk_end : ℕ → List String → ℕ
  chunk_end n items = if ltb (length items) (n + 100) then length items else n + 100

  advance_to-after :
      (items : List String) (n m : ℕ)
      → n + m ≤ length items
      → advance_to process (n + m) (after n items) ≡ some (after (n + m) items)
  unfolding advance_to
  advance_to-after items n m h =
      rw (slice-within items n m h, advance_to) (ap some (process_items-after items n m))

  advance-by :
      (items : List String) (n m : ℕ)
      → chunk_end n items ≡ n + m
      → n + m ≤ length items
      → advance process (after n items) ≡ some (after (n + m) items)
  unfolding advance
  advance-by items n m e h =
      ap (λ (k : ℕ). advance_to process k (after n items)) e ∙ advance_to-after items n m h

  -- A chunk from a state that is short of the end, and the last one.
  pub advance-full :
      (items : List String) (n : ℕ)
      → n + 100 ≤ length items
      → advance process (after n items) ≡ some (after (n + 100) items)
  advance-full items n h = advance-by items n 100 (ground arith) h

  pub advance-last :
      (items : List String) (n : ℕ)
      → n ≤ length items
      → length items ≤ n + 100
      → advance process (after n items) ≡ some (after (length items) items)
  advance-last items n h k =
      let e : n + (length items - n) ≡ length items = omega arith in
      advance-by items n (length items - n) (ground arith) (omega arith)
      ∙ ap (λ (k : ℕ). some (after k items)) e

  -- The result when the cancellation arrives with so many items done.
  abbrev result_at : List String → ℕ → BatchResult
  result_at items n =
      if ltb n (length items) then counts items n true else counts items (length items) false

  run_batch-last :
      (fuel chunks : ℕ) (items : List String) (n : ℕ)
      → n ≤ length items
      → length items ≤ n + 100
      → run_batch chunks (suc fuel) (after n items) ≡ some (counts items (length items) false)
  unfolding run_batch is_complete completed
  run_batch-last fuel chunks items n h k =
      let whole : leb (length items) (length items) ≡ true = ground arith in
      rw (advance-last items n h k, run_batch, whole) refl

  run_batch-cancelled :
      (fuel : ℕ) (items : List String) (n : ℕ)
      → n + 100 < length items
      → run_batch 0 (suc fuel) (after n items) ≡ some (counts items (n + 100) true)
  unfolding run_batch is_complete cancelled_result
  run_batch-cancelled fuel items n h =
      let short : leb (length items) (n + 100) ≡ false = ground arith in
      rw (advance-full items n (omega arith), run_batch, short) refl

  run_batch-more :
      (fuel chunks : ℕ) (items : List String) (n : ℕ)
      → n + 100 < length items
      → run_batch (suc chunks) (suc fuel) (after n items)
        ≡ run_batch chunks fuel (after (n + 100) items)
  unfolding run_batch is_complete
  run_batch-more fuel chunks items n h =
      let short : leb (length items) (n + 100) ≡ false = ground arith in
      rw (advance-full items n (omega arith), run_batch, short) refl

  run_batch-late :
      (fuel chunks : ℕ) (items : List String) (n : ℕ)
      → n ≤ length items
      → length items ≤ n + 100
      → run_batch chunks (suc fuel) (after n items) ≡ some (result_at items (n + 100 * suc chunks))
  run_batch-late fuel chunks items n h k =
      let late : ltb (n + 100 * suc chunks) (length items) ≡ false = ground arith in
      rw late (run_batch-last fuel chunks items n h k)

  -- Enough fuel for the chunks that are left gives the result.
  run_batch-after :
      (fuel chunks : ℕ) (items : List String) (n : ℕ)
      → n ≤ length items
      → length items ≤ n + 100 * suc fuel
      → run_batch chunks (suc fuel) (after n items) ≡ some (result_at items (n + 100 * suc chunks))
  run_batch-after fuel zero items n h enough = elim (dec_lt (n + 100) (length items)) [
    | no late ↦ run_batch-late fuel 0 items n h (omega arith)
    | yes short ↦
        let early : ltb (n + 100) (length items) ≡ true = ground arith in
        rw early (run_batch-cancelled fuel items n short)
  ]
  run_batch-after zero (suc chunks) items n h enough =
      run_batch-late 0 (suc chunks) items n h (omega arith)
  run_batch-after (suc fuel) (suc chunks) items n h enough =
      elim (dec_lt (n + 100) (length items)) [
        | no late ↦ run_batch-late (suc fuel) (suc chunks) items n h (omega arith)
        | yes short ↦
            let e : n + 100 + 100 * suc chunks ≡ n + 100 * suc (suc chunks) = omega arith in
            run_batch-more (suc fuel) chunks items n short
            ∙ run_batch-after fuel chunks items (n + 100) (omega arith) (omega arith)
            ∙ ap (λ (k : ℕ). some (result_at items k)) e
      ]

  -- A batch ends within one chunk for each hundred items and one more, and never slices out of
  -- bounds. If a cancellation arrives after a number of further chunks and items are left then, the
  -- result counts the items of the chunks done, cancelled; otherwise it counts all the items. An
  -- item counts as processed if its processing gives no error, else as an error.
  pub run_batch-counts :
      (input : BatchInput) (chunks : ℕ)
      → run_batch chunks (suc (length input.items / chunk_size)) (first_input input)
        ≡ some (
            let done = chunk_size * suc chunks in
            if ltb done (length input.items)
            then record {
              processed = succeeded (take done input.items);
              errors = failed (take done input.items);
              cancelled = true;
            }
            else record {
              processed = succeeded input.items;
              errors = failed input.items;
              cancelled = false;
            })
  unfolding first_input
  run_batch-counts input chunks =
      let items = input.items in
      let e : 0 + 100 * suc chunks ≡ 100 * suc chunks = omega arith in
      run_batch-after (length items / 100) chunks items 0 (omega arith) (omega arith)
      ∙ ap (λ (k : ℕ). some (result_at items k)) e
      ∙ rw (take-length (length items) items (omega arith)) refl
