-- ===== src/Executor/Batch.antt =====
-- `BatchExecutor` of core/src/executor.rs.
use mathlib.Core.List.{append_assoc, append-nil}
use rust_zero.Prelude.{
  ℕ, ◌≤◌, ◌<◌, ◌≡◌, refl, sym, ap, ◌∙◌, arith, Bool, true, false, not, List, [], ◌∷◌, ◌++◌, none,
  some, leb, if◌then◌else◌, length, length-append, All,
}
use rust_zero.Executor.{
  Command, item, flush, shutdown, Event, received, ticked, Output, executes, replies, executed,
  batches, flush_batch,
}
use rust_zero.Executor.Loop.{Round, run, items, run_holds, executed-append}
use rust_zero.Executor.Loop

module _ {T : Type 0} where
  -- One round of `run_worker`: its state is the batch.
  unfoldable pub step : ℕ → List T → Event (Command T) → Round (List T) (Event (Command T)) T
  step max_batch_size batch (received (some (item value))) =
      if leb max_batch_size (length (batch ++ value ∷ []))
      then ([], executes (batch ++ value ∷ []) ∷ [], true)
      else (batch ++ value ∷ [], [], true)
  step max_batch_size batch (received (some (flush done))) =
      ([], flush_batch batch ++ replies done ∷ [], true)
  step max_batch_size batch (received (some (shutdown done))) =
      ([], flush_batch batch ++ replies done ∷ [], false)
  step max_batch_size batch (received none) = ([], flush_batch batch, false)
  step max_batch_size batch ticked = ([], flush_batch batch, true)

  abbrev pub values : Event (Command T) → List T
  values (received (some (item value))) = value ∷ []
  values e = []

  abbrev pub ends : Event (Command T) → Bool
  ends (received (some (shutdown done))) = true
  ends (received none) = true
  ends e = false

  pub executed-replied :
      (batch : List T) (n : ℕ) → executed (flush_batch batch ++ replies n ∷ []) ≡ batch
  executed-replied batch n =
      executed-append (flush_batch batch) (replies n ∷ [])
      ∙ append-nil (executed (flush_batch batch))
      ∙ Loop.executed-flush_batch batch

  keeps :
      (max_batch_size : ℕ) (batch : List T) (e : Event (Command T))
      → executed (step max_batch_size batch e).1 ++ (step max_batch_size batch e).0
        ≡ batch ++ values e
  unfolding step
  keeps max batch (received (some (item value))) =
      let plain = append-nil (batch ++ value ∷ []) in ground arith
  keeps max batch (received (some (flush done))) = ap (λ k. k ++ []) (executed-replied batch done)
  keeps max batch (received (some (shutdown done))) =
      ap (λ k. k ++ []) (executed-replied batch done)
  keeps max batch (received none) = ap (λ k. k ++ []) (Loop.executed-flush_batch batch)
  keeps max batch ticked = ap (λ k. k ++ []) (Loop.executed-flush_batch batch)

  stops :
      (max_batch_size : ℕ) (batch : List T) (e : Event (Command T))
      → (step max_batch_size batch e).2 ≡ not (ends e)
  unfolding step
  stops max batch (received (some (item value))) = ground arith
  stops max batch (received (some (flush done))) = refl
  stops max batch (received (some (shutdown done))) = refl
  stops max batch (received none) = refl
  stops max batch ticked = refl

  abbrev pub Fits : ℕ → List T → Type 0
  Fits max batch = (0 < length batch) × (length batch ≤ max)

  batches-flush :
      (max : ℕ) (batch : List T) (n : ℕ)
      → length batch < max
      → All (Fits max) (batches (flush_batch batch))
        × All (Fits max) (batches (flush_batch batch ++ replies n ∷ []))
  unfolding flush_batch
  batches-flush max [] n h = (tt, tt)
  batches-flush max (value ∷ batch) n h = omega arith

  bounded :
      (max : ℕ)
      → 0 < max
      → (batch : List T) (e : Event (Command T)) → length batch < max
      → ((step max batch e).2 ≡ true → length (step max batch e).0 < max)
        × All (Fits max) (batches (step max batch e).1)
  unfolding step
  bounded max pos batch (received (some (item value))) h =
      ground (arith, length-append batch (value ∷ []))
  bounded max pos batch (received (some (flush done))) h =
      (λ goes. pos, (batches-flush max batch done h).1)
  bounded max pos batch (received (some (shutdown done))) h =
      (λ goes. pos, (batches-flush max batch done h).1)
  bounded max pos batch (received none) h = (λ goes. pos, (batches-flush max batch 0 h).0)
  bounded max pos batch ticked h = (λ goes. pos, (batches-flush max batch 0 h).0)

-- With a positive `max_batch_size`, no item is lost, doubled or moved: whatever the worker is given,
-- the items that it executed and those that it still holds are those that it took, in their order.
-- Each batch has at least one item and at most `max_batch_size`.
pub executed-run :
    {T : Type 0} (max_batch_size : ℕ) (es : List (Event (Command T)))
    → 0 < max_batch_size
    → (executed (run (step max_batch_size) [] es).1 ++ (run (step max_batch_size) [] es).0
        ≡ items values ends es)
      × All (Fits max_batch_size) (batches (run (step max_batch_size) [] es).1)
executed-run max es pos = (
  Loop.kept-run (step max) (λ batch. batch) values ends (keeps max) (stops max) [] es,
  (run_holds (step max) (λ batch. length batch < max) (Fits max) (bounded max pos) [] es pos),
)

-- A `flush` is answered last, when every item that the worker took before it has been executed.
pub run_flush :
    {T : Type 0} (max_batch_size : ℕ) (es : List (Event (Command T))) (done : ℕ)
    → All (λ e. ends e ≡ false) es
    → (before : List (Output T)) × ((run
          (step max_batch_size)
          []
          (es ++ received (some (flush done)) ∷ [])).1
        ≡ before ++ replies done ∷ [])
      × (executed before ≡ items values ends es)
unfolding run step
run_flush max es done h =
    let (batch, os, goes_on) = run (step max) [] es in
    let kept =
      Loop.kept-run (step max) (λ batch. batch) values ends (keeps max) (stops max) [] es in
    (
      os ++ flush_batch batch,
      Loop.run-append (step max) ends (stops max) [] es (received (some (flush done)) ∷ []) h
          ∙ ap (λ k. os ++ k) (append-nil (flush_batch batch ++ replies done ∷ []))
          ∙ sym (append_assoc os (flush_batch batch) (replies done ∷ [])),
      executed-append os (flush_batch batch)
          ∙ ap (λ k. executed os ++ k) (Loop.executed-flush_batch batch)
          ∙ kept,
    )
