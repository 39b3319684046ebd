-- ===== src/Executor/Tests.antt =====
-- Runs of the executors, and the theorems about them at inputs that meet their hypotheses.
use rust_zero.Prelude.{ℕ, ◌+◌, ◌<◌, ◌≡◌, refl, arith, true, List, [], ◌∷◌, ◌++◌, some, All}
use rust_zero.Executor.{
  Command, item, shutdown, Event, received, ticked, executes, replies, executed, batches,
  flush_batch,
}
use rust_zero.Executor.Loop.{run, items}
use rust_zero.Executor.Batch
use rust_zero.Executor.Batch.{executed-run, run_flush}
use rust_zero.Executor.Chunk
use rust_zero.Executor.Chunk.{executed-run_chunk}
use rust_zero.Executor.Delay
use rust_zero.Executor.Delay.{DelayExecutor, Reach, here, next, Reach-pending}

abbrev pushes : List (Event (Command ℕ))
pushes =
    received (some (item 1))
    ∷ received (some (item 2))
    ∷ received (some (item 3))
    ∷ ticked
    ∷ received (some (item 4))
    ∷ []

abbrev stopped : List (Event (Command ℕ))
stopped = pushes ++ received (some (shutdown 9)) ∷ received (some (item 5)) ∷ []

-- Two items fill a batch, the tick executes the third, and the shutdown the fourth.
runs_stopped :
    (run (Batch.step 2) [] stopped).1
    ≡ executes (1 ∷ 2 ∷ []) ∷ executes (3 ∷ []) ∷ executes (4 ∷ []) ∷ replies 9 ∷ []
unfolding run Batch.step flush_batch
runs_stopped = refl

executed-run_example :
    (executed (run (Batch.step 2) [] stopped).1 ++ (run (Batch.step 2) [] stopped).0
      ≡ items Batch.values Batch.ends stopped)
    × All (Batch.Fits 2) (batches (run (Batch.step 2) [] stopped).1)
executed-run_example = executed-run 2 stopped (omega arith)

abbrev twice : ℕ → ℕ
twice n = n + n

executed-run_chunk_example :
    (executed (run (λ s e. Chunk.step 5 s (Chunk.sized twice e)) ([], 0) stopped).1
        ++ (run (λ s e. Chunk.step 5 s (Chunk.sized twice e)) ([], 0) stopped).0.0
      ≡ items
          (λ e. Chunk.values (Chunk.sized twice e))
          (λ e. Chunk.ends (Chunk.sized twice e))
          stopped)
    × All
        (Chunk.Fits twice 5)
        (batches (run (λ s e. Chunk.step 5 s (Chunk.sized twice e)) ([], 0) stopped).1)
executed-run_chunk_example = executed-run_chunk twice 5 stopped (omega arith) (omega arith)

abbrev asked : DelayExecutor
asked = record {
  triggered = true;
  offering = 0;
  queued = true;
  phase = Delay.waiting;
  accepted = 1;
  executions = 0;
}

asks : Reach Delay.new asked
unfolding Delay.new Delay.exchange Delay.exchanged Delay.try_send Delay.offered Delay.takes
asks = next (next here Delay.exchanges) (Delay.sends (omega arith))

Reach-pending_example :
    (Delay.pending asked ≡ Delay.number true)
    × (0 < 0 → Delay.takes Delay.waiting true ≡ true)
    × (1 ≡ 0 + 1 + 0)
Reach-pending_example = Reach-pending asks refl
