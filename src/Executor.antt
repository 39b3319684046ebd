-- ===== src/Executor.antt =====
-- core/src/executor.rs. A worker task is a fold over what its `select!` gives it, in the order in
-- which it gives it, and what the worker does to the outside is a list.
pub mod Loop
pub mod Batch
pub mod Chunk
pub mod Delay
pub mod Less
mod Tests
use rust_zero.Prelude.{ℕ, Bool, List, [], ◌∷◌, ◌++◌, Option}

-- `Command`; a reply channel is a number.
pub data Command (T : Type 0) : Type 0 where
  item : T → Command T
  flush : ℕ → Command T
  shutdown : ℕ → Command T

-- `none` is the channel's end: every sender is gone.
pub data Event (C : Type 0) : Type 0 where
  received : Option C → Event C
  ticked : Event C

pub data Output (T : Type 0) : Type 0 where
  executes : List T → Output T
  replies : ℕ → Output T

-- The items that were executed, in order.
abbrev pub executed : {T : Type 0} → List (Output T) → List T
executed [] = []
executed (executes batch ∷ os) = batch ++ executed os
executed (replies n ∷ os) = executed os

abbrev pub batches : {T : Type 0} → List (Output T) → List (List T)
batches [] = []
batches (executes batch ∷ os) = batch ∷ batches os
batches (replies n ∷ os) = batches os

-- `flush_batch`
unfoldable pub flush_batch : {T : Type 0} → List T → List (Output T)
flush_batch [] = []
flush_batch (value ∷ batch) = executes (value ∷ batch) ∷ []

-- How a task ended, and how `shutdown` of the delay and the periodic executor reports it.
pub data Joined (E : Type 0) : Type 0 where
  finished : Joined E
  job_failed : E → Joined E
  panicked : E → Joined E
  elapsed : Joined E

pub data ExecutorError (E : Type 0) : Type 0 where
  job : E → ExecutorError E
  timed_out : ℕ → ExecutorError E
  worker : E → ExecutorError E

unfoldable pub shutdown_result : {E : Type 0} → ℕ → Joined E → Option (ExecutorError E)
shutdown_result timeout finished = Option.none
shutdown_result timeout (job_failed e) = Option.some (job e)
shutdown_result timeout (panicked e) = Option.some (worker e)
shutdown_result timeout elapsed = Option.some (timed_out timeout)
