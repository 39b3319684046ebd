-- ===== src/Executor/Chunk.antt =====
-- `ChunkExecutor` of core/src/executor.rs.
use mathlib.Core.List.{append-nil}
use rust_zero.Prelude.{
  ℕ, ◌+◌, ◌≤◌, ◌<◌, ◌≡◌, refl, ap, arith, Bool, true, false, not, List, [], ◌∷◌, ◌++◌, none, some,
  leb, if◌then◌else◌, length, length-append, All,
}
use rust_zero.Prelude.Words.{saturate64, u64_mod}
use rust_zero.Executor.{
  Command, item, flush, shutdown, Event, received, ticked, executes, replies, executed, batches,
  flush_batch,
}
use rust_zero.Executor.Loop.{Round, run, items, run_holds, executed-append}
use rust_zero.Executor.Loop
use rust_zero.Executor.Batch.{executed-replied}

-- `ChunkCommand`: an item comes with its size.
pub data ChunkCommand (T : Type 0) : Type 0 where
  chunk_item : T → ℕ → ChunkCommand T
  chunk_flush : ℕ → ChunkCommand T
  chunk_shutdown : ℕ → ChunkCommand T

module _ {T : Type 0} where
  -- One round of `run_chunk_worker`: its state is the chunk with its bytes.
  unfoldable pub step :
      ℕ → List T × ℕ → Event (ChunkCommand T) → Round (List T × ℕ) (Event (ChunkCommand T)) T
  step max_chunk_bytes (chunk, bytes) (received (some (chunk_item value size))) =
      if leb max_chunk_bytes (saturate64 (bytes + size))
      then (([], 0), executes (chunk ++ value ∷ []) ∷ [], true)
      else ((chunk ++ value ∷ [], saturate64 (bytes + size)), [], true)
  step max_chunk_bytes (chunk, bytes) (received (some (chunk_flush done))) =
      (([], 0), flush_batch chunk ++ replies done ∷ [], true)
  step max_chunk_bytes (chunk, bytes) (received (some (chunk_shutdown done))) =
      (([], bytes), flush_batch chunk ++ replies done ∷ [], false)
  step max_chunk_bytes (chunk, bytes) (received none) = (([], bytes), flush_batch chunk, false)
  step max_chunk_bytes (chunk, bytes) ticked = (([], 0), flush_batch chunk, true)

  abbrev pub values : Event (ChunkCommand T) → List T
  values (received (some (chunk_item value size))) = value ∷ []
  values e = []

  abbrev pub ends : Event (ChunkCommand T) → Bool
  ends (received (some (chunk_shutdown done))) = true
  ends (received none) = true
  ends e = false

  keeps :
      (max : ℕ) (s : List T × ℕ) (e : Event (ChunkCommand T))
      → executed (step max s e).1 ++ (step max s e).0.0 ≡ s.0 ++ values e
  unfolding step
  keeps max (chunk, bytes) (received (some (chunk_item value size))) =
      let plain = append-nil (chunk ++ value ∷ []) in ground arith
  keeps max (chunk, bytes) (received (some (chunk_flush done))) =
      ap (λ k. k ++ []) (executed-replied chunk done)
  keeps max (chunk, bytes) (received (some (chunk_shutdown done))) =
      ap (λ k. k ++ []) (executed-replied chunk done)
  keeps max (chunk, bytes) (received none) = ap (λ k. k ++ []) (Loop.executed-flush_batch chunk)
  keeps max (chunk, bytes) ticked = ap (λ k. k ++ []) (Loop.executed-flush_batch chunk)

  stops : (max : ℕ) (s : List T × ℕ) (e : Event (ChunkCommand T)) → (step max s e).2 ≡ not (ends e)
  unfolding step
  stops max (chunk, bytes) (received (some (chunk_item value size))) = ground arith
  stops max (chunk, bytes) (received (some (chunk_flush done))) = refl
  stops max (chunk, bytes) (received (some (chunk_shutdown done))) = refl
  stops max (chunk, bytes) (received none) = refl
  stops max (chunk, bytes) ticked = refl

module _ {T : Type 0} (size : T → ℕ) where
  -- A command to which the caller gives each item's size.
  abbrev pub sized : Event (Command T) → Event (ChunkCommand T)
  sized (received none) = received none
  sized (received (some (item value))) = received (some (chunk_item value (size value)))
  sized (received (some (flush done))) = received (some (chunk_flush done))
  sized (received (some (shutdown done))) = received (some (chunk_shutdown done))
  sized ticked = ticked

  abbrev pub bytes_of : List T → ℕ
  bytes_of [] = 0
  bytes_of (value ∷ chunk) = size value + bytes_of chunk

  abbrev pub bytes_before_last : List T → ℕ
  bytes_before_last [] = 0
  bytes_before_last (value ∷ []) = 0
  bytes_before_last (value ∷ next ∷ chunk) = size value + bytes_before_last (next ∷ chunk)

  -- A chunk is not empty, and its items but the last do not fill it.
  abbrev pub Fits : ℕ → List T → Type 0
  Fits max chunk = (0 < length chunk) × (bytes_before_last chunk < max)

  bytes_of-append :
      (chunk : List T) (value : T) → bytes_of (chunk ++ value ∷ []) ≡ bytes_of chunk + size value
  bytes_of-append [] value = omega arith
  bytes_of-append (v ∷ chunk) value = omega (arith, bytes_of-append chunk value)

  before_last-append :
      (chunk : List T) (value : T) → bytes_before_last (chunk ++ value ∷ []) ≡ bytes_of chunk
  before_last-append [] value = refl
  before_last-append (v ∷ []) value = refl
  before_last-append (v ∷ w ∷ chunk) value =
      ap (λ k. size v + k) (before_last-append (w ∷ chunk) value)

  before_last-le : (chunk : List T) → bytes_before_last chunk ≤ bytes_of chunk
  before_last-le [] = omega arith
  before_last-le (v ∷ []) = omega arith
  before_last-le (v ∷ w ∷ chunk) = omega (arith, before_last-le (w ∷ chunk))

  abbrev Counted : ℕ → List T × ℕ → Type 0
  Counted max s = (bytes_of s.0 < max) × (s.1 ≡ bytes_of s.0)

  batches-flush :
      (max : ℕ) (chunk : List T) (n : ℕ)
      → bytes_of chunk < max
      → All (Fits max) (batches (flush_batch chunk))
        × All (Fits max) (batches (flush_batch chunk ++ replies n ∷ []))
  unfolding flush_batch
  batches-flush max [] n h = (tt, tt)
  batches-flush max (value ∷ chunk) n h = let le = before_last-le (value ∷ chunk) in omega arith

  bounded :
      (max : ℕ)
      → 0 < max
      → max < u64_mod
      → (s : List T × ℕ) (e : Event (Command T)) → Counted max s
      → ((step max s (sized e)).2 ≡ true → Counted max (step max s (sized e)).0)
        × All (Fits max) (batches (step max s (sized e)).1)
  unfolding step
  bounded max pos small (chunk, bytes) (received (some (item value))) h = ground (
    arith,
    bytes_of-append chunk value,
    before_last-append chunk value,
    length-append chunk (value ∷ []),
  )
  bounded max pos small (chunk, bytes) (received (some (flush done))) h =
      (λ goes. (pos, refl), (batches-flush max chunk done h.0).1)
  bounded max pos small (chunk, bytes) (received (some (shutdown done))) h =
      (λ goes. cc, (batches-flush max chunk done h.0).1)
  bounded max pos small (chunk, bytes) (received none) h =
      (λ goes. cc, (batches-flush max chunk 0 h.0).0)
  bounded max pos small (chunk, bytes) ticked h =
      (λ goes. (pos, refl), (batches-flush max chunk 0 h.0).0)

-- With a positive `max_chunk_bytes` of 64 bits and a size for each item, no item is lost, doubled or
-- moved: what is executed and what is still held are the items that were taken, in their order. Each
-- chunk has an item, and its items but the last have together fewer than `max_chunk_bytes` bytes.
pub executed-run_chunk :
    {T : Type 0} (size : T → ℕ) (max_chunk_bytes : ℕ) (es : List (Event (Command T)))
    → 0 < max_chunk_bytes
    → max_chunk_bytes < u64_mod
    → (executed (run (λ s e. step max_chunk_bytes s (sized size e)) ([], 0) es).1
          ++ (run (λ s e. step max_chunk_bytes s (sized size e)) ([], 0) es).0.0
        ≡ items (λ e. values (sized size e)) (λ e. ends (sized size e)) es)
      × All
          (Fits size max_chunk_bytes)
          (batches (run (λ s e. step max_chunk_bytes s (sized size e)) ([], 0) es).1)
executed-run_chunk size max es pos small = (
  Loop.kept-run (λ s e. step max s (sized size e)) (λ s. s.0) (λ e. values (sized size e))
      (λ e. ends (sized size e)) (λ s e. keeps max s (sized size e))
      (λ s e. stops max s (sized size e)) ([], 0) es,
  run_holds (λ s e. step max s (sized size e)) (Counted size max) (Fits size max)
      (bounded size max pos small) ([], 0) es (pos, refl),
)
