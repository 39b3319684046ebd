-- ===== src/Load.antt =====
-- The load shedder of core/src/load.rs. Each critical section under its lock is a function, and the
-- two atomic updates of `in_flight` are two more, so that the threads' interleavings are sequences of
-- these. The CPU source and the clock are arguments.
pub mod Config
pub mod Shedder
mod Tests
use mathlib.Core.Option
use mathlib.Core.List.{foldl}
use rust_zero.Prelude.{
  ℕ, zero, suc, ◌+◌, ◌-◌, ◌*◌, ◌/◌, Bool, true, false, List, [], ◌∷◌, ◌++◌, Option, none, some,
  ◌>>=◌, ltb, leb, ◌==◌, if◌then◌else◌, ◌&&◌, ◌||◌, length, drop, map, min, max,
}
use rust_zero.Prelude.Words.{u32, u64, u64_mod}
use rust_zero.Floats.{Float}
use rust_zero.Load.Config.{LoadShedderMode, latency, cpu_throughput, LoadShedderConfig}
use rust_zero.Window.{update_back}

pub record Bucket : Type 0 where
  pub started_at : ℕ
  pub completed : ℕ
  pub minimum_latency : Option ℕ

pub record ShedderState (X : Type 0) : Type 0 where
  pub current_limit : ℕ
  pub sample_count : ℕ
  pub total_latency : ℕ
  pub buckets : List Bucket
  pub smoothed_in_flight : X
  pub cooldown_until : Option ℕ

unfoldable pub empty_bucket : ℕ → Bucket
empty_bucket started_at = record { started_at = started_at; completed = 0; minimum_latency = none }

unfoldable pub last_started : List Bucket → Option ℕ
last_started [] = none
last_started (b ∷ []) = some b.started_at
last_started (b ∷ c ∷ bs) = last_started (c ∷ bs)

-- The buckets that the `for` loop pushes, from `step` on, `n` of them.
unfoldable pub pushed : ℕ → ℕ → ℕ → ℕ → List Bucket
unfolding empty_bucket
pushed latest width step zero = []
pushed latest width step (suc n) =
    empty_bucket (latest + width * u32 (step + 1)) ∷ pushed latest width (suc step) n

-- The `while` loop pops the front until `count` buckets are left.
unfoldable pub trimmed : ℕ → List Bucket → List Bucket
trimmed count bs = drop (length bs - count) bs

-- The buckets after a rotation; `latest` is the start of the last one.
unfoldable pub rotated : ℕ → ℕ → List Bucket → ℕ → ℕ → List Bucket
unfolding empty_bucket
rotated width count bs latest now =
    if leb count (u64 ((now - latest) / width))
    then empty_bucket now ∷ []
    else trimmed count (bs ++ pushed latest width 0 (min (u64 ((now - latest) / width)) count))

module _ {X : Type 0} (config : LoadShedderConfig X) where
  -- `none` is a queue without a bucket, or the division by an empty duration.
  unfoldable pub rotate_buckets : ShedderState X → ℕ → Option (ShedderState X)
  rotate_buckets s now = do
    latest ← last_started s.buckets
    buckets ←
        (if config.bucket_duration == 0
          then none
          else some (rotated config.bucket_duration config.bucket_count s.buckets latest now))
    some (record s { buckets = buckets })

unfoldable pub maximum_completed : List Bucket → ℕ
maximum_completed [] = 0
maximum_completed (b ∷ bs) = max b.completed (maximum_completed bs)

abbrev pub min? : Option ℕ → Option ℕ → Option ℕ
min? none b = b
min? (some a) none = some a
min? (some a) (some b) = some (min a b)

unfoldable pub minimum_of : List Bucket → Option ℕ
minimum_of [] = none
minimum_of (b ∷ bs) = min? b.minimum_latency (minimum_of bs)

module _ {X : Type 0} (f : Float X) (config : LoadShedderConfig X) where
  unfoldable pub rolling_capacity : ShedderState X → X × Option ℕ
  rolling_capacity s = (
    f.divide (f.of_ℕ (maximum_completed s.buckets)) (f.as_secs config.bucket_duration),
    minimum_of s.buckets,
  )

  unfoldable pub limit_for : X → Option ℕ → ℕ
  limit_for throughput none = config.max_concurrency
  limit_for throughput (some minimum_latency) =
      min (f.to_ℕ (f.maximum (f.ceil (f.times throughput (f.as_secs minimum_latency))) (f.of_ℕ 1)))
        config.max_concurrency

  unfoldable pub production_limit : ShedderState X → ℕ
  unfolding rolling_capacity limit_for
  production_limit s =
      let (throughput, minimum_latency) = rolling_capacity s in limit_for throughput minimum_latency
