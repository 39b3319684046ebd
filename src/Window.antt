-- ===== src/Window.antt =====
-- core/src/rolling.rs, and the rotation of buckets that core/src/breaker.rs repeats for its history.
-- An instant and a duration are numbers of nanoseconds, and each call is given its `Instant::now()`.
-- The buckets stand oldest first, so the back of the `VecDeque` is the end of the list.
pub mod Rotation
pub mod Totals
pub mod Update
pub mod Snapshots
mod Tests
use mathlib.Core.Option
use mathlib.Core.List.{foldl}
use rust_zero.Prelude.{
  ℕ, zero, suc, ◌+◌, ◌-◌, ◌*◌, ◌/◌, ◌∷◌, [], ◌++◌, List, Option, none, some, ltb, leb, ◌==◌,
  if◌then◌else◌, length, drop, ◌&&◌,
}
use rust_zero.Prelude.Words.{u32, u64, u64_mod}
use rust_zero.Floats.{Float}

pub record WindowState (B : Type 0) : Type 0 where
  pub current_started : ℕ
  pub buckets : List B

-- `usize::try_from(..).unwrap_or(bucket_count)`
unfoldable pub elapsed_buckets : ℕ → ℕ → ℕ → ℕ
elapsed_buckets count width elapsed =
    if ltb (elapsed / width) u64_mod then elapsed / width else count

module _ {B : Type 0} where
  -- `push_back`, then `pop_front` if there are too many.
  unfoldable pub push_bounded : B → ℕ → List B → List B
  push_bounded empty count bs =
      let longer = bs ++ empty ∷ [] in if ltb count (length longer) then drop 1 longer else longer

  unfoldable pub advance : B → ℕ → ℕ → List B → List B
  advance empty count zero bs = bs
  advance empty count (suc n) bs = advance empty count n (push_bounded empty count bs)

  unfoldable pub rotate : B → ℕ → ℕ → WindowState B → ℕ → WindowState B
  rotate empty count width s now =
      let steps = elapsed_buckets count width (now - s.current_started) in
      if steps == 0
      then s
      else if leb count steps
      then record { current_started = now; buckets = empty ∷ [] }
      else record {
        current_started = s.current_started + width * u32 steps;
        buckets = advance empty count steps s.buckets;
      }

  unfoldable pub map_back : (B → B) → B → List B → List B
  map_back f b [] = f b ∷ []
  map_back f b (c ∷ cs) = b ∷ map_back f c cs

  -- `back_mut().expect(..)`: `none` is the panic on a window with no bucket.
  unfoldable pub update_back : (B → B) → List B → Option (List B)
  unfolding map_back
  update_back f [] = none
  update_back f (b ∷ bs) = some (map_back f b bs)

pub record Bucket (X : Type 0) : Type 0 where
  pub count : ℕ
  pub sum : X
  pub minimum : Option X
  pub maximum : Option X

pub record RollingWindow (X : Type 0) : Type 0 where
  pub bucket_count : ℕ
  pub bucket_width : ℕ
  pub state : WindowState (Bucket X)

module _ {X : Type 0} (f : Float X) where
  unfoldable pub empty_bucket : Bucket X
  empty_bucket = record { count = 0; sum = f.of_ℕ 0; minimum = none; maximum = none }

  -- `none` is a failed assertion.
  unfoldable pub new : ℕ → ℕ → ℕ → Option (RollingWindow X)
  new bucket_count bucket_width now =
      if ltb 0 bucket_count && ltb 0 bucket_width
      then some (record {
        bucket_count = bucket_count;
        bucket_width = bucket_width;
        state = record { current_started = now; buckets = empty_bucket ∷ [] };
      })
      else none

  -- `Some(old.map_or(value, |old| join(old, value)))`
  abbrev merge : (X → X → X) → Option X → X → Option X
  merge join none value = some value
  merge join (some old) value = some (join old value)

  unfoldable pub Bucket_record : Bucket X → X → Bucket X
  Bucket_record b value = record {
    count = u64 (b.count + 1);
    sum = f.plus b.sum value;
    minimum = merge f.minimum b.minimum value;
    maximum = merge f.maximum b.maximum value;
  }

  unfoldable pub record_value : RollingWindow X → X → ℕ → Option (RollingWindow X)
  record_value w value now =
      if f.is_finite value
      then Option.map
          (λ bs. record w { state = record { current_started = s.current_started; buckets = bs } })
          (update_back (λ b. Bucket_record b value) s.buckets)
      else none
    where
      s : WindowState (Bucket X)
      s = rotate empty_bucket w.bucket_count w.bucket_width w.state now

  -- The value of `merge` where the bucket may be empty.
  abbrev merge? : (X → X → X) → Option X → Option X → Option X
  merge? join old none = old
  merge? join old (some value) = merge join old value

  -- A `RollingSnapshot` has the fields of a bucket.
  unfoldable pub add_bucket : Bucket X → Bucket X → Bucket X
  add_bucket snapshot b = record {
    count = u64 (snapshot.count + b.count);
    sum = f.plus snapshot.sum b.sum;
    minimum = merge? f.minimum snapshot.minimum b.minimum;
    maximum = merge? f.maximum snapshot.maximum b.maximum;
  }

  unfoldable pub snapshot : RollingWindow X → ℕ → RollingWindow X × Bucket X
  snapshot w now =
      let s = rotate empty_bucket w.bucket_count w.bucket_width w.state now in
      (record w { state = s }, foldl add_bucket empty_bucket s.buckets)

  unfoldable pub reset : RollingWindow X → ℕ → RollingWindow X
  reset w now = record w { state = record { current_started = now; buckets = empty_bucket ∷ [] } }

  unfoldable pub average : Bucket X → Option X
  average snapshot =
      if ltb 0 snapshot.count then some (f.divide snapshot.sum (f.of_ℕ snapshot.count)) else none
