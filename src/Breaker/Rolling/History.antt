-- ===== src/Breaker/Rolling/History.antt =====
-- The history of the rolling policy: what is recorded, and what `history` reports of it.
use mathlib.Core.List.{foldl}
use rust_zero.Prelude.{
  ℕ, ◌+◌, ◌-◌, ◌*◌, ◌/◌, ◌≤◌, ◌<◌, ◌≡◌, refl, ◌∷◌, [], ◌++◌, List, some, arith, length, replicate,
}
use rust_zero.Prelude.Words.{u64_mod, saturate64}
use rust_zero.Floats.{Float}
use rust_zero.Window.Rotation.{rotate-IsBounded, rotate-started_le}
use rust_zero.Window.Totals.{total, keep_last, rotate-keep_last, rotate_idle}
use rust_zero.Window.Update.{update_back-IsBounded}
use rust_zero.Breaker.Config.{CircuitOutcome, success, failure, cancellation}
use rust_zero.Breaker.Rolling.{
  OutcomeBucket, RollingBreaker, empty, add_outcome, add_saturating, rotated, record_outcome,
  history,
}

pub record IsValid {X : Type 0} (r : RollingBreaker X) : Type 0 where
  pub room : 0 < r.config.buckets
  pub fits : r.config.buckets < u64_mod
  pub wide : 0 < r.bucket_width
  pub bounded : (0 < length r.state.buckets) × (length r.state.buckets ≤ r.config.buckets)

abbrev pub accepted : OutcomeBucket → ℕ
accepted b = b.accepted

abbrev pub requests : OutcomeBucket → ℕ
requests b = b.total

foldl-add_saturating :
    (bs : List OutcomeBucket) (a t : ℕ)
    → a < u64_mod
    → t < u64_mod
    → foldl add_saturating (a, t) bs
      ≡ (saturate64 (a + total accepted bs), saturate64 (t + total requests bs))
unfolding add_saturating
foldl-add_saturating [] a t ha ht = ground arith
foldl-add_saturating (b ∷ bs) a t ha ht =
    ground (arith, foldl-add_saturating bs (saturate64 (a + b.accepted)) (saturate64 (t + b.total)))

module _ {X : Type 0} where
  -- What the last `buckets` buckets hold when an empty bucket is pushed for each bucket width that
  -- has passed: the reference for the history.
  abbrev pub recent : RollingBreaker X → ℕ → List OutcomeBucket
  recent r now =
      keep_last r.config.buckets
        (r.state.buckets ++ replicate ((now - r.state.current_started) / r.bucket_width) empty)

  total-rotated :
      (r : RollingBreaker X) (now : ℕ) (m : OutcomeBucket → ℕ)
      → IsValid r
      → m empty ≡ 0
      → total m (rotated r now).buckets ≡ total m (recent r now)
  unfolding rotated
  total-rotated r now m v e =
      rotate-keep_last m empty e r.config.buckets r.bucket_width v.room v.fits v.wide r.state now
        v.bounded

  -- An outcome can always be recorded: in a valid breaker the current bucket exists. The breaker
  -- stays valid.
  pub record_outcome_total :
      (r : RollingBreaker X) (outcome : CircuitOutcome) (now : ℕ)
      → IsValid r
      → (r' : RollingBreaker X) × (record_outcome r outcome now ≡ some r') × IsValid r'
  unfolding record_outcome rotated
  record_outcome_total r cancellation now v = (r, refl, v)
  record_outcome_total r outcome now v =
      let (bs, e, b) =
        update_back-IsBounded (add_outcome outcome) empty r.config.buckets v.room _
          (rotate-IsBounded empty r.config.buckets v.room r.bucket_width r.state now v.bounded) in
      (
        record r {
          state = record { current_started = (rotated r now).current_started; buckets = bs };
        },
        rw e,
        record { room = v.room; fits = v.fits; wide = v.wide; bounded = b },
      )

module _ {X : Type 0} (f : Float X) where
  -- In a valid breaker the two counts of the history are the saturated sums over the last buckets
  -- that the configuration allows, when an empty bucket is pushed for each bucket width that has
  -- passed.
  pub history-recent :
      (r : RollingBreaker X) (now : ℕ)
      → IsValid r
      → ((history f r now).1.0 ≡ saturate64 (total accepted (recent r now)))
        × ((history f r now).1.1 ≡ saturate64 (total requests (recent r now)))
  unfolding history
  history-recent r now v = ground (
    arith,
    foldl-add_saturating (rotated r now).buckets 0 0,
    total-rotated r now accepted v,
    total-rotated r now requests v,
  )

  -- The current bucket began no later than `now`.
  abbrev pub HasStarted : RollingBreaker X → ℕ → Type 0
  HasStarted r now = r.state.current_started ≤ now

  record_outcome-started :
      (r r' : RollingBreaker X) (outcome : CircuitOutcome) (now : ℕ)
      → IsValid r
      → HasStarted r now
      → record_outcome r outcome now ≡ some r'
      → HasStarted r' now × (r'.config ≡ r.config) × (r'.bucket_width ≡ r.bucket_width)
  unfolding record_outcome rotated
  record_outcome-started r r' success now v h e =
      ground
        (arith, rotate-started_le empty r.config.buckets r.bucket_width v.room v.wide r.state now h)
  record_outcome-started r r' failure now v h e =
      ground
        (arith, rotate-started_le empty r.config.buckets r.bucket_width v.room v.wide r.state now h)
  record_outcome-started r r' cancellation now v h e = ground arith

  pub history_expired :
      (r : RollingBreaker X) (now : ℕ)
      → IsValid r
      → r.state.current_started + r.config.buckets * r.bucket_width ≤ now
      → ((history f r now).1.0 ≡ 0) × ((history f r now).1.1 ≡ 0)
  unfolding history rotated
  history_expired r now v h = ground (
    arith,
    foldl-add_saturating (rotated r now).buckets 0 0,
    rotate_idle accepted empty refl r.config.buckets r.bucket_width v.room v.fits v.wide r.state now
        v.bounded h,
    rotate_idle requests empty refl r.config.buckets r.bucket_width v.room v.fits v.wide r.state now
        v.bounded h,
  )

  -- Recording succeeds, and a whole window after the last outcome the history is empty.
  pub record_outcome_forgotten :
      (r : RollingBreaker X) (outcome : CircuitOutcome) (now later : ℕ)
      → IsValid r
      → HasStarted r now
      → now + r.config.buckets * r.bucket_width ≤ later
      → (r' : RollingBreaker X) × (record_outcome r outcome now ≡ some r')
        × ((history f r' later).1.0 ≡ 0)
        × ((history f r' later).1.1 ≡ 0)
  record_outcome_forgotten r outcome now later v h idle =
      let (r', e, v') = record_outcome_total r outcome now v in
      let (started, same_config, same_width) = record_outcome-started r r' outcome now v h e in
      let expired : r'.state.current_started + r'.config.buckets * r'.bucket_width ≤ later =
        rw (same_config, same_width) (omega arith) in
      let (no_accepted, no_total) = history_expired r' later v' expired in
      (r', e, no_accepted, no_total)
