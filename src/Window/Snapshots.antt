-- ===== src/Window/Snapshots.antt =====
-- The operations of a `RollingWindow` (core/src/rolling.rs), each given the instant of its call.
use mathlib.Core.List.{foldl}
use rust_zero.Prelude.{
  ℕ, ◌+◌, ◌-◌, ◌*◌, ◌/◌, ◌≤◌, ◌<◌, ◌≡◌, refl, ◌∷◌, [], ◌++◌, List, none, some, arith, length,
  replicate, ap, ◌∙◌, true, false,
}
use rust_zero.Prelude.Words.{u64, u64_mod}
use rust_zero.Floats.{Float}
use rust_zero.Window.{
  rotate, Bucket, RollingWindow, new, snapshot, record_value, Bucket_record, add_bucket,
  empty_bucket, average,
}
use rust_zero.Window.Rotation.{rotate-IsBounded}
use rust_zero.Window.Totals.{total, keep_last, rotate-keep_last, rotate_idle}
use rust_zero.Window.Update.{update_back-IsBounded}

module _ {X : Type 0} (f : Float X) where
  pub record IsValid (w : RollingWindow X) : Type 0 where
    pub room : 0 < w.bucket_count
    pub fits : w.bucket_count < u64_mod
    pub wide : 0 < w.bucket_width
    pub bounded : (0 < length w.state.buckets) × (length w.state.buckets ≤ w.bucket_count)

  pub new-IsValid :
      (count width now : ℕ) {w : RollingWindow X}
      → count < u64_mod
      → new f count width now ≡ some w
      → IsValid w
  unfolding new
  new-IsValid count width now h e = ground arith

  -- In a valid window the current bucket exists, so only a value that is not finite is refused.
  pub record_value_total :
      (w : RollingWindow X) (value : X) (now : ℕ)
      → IsValid w
      → f.is_finite value ≡ true
      → (w' : RollingWindow X) × (record_value f w value now ≡ some w') × IsValid w'
  unfolding record_value
  record_value_total w value now v h =
      let (bs, e, b) =
        update_back-IsBounded (λ (b : Bucket X). Bucket_record f b value) (empty_bucket f)
          w.bucket_count v.room _
          (rotate-IsBounded (empty_bucket f) w.bucket_count v.room w.bucket_width w.state now
            v.bounded) in
      (
        record w {
          state = record {
            current_started =
                (rotate (empty_bucket f) w.bucket_count w.bucket_width w.state now).current_started;
            buckets = bs;
          };
        },
        rw (h, e),
        record { room = v.room; fits = v.fits; wide = v.wide; bounded = b },
      )

  -- A value that is not finite trips the assertion.
  pub record_value_refused :
      (w : RollingWindow X) (value : X) (now : ℕ)
      → f.is_finite value ≡ false
      → record_value f w value now ≡ none
  unfolding record_value
  record_value_refused w value now h = rw h

  count-foldl :
      (b : Bucket X) (bs : List (Bucket X))
      → b.count < u64_mod
      → (foldl (add_bucket f) b bs).count ≡ u64 (b.count + total (λ (b : Bucket X). b.count) bs)
  unfolding add_bucket
  count-foldl b [] h = omega arith
  count-foldl b (c ∷ bs) h = omega (arith, count-foldl (add_bucket f b c) bs)

  empty_bucket-count : (empty_bucket f).count ≡ 0
  unfolding empty_bucket
  empty_bucket-count = refl

  snapshot-total :
      (w : RollingWindow X) (now : ℕ)
      → (snapshot f w now).1.count
        ≡ u64 (
            total
              (λ (b : Bucket X). b.count)
              (rotate (empty_bucket f) w.bucket_count w.bucket_width w.state now).buckets)
  unfolding snapshot empty_bucket
  snapshot-total w now = omega (
    arith,
    count-foldl (empty_bucket f)
        (rotate (empty_bucket f) w.bucket_count w.bucket_width w.state now).buckets,
  )

  -- A snapshot counts what the last `bucket_count` buckets count when an empty bucket is pushed for
  -- each bucket width that has passed.
  pub snapshot-count :
      (w : RollingWindow X) (now : ℕ)
      → IsValid w
      → (snapshot f w now).1.count
        ≡ u64 (
            total
              (λ (b : Bucket X). b.count)
              (keep_last w.bucket_count (
                w.state.buckets
                ++ replicate ((now - w.state.current_started) / w.bucket_width) (empty_bucket f))))
  snapshot-count w now v =
      snapshot-total w now
      ∙ ap u64 (
          rotate-keep_last (λ (b : Bucket X). b.count) (empty_bucket f) empty_bucket-count
            w.bucket_count w.bucket_width v.room v.fits v.wide w.state now v.bounded)

  -- After a whole window without a call, the snapshot is empty and has no average.
  pub snapshot_idle :
      (w : RollingWindow X) (now : ℕ)
      → IsValid w
      → w.state.current_started + w.bucket_count * w.bucket_width ≤ now
      → ((snapshot f w now).1.count ≡ 0) × (average f (snapshot f w now).1 ≡ none)
  unfolding average
  snapshot_idle w now v h = (nothing, ground (arith, nothing))
    where
      nothing : (snapshot f w now).1.count ≡ 0
      nothing = omega (
        arith,
        snapshot-total w now,
        rotate_idle (λ (b : Bucket X). b.count) (empty_bucket f) empty_bucket-count w.bucket_count
            w.bucket_width v.room v.fits v.wide w.state now v.bounded h,
      )
