-- ===== src/Load/Shedder/Idle.antt =====
-- The load shedder of core/src/load.rs after a time with no call.
use native.Mathlib.Nat.{le-div_iff_mul-le, div-le_self}
use rust_zero.Prelude.{
  ℕ, ◌+◌, ◌-◌, ◌*◌, ◌/◌, ◌≤◌, ◌<◌, ◌≡◌, refl, ap, arith, true, false, [], ◌∷◌, some,
}
use rust_zero.Prelude.Words.{u64_mod}
use rust_zero.Floats.{Float}
use rust_zero.Load.{
  ShedderState, empty_bucket, last_started, rotated, rotate_buckets, rolling_capacity,
  production_limit, limit_for, minimum_of,
}
use rust_zero.Load.Config.{LoadShedderConfig, LoadShedderMode, latency, cpu_throughput}
use rust_zero.Load.Shedder.{check, decided, is_refused, is_latency, limit_in}
use rust_zero.Load.Shedder.Limits.{IsConfig}

elapsed_steps :
    (width count latest now : ℕ)
    → 0 < width
    → latest + count * width ≤ now
    → count ≤ (now - latest) / width
elapsed_steps width count latest now wide h = (le-div_iff_mul-le wide).1 (omega (arith, h))

module _ {X : Type 0} (f : Float X) (config : LoadShedderConfig X) (i : IsConfig config) where
  rotate_idle :
      (s : ShedderState X) (latest now : ℕ)
      → last_started s.buckets ≡ some latest
      → latest + config.bucket_count * config.bucket_duration ≤ now
      → now < latest + u64_mod
      → rotate_buckets config s now ≡ some (record s { buckets = empty_bucket now ∷ [] })
  unfolding rotate_buckets rotated
  rotate_idle s latest now e h small =
      let full = elapsed_steps config.bucket_duration config.bucket_count latest now i.wide h in
      let exact = div-le_self (now - latest) config.bucket_duration in
      rw e (ground (arith, full, exact, i.wide))

  decided_free :
      (s : ShedderState X) (active now : ℕ) (usage : X)
      → config.mode ≡ cpu_throughput
      → s.current_limit ≡ config.max_concurrency
      → active < config.max_concurrency
      → decided f config s active now usage ≡ some (s, true)
  unfolding decided is_refused
  decided_free s active now usage mode free lt =
      let throughput : is_latency config.mode ≡ false = ap is_latency mode in
      ground (arith, throughput, free, lt)

  free_limit :
      (s : ShedderState X) (now : ℕ) (m : LoadShedderMode)
      → m ≡ cpu_throughput
      → limit_in f config m (record s { buckets = empty_bucket now ∷ [] }) ≡ config.max_concurrency
  unfolding limit_in production_limit rolling_capacity limit_for minimum_of empty_bucket
  free_limit s now latency e = cc
  free_limit s now cpu_throughput e = refl

  -- In throughput mode, a whole rolling window after the start of the last bucket, and less than
  -- 2 ^ 64 nanoseconds after it, the past is forgotten: the limit is `max_concurrency`, and a thread
  -- that finds fewer in flight goes on, however busy the CPU is, also during a cooldown.
  pub check_idle :
      (s : ShedderState X) (latest active now : ℕ) (usage : X)
      → config.mode ≡ cpu_throughput
      → last_started s.buckets ≡ some latest
      → latest + config.bucket_count * config.bucket_duration ≤ now
      → now < latest + u64_mod
      → active < config.max_concurrency
      → check f config s active now usage
        ≡ some (
          record s { buckets = empty_bucket now ∷ []; current_limit = config.max_concurrency },
          true,
        )
  unfolding check
  check_idle s latest active now usage mode e h small lt =
      let limit = free_limit s now config.mode mode in
      let free : ShedderState X = record s {
        buckets = empty_bucket now ∷ [];
        current_limit = config.max_concurrency;
      } in
      rw (rotate_idle s latest now e h small)
        (rw limit (decided_free free active now usage mode refl lt))
