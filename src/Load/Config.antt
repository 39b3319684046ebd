-- ===== src/Load/Config.antt =====
-- The settings of the load shedder of core/src/load.rs, with the assertions of their builders.
-- Durations are in nanoseconds; `none` is a failed assertion.
use rust_zero.Prelude.{ℕ, Bool, Option, none, some, ◌>>=◌, ltb, if◌then◌else◌, ◌&&◌}
use rust_zero.Floats.{Float}

pub data LoadShedderMode : Type 0 where
  latency cpu_throughput : LoadShedderMode

pub record LoadShedderConfig (X : Type 0) : Type 0 where
  pub max_concurrency : ℕ
  pub target_latency : ℕ
  pub sample_window : ℕ
  pub mode : LoadShedderMode
  pub cpu_threshold : X
  pub bucket_duration : ℕ
  pub bucket_count : ℕ
  pub cooldown : ℕ
  pub in_flight_smoothing : X

module _ {X : Type 0} (f : Float X) where
  unfoldable pub new : ℕ → ℕ → Option (LoadShedderConfig X)
  new max_concurrency target_latency =
      if ltb 0 max_concurrency && ltb 0 target_latency
      then some (record {
        max_concurrency = max_concurrency;
        target_latency = target_latency;
        sample_window = 32;
        mode = latency;
        cpu_threshold = f.literal 9 10;
        bucket_duration = 1_000_000_000;
        bucket_count = 10;
        cooldown = 1_000_000_000;
        in_flight_smoothing = f.literal 1 2;
      })
      else none

  -- `(0.0..=1.0).contains(&x) && x > 0.0`
  unfoldable pub is_fraction : X → Bool
  is_fraction x = f.le (f.of_ℕ 0) x && f.le x (f.of_ℕ 1) && f.lt (f.of_ℕ 0) x

  unfoldable pub with_cpu_threshold : LoadShedderConfig X → X → Option (LoadShedderConfig X)
  unfolding is_fraction
  with_cpu_threshold c threshold =
      if is_fraction threshold then some (record c { cpu_threshold = threshold }) else none

  unfoldable pub with_in_flight_smoothing : LoadShedderConfig X → X → Option (LoadShedderConfig X)
  unfolding is_fraction
  with_in_flight_smoothing c smoothing =
      if is_fraction smoothing then some (record c { in_flight_smoothing = smoothing }) else none

module _ {X : Type 0} where
  unfoldable pub with_mode : LoadShedderConfig X → LoadShedderMode → LoadShedderConfig X
  with_mode c mode = record c { mode = mode }

  unfoldable pub with_sample_window : LoadShedderConfig X → ℕ → Option (LoadShedderConfig X)
  with_sample_window c sample_window =
      if ltb 0 sample_window then some (record c { sample_window = sample_window }) else none

  unfoldable pub with_rolling_window : LoadShedderConfig X → ℕ → ℕ → Option (LoadShedderConfig X)
  with_rolling_window c bucket_duration bucket_count =
      if ltb 0 bucket_duration && ltb 0 bucket_count
      then some (record c { bucket_duration = bucket_duration; bucket_count = bucket_count })
      else none

  unfoldable pub with_cooldown : LoadShedderConfig X → ℕ → Option (LoadShedderConfig X)
  with_cooldown c cooldown =
      if ltb 0 cooldown then some (record c { cooldown = cooldown }) else none

-- `LoadShedderConfig::production`
unfoldable pub production : {X : Type 0} → Float X → ℕ → Option (LoadShedderConfig X)
unfolding new with_mode
production f max_concurrency = do
  c ← new f max_concurrency 1_000_000
  some (with_mode c cpu_throughput)
