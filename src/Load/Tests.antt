-- ===== src/Load/Tests.antt =====
-- Runs of the load shedder, and each theorem about it at an input that meets its hypotheses.
use rust_zero.Prelude.{ℕ, ◌≤◌, ◌<◌, ◌≡◌, refl, arith, Bool, true, [], ◌∷◌, none, some}
use rust_zero.Floats.Naturals.{naturals, naturals_laws}
use rust_zero.Load.{
  ShedderState, empty_bucket, rotate_buckets, rotated, last_started, trimmed, pushed,
}
use rust_zero.Load.Config.{LoadShedderConfig, latency, cpu_throughput}
use rust_zero.Load.Shedder.{check, decided, limit_in, is_refused, drop_permit, initial}
use rust_zero.Load.Shedder.Limits.{IsConfig}
use rust_zero.Load.Shedder.Threads.{
  System, Reach, here, next, passes, reserves, start, in_flight_bounded, sections_return,
}

abbrev config : LoadShedderConfig ℕ
config = record {
  max_concurrency = 2;
  target_latency = 100;
  sample_window = 2;
  mode = latency;
  cpu_threshold = 1;
  bucket_duration = 10;
  bucket_count = 3;
  cooldown = 50;
  in_flight_smoothing = 1;
}

abbrev throughput_config : LoadShedderConfig ℕ
throughput_config = record config { mode = cpu_throughput }

config-IsConfig : IsConfig config
config-IsConfig = record {
  capacity = omega arith;
  room = omega arith;
  wide = omega arith;
  window = omega arith;
}

throughput-IsConfig : IsConfig throughput_config
throughput-IsConfig = record {
  capacity = omega arith;
  room = omega arith;
  wide = omega arith;
  window = omega arith;
}

abbrev fresh : ShedderState ℕ
fresh = record {
  current_limit = 2;
  sample_count = 0;
  total_latency = 0;
  buckets = record { started_at = 5; completed = 0; minimum_latency = none } ∷ [];
  smoothed_in_flight = 0;
  cooldown_until = none;
}

abbrev loaded : System ℕ
loaded = record { in_flight = 1; permits = 1; passed = []; state = fresh }

fresh_passes : check naturals config fresh 0 6 0 ≡ some (fresh, true)
unfolding check rotate_buckets rotated last_started decided limit_in is_refused trimmed pushed
fresh_passes = refl

loaded-reached : Reach naturals config (start naturals config 5) loaded
unfolding start initial empty_bucket
loaded-reached = next (next here (passes 0 6 0 fresh_passes)) (reserves [] 0 [] refl refl)

in_flight_bounded_example :
    (loaded.in_flight ≡ loaded.permits)
    × (loaded.permits ≤ config.max_concurrency)
    × (0 < loaded.state.current_limit)
    × (loaded.state.current_limit ≤ config.max_concurrency)
in_flight_bounded_example =
    in_flight_bounded naturals config naturals_laws config-IsConfig {u = loaded} 5 loaded-reached

sections_return_example :
    ((r : ShedderState ℕ × Bool) × (check naturals config loaded.state 1 7 0 ≡ some r))
    × ((s : ShedderState ℕ) × (drop_permit naturals config loaded.state 1 3 7 ≡ some s))
sections_return_example =
    sections_return naturals config naturals_laws config-IsConfig {u = loaded} 5 1 3 7 0
      loaded-reached (omega arith) (omega arith)

fresh_started : last_started fresh.buckets ≡ some 5
unfolding last_started
fresh_started = refl
