-- ===== src/Load/Shedder.antt =====
-- The critical sections and atomic updates of `AdaptiveShedder` and `ShedPermit` of
-- core/src/load.rs.
pub mod Limits
pub mod Batches
pub mod Idle
pub mod Threads
use mathlib.Core.Option
use rust_zero.Prelude.{
  ℕ, ◌+◌, ◌-◌, ◌*◌, ◌/◌, ◌%◌, Bool, true, false, List, [], ◌∷◌, Option, none, some, ◌>>=◌, ltb, leb,
  ◌==◌, if◌then◌else◌, ◌&&◌, ◌||◌, min, max,
}
use rust_zero.Prelude.Words.{u32, u64, u64_mod}
use rust_zero.Floats.{Float}
use rust_zero.Limit.Decision.{duration_max}
use rust_zero.Window.{update_back}
use rust_zero.Load.{
  Bucket, ShedderState, empty_bucket, rotate_buckets, rolling_capacity, production_limit, min?,
}
use rust_zero.Load.Config.{LoadShedderMode, latency, cpu_throughput, LoadShedderConfig}

pub record LoadShedderSnapshot (X : Type 0) : Type 0 where
  pub in_flight : ℕ
  pub smoothed_in_flight : X
  pub current_limit : ℕ
  pub maximum_throughput : X
  pub minimum_latency : Option ℕ
  pub cooling_down : Bool

abbrev pub is_cooling : Option ℕ → ℕ → Bool
is_cooling none now = false
is_cooling (some until) now = ltb now until

abbrev pub is_latency : LoadShedderMode → Bool
is_latency latency = true
is_latency cpu_throughput = false

-- A `Bucket` with one more completion.
unfoldable pub complete : ℕ → Bucket → Bucket
complete elapsed b = record b {
  completed = min (b.completed + 1) (u64_mod - 1);
  minimum_latency = some (least b.minimum_latency);
}
  where
    least : Option ℕ → ℕ
    least none = elapsed
    least (some old) = min old elapsed

-- The last `Instant`, in nanoseconds: the seconds are an `i64`, as on 64-bit Unix.
abbrev pub instant_max : ℕ
instant_max = 9223372036854775807999999999

-- `fetch_sub(1)`, which wraps around.
unfoldable pub release : ℕ → ℕ
release in_flight = u64 (in_flight + (u64_mod - 1))

module _ {X : Type 0} (f : Float X) (config : LoadShedderConfig X) where
  -- `with_cpu_source`: the state of a new shedder, with no permit in flight.
  unfoldable pub initial : ℕ → ShedderState X
  initial now = record {
    current_limit = config.max_concurrency;
    sample_count = 0;
    total_latency = 0;
    buckets = empty_bucket now ∷ [];
    smoothed_in_flight = f.of_ℕ 0;
    cooldown_until = none;
  }

  unfoldable pub limit_in : LoadShedderMode → ShedderState X → ℕ
  limit_in latency s = s.current_limit
  limit_in cpu_throughput s = production_limit f config s

  -- The three reasons to refuse, once `current_limit` is up to date.
  unfoldable pub is_refused : ShedderState X → ℕ → ℕ → X → Bool
  is_refused s active now usage =
      leb config.max_concurrency active
      || (is_latency config.mode && leb s.current_limit active)
      || (if is_latency config.mode
          then false
          else (f.le config.cpu_threshold usage || is_cooling s.cooldown_until now)
            && leb s.current_limit active
            && f.le (f.of_ℕ s.current_limit) s.smoothed_in_flight)

  -- `now + cooldown`, which panics beyond the last instant.
  unfoldable pub cool : ShedderState X → ℕ → Option (ShedderState X × Bool)
  cool s until =
      if leb until instant_max then some (record s { cooldown_until = some until }, false) else none

  -- The decision, which starts the cooldown if it refuses under pressure.
  unfoldable pub decided : ShedderState X → ℕ → ℕ → X → Option (ShedderState X × Bool)
  unfolding cool
  decided s active now usage =
      if is_refused s active now usage
      then (if f.le config.cpu_threshold usage
          then cool s (now + config.cooldown)
          else some (s, false))
      else some (s, true)

  -- The first critical section of `try_acquire`, for the `in_flight` that was loaded before it. The
  -- Boolean says if the thread goes on to the exchange.
  unfoldable pub check : ShedderState X → ℕ → ℕ → X → Option (ShedderState X × Bool)
  unfolding limit_in
  check s active now usage = do
    r ← rotate_buckets config s now
    decided (record r { current_limit = limit_in config.mode r }) active now usage

  unfoldable pub average : X → X → X
  average new old =
      f.plus (f.times config.in_flight_smoothing new)
        (f.times (f.minus (f.of_ℕ 1) config.in_flight_smoothing) old)

  -- The second critical section, after the exchange has succeeded.
  unfoldable pub smooth : ShedderState X → ℕ → ShedderState X
  unfolding average
  smooth s active = record s {
    smoothed_in_flight =
        if f.le s.smoothed_in_flight (f.of_ℕ 0) && f.le (f.of_ℕ 0) s.smoothed_in_flight
        then f.of_ℕ (active + 1)
        else average (f.of_ℕ (active + 1)) s.smoothed_in_flight;
  }

  -- The limit after a batch of latencies with this average.
  unfoldable pub adjusted : ℕ → ℕ → ℕ
  adjusted limit average_latency =
      if ltb config.target_latency average_latency
      then max (u64 (limit * 9) / 10) 1
      else min (u64 (limit + 1)) config.max_concurrency

  -- The latency mode of the drop of a permit; `none` is a sum of latencies beyond the largest
  -- `Duration`, or the division by a count that wraps to 0.
  unfoldable pub record_sample : ShedderState X → ℕ → Option (ShedderState X)
  record_sample s elapsed =
      if ltb duration_max total
      then none
      else if ltb count config.sample_window
      then some (record s { sample_count = count; total_latency = total })
      else if u32 count == 0
      then none
      else some (record s {
        sample_count = 0;
        total_latency = 0;
        current_limit = adjusted s.current_limit (total / u32 count);
      })
    where
      count : ℕ
      count = u64 (s.sample_count + 1)

      total : ℕ
      total = s.total_latency + elapsed

  unfoldable pub limited : ShedderState X → ShedderState X
  limited s = record s { current_limit = production_limit f config s }

  -- The other mode, where `active` are left in flight.
  unfoldable pub record_completion : ShedderState X → ℕ → ℕ → ℕ → Option (ShedderState X)
  unfolding average limited
  record_completion s active elapsed now = do
    r ← rotate_buckets config s now
    buckets ← update_back (complete elapsed) r.buckets
    some (
        limited (record r {
          buckets = buckets;
          smoothed_in_flight = average (f.of_ℕ active) r.smoothed_in_flight;
        }))

  -- The critical section of the drop of a permit.
  unfoldable pub drop_permit : ShedderState X → ℕ → ℕ → ℕ → Option (ShedderState X)
  drop_permit s active elapsed now =
      if is_latency config.mode
      then record_sample s elapsed
      else record_completion s active elapsed now

  unfoldable pub snapshot : ShedderState X → ℕ → ℕ → Option (ShedderState X × LoadShedderSnapshot X)
  snapshot s in_flight now = do r ← rotate_buckets config s now; some (r, taken r)
    where
      taken : ShedderState X → LoadShedderSnapshot X
      taken r =
          let (maximum_throughput, minimum_latency) = rolling_capacity f config r in
          record {
            in_flight = in_flight;
            smoothed_in_flight = r.smoothed_in_flight;
            current_limit = r.current_limit;
            maximum_throughput = maximum_throughput;
            minimum_latency = minimum_latency;
            cooling_down = is_cooling r.cooldown_until now;
          }
