-- ===== src/Breaker/Tests.antt =====
-- Runs of the breaker, and each theorem about it at an input that meets its hypotheses.
use rust_zero.Prelude.{ℕ, ◌+◌, ◌≤◌, ◌<◌, ◌≡◌, refl, arith, List, [], ◌∷◌, ◌++◌, true, Option, some}
use rust_zero.Floats.Naturals.{naturals}
use rust_zero.Breaker.Config.{
  CircuitBreakerConfig, BreakerState, RollingConfig, consecutive, success, failure, cancellation,
}
use rust_zero.Breaker.Consecutive.{
  closed, opened, half_open, status, before_consecutive, record_consecutive,
}
use rust_zero.Breaker.Consecutive.Bounds.{IsValid}
use rust_zero.Breaker.Consecutive.Trips.{Event, call, complete, run, run_trips}
use rust_zero.Breaker.Consecutive.Probes
use rust_zero.Breaker.Consecutive.Probes.{Reach, here, next, calls, half_open_probes}
use rust_zero.Breaker.Consecutive.Stale
use rust_zero.Breaker.Consecutive.Stale.{stale_cancellation_exceeds}
use rust_zero.Breaker.Rolling.{RollingBreaker, history}
use rust_zero.Breaker.Rolling.History
use rust_zero.Breaker.Rolling.Drops
use rust_zero.Breaker.Circuit
use rust_zero.Breaker.Circuit.{CircuitBreaker}
use rust_zero.Breaker.Circuit.Counting
use rust_zero.Breaker.Circuit.Execution

-- Opens after two failures, for ten nanoseconds, and then admits two probes.
abbrev config : CircuitBreakerConfig ℕ
config = record {
  max_failures = 2;
  reset_timeout = 10;
  half_open_max_calls = 2;
  policy = consecutive;
}

config-IsValid : IsValid config
config-IsValid = omega arith

abbrev one_failure : List Event
one_failure = call 1 ∷ complete success 2 ∷ complete failure 3 ∷ complete cancellation 4 ∷ []

run_trips_example : run config (closed 0) (one_failure ++ complete failure 5 ∷ []) ≡ opened 5
run_trips_example = run_trips config one_failure 5 config-IsValid (omega arith) refl

stale_cancellation_exceeds_example :
    (status (Stale.run config Stale.new (Stale.stale_trace 2 2 5 15)).state
      ≡ BreakerState.half_open)
    × (Stale.in_period
          (Stale.run config Stale.new (Stale.stale_trace 2 2 5 15)).period
          (Stale.run config Stale.new (Stale.stale_trace 2 2 5 15)).flights
        ≡ 3)
stale_cancellation_exceeds_example =
    stale_cancellation_exceeds config 5 15 config-IsValid (omega arith)

-- Two failures open the circuit, and after the timeout a call is the first probe.
abbrev probing : Probes.System
probing =
    Probes.call config
      (Probes.finish config (Probes.finish config Probes.start failure 1) failure 2) 12

probing-Reach : Reach config Probes.start probing
unfolding Probes.finish record_consecutive
probing-Reach =
    next (next (next here (Probes.finishes failure 1 tt)) (Probes.finishes failure 2 tt)) (calls 12)

half_open_probes_example :
    (0 + probing.probes ≤ 2) × (0 < 2) × ((before_consecutive config probing.state 13).1 ≡ true)
unfolding Probes.finish Probes.call record_consecutive before_consecutive
half_open_probes_example =
    half_open_probes config {attempts = 1} {successes = 0} 13 config-IsValid probing-Reach refl

abbrev rolling_config : RollingConfig ℕ
rolling_config = record {
  window = 20;
  buckets = 4;
  sensitivity = 1;
  minimum_requests = 1;
  probe_interval = 2;
  random_seed = 1;
}

abbrev rolling : RollingBreaker ℕ
rolling = record {
  config = rolling_config;
  bucket_width = 5;
  state = record {
    current_started = 3;
    buckets = record { accepted = 1; total = 4 } ∷ record { accepted = 0; total = 6 } ∷ [];
  };
  random = 1;
  drop_sequence = 0;
}

rolling-IsValid : History.IsValid rolling
rolling-IsValid = record {
  room = omega arith;
  fits = omega arith;
  wide = omega arith;
  bounded = omega arith;
}

-- Three bucket widths later two empty buckets and the second bucket are left of four.
history-recent_example :
    ((history naturals rolling 18).1.0 ≡ 0) × ((history naturals rolling 18).1.1 ≡ 6)
history-recent_example = History.history-recent naturals rolling 18 rolling-IsValid

abbrev two_asks : List Drops.Event
two_asks = Drops.ask 10 ∷ Drops.complete failure 11 ∷ Drops.ask 12 ∷ []

probe_admitted_example : 0 < Drops.admitted naturals rolling two_asks
probe_admitted_example =
    Drops.probe_admitted naturals rolling two_asks (omega arith) (omega arith) (omega arith)

abbrev breaker : CircuitBreaker ℕ
breaker = record {
  config = config;
  mode = Circuit.consecutive (opened 5);
  counters = record { successes = 4; failures = 2; rejections = 0; cancellations = 0 };
}

abbrev trace : List Counting.Event
trace = Counting.call 6 ∷ Counting.call 15 ∷ Counting.complete success 16 ∷ []

-- One call is refused and one is admitted.
abbrev after_trace : CircuitBreaker ℕ
after_trace = record breaker {
  mode = Circuit.consecutive (half_open 1 1);
  counters = record { successes = 5; failures = 2; rejections = 1; cancellations = 0 };
}

-- The operation adds one to the world.
abbrev increments : ℕ → ℕ × Execution.Ending ℕ ℕ
increments w = (w + 1, Execution.returned (Circuit.ok w))

-- The breaker is open until 15: the operation does not run at 6.
abbrev refused : CircuitBreaker ℕ
refused = record breaker {
  counters = record { successes = 4; failures = 2; rejections = 1; cancellations = 0 };
}

abbrev outcome : Option (Circuit.Result ℕ (Circuit.CircuitBreakerError ℕ))
outcome = some (Circuit.err Circuit.opened)
