-- ===== src/Breaker/Circuit.antt =====
-- The breaker itself (core/src/breaker.rs): the admission before a call, the outcome after it, the
-- lifetime counters, permits, and the wrappers that run an operation.
pub mod Counting
pub mod Execution
use rust_zero.Prelude.{
  ℕ, ◌+◌, ◌≡◌, Bool, true, false, not, Option, none, some, ◌>>=◌, if◌then◌else◌,
}
use rust_zero.Prelude.Words.{u64}
use rust_zero.Floats.{Float}
use rust_zero.Breaker.Config
use rust_zero.Breaker.Config.{
  CircuitBreakerConfig, Policy, BreakerState, CircuitOutcome, success, failure, cancellation,
  validate,
}
use rust_zero.Breaker.Consecutive.{ConsecutiveState, status, before_consecutive, record_consecutive}
use rust_zero.Breaker.Rolling
use rust_zero.Breaker.Rolling.{
  RollingBreaker, history, should_drop, record_outcome as record_rolling,
}

pub data BreakerMode (X : Type 0) : Type 0 where
  consecutive : ConsecutiveState → BreakerMode X
  rolling : RollingBreaker X → BreakerMode X

pub record OutcomeCounters : Type 0 where
  pub successes : ℕ
  pub failures : ℕ
  pub rejections : ℕ
  pub cancellations : ℕ

pub record CircuitBreaker (X : Type 0) : Type 0 where
  pub config : CircuitBreakerConfig X
  pub mode : BreakerMode X
  pub counters : OutcomeCounters

-- The fields of a snapshot of the rolling history; the counters are those of the breaker.
pub record CircuitBreakerSnapshot (X : Type 0) : Type 0 where
  pub accepted : ℕ
  pub total : ℕ
  pub drop_ratio : X
  pub counters : OutcomeCounters

pub data CircuitBreakerError (E : Type 0) : Type 0 where
  opened : CircuitBreakerError E
  operation : E → CircuitBreakerError E

pub data Result (T E : Type 0) : Type 0 where
  ok : T → Result T E
  err : E → Result T E

unfoldable pub count_outcome : OutcomeCounters → CircuitOutcome → OutcomeCounters
count_outcome c success = record c { successes = u64 (c.successes + 1) }
count_outcome c failure = record c { failures = u64 (c.failures + 1) }
count_outcome c cancellation = record c { cancellations = u64 (c.cancellations + 1) }

module _ {X : Type 0} where
  mode_record : CircuitBreakerConfig X → BreakerMode X → CircuitOutcome → ℕ → Option (BreakerMode X)
  mode_record config (consecutive s) outcome now =
      some (consecutive (record_consecutive config s outcome now))
  mode_record config (rolling r) outcome now = do
    r' ← record_rolling r outcome now
    some (rolling r')

  -- `none` is the panic of a rolling window with no bucket.
  unfoldable pub record_outcome : CircuitBreaker X → CircuitOutcome → ℕ → Option (CircuitBreaker X)
  unfolding mode_record
  record_outcome b outcome now = do
    mode ← mode_record b.config b.mode outcome now
    some (record b { mode = mode; counters = count_outcome b.counters outcome })

module _ {X : Type 0} (f : Float X) where
  new_mode : Policy X → ℕ → ℕ → Option (BreakerMode X × ℕ)
  new_mode Policy.consecutive now next_seed =
      some (consecutive (ConsecutiveState.closed 0), next_seed)
  new_mode (Policy.rolling r) now next_seed =
      if validate f r
      then (let (b, seed) = Rolling.new r now next_seed in some (rolling b, seed))
      else none

  -- `none` is an assertion of `validate` that fails; the number is the static `NEXT_SEED`.
  unfoldable pub new : CircuitBreakerConfig X → ℕ → ℕ → Option (CircuitBreaker X × ℕ)
  unfolding new_mode
  new config now next_seed = do
    (mode, seed) ← new_mode config.policy now next_seed
    some (
      record {
        config = config;
        mode = mode;
        counters = record { successes = 0; failures = 0; rejections = 0; cancellations = 0 };
      },
      seed,
    )

  mode_before : CircuitBreakerConfig X → BreakerMode X → ℕ → BreakerMode X × Bool
  mode_before config (consecutive s) now =
      let (s', admitted) = before_consecutive config s now in (consecutive s', admitted)
  mode_before config (rolling r) now =
      let (r', dropped) = should_drop f r now in (rolling r', not dropped)

  -- Whether the call is admitted.
  unfoldable pub before_call : CircuitBreaker X → ℕ → CircuitBreaker X × Bool
  unfolding mode_before
  before_call b now =
      let (mode, admitted) = mode_before b.config b.mode now in
      if admitted then (record b { mode = mode }, true) else (
        record b { mode = mode; counters = record c { rejections = u64 (c.rejections + 1) } },
        false,
      )
    where
      open b use {counters as c}

  mode_state : BreakerMode X → ℕ → BreakerMode X × BreakerState
  mode_state (consecutive s) now = (consecutive s, status s)
  mode_state (rolling r) now =
      let (r', (_, _, ratio)) = history f r now in
      (rolling r', if f.lt (f.of_ℕ 0) ratio then BreakerState.opened else BreakerState.closed)

  -- Reading the state of a rolling breaker rotates its window.
  unfoldable pub state : CircuitBreaker X → ℕ → CircuitBreaker X × BreakerState
  unfolding mode_state
  state b now = let (mode, seen) = mode_state b.mode now in (record b { mode = mode }, seen)

  mode_history : BreakerMode X → ℕ → BreakerMode X × (ℕ × ℕ × X)
  mode_history (consecutive s) now = (consecutive s, (0, 0, f.of_ℕ 0))
  mode_history (rolling r) now = let (r', h) = history f r now in (rolling r', h)

  unfoldable pub snapshot : CircuitBreaker X → ℕ → CircuitBreaker X × CircuitBreakerSnapshot X
  unfolding mode_history
  snapshot b now =
      let (mode, (accepted, total, ratio)) = mode_history b.mode now in
      (
        record b { mode = mode },
        record { accepted = accepted; total = total; drop_ratio = ratio; counters = b.counters },
      )
