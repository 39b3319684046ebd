-- ===== src/Breaker/Consecutive.antt =====
-- The consecutive-failure policy of core/src/breaker.rs: closed, open, and half-open with a bounded
-- number of probes.
pub mod Bounds
pub mod Trips
pub mod Probes
pub mod Recovery
pub mod Stale
use rust_zero.Prelude.{ℕ, ◌+◌, ◌-◌, Bool, true, false, ltb, leb, ◌==◌, if◌then◌else◌}
use rust_zero.Prelude.Words.{u32}
use rust_zero.Breaker.Config.{
  CircuitBreakerConfig, BreakerState, CircuitOutcome, success, failure, cancellation,
}

-- `opened_at` is an instant.
pub data ConsecutiveState : Type 0 where
  closed : ℕ → ConsecutiveState
  opened : ℕ → ConsecutiveState
  half_open : ℕ → ℕ → ConsecutiveState

unfoldable pub status : ConsecutiveState → BreakerState
status (closed _) = BreakerState.closed
status (opened _) = BreakerState.opened
status (half_open _ _) = BreakerState.half_open

module _ {X : Type 0} (config : CircuitBreakerConfig X) where
  -- The second `if let`, which counts a probe.
  unfoldable pub count_probe : ConsecutiveState → ConsecutiveState × Bool
  count_probe (half_open attempts successes) =
      if leb config.half_open_max_calls attempts
      then (half_open attempts successes, false)
      else (half_open (u32 (attempts + 1)) successes, true)
  count_probe s = (s, true)

  -- `elapsed` is 0 when the clock stands before `opened_at`.
  unfoldable pub before_consecutive : ConsecutiveState → ℕ → ConsecutiveState × Bool
  unfolding count_probe
  before_consecutive (opened opened_at) now =
      if ltb (now - opened_at) config.reset_timeout
      then (opened opened_at, false)
      else count_probe (half_open 0 0)
  before_consecutive s now = count_probe s

  unfoldable pub record_consecutive : ConsecutiveState → CircuitOutcome → ℕ → ConsecutiveState
  record_consecutive (closed failures) success now = closed 0
  record_consecutive (half_open attempts successes) success now =
      if u32 (successes + 1) == config.half_open_max_calls
      then closed 0
      else half_open attempts (u32 (successes + 1))
  record_consecutive (closed failures) failure now =
      if leb config.max_failures (u32 (failures + 1))
      then opened now
      else closed (u32 (failures + 1))
  record_consecutive (half_open attempts successes) failure now = opened now
  record_consecutive (half_open attempts successes) cancellation now =
      half_open (attempts - 1) successes
  record_consecutive s _ now = s
