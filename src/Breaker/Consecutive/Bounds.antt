-- ===== src/Breaker/Consecutive/Bounds.antt =====
-- The counters of the consecutive policy.
use rust_zero.Prelude.{ℕ, ◌≤◌, ◌<◌, arith}
use rust_zero.Prelude.Words.{u32_mod}
use rust_zero.Breaker.Config.{CircuitBreakerConfig, CircuitOutcome, success}
use rust_zero.Breaker.Consecutive.{
  ConsecutiveState, closed, opened, half_open, before_consecutive, record_consecutive,
}

-- What the builders ensure, and the width of the fields.
pub record IsValid {X : Type 0} (config : CircuitBreakerConfig X) : Type 0 where
  pub some_failures : 0 < config.max_failures
  pub some_calls : 0 < config.half_open_max_calls
  pub failures_fit : config.max_failures < u32_mod
  pub calls_fit : config.half_open_max_calls < u32_mod

module _ {X : Type 0} (config : CircuitBreakerConfig X) where
  abbrev pub InBounds : ConsecutiveState → Type 0
  InBounds (closed failures) = failures < config.max_failures
  InBounds (opened opened_at) = Unit
  InBounds (half_open attempts successes) =
      (attempts ≤ config.half_open_max_calls) × (successes < config.half_open_max_calls)

  pub before_consecutive-InBounds :
      (s : ConsecutiveState) (now : ℕ)
      → IsValid config
      → InBounds s
      → InBounds (before_consecutive config s now).0
  unfolding before_consecutive
  before_consecutive-InBounds (closed failures) now v h = h
  before_consecutive-InBounds (opened opened_at) now v h = ground arith
  before_consecutive-InBounds (half_open attempts successes) now v h = ground arith

  pub record_consecutive-InBounds :
      (s : ConsecutiveState) (outcome : CircuitOutcome) (now : ℕ)
      → IsValid config
      → InBounds s
      → InBounds (record_consecutive config s outcome now)
  unfolding record_consecutive
  record_consecutive-InBounds (closed failures) success now v h = ground arith
  record_consecutive-InBounds (half_open attempts successes) success now v h = ground arith
  record_consecutive-InBounds s o now v h = ground arith
