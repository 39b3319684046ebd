-- ===== src/Breaker/Config.antt =====
-- The configurations, and the states and outcomes that callers see (core/src/breaker.rs). A
-- builder's failed assertion is `none`.
use rust_zero.Prelude.{ℕ, ◌*◌, Bool, ◌&&◌, Option, none, some, ltb, leb, if◌then◌else◌, max}
use rust_zero.Floats.{Float}

pub record RollingConfig (X : Type 0) : Type 0 where
  pub window : ℕ
  pub buckets : ℕ
  pub sensitivity : X
  pub minimum_requests : ℕ
  pub probe_interval : ℕ
  pub random_seed : ℕ

pub data Policy (X : Type 0) : Type 0 where
  consecutive : Policy X
  rolling : RollingConfig X → Policy X

pub record CircuitBreakerConfig (X : Type 0) : Type 0 where
  pub max_failures : ℕ
  pub reset_timeout : ℕ
  pub half_open_max_calls : ℕ
  pub policy : Policy X

pub data BreakerState : Type 0 where
  closed opened half_open : BreakerState

pub data CircuitOutcome : Type 0 where
  success failure cancellation : CircuitOutcome

abbrev seconds : ℕ → ℕ
seconds n = n * 1_000_000_000

module _ {X : Type 0} where
  unfoldable pub new : ℕ → ℕ → Option (CircuitBreakerConfig X)
  new max_failures reset_timeout =
      if ltb 0 max_failures && ltb 0 reset_timeout
      then some (record {
        max_failures = max_failures;
        reset_timeout = reset_timeout;
        half_open_max_calls = 1;
        policy = consecutive;
      })
      else none

  unfoldable pub with_rolling : RollingConfig X → CircuitBreakerConfig X
  with_rolling config = record {
    max_failures = 5;
    reset_timeout = seconds 30;
    half_open_max_calls = 1;
    policy = rolling config;
  }

  unfoldable pub with_half_open_max_calls :
      CircuitBreakerConfig X → ℕ → Option (CircuitBreakerConfig X)
  with_half_open_max_calls c calls =
      if ltb 0 calls then some (record c { half_open_max_calls = calls }) else none

  unfoldable pub with_policy : CircuitBreakerConfig X → Policy X → CircuitBreakerConfig X
  with_policy c policy = record c { policy = policy }

  unfoldable pub with_window : RollingConfig X → ℕ → ℕ → Option (RollingConfig X)
  with_window c window buckets =
      if ltb 0 window && ltb 0 buckets && leb buckets window
      then some (record c { window = window; buckets = buckets })
      else none

  unfoldable pub with_minimum_requests : RollingConfig X → ℕ → RollingConfig X
  with_minimum_requests c requests = record c { minimum_requests = requests }

  unfoldable pub with_probe_interval : RollingConfig X → ℕ → Option (RollingConfig X)
  with_probe_interval c requests =
      if ltb 0 requests then some (record c { probe_interval = requests }) else none

  unfoldable pub with_random_seed : RollingConfig X → ℕ → RollingConfig X
  with_random_seed c seed = record c { random_seed = max seed 1 }

module _ {X : Type 0} (f : Float X) where
  unfoldable pub rolling_new : RollingConfig X
  rolling_new = record {
    window = seconds 5;
    buckets = 40;
    sensitivity = f.literal 3 2;
    minimum_requests = 5;
    probe_interval = 100;
    random_seed = 0;
  }

  unfoldable pub is_positive : X → Bool
  is_positive x = f.is_finite x && f.lt (f.of_ℕ 0) x

  unfoldable pub with_sensitivity : RollingConfig X → X → Option (RollingConfig X)
  with_sensitivity c sensitivity =
      if is_positive sensitivity then some (record c { sensitivity = sensitivity }) else none

  -- The four assertions of `validate`.
  unfoldable pub validate : RollingConfig X → Bool
  validate c =
      ltb 0 c.window
      && ltb 0 c.buckets
      && leb c.buckets c.window
      && is_positive c.sensitivity
      && ltb 0 c.probe_interval
