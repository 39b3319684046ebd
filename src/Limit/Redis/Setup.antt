-- ===== src/Limit/Redis/Setup.antt =====
-- The constructors and the snapshot of the Redis limiters of core/src/limit.rs. The store and the
-- key, which only reach the store, are no fields: of a key, its bytes, an assertion reads if it is
-- empty.
use rust_zero.Prelude.{
  ℕ, Bool, true, false, not, List, [], ◌∷◌, Option, none, some, ◌>>=◌, ltb, if◌then◌else◌, ◌&&◌,
}
use rust_zero.Prelude.Words.{u64_mod}
use rust_zero.Floats.{Float}
use rust_zero.Limit.Decision.{as_millis}
use rust_zero.Limit.Token
use rust_zero.Limit.Redis.{
  BackendState, available, RedisLimiterMonitor, initial, RedisTokenLimiter, RedisPeriodLimiter,
}

pub record RedisLimiterSnapshot : Type 0 where
  pub backend_available : Bool
  pub backend_failures : ℕ
  pub backend_recoveries : ℕ
  pub redis_allowed : ℕ
  pub redis_hit_quota : ℕ
  pub redis_over_quota : ℕ
  pub rescue_allowed : ℕ
  pub rescue_hit_quota : ℕ
  pub rescue_over_quota : ℕ

abbrev is_up : BackendState → Bool
is_up available = true
is_up _ = false

abbrev is_empty : List ℕ → Bool
is_empty [] = true
is_empty (byte ∷ bytes) = false

unfoldable pub snapshot : RedisLimiterMonitor → RedisLimiterSnapshot
snapshot m = record {
  backend_available = is_up m.backend_state;
  backend_failures = m.backend_failures;
  backend_recoveries = m.backend_recoveries;
  redis_allowed = m.redis_allowed;
  redis_hit_quota = m.redis_hit_quota;
  redis_over_quota = m.redis_over_quota;
  rescue_allowed = m.rescue_allowed;
  rescue_hit_quota = m.rescue_hit_quota;
  rescue_over_quota = m.rescue_over_quota;
}

-- `RedisTokenLimiter::new`; `none` is a failed assertion.
unfoldable pub token_new :
    {X : Type 0} → Float X → List ℕ → ℕ → ℕ → ℕ → Option (RedisTokenLimiter X)
token_new f key rate_per_second burst now =
    if ltb 0 rate_per_second && ltb 0 burst && not (is_empty key)
    then (do
      local ← Token.new f rate_per_second burst now
      some (record {
        rate_per_second = rate_per_second;
        burst = burst;
        local = local;
        recovery_probe_interval_ms = 1_000;
        monitor = initial;
      }))
    else none

-- `with_recovery_probe_interval`: the new value of its field, for an interval in nanoseconds. An
-- interval under a millisecond becomes 0.
unfoldable pub recovery_probe_interval : ℕ → Option ℕ
recovery_probe_interval interval =
    if ltb 0 interval && ltb (as_millis interval) u64_mod then some (as_millis interval) else none

unfoldable pub token_with_recovery_probe_interval :
    {X : Type 0} → RedisTokenLimiter X → ℕ → Option (RedisTokenLimiter X)
token_with_recovery_probe_interval l interval = do
  millis ← recovery_probe_interval interval
  some (record l { recovery_probe_interval_ms = millis })

-- `RedisPeriodLimiter::new`
unfoldable pub period_new : {D : Type 0} → List ℕ → ℕ → ℕ → ℕ → Option (RedisPeriodLimiter D)
period_new namespace period quota max_rescue_keys =
    if ltb 0 period
      && ltb (as_millis period) u64_mod
      && ltb 0 quota
      && ltb 0 max_rescue_keys
      && not (is_empty namespace)
    then some (record {
      period = period;
      quota = quota;
      local = record { period = period; quota = quota; max_keys = max_rescue_keys; windows = [] };
      recovery_probe_interval_ms = 1_000;
      monitor = initial;
    })
    else none

unfoldable pub period_with_recovery_probe_interval :
    {D : Type 0} → RedisPeriodLimiter D → ℕ → Option (RedisPeriodLimiter D)
period_with_recovery_probe_interval l interval = do
  millis ← recovery_probe_interval interval
  some (record l { recovery_probe_interval_ms = millis })
