-- ===== src/Limit/Redis.antt =====
-- The Redis-backed limiters of core/src/limit.rs and the monitor that they share. The scripts run
-- inside Redis, so a reply is an argument; `take` is split at its `await`: a future that is dropped
-- there has a start and no end. SHA-256 is an argument too.
pub mod Setup
pub mod Probing
pub mod Counting
use mathlib.Core.Option
use rust_zero.Prelude.{
  ℕ, ◌+◌, ◌*◌, Bool, true, false, List, [], ◌∷◌, Option, none, some, ◌>>=◌, ltb, leb, ◌==◌,
  if◌then◌else◌, ◌&&◌,
}
use rust_zero.Prelude.Words.{u64, saturate64}
use rust_zero.Prelude.Int.{ℤ, pos, negsuc}
use rust_zero.Floats.{Float}
use rust_zero.Limit.Decision.{
  LimitDecision, allowed, hit_quota, over_quota, duration_max, as_millis,
}
use rust_zero.Limit.Token
use rust_zero.Limit.Token.{TokenLimiter}
use rust_zero.Limit.Bounded
use rust_zero.Limit.Bounded.{BoundedPeriodLimiter}

-- 0, 1, 2 and 3 in the source.
pub data BackendState : Type 0 where
  not_observed available unavailable probing : BackendState

pub record RedisLimiterMonitor : Type 0 where
  pub backend_state : BackendState
  pub next_probe_at_ms : ℕ
  pub backend_failures : ℕ
  pub backend_recoveries : ℕ
  pub redis_allowed : ℕ
  pub redis_hit_quota : ℕ
  pub redis_over_quota : ℕ
  pub rescue_allowed : ℕ
  pub rescue_hit_quota : ℕ
  pub rescue_over_quota : ℕ

unfoldable pub initial : RedisLimiterMonitor
initial = record {
  backend_state = not_observed;
  next_probe_at_ms = 0;
  backend_failures = 0;
  backend_recoveries = 0;
  redis_allowed = 0;
  redis_hit_quota = 0;
  redis_over_quota = 0;
  rescue_allowed = 0;
  rescue_hit_quota = 0;
  rescue_over_quota = 0;
}

-- `now` is `unix_millis_u64()`.
attempt_in : BackendState → RedisLimiterMonitor → ℕ → RedisLimiterMonitor × Bool
attempt_in unavailable m now =
    if leb m.next_probe_at_ms now then (record m { backend_state = probing }, true) else (m, false)
attempt_in probing m now = (m, false)
attempt_in _ m now = (m, true)

unfoldable pub should_attempt_redis : RedisLimiterMonitor → ℕ → RedisLimiterMonitor × Bool
unfolding attempt_in
should_attempt_redis m now = attempt_in m.backend_state m now

abbrev is_down : BackendState → Bool
is_down unavailable = true
is_down probing = true
is_down _ = false

unfoldable pub count_redis : LimitDecision → RedisLimiterMonitor → RedisLimiterMonitor
count_redis allowed m = record m { redis_allowed = u64 (m.redis_allowed + 1) }
count_redis hit_quota m = record m { redis_hit_quota = u64 (m.redis_hit_quota + 1) }
count_redis (over_quota _) m = record m { redis_over_quota = u64 (m.redis_over_quota + 1) }

unfoldable pub redis_success : RedisLimiterMonitor → LimitDecision → RedisLimiterMonitor
redis_success m decision = count_redis decision (record m {
  backend_state = available;
  backend_recoveries =
      if is_down m.backend_state then u64 (m.backend_recoveries + 1) else m.backend_recoveries;
})

unfoldable pub redis_failure : RedisLimiterMonitor → ℕ → ℕ → RedisLimiterMonitor
redis_failure m probe_interval_ms now = record m {
  next_probe_at_ms = saturate64 (now + probe_interval_ms);
  backend_state = unavailable;
  backend_failures = u64 (m.backend_failures + 1);
}

unfoldable pub rescue : RedisLimiterMonitor → LimitDecision → RedisLimiterMonitor
rescue m allowed = record m { rescue_allowed = u64 (m.rescue_allowed + 1) }
rescue m hit_quota = record m { rescue_hit_quota = u64 (m.rescue_hit_quota + 1) }
rescue m (over_quota _) = record m { rescue_over_quota = u64 (m.rescue_over_quota + 1) }

decision_of : ℤ → ℤ → Option LimitDecision
decision_of (pos outcome) (pos retry_after) =
    if outcome == 0
    then some allowed
    else if outcome == 1
    then some hit_quota
    else if outcome == 2
    then some (over_quota (retry_after * 1_000_000))
    else none
decision_of (pos outcome) (negsuc _) =
    if outcome == 0 then some allowed else if outcome == 1 then some hit_quota else none
decision_of (negsuc _) _ = none

-- `none` is `UnexpectedResponse`.
unfoldable pub parse_redis_decision : List ℤ → Option LimitDecision
unfolding decision_of
parse_redis_decision (outcome ∷ retry_after ∷ []) = decision_of outcome retry_after
parse_redis_decision _ = none

-- How a `take` leaves the caller at its `await`.
pub data Start : Type 0 where
  decided : LimitDecision → Start
  waits : Start

pub record RedisTokenLimiter (X : Type 0) : Type 0 where
  pub rate_per_second : ℕ
  pub burst : ℕ
  pub local : TokenLimiter X
  pub recovery_probe_interval_ms : ℕ
  pub monitor : RedisLimiterMonitor

pub record RedisPeriodLimiter (D : Type 0) : Type 0 where
  pub period : ℕ
  pub quota : ℕ
  pub local : BoundedPeriodLimiter D
  pub recovery_probe_interval_ms : ℕ
  pub monitor : RedisLimiterMonitor

module _ {X : Type 0} (f : Float X) where
  token_rescue : RedisTokenLimiter X → ℕ → ℕ → Option (RedisTokenLimiter X × LimitDecision)
  token_rescue l permits now = do
    (local, decision) ← Token.take f l.local permits now
    some (record l { local = local; monitor = rescue l.monitor decision }, decision)

  -- `RedisTokenLimiter::take` up to the `await`. `now` is the `Instant`, `millis` the Unix clock.
  unfoldable pub token_start :
      RedisTokenLimiter X → ℕ → ℕ → ℕ → Option (RedisTokenLimiter X × Start)
  unfolding token_rescue
  token_start l permits now millis =
      if ltb 0 permits
      then (if ltb l.burst permits
          then some (l, decided (over_quota duration_max))
          else let (monitor, attempt) = should_attempt_redis l.monitor millis in
            if attempt then some (record l { monitor = monitor }, waits) else do
              (l', decision) ← token_rescue (record l { monitor = monitor }) permits now
              some (l', decided decision))
      else none

  token_reply :
      RedisTokenLimiter X
      → Option LimitDecision
      → ℕ
      → ℕ
      → ℕ
      → Option (RedisTokenLimiter X × LimitDecision)
  token_reply l (some decision) permits now millis =
      some (record l { monitor = redis_success l.monitor decision }, decision)
  token_reply l none permits now millis =
      token_rescue
        (record l { monitor = redis_failure l.monitor l.recovery_probe_interval_ms millis }) permits
        now

  -- The rest of it, from the reply of the store; `none` is an error of the store.
  unfoldable pub token_end :
      RedisTokenLimiter X
      → Option (List ℤ)
      → ℕ
      → ℕ
      → ℕ
      → Option (RedisTokenLimiter X × LimitDecision)
  unfolding token_reply token_rescue
  token_end l reply permits now millis =
      token_reply l (reply >>= parse_redis_decision) permits now millis

module _ {K D : Type 0} (d : Discrete D) (hex_digest : K → D) where
  period_rescue : RedisPeriodLimiter D → K → ℕ → Option (RedisPeriodLimiter D × LimitDecision)
  period_rescue l key millis = do
    (local, decision) ← Bounded.take d l.local (hex_digest key) millis
    some (record l { local = local; monitor = rescue l.monitor decision }, decision)

  unfoldable pub period_start : RedisPeriodLimiter D → K → ℕ → Option (RedisPeriodLimiter D × Start)
  unfolding period_rescue
  period_start l key millis =
      let (monitor, attempt) = should_attempt_redis l.monitor millis in
      if attempt then some (record l { monitor = monitor }, waits) else do
        (l', decision) ← period_rescue (record l { monitor = monitor }) key millis
        some (l', decided decision)

  period_reply :
      RedisPeriodLimiter D
      → Option LimitDecision
      → K
      → ℕ
      → Option (RedisPeriodLimiter D × LimitDecision)
  period_reply l (some decision) key millis =
      some (record l { monitor = redis_success l.monitor decision }, decision)
  period_reply l none key millis =
      period_rescue
        (record l { monitor = redis_failure l.monitor l.recovery_probe_interval_ms millis }) key
        millis

  unfoldable pub period_end :
      RedisPeriodLimiter D → Option (List ℤ) → K → ℕ → Option (RedisPeriodLimiter D × LimitDecision)
  unfolding period_reply period_rescue
  period_end l reply key millis = period_reply l (reply >>= parse_redis_decision) key millis
