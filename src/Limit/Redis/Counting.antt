-- ===== src/Limit/Redis/Counting.antt =====
-- What the monitor records of the replies of Redis.
use rust_zero.Prelude.{
  ℕ, ◌+◌, ◌*◌, ◌<◌, ◌≡◌, refl, arith, List, [], ◌∷◌, Option, none, some, ◌>>=◌, ◌==◌, Bool-cases,
  inl, inr, ◌⊎◌,
}
use rust_zero.Prelude.Words.{u64_mod}
use rust_zero.Prelude.Int.{ℤ, pos, negsuc}
use rust_zero.Floats.{Float}
use rust_zero.Limit.Decision.{LimitDecision, allowed, hit_quota, over_quota}
use rust_zero.Limit.Token
use rust_zero.Limit.Redis.{
  unavailable, available, RedisLimiterMonitor, redis_failure, redis_success, rescue, count_redis,
  RedisTokenLimiter, token_end, parse_redis_decision,
}

abbrev pub from_redis : RedisLimiterMonitor → ℕ
from_redis m = m.redis_allowed + m.redis_hit_quota + m.redis_over_quota

abbrev pub from_rescue : RedisLimiterMonitor → ℕ
from_rescue m = m.rescue_allowed + m.rescue_hit_quota + m.rescue_over_quota

redis_success-counts :
    (m : RedisLimiterMonitor) (decision : LimitDecision)
    → from_redis m + 1 < u64_mod
    → (from_redis (redis_success m decision) ≡ from_redis m + 1)
      × (from_rescue (redis_success m decision) ≡ from_rescue m)
      × ((redis_success m decision).backend_state ≡ available)
unfolding redis_success count_redis
redis_success-counts m allowed h = ground arith
redis_success-counts m hit_quota h = ground arith
redis_success-counts m (over_quota _) h = ground arith

rescue-counts :
    (m : RedisLimiterMonitor) (decision : LimitDecision)
    → from_rescue m + 1 < u64_mod
    → (from_rescue (rescue m decision) ≡ from_rescue m + 1)
      × (from_redis (rescue m decision) ≡ from_redis m)
      × ((rescue m decision).backend_state ≡ m.backend_state)
      × ((rescue m decision).next_probe_at_ms ≡ m.next_probe_at_ms)
unfolding rescue
rescue-counts m allowed h = ground arith
rescue-counts m hit_quota h = ground arith
rescue-counts m (over_quota _) h = ground arith

-- The replies that the scripts send.
abbrev pub reply_of : LimitDecision → ℕ → List ℤ
reply_of allowed retry = pos 0 ∷ pos retry ∷ []
reply_of hit_quota retry = pos 1 ∷ pos retry ∷ []
reply_of (over_quota _) retry = pos 2 ∷ pos retry ∷ []

abbrev pub decided_as : LimitDecision → ℕ → LimitDecision
decided_as allowed retry = allowed
decided_as hit_quota retry = hit_quota
decided_as (over_quota _) retry = over_quota (retry * 1_000_000)

module _ {X : Type 0} (f : Float X) where
  -- A `take` that waited ends in one of two ways. Either the reply parses, the caller gets the
  -- decision of Redis, one Redis decision is counted and the backend is available; or the caller
  -- gets the decision of the local bucket, one rescue is counted and the backend is unavailable
  -- until the probe interval has passed.
  pub token_end-cases :
      (l l' : RedisTokenLimiter X) (reply : Option (List ℤ)) (permits now millis : ℕ)
      (decision : LimitDecision)
      → from_redis l.monitor + 1 < u64_mod
      → from_rescue l.monitor + 1 < u64_mod
      → millis + l.recovery_probe_interval_ms < u64_mod
      → token_end f l reply permits now millis ≡ some (l', decision)
      → (((reply >>= parse_redis_decision) ≡ some decision)
          × (l'.monitor.backend_state ≡ available)
          × (from_redis l'.monitor ≡ from_redis l.monitor + 1)
          × (from_rescue l'.monitor ≡ from_rescue l.monitor))
        ⊎ (((reply >>= parse_redis_decision) ≡ none)
            × (Token.take f l.local permits now ≡ some (l'.local, decision))
            × (l'.monitor.backend_state ≡ unavailable)
            × (l'.monitor.next_probe_at_ms ≡ millis + l.recovery_probe_interval_ms)
            × (from_rescue l'.monitor ≡ from_rescue l.monitor + 1)
            × (from_redis l'.monitor ≡ from_redis l.monitor))
  unfolding token_end redis_failure
  token_end-cases l l' reply permits now millis decision a b c e = ground (
    arith,
    redis_success-counts l.monitor decision,
    rescue-counts (redis_failure l.monitor l.recovery_probe_interval_ms millis) decision,
  )

-- What a script answers is read back: its code and, if the quota is used up, its wait in
-- milliseconds.
pub parse-reply :
    (decision : LimitDecision) (retry : ℕ)
    → parse_redis_decision (reply_of decision retry) ≡ some (decided_as decision retry)
unfolding parse_redis_decision
parse-reply allowed retry = refl
parse-reply hit_quota retry = refl
parse-reply (over_quota _) retry = refl

-- A reply is taken for a decision only if it has two numbers, the code 0, 1 or 2, and with the code
-- 2 a wait that is not negative.
pub parse-reply_only :
    (reply : List ℤ) {decision : LimitDecision}
    → parse_redis_decision reply ≡ some decision
    → (retry : ℤ) × (((reply ≡ pos 0 ∷ retry ∷ []) × (decision ≡ allowed))
        ⊎ ((reply ≡ pos 1 ∷ retry ∷ []) × (decision ≡ hit_quota))
        ⊎ ((n : ℕ) × (reply ≡ pos 2 ∷ retry ∷ [])
            × (retry ≡ pos n)
            × (decision ≡ over_quota (n * 1_000_000))))
unfolding parse_redis_decision
parse-reply_only [] e = cc
parse-reply_only (a ∷ []) e = cc
parse-reply_only (pos a ∷ pos b ∷ []) e = (
  pos b,
  elim (Bool-cases (a == 0)) [
    | inl zero_code ↦ inl (ground arith)
    | inr not_zero ↦ elim (Bool-cases (a == 1)) [
      | inl one_code ↦ inr (inl (ground arith))
      | inr not_one ↦ inr (inr (b, ground arith, refl, ground arith))
    ]
  ],
)
parse-reply_only (pos a ∷ negsuc b ∷ []) e = (negsuc b, ground arith)
parse-reply_only (negsuc a ∷ b ∷ []) e = cc
parse-reply_only (a ∷ b ∷ c ∷ r) e = cc
