-- ===== src/Limit/Token.antt =====
-- The process-local token bucket of core/src/limit.rs. Floating-point arithmetic is a parameter.
pub mod Level
use rust_zero.Prelude.{ℕ, ◌-◌, Bool, true, false, Option, none, some, ltb, if◌then◌else◌, ◌&&◌}
use rust_zero.Floats.{Float}
use rust_zero.Limit.Decision.{
  LimitDecision, allowed, hit_quota, over_quota, duration_max, is_allowed,
}

pub record Bucket (X : Type 0) : Type 0 where
  pub available : X
  pub last_refill : ℕ

pub record TokenLimiter (X : Type 0) : Type 0 where
  pub rate_per_second : ℕ
  pub burst : ℕ
  pub bucket : Bucket X

module _ {X : Type 0} (f : Float X) where
  -- `none` is a failed assertion.
  unfoldable pub new : ℕ → ℕ → ℕ → Option (TokenLimiter X)
  new rate burst now =
      if ltb 0 rate && ltb 0 burst
      then some (record {
        rate_per_second = rate;
        burst = burst;
        bucket = record { available = f.of_ℕ burst; last_refill = now };
      })
      else none

  unfoldable pub refilled : TokenLimiter X → ℕ → X
  refilled l now =
      let elapsed = f.as_secs (now - l.bucket.last_refill) in
      f.minimum (f.plus l.bucket.available (f.times elapsed (f.of_ℕ l.rate_per_second)))
        (f.of_ℕ l.burst)

  -- What is done with the bucket once it holds `available`.
  unfoldable pub spend : TokenLimiter X → ℕ → ℕ → X → TokenLimiter X × LimitDecision
  spend l permits now available =
      if f.le (f.of_ℕ permits) available
      then (let left = f.minus available (f.of_ℕ permits) in
          (
            record l { bucket = record { available = left; last_refill = now } },
            if f.lt left (f.of_ℕ 1) then hit_quota else allowed,
          ))
      else (
        record l { bucket = record { available = available; last_refill = now } },
        over_quota (
            f.from_secs (f.divide (f.minus (f.of_ℕ permits) available) (f.of_ℕ l.rate_per_second))),
      )

  unfoldable pub take : TokenLimiter X → ℕ → ℕ → Option (TokenLimiter X × LimitDecision)
  unfolding spend
  take l permits now =
      if ltb 0 permits
      then (if ltb l.burst permits
          then some (l, over_quota duration_max)
          else some (spend l permits now (refilled l now)))
      else none

  unfoldable pub allow : TokenLimiter X → ℕ → Option (TokenLimiter X × LimitDecision)
  unfolding take
  allow l now = take l 1 now
