-- ===== src/Limit/Tests.antt =====
-- Each theorem about the limiters at an input that meets its hypotheses, and runs of them.
use rust_zero.Prelude.{ℕ, ◌≡◌, refl, arith, List, [], ◌∷◌, none, some, ℕ_discrete}
use rust_zero.Prelude.HashMap
use rust_zero.Floats.Naturals.{naturals}
use rust_zero.Limit.Decision.{PeriodWindow, over_quota, retry_after}
use rust_zero.Limit.Token.{TokenLimiter}
use rust_zero.Limit.Period
use rust_zero.Limit.Period.{PeriodLimiter}
use rust_zero.Limit.Period.Quota
use rust_zero.Limit.Bounded
use rust_zero.Limit.Bounded.{BoundedPeriodLimiter}
use rust_zero.Limit.Bounded.Capacity
use rust_zero.Limit.Redis
use rust_zero.Limit.Redis.{RedisLimiterMonitor, RedisTokenLimiter, BackendState}
use rust_zero.Limit.Redis.Probing

-- Two permits a second.
abbrev limiter : PeriodLimiter ℕ
limiter = record { period = 1_000_000_000; quota = 2; windows = [] }

-- Key 1 is used three times in one second, key 2 once.
abbrev takes : List (ℕ × ℕ)
takes = (1, 5_100) ∷ (2, 5_200) ∷ (1, 5_300) ∷ (1, 5_999) ∷ []

granted_total_example :
    (last : PeriodLimiter ℕ) × (Quota.granted ℕ_discrete 1 limiter takes ≡ some (last, 2))
unfolding Period.entry HashMap.get ℕ_discrete
granted_total_example =
    Quota.granted_total ℕ_discrete 1 limiter takes 5 (omega arith) (omega arith) (omega arith)
      (omega arith)

take_panics_example :
    (l : PeriodLimiter ℕ) × (Period.new 500_000 3 ≡ some l)
    × (Period.take ℕ_discrete l 1 5_300 ≡ none)
take_panics_example =
    Quota.take_panics ℕ_discrete 500_000 3 5_300 1 (omega arith) (omega arith) (omega arith)

abbrev window : PeriodWindow
window = record { used = 1; window = 5 }

-- A rescue limiter whose only place is taken in second 5.
abbrev rescue : BoundedPeriodLimiter ℕ
rescue = record { period = 1_000_000_000; quota = 2; max_keys = 1; windows = (1, window) ∷ [] }

rescue-IsValid : Capacity.IsValid ℕ_discrete rescue
unfolding HashMap.get
rescue-IsValid = record { distinct = (refl, tt); capacity = omega arith }

refused : Bounded.take ℕ_discrete rescue 2 5_300 ≡ some (rescue, over_quota 700_000_000)
unfolding Bounded.take Bounded.make_room Bounded.is_full HashMap.get HashMap.retain ℕ_discrete
    retry_after
refused = refl

take_keeps_active_example : HashMap.get ℕ_discrete 1 rescue.windows ≡ some window
unfolding HashMap.get ℕ_discrete
take_keeps_active_example =
    Capacity.take_keeps_active ℕ_discrete rescue rescue 2 1 5_300 (λ e. omega arith) refl refl
      refused

abbrev bucket : TokenLimiter ℕ
bucket = record {
  rate_per_second = 2;
  burst = 10;
  bucket = record { available = 4; last_refill = 1_000_000_000 };
}

abbrev down : RedisLimiterMonitor
down = record {
  backend_state = Redis.unavailable;
  next_probe_at_ms = 100;
  backend_failures = 1;
  backend_recoveries = 0;
  redis_allowed = 0;
  redis_hit_quota = 0;
  redis_over_quota = 0;
  rescue_allowed = 0;
  rescue_hit_quota = 0;
  rescue_over_quota = 0;
}

abbrev redis : RedisTokenLimiter ℕ
redis = record {
  rate_per_second = 2;
  burst = 10;
  local = bucket;
  recovery_probe_interval_ms = 1_000;
  monitor = record down { backend_state = Redis.probing };
}

-- A call that probes at time 100, and later ones after it is dropped.
abbrev probe : Probing.Call
probe = record { permits = 1; now = 2_000_000_000; millis = 100 }

abbrev later : List Probing.Event
later =
    Probing.takes (record { permits = 1; now = 3_000_000_000; millis = 1_100 })
    ∷ Probing.replies 0 (some []) 3_000_000_000 1_100
    ∷ Probing.takes (record { permits = 20; now = 9_000_000_000; millis = 900_000 })
    ∷ []

abandoned_probe_example :
    (last : Probing.Client ℕ) × (Probing.run naturals
        (record { limiter = record redis { monitor = down }; waiting = [] })
        (Probing.takes probe ∷ Probing.drops 0 ∷ later)
      ≡ some (last, 1))
    × (last.limiter.monitor.backend_state ≡ Redis.probing)
    × (last.waiting ≡ [])
abandoned_probe_example =
    Probing.abandoned_probe naturals (record redis { monitor = down }) probe later refl
      (omega arith) (omega arith) (omega arith) (omega arith, (tt, (omega arith, tt)))

-- The probe fails at time 100.
abbrev failed : RedisTokenLimiter ℕ
failed = record redis {
  local = record bucket { bucket = record { available = 5; last_refill = 2_000_000_000 } };
  monitor = record down { next_probe_at_ms = 1_100; backend_failures = 2; rescue_allowed = 1 };
}
