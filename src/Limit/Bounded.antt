-- ===== src/Limit/Bounded.antt =====
-- The rescue limiter of core/src/limit.rs, which holds a bounded number of keys.
pub mod Capacity
use rust_zero.Prelude.{
  ℕ, ◌+◌, ◌-◌, ◌*◌, ◌/◌, Bool, true, false, not, List, [], ◌∷◌, Option, none, some, ltb, leb, ◌==◌,
  if◌then◌else◌, ◌&&◌, length,
}
use rust_zero.Prelude.HashMap
use rust_zero.Limit.Decision.{
  LimitDecision, over_quota, PeriodWindow, as_millis, retry_after, spend,
}
use rust_zero.Limit.Period.{entry}

pub record BoundedPeriodLimiter (K : Type 0) : Type 0 where
  pub period : ℕ
  pub quota : ℕ
  pub max_keys : ℕ
  pub windows : List (K × PeriodWindow)

abbrev pub is_some : {A : Type 0} → Option A → Bool
is_some none = false
is_some (some a) = true

abbrev pub is_active : {K : Type 0} → ℕ → K → PeriodWindow → Bool
is_active current_window key w = w.window == current_window

module _ {K : Type 0} (d : Discrete K) where
  -- The first `if`: the map if a new key does not fit it, after stale windows are dropped.
  unfoldable pub make_room : BoundedPeriodLimiter K → K → ℕ → List (K × PeriodWindow)
  make_room l key current_window =
      if not (is_some (HashMap.get d key l.windows)) && leb l.max_keys (length l.windows)
      then HashMap.retain (is_active current_window) l.windows
      else l.windows

  unfoldable pub is_full : BoundedPeriodLimiter K → K → List (K × PeriodWindow) → Bool
  is_full l key windows =
      not (is_some (HashMap.get d key l.windows)) && leb l.max_keys (length windows)

  -- `none` is the division by a period that is under a millisecond.
  unfoldable pub take :
      BoundedPeriodLimiter K → K → ℕ → Option (BoundedPeriodLimiter K × LimitDecision)
  take l key now =
      if period == 0
      then none
      else let windows = make_room l key (now / period) in
        if is_full l key windows
        then some (record l { windows = windows }, over_quota (retry_after period now))
        else let (w, decision) =
            spend l.quota (retry_after period now) (entry d windows key (now / period)) in
          some (record l { windows = HashMap.insert d key w windows }, decision)
    where
      period : ℕ
      period = as_millis l.period
