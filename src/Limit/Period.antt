-- ===== src/Limit/Period.antt =====
-- The keyed fixed-window limiter of core/src/limit.rs. `now` is `unix_millis()`.
pub mod Quota
use rust_zero.Prelude.{
  ℕ, ◌+◌, ◌-◌, ◌*◌, ◌/◌, Bool, true, false, List, [], ◌∷◌, Option, none, some, ltb, ◌==◌,
  if◌then◌else◌, ◌&&◌,
}
use rust_zero.Prelude.HashMap
use rust_zero.Limit.Decision.{LimitDecision, PeriodWindow, as_millis, retry_after, current, spend}

pub record PeriodLimiter (K : Type 0) : Type 0 where
  pub period : ℕ
  pub quota : ℕ
  pub windows : List (K × PeriodWindow)

-- `none` is a failed assertion.
unfoldable pub new : {K : Type 0} → ℕ → ℕ → Option (PeriodLimiter K)
new period quota =
    if ltb 0 period && ltb 0 quota
    then some (record { period = period; quota = quota; windows = [] })
    else none

module _ {K : Type 0} (d : Discrete K) where
  -- `entry(key).or_insert(..)`, reset if the window is not the current one.
  unfoldable pub entry : List (K × PeriodWindow) → K → ℕ → PeriodWindow
  entry windows key current_window = elim (HashMap.get d key windows) [
    | none ↦ record { used = 0; window = current_window }
    | some w ↦ current current_window w
  ]

  -- `none` is the division by a period that is under a millisecond.
  unfoldable pub take : PeriodLimiter K → K → ℕ → Option (PeriodLimiter K × LimitDecision)
  take l key now =
      if period == 0
      then none
      else let (w, decision) =
          spend l.quota (retry_after period now) (entry l.windows key (now / period)) in
        some (record l { windows = HashMap.insert d key w l.windows }, decision)
    where
      period : ℕ
      period = as_millis l.period

  unfoldable pub clear : PeriodLimiter K → K → PeriodLimiter K
  clear l key = record l { windows = HashMap.remove d key l.windows }
