-- ===== src/Limit/Decision.antt =====
-- Decisions, and the conversions of time (core/src/limit.rs). A duration is a number of nanoseconds.
use rust_zero.Prelude.{ℕ, ◌+◌, ◌-◌, ◌*◌, ◌/◌, Bool, true, false, ltb, ◌==◌, if◌then◌else◌}
use rust_zero.Prelude.Words.{u32, saturate64, saturate128}

pub data LimitDecision : Type 0 where
  allowed hit_quota : LimitDecision
  over_quota : ℕ → LimitDecision

unfoldable pub is_allowed : LimitDecision → Bool
is_allowed (over_quota _) = false
is_allowed _ = true

-- `Duration::MAX`
abbrev pub duration_max : ℕ
duration_max = 18446744073709551615999999999

abbrev pub as_millis : ℕ → ℕ
as_millis duration = duration / 1_000_000

-- `u64::try_from(millis).unwrap_or(u64::MAX)` caps as `saturate64` does.
unfoldable pub duration_from_millis_saturating : ℕ → ℕ
duration_from_millis_saturating millis = saturate64 millis * 1_000_000

pub record PeriodWindow : Type 0 where
  pub used : ℕ
  pub window : ℕ

-- The time until the next window, for the clock `now` and a period in milliseconds.
unfoldable pub retry_after : ℕ → ℕ → ℕ
unfolding duration_from_millis_saturating
retry_after period now =
    duration_from_millis_saturating (saturate128 ((now / period + 1) * period) - now)

-- A window of an earlier or a later period starts anew.
unfoldable pub current : ℕ → PeriodWindow → PeriodWindow
current current_window w =
    if w.window == current_window then w else record { used = 0; window = current_window }

-- The test of the quota, and the use of one permit.
unfoldable pub spend : ℕ → ℕ → PeriodWindow → PeriodWindow × LimitDecision
spend quota retry w =
    if ltb w.used quota
    then (
      record w { used = u32 (w.used + 1) },
      if u32 (w.used + 1) == quota then hit_quota else allowed,
    )
    else (w, over_quota retry)
