-- ===== src/Window/Tests.antt =====
-- Runs of a rolling window, and each theorem about it at an input that meets its hypotheses.
use rust_zero.Prelude.{ℕ, ◌≡◌, refl, arith, [], ◌∷◌, some}
use rust_zero.Floats.Naturals.{naturals}
use rust_zero.Window
use rust_zero.Window.{Bucket, RollingWindow, WindowState, rotate, snapshot, record_value}
use rust_zero.Window.Totals.{total, rotate-keep_last}
use rust_zero.Window.Snapshots.{IsValid}

-- Buckets of ten nanoseconds that count.
abbrev counts : WindowState ℕ
counts = record { current_started = 100; buckets = 3 ∷ 5 ∷ 7 ∷ [] }

abbrev identity : ℕ → ℕ
identity n = n

rotate-keep_last_example : total identity (rotate 0 4 10 counts 125).buckets ≡ 12
rotate-keep_last_example =
    rotate-keep_last identity 0 refl 4 10 (omega arith) (omega arith) (omega arith) counts 125
      (omega arith)

abbrev bucket : Bucket ℕ
bucket = record { count = 2; sum = 9; minimum = some 4; maximum = some 5 }

abbrev window : RollingWindow ℕ
window = record {
  bucket_count = 3;
  bucket_width = 10;
  state = record { current_started = 100; buckets = bucket ∷ [] };
}

window-IsValid : IsValid naturals window
window-IsValid = record {
  room = omega arith;
  fits = omega arith;
  wide = omega arith;
  bounded = omega arith;
}

-- The test of core/src/rolling.rs: two values in the active window.
aggregates :
    (snapshot naturals
      (record window { state = record { current_started = 100; buckets = bucket ∷ [] } })
      109).1
    ≡ bucket
unfolding snapshot Window.empty_bucket Window.add_bucket rotate Window.elapsed_buckets
aggregates = refl
