-- ===== src/Window/Rotation.antt =====
-- The size of the window of Window.antt, and the time that its current bucket covers.
use rust_zero.Prelude.{
  ℕ, zero, ◌+◌, suc, ◌-◌, ◌≤◌, ◌≡◌, ◌*◌, ◌/◌, ◌<◌, ◌∷◌, [], ◌++◌, List, arith, length,
  length-append, length-drop,
}
use rust_zero.Prelude.Words.{u32, u32_mod}
use rust_zero.Window.{WindowState, push_bounded, advance, rotate, elapsed_buckets}

module _ {B : Type 0} (empty : B) (count : ℕ) (room : 0 < count) where
  abbrev pub IsBounded : List B → Type 0
  IsBounded bs = (0 < length bs) × (length bs ≤ count)

  push_bounded-IsBounded : (bs : List B) → IsBounded bs → IsBounded (push_bounded empty count bs)
  unfolding push_bounded
  push_bounded-IsBounded bs h =
      ground (arith, length-append bs (empty ∷ []), length-drop 1 (bs ++ empty ∷ []))

  advance-IsBounded : (n : ℕ) (bs : List B) → IsBounded bs → IsBounded (advance empty count n bs)
  unfolding advance
  advance-IsBounded zero bs h = h
  advance-IsBounded (suc n) bs h = advance-IsBounded n _ (push_bounded-IsBounded bs h)

  -- A rotation keeps the queue of buckets not empty and within its capacity.
  pub rotate-IsBounded :
      (width : ℕ) (s : WindowState B) (now : ℕ)
      → IsBounded s.buckets
      → IsBounded (rotate empty count width s now).buckets
  unfolding rotate
  rotate-IsBounded width s now h =
      ground (
        arith,
        advance-IsBounded (elapsed_buckets count width (now - s.current_started)) s.buckets h,
      )

-- The current bucket covers the instant `now`.
abbrev pub IsCurrent : {B : Type 0} → ℕ → WindowState B → ℕ → Type 0
IsCurrent width s now = (s.current_started ≤ now) × (now < s.current_started + width)

mul_le : (w a b : ℕ) → a ≤ b → w * a ≤ w * b
mul_le w a b h = grind arith

elapsed_buckets-eq :
    (count width e : ℕ)
    → elapsed_buckets count width e < count
    → elapsed_buckets count width e ≡ e / width
unfolding elapsed_buckets
elapsed_buckets-eq count width e h = ground arith

mul-div-le :
    (width e : ℕ) → 0 < width → (width * (e / width) ≤ e) × (e < width * (e / width) + width)
mul-div-le width e h = grind arith

module _ {B : Type 0} (empty : B) (count width : ℕ) (room : 0 < count) (wide : 0 < width)
    (s : WindowState B) (now : ℕ) (started : s.current_started ≤ now) where
  steps : ℕ
  steps = elapsed_buckets count width (now - s.current_started)

  -- The cast `elapsed_buckets as u32` is exact for up to 2 ^ 32 buckets.
  pub rotate-IsCurrent : count ≤ u32_mod → IsCurrent width (rotate empty count width s now) now
  unfolding rotate steps
  rotate-IsCurrent c = ground (
    arith,
    elapsed_buckets-eq count width (now - s.current_started),
    mul-div-le width (now - s.current_started) wide,
  )

  pub rotate-started_le : (rotate empty count width s now).current_started ≤ now
  unfolding rotate steps
  rotate-started_le = ground (
    arith,
    elapsed_buckets-eq count width (now - s.current_started),
    mul-div-le width (now - s.current_started) wide,
    mul_le width (u32 steps) steps,
  )
