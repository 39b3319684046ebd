-- ===== src/Floats.antt =====
-- The `f64` operations that the program calls. The model computes with any implementation of them.
pub mod Naturals
use rust_zero.Prelude.{ℕ, Bool, true, false, ◌≡◌, ◌<◌, ◌≤◌, ◌^◌}

pub record Float (X : Type 0) : Type 0 where
  -- `n as f64`, and the literal with numerator and denominator.
  pub of_ℕ : ℕ → X
  pub literal : ℕ → ℕ → X
  pub plus : X → X → X
  pub minus : X → X → X
  pub times : X → X → X
  pub divide : X → X → X
  pub minimum : X → X → X
  pub maximum : X → X → X
  pub ceil : X → X
  pub is_finite : X → Bool
  pub le : X → X → Bool
  pub lt : X → X → Bool
  -- `x as usize`
  pub to_ℕ : X → ℕ
  -- `Duration::as_secs_f64` and `Duration::from_secs_f64`, in nanoseconds.
  pub as_secs : ℕ → X
  pub from_secs : X → ℕ

-- What IEEE 754 and the standard library promise of these operations, NaN and infinities included:
-- each law is about a number that the program converts from an integer, or holds of every value.
pub record FloatLaws {X : Type 0} (f : Float X) : Type 0 where
  pub le_maximum : (x : X) (n : ℕ) → f.le (f.of_ℕ n) (f.maximum x (f.of_ℕ n)) ≡ true
  pub maximum-le :
      (x : X) (n : ℕ) → f.le x (f.of_ℕ n) ≡ true → f.le (f.maximum x (f.of_ℕ n)) (f.of_ℕ n) ≡ true
  pub minimum-le : (x : X) (n : ℕ) → f.le (f.minimum x (f.of_ℕ n)) (f.of_ℕ n) ≡ true
  pub le_minus :
      (x : X) (n : ℕ) → f.le (f.of_ℕ n) x ≡ true → f.le (f.of_ℕ 0) (f.minus x (f.of_ℕ n)) ≡ true
  pub minus-le :
      (x : X) (n m : ℕ) → f.le x (f.of_ℕ m) ≡ true → f.le (f.minus x (f.of_ℕ n)) (f.of_ℕ m) ≡ true
  pub zero_minus-le :
      (x : X) → f.le (f.of_ℕ 0) x ≡ true → f.le (f.minus (f.of_ℕ 0) x) (f.of_ℕ 0) ≡ true
  pub times_pos :
      (x : X) (n : ℕ)
      → f.lt (f.of_ℕ 0) x ≡ true
      → f.is_finite x ≡ true
      → f.le (f.of_ℕ 0) (f.times x (f.of_ℕ n)) ≡ true
  pub divide-le :
      (x : X) (n : ℕ)
      → f.le x (f.of_ℕ 0) ≡ true
      → f.le (f.divide x (f.plus (f.of_ℕ n) (f.of_ℕ 1))) (f.of_ℕ 0) ≡ true
  pub le_refl_of_ℕ : (n : ℕ) → f.le (f.of_ℕ n) (f.of_ℕ n) ≡ true
  pub zero_le_of_ℕ : (n : ℕ) → f.le (f.of_ℕ 0) (f.of_ℕ n) ≡ true
  pub plus_nonneg :
      (x y : X)
      → f.le (f.of_ℕ 0) x ≡ true
      → f.le (f.of_ℕ 0) y ≡ true
      → f.le (f.of_ℕ 0) (f.plus x y) ≡ true
  pub elapsed_nonneg : (nanos n : ℕ) → f.le (f.of_ℕ 0) (f.times (f.as_secs nanos) (f.of_ℕ n)) ≡ true
  pub minimum_nonneg :
      (x : X) (n : ℕ) → f.le (f.of_ℕ 0) x ≡ true → f.le (f.of_ℕ 0) (f.minimum x (f.of_ℕ n)) ≡ true
  -- `x.max(n as f64) as usize`: a NaN gives `n`, and a value that is too large the largest one.
  pub to_ℕ_maximum : (x : X) (n : ℕ) → n < 2 ^ 32 → n ≤ f.to_ℕ (f.maximum x (f.of_ℕ n))
