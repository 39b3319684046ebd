-- ===== src/Floats/Naturals.antt =====
-- Natural numbers in the place of floats: they meet the laws, so that examples can run.
use rust_zero.Prelude.{ℕ, zero, suc, ◌+◌, ◌-◌, ◌*◌, ◌/◌, ◌≡◌, arith, true, leb, ltb, min, max}
use rust_zero.Floats.{Float, FloatLaws}

abbrev pub naturals : Float ℕ
naturals = record {
  of_ℕ = λ n. n;
  literal = λ p q. p / q;
  plus = λ x y. x + y;
  minus = λ x y. x - y;
  times = λ x y. x * y;
  divide = λ x y. x / y;
  minimum = λ x y. min x y;
  maximum = λ x y. max x y;
  ceil = λ x. x;
  is_finite = λ x. true;
  le = leb;
  lt = ltb;
  to_ℕ = λ x. x;
  as_secs = λ n. n / 1_000_000_000;
  from_secs = λ n. n * 1_000_000_000;
}

divide-le_zero : (x n : ℕ) → leb x 0 ≡ true → leb (x / (n + 1)) 0 ≡ true
divide-le_zero zero n h = ground arith
divide-le_zero (suc x) n h = ground arith

zero_le : (x : ℕ) → leb 0 x ≡ true
zero_le x = ground arith

pub naturals_laws : FloatLaws naturals
naturals_laws = record {
  le_maximum = λ x n. ground arith;
  maximum-le = λ x n h. ground arith;
  minimum-le = λ x n. ground arith;
  le_minus = λ x n h. zero_le (x - n);
  minus-le = λ x n m h. ground arith;
  zero_minus-le = λ x h. ground arith;
  times_pos = λ x n p q. zero_le (x * n);
  divide-le = divide-le_zero;
  le_refl_of_ℕ = λ n. ground arith;
  zero_le_of_ℕ = λ n. zero_le n;
  plus_nonneg = λ x y p q. zero_le (x + y);
  elapsed_nonneg = λ nanos n. zero_le (nanos / 1_000_000_000 * n);
  minimum_nonneg = λ x n p. zero_le (min x n);
  to_ℕ_maximum = λ x n h. ground arith;
}
