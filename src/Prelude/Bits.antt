-- ===== src/Prelude/Bits.antt =====
-- Laws of the bitwise operations at variables, by the recursion on binary digits that they stand for.
use Prim.Native.Nat.{
  ℕ, zero, suc, ◌+◌, ◌*◌, ◌/◌, ◌%◌, ◌≤◌, min, max, bit_and, bit_or, digits, bit_and-bitwise,
  bit_or-bitwise, bit_xor, bit_xor-bitwise, differ, ◌<◌, ◌^◌,
}
use mathlib.Core.Path.{◌≡◌, refl, ap, ◌∙◌, sym}
use native.Mathlib.Omega.{arith}

-- More fuel than the first number has digits makes no difference.
digits_fuel :
    (z : ℕ → ℕ) (f : ℕ → ℕ → ℕ) (n m a b : ℕ) → a ≤ n → a ≤ m → digits z f n a b ≡ digits z f m a b
digits_fuel z f zero zero a b p q = refl
digits_fuel z f zero (suc m) zero b p q = refl
digits_fuel z f zero (suc m) (suc a) b p q = absurd (omega arith)
digits_fuel z f (suc n) zero zero b p q = refl
digits_fuel z f (suc n) zero (suc a) b p q = absurd (omega arith)
digits_fuel z f (suc n) (suc m) zero b p q = refl
digits_fuel z f (suc n) (suc m) (suc a) b p q =
    ap (λ k. k * 2 + f (suc a % 2) (b % 2))
      (digits_fuel z f n m (suc a / 2) (b / 2) (omega arith) (omega arith))

half_fuel :
    (z : ℕ → ℕ) (f : ℕ → ℕ → ℕ) (a b : ℕ)
    → digits z f (suc a) (suc a) b
      ≡ digits z f (suc a / 2) (suc a / 2) (b / 2) * 2 + f (suc a % 2) (b % 2)
half_fuel z f a b =
    ap (λ k. k * 2 + f (suc a % 2) (b % 2))
      (digits_fuel z f a (suc a / 2) (suc a / 2) (b / 2) (omega arith) (omega arith))

pub and_halves : (a b : ℕ) → bit_and a b ≡ bit_and (a / 2) (b / 2) * 2 + min (a % 2) (b % 2)
and_halves zero b = omega (arith, bit_and-bitwise 0 b, bit_and-bitwise 0 (b / 2))
and_halves (suc a) b = omega (
  arith,
  bit_and-bitwise (suc a) b,
  bit_and-bitwise (suc a / 2) (b / 2),
  half_fuel (λ b. zero) min a b,
)

pub or_halves : (a b : ℕ) → bit_or a b ≡ bit_or (a / 2) (b / 2) * 2 + max (a % 2) (b % 2)
or_halves zero b = omega (arith, bit_or-bitwise 0 b, bit_or-bitwise 0 (b / 2))
or_halves (suc a) b = omega (
  arith,
  bit_or-bitwise (suc a) b,
  bit_or-bitwise (suc a / 2) (b / 2),
  half_fuel (λ b. b) max a b,
)

halved : (a b c : ℕ) → bit_and (bit_or a b / 2) c ≡ bit_and (bit_or (a / 2) (b / 2)) c
halved a b c =
    let h : bit_or a b / 2 ≡ bit_or (a / 2) (b / 2) = omega (arith, or_halves a b) in
    ap (λ k. bit_and k c) h

or_kept_fuel : (n a m c : ℕ) → a ≤ n → bit_and (bit_or a m) c ≡ 0 → bit_and a c ≡ 0
or_kept_fuel n zero m c p h = bit_and-bitwise 0 c
or_kept_fuel zero (suc a) m c p h = absurd (omega arith)
or_kept_fuel (suc n) (suc a) m c p h =
    let top = and_halves (bit_or (suc a) m) c in
    let upper = halved (suc a) m (c / 2) in
    let low : bit_or (suc a) m % 2 ≡ max (suc a % 2) (m % 2) = omega (arith, or_halves (suc a) m) in
    let rest = or_kept_fuel n (suc a / 2) (m / 2) (c / 2) (omega arith) (omega (arith)) in
    omega (arith, and_halves (suc a) c)

-- A bit that is set stays set when others are set.
pub or_kept : (a m c : ℕ) → bit_and (bit_or a m) c ≡ 0 → bit_and a c ≡ 0
or_kept a m c h = or_kept_fuel a a m c (omega arith) h

or_sets_fuel : (n a m : ℕ) → m ≤ n → bit_and (bit_or a m) m ≡ 0 → m ≡ 0
or_sets_fuel n a zero p h = refl
or_sets_fuel zero a (suc m) p h = absurd (omega arith)
or_sets_fuel (suc n) a (suc m) p h =
    let top = and_halves (bit_or a (suc m)) (suc m) in
    let upper = halved a (suc m) (suc m / 2) in
    let low : bit_or a (suc m) % 2 ≡ max (a % 2) (suc m % 2) = omega (arith, or_halves a (suc m)) in
    let rest = or_sets_fuel n (a / 2) (suc m / 2) (omega arith) (omega arith) in omega arith

-- The bits of a mask are set by it.
pub or_sets : (a m : ℕ) → bit_and (bit_or a m) m ≡ 0 → m ≡ 0
or_sets a m h = or_sets_fuel m a m (omega arith) h

differ_zero : (y : ℕ) → differ 0 y ≡ y
differ_zero y = refl

pub xor_halves : (a b : ℕ) → bit_xor a b ≡ bit_xor (a / 2) (b / 2) * 2 + differ (a % 2) (b % 2)
xor_halves zero b =
    omega (arith, bit_xor-bitwise 0 b, bit_xor-bitwise 0 (b / 2), differ_zero (b % 2))
xor_halves (suc a) b = omega (
  arith,
  bit_xor-bitwise (suc a) b,
  bit_xor-bitwise (suc a / 2) (b / 2),
  half_fuel (λ b. b) differ a b,
)

differ_eq : (x y : ℕ) → differ x y ≡ 0 → x ≡ y
differ_eq zero y e = sym e
differ_eq (suc x) zero e = e
differ_eq (suc x) (suc y) e = ap suc (differ_eq x y e)

differ_le : (x y : ℕ) → x ≤ 1 → y ≤ 1 → differ x y ≤ 1
differ_le zero y p q = q
differ_le (suc x) zero p q = p
differ_le (suc x) (suc y) p q = differ_le x y (omega arith) (omega arith)

xor_eq_fuel : (n a b : ℕ) → a ≤ n → bit_xor a b ≡ 0 → a ≡ b
xor_eq_fuel n zero b p e = sym (sym (bit_xor-bitwise 0 b) ∙ e)
xor_eq_fuel zero (suc a) b p e = absurd (omega arith)
xor_eq_fuel (suc n) (suc a) b p e =
    let high : bit_xor (suc a / 2) (b / 2) ≡ 0 = omega (arith, xor_halves (suc a) b) in
    let low : differ (suc a % 2) (b % 2) ≡ 0 = omega (arith, xor_halves (suc a) b) in
    omega (
      arith,
      xor_eq_fuel n (suc a / 2) (b / 2) (omega arith) high,
      differ_eq (suc a % 2) (b % 2) low,
    )

-- Only equal numbers have no bit in which they differ.
pub xor_eq : (a b : ℕ) → bit_xor a b ≡ 0 → a ≡ b
xor_eq a b e = xor_eq_fuel a a b (omega arith) e

pub xor_lt : (k a b : ℕ) → a < 2 ^ k → b < 2 ^ k → bit_xor a b < 2 ^ k
xor_lt zero a b p q =
    let first : a ≡ 0 = omega arith in
    let second : b ≡ 0 = omega arith in rw (first, second) (omega (arith, bit_xor-bitwise 0 0))
xor_lt (suc k) a b p q =
    let high = xor_lt k (a / 2) (b / 2) (omega arith) (omega arith) in
    omega (arith, xor_halves a b, differ_le (a % 2) (b % 2) (omega arith) (omega arith))
