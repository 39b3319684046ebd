-- ===== src/Prelude/Words.antt =====
-- Machine integers: a value is a plain number, and what wraps or saturates says so.
use Prim.Native.Nat.{ℕ, ◌-◌, ◌%◌, min}

-- 2 ^ 32, 2 ^ 64 and 2 ^ 128. `usize` has 64 bits.
abbrev pub u32_mod : ℕ
u32_mod = 4294967296

abbrev pub u64_mod : ℕ
u64_mod = 18446744073709551616

abbrev pub u128_mod : ℕ
u128_mod = 340282366920938463463374607431768211456

abbrev pub u32 : ℕ → ℕ
u32 n = n % u32_mod

abbrev pub u64 : ℕ → ℕ
u64 n = n % u64_mod

-- The `saturating_*` operations of `u64` and `u128`. That of `-` is the truncated `-`.
abbrev pub saturate64 : ℕ → ℕ
saturate64 n = min n (u64_mod - 1)

abbrev pub saturate128 : ℕ → ℕ
saturate128 n = min n (u128_mod - 1)
