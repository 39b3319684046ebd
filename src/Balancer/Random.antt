-- ===== src/Balancer/Random.antt =====
-- The random indices of core/src/balancer.rs.
use Prim.Native.Nat.{bit_xor}
use rust_zero.Prelude.{
  ℕ, suc, ◌+◌, ◌-◌, ◌*◌, ◌/◌, ◌%◌, ◌^◌, ◌<◌, ◌≡◌, ◌≢◌, refl, arith, some, leb, if◌then◌else◌,
}
use rust_zero.Prelude.Words.{u64}
use rust_zero.Prelude.Bits.{xor_eq, xor_lt}
use rust_zero.Balancer.{shifted, next_index, draw}

-- A random state is a number of 64 bits that is not 0.
abbrev pub IsState : ℕ → Type 0
IsState n = (0 < n) × (n < 2 ^ 64)

xor_left-IsState : (n : ℕ) → IsState n → IsState (bit_xor n (u64 (n * 8192)))
xor_left-IsState n (pos, lt) =
    let other : bit_xor n (u64 (n * 8192)) ≢ 0 =
      λ e. let same = xor_eq n (u64 (n * 8192)) e in omega arith in
    (omega arith, xor_lt 64 n (u64 (n * 8192)) lt (omega arith))

xor_right-IsState : (n : ℕ) → IsState n → IsState (bit_xor n (n / 128))
xor_right-IsState n (pos, lt) =
    let other : bit_xor n (n / 128) ≢ 0 = λ e. let same = xor_eq n (n / 128) e in omega arith in
    (omega arith, xor_lt 64 n (n / 128) lt (omega arith))

xor_last-IsState : (n : ℕ) → IsState n → IsState (bit_xor n (u64 (n * 131072)))
xor_last-IsState n (pos, lt) =
    let other : bit_xor n (u64 (n * 131072)) ≢ 0 =
      λ e. let same = xor_eq n (u64 (n * 131072)) e in omega arith in
    (omega arith, xor_lt 64 n (u64 (n * 131072)) lt (omega arith))

pub shifted-IsState : (n : ℕ) → IsState n → IsState (shifted n)
unfolding shifted
shifted-IsState n h =
    let left = bit_xor n (u64 (n * 8192)) in
    let right = bit_xor left (left / 128) in
    xor_last-IsState right (xor_right-IsState left (xor_left-IsState n h))

abbrev pub Drawn : ℕ → ℕ × ℕ × ℕ → Type 0
Drawn len (random, first, second) =
    IsState random × (first < len) × (second < len) × (first ≢ second)

-- With two nodes at least, `pick` has two different indices of nodes, and the random state stays a
-- number of 64 bits that is not 0, from which it would never leave.
pub draw_total :
    (random n : ℕ)
    → IsState random
    → (d : ℕ × ℕ × ℕ) × (draw random (suc (suc n)) ≡ some d) × Drawn (suc (suc n)) d
unfolding draw next_index
draw_total random n h =
    let first = shifted random % suc (suc n) in
    let again = shifted (shifted random) in
    let second = again % suc n in
    let less : suc (suc n) - 1 ≡ suc n = omega arith in
    (
      (again, first, if leb first second then second + 1 else second),
      rw less refl,
      (
        shifted-IsState (shifted random) (shifted-IsState random h),
        omega arith,
        ground arith,
        ground arith,
      ),
    )
