-- ===== src/Bloom.antt =====
-- core/src/bloom.rs. The lock makes each call one step; an item is its bytes. `none` is an index
-- out of bounds, or a remainder by zero bits.
pub mod Bits
pub mod Members
mod Tests
use Prim.Native.Nat.{bit_and, bit_or, bit_xor}
use mathlib.Core.Option
use mathlib.Core.List.{foldl, reverse}
use rust_zero.Prelude.{
  ℕ, zero, suc, ◌+◌, ◌*◌, ◌/◌, ◌%◌, ◌^◌, Bool, true, false, not, ◌||◌, List, [], ◌∷◌, Option, none,
  some, ◌>>=◌, ltb, ◌==◌, if◌then◌else◌, get_elem?, set, replicate, map,
}
use rust_zero.Prelude.Words.{u64}

pub data BloomError : Type 0 where
  zero_bits zero_hash_functions : BloomError

pub data Result (A : Type 0) : Type 0 where
  ok : A → Result A
  err : BloomError → Result A

pub record BloomFilter : Type 0 where
  pub bits : List ℕ
  pub bit_count : ℕ
  pub hash_functions : ℕ
  pub insertions : ℕ

-- `bit_count.div_ceil(64)` words.
unfoldable pub new : ℕ → ℕ → Result BloomFilter
new bit_count hash_functions =
    if bit_count == 0
    then err zero_bits
    else if hash_functions == 0
    then err zero_hash_functions
    else ok (record {
      bits = replicate ((bit_count + 63) / 64) 0;
      bit_count = bit_count;
      hash_functions = hash_functions;
      insertions = 0;
    })

abbrev fnv : ℕ → List ℕ → ℕ
fnv = foldl (λ hash byte. u64 (bit_xor hash byte * 0x100000001b3))

unfoldable pub hashes : List ℕ → ℕ × ℕ
hashes bytes = (
  fnv 0xcbf29ce484222325 bytes,
  bit_or (fnv (bit_xor 0xcbf29ce484222325 0x9e3779b97f4a7c15) (reverse bytes)) 1,
)

-- The indices of `n` iterations, from one on.
unfoldable pub indices_from : ℕ → ℕ × ℕ → ℕ → ℕ → List ℕ
indices_from bit_count hs iteration zero = []
indices_from bit_count hs iteration (suc n) =
    (u64 (hs.0 + u64 (iteration * hs.1)) % bit_count) ∷ indices_from bit_count hs (suc iteration) n

unfoldable pub indices : BloomFilter → ℕ × ℕ → List ℕ
unfolding indices_from
indices s hs = indices_from s.bit_count hs 0 s.hash_functions

-- `1_u64 << (index % 64)`
abbrev pub mask : ℕ → ℕ
mask index = 2 ^ (index % 64)

-- The loop of `insert`, with its `changed`.
unfoldable pub set_bits : List ℕ → Bool → List ℕ → Option (List ℕ × Bool)
set_bits bits changed [] = some (bits, changed)
set_bits bits changed (index ∷ is) = do
  word ← get_elem? bits (index / 64)
  set_bits (set bits (index / 64) (bit_or word (mask index)))
      (changed || (bit_and word (mask index) == 0)) is

unfoldable pub insert : BloomFilter → List ℕ → Option (BloomFilter × Bool)
insert s value = do
  (bits, changed) ← set_bits s.bits false (indices s (hashes value))
  some (
    record s { bits = bits; insertions = if changed then u64 (s.insertions + 1) else s.insertions },
    changed,
  )

-- `all`, which stops at the first bit that is clear.
unfoldable pub all_set : List ℕ → List ℕ → Option Bool
all_set bits [] = some true
all_set bits (index ∷ is) = do
  word ← get_elem? bits (index / 64)
  let rest = all_set bits is
  if bit_and word (mask index) == 0 then some false else rest

unfoldable pub contains : BloomFilter → List ℕ → Option Bool
contains s value = all_set s.bits (indices s (hashes value))

unfoldable pub clear : BloomFilter → BloomFilter
clear s = record s { bits = map (λ word. 0) s.bits; insertions = 0 }
