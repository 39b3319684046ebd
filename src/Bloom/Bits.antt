-- ===== src/Bloom/Bits.antt =====
-- Single bits of the filter of core/src/bloom.rs, and its two loops over them.
use Prim.Native.Nat.{bit_and, bit_or}
use native.Mathlib.Nat.{one-le-pow}
use rust_zero.Prelude.{
  ℕ, ◌/◌, ◌%◌, ◌<◌, ◌≡◌, refl, ap, ◌∙◌, arith, Bool, true, false, not, ◌||◌, List, [], ◌∷◌, Option,
  none, some, ◌==◌, get_elem?, set, length, length-set, get_elem?_total, get_elem?-set_self,
  get_elem?-set_other, All, All-map_imp, >>=-eq-some, ℕ_discrete,
}
use rust_zero.Prelude.Bits.{or_kept, or_sets}
use rust_zero.Bloom.{mask, set_bits, all_set}

abbrev lit : ℕ → Option ℕ → Bool
lit index none = false
lit index (some word) = not (bit_and word (mask index) == 0)

abbrev pub is_set : List ℕ → ℕ → Bool
is_set bits index = lit index (get_elem? bits (index / 64))

is_set-set :
    (bits : List ℕ) (i : ℕ) (word : ℕ)
    → get_elem? bits (i / 64) ≡ some word
    → is_set (set bits (i / 64) (bit_or word (mask i))) i ≡ true
is_set-set bits i word e =
    let there = get_elem?-set_self bits (i / 64) (bit_or word (mask i)) e in
    ground (arith, or_sets word (mask i), one-le-pow (i % 64) 2 (omega arith))

is_set-set_kept :
    (bits : List ℕ) (i j : ℕ) (word : ℕ)
    → get_elem? bits (i / 64) ≡ some word
    → is_set bits j ≡ true
    → is_set (set bits (i / 64) (bit_or word (mask i))) j ≡ true
is_set-set_kept bits i j word e h = elim (ℕ_discrete (i / 64) (j / 64)) [
  | yes same ↦
      let there = get_elem?-set_self bits (i / 64) (bit_or word (mask i)) e in
      let here = ap (λ k. get_elem? bits k) same in
      let now = ap (λ k. get_elem? (set bits (i / 64) (bit_or word (mask i))) k) same in
      ground (arith, or_kept word (mask i) (mask j))
  | no other ↦ rw (get_elem?-set_other bits (i / 64) (j / 64) (bit_or word (mask i)) other) h
]

-- What the loop of `insert` does to other bits, and to its own.
pub set_bits-keeps :
    (bits : List ℕ) (c : Bool) (is : List ℕ) (j : ℕ) {bits' : List ℕ} {c' : Bool}
    → set_bits bits c is ≡ some (bits', c')
    → is_set bits j ≡ true
    → is_set bits' j ≡ true
unfolding set_bits
set_bits-keeps bits c [] j {bits'} e h = let same : bits ≡ bits' = cc in rw (← same) h
set_bits-keeps bits c (i ∷ is) j e h =
    let (word, there, rest) = >>=-eq-some (get_elem? bits (i / 64)) _ e in
    set_bits-keeps (set bits (i / 64) (bit_or word (mask i))) (c || (bit_and word (mask i) == 0)) is
      j rest (is_set-set_kept bits i j word there h)

pub set_bits-sets :
    (bits : List ℕ) (c : Bool) (is : List ℕ) {bits' : List ℕ} {c' : Bool}
    → set_bits bits c is ≡ some (bits', c')
    → All (λ j. is_set bits' j ≡ true) is
unfolding set_bits
set_bits-sets bits c [] e = tt
set_bits-sets bits c (i ∷ is) e =
    let (word, there, rest) = >>=-eq-some (get_elem? bits (i / 64)) _ e in
    let bits₁ = set bits (i / 64) (bit_or word (mask i)) in
    let c₁ = c || (bit_and word (mask i) == 0) in
    (
      set_bits-keeps bits₁ c₁ is i rest (is_set-set bits i word there),
      set_bits-sets bits₁ c₁ is rest,
    )

abbrev pub InBounds : List ℕ → List ℕ → Type 0
InBounds bits is = All (λ i. i / 64 < length bits) is

pub set_bits_total :
    (bits : List ℕ) (c : Bool) (is : List ℕ)
    → InBounds bits is
    → (bits' : List ℕ) × (c' : Bool) × (set_bits bits c is ≡ some (bits', c'))
      × (length bits' ≡ length bits)
unfolding set_bits
set_bits_total bits c [] b = (bits, c, refl, refl)
set_bits_total bits c (i ∷ is) b =
    let (word, there) = get_elem?_total bits (i / 64) b.0 in
    let bits₁ = set bits (i / 64) (bit_or word (mask i)) in
    let size = length-set bits (i / 64) (bit_or word (mask i)) in
    let inside : InBounds bits₁ is = rw size b.1 in
    let (bits', c', done, same) =
      set_bits_total bits₁ (c || (bit_and word (mask i) == 0)) is inside in
    (bits', c', rw there done, same ∙ size)

pub all_set-true :
    (bits is : List ℕ) → All (λ j. is_set bits j ≡ true) is → all_set bits is ≡ some true
unfolding all_set
all_set-true bits [] h = refl
all_set-true bits (i ∷ is) h = let first = h.0 in ground (arith, all_set-true bits is h.1)

pub all_set_sound :
    (bits is : List ℕ) → all_set bits is ≡ some true → All (λ j. is_set bits j ≡ true) is
unfolding all_set
all_set_sound bits [] h = tt
all_set_sound bits (i ∷ is) h = ground (arith, all_set_sound bits is)

-- Bits that are set already change nothing.
pub set_bits_again :
    (bits is : List ℕ) {bits' : List ℕ} {c' : Bool}
    → All (λ j. is_set bits j ≡ true) is
    → set_bits bits false is ≡ some (bits', c')
    → c' ≡ false
unfolding set_bits
set_bits_again bits [] h e = cc
set_bits_again bits (i ∷ is) {bits'} {c'} h e =
    let (word, there, rest) = >>=-eq-some (get_elem? bits (i / 64)) _ e in
    let clear : (false || (bit_and word (mask i) == 0)) ≡ false = let first = h.0 in ground arith in
    let bits₁ = set bits (i / 64) (bit_or word (mask i)) in
    let steady : set_bits bits₁ false is ≡ some (bits', c') = rw (← clear) rest in
    set_bits_again bits₁ is (All-map_imp (λ j. is_set-set_kept bits i j word there) is h.1) steady
