-- ===== src/Bloom/Members.antt =====
-- What the filter of core/src/bloom.rs says of the items that were inserted.
use native.Mathlib.Nat.{mod-lt}
use rust_zero.Prelude.{
  ℕ, zero, suc, ◌+◌, ◌*◌, ◌/◌, ◌<◌, ◌≡◌, refl, sym, subst, ap, ◌∙◌, arith, Bool, true, false, List,
  [], ◌∷◌, ◌++◌, Option, some, ◌>>=◌, if◌then◌else◌, length, length-replicate, All, All-map_imp,
  >>=-eq-some,
}
use rust_zero.Prelude.Words.{u64}
use rust_zero.Bloom.{
  BloomFilter, new, ok, hashes, indices, indices_from, set_bits, insert, contains,
}
use rust_zero.Bloom.Bits.{
  is_set, InBounds, set_bits-keeps, set_bits-sets, set_bits_total, all_set-true, set_bits_again,
}

pub record IsValid (s : BloomFilter) : Type 0 where
  pub some_bits : 0 < s.bit_count
  pub words : length s.bits ≡ (s.bit_count + 63) / 64

new-IsValid :
    (bit_count hash_functions : ℕ) {s : BloomFilter}
    → new bit_count hash_functions ≡ ok s
    → IsValid s
unfolding new
new-IsValid bit_count hash_functions e =
    ground (arith, length-replicate {A = ℕ} ((bit_count + 63) / 64) 0)

in_bounds :
    (bits : List ℕ) (count : ℕ) (hs : ℕ × ℕ) (r n : ℕ)
    → 0 < count
    → length bits ≡ (count + 63) / 64
    → InBounds bits (indices_from count hs r n)
unfolding indices_from
in_bounds bits count hs r zero pos size = tt
in_bounds bits count hs r (suc n) pos size = (
  omega (arith, size, mod-lt (u64 (hs.0 + u64 (r * hs.1))) pos),
  in_bounds bits count hs (suc r) n pos size,
)

abbrev pub IsMember : BloomFilter → List ℕ → Type 0
IsMember s v = All (λ j. is_set s.bits j ≡ true) (indices s (hashes v))

abbrev after : BloomFilter → List ℕ → Bool → BloomFilter
after s bits changed = record s {
  bits = bits;
  insertions = if changed then u64 (s.insertions + 1) else s.insertions;
}

insert_total :
    (s : BloomFilter) (v : List ℕ)
    → IsValid s
    → (s' : BloomFilter) × (c : Bool) × (insert s v ≡ some (s', c)) × IsValid s'
unfolding insert indices
insert_total s v i =
    let (bits, c, done, size) =
      set_bits_total s.bits false (indices s (hashes v))
        (in_bounds s.bits s.bit_count (hashes v) 0 s.hash_functions i.some_bits i.words) in
    (after s bits c, c, rw done refl, record { some_bits = i.some_bits; words = size ∙ i.words })

insert-sets :
    (s : BloomFilter) (v : List ℕ) {s' : BloomFilter} {c : Bool}
    → insert s v ≡ some (s', c)
    → IsMember s' v
unfolding insert indices
insert-sets s v {s'} e =
    let ((bits, changed), done, rest) =
      >>=-eq-some (set_bits s.bits false (indices s (hashes v))) _ e in
    let same : after s bits changed ≡ s' = cc in
    subst (λ t. IsMember t v) same (set_bits-sets s.bits false (indices s (hashes v)) done)

insert-keeps :
    (s : BloomFilter) (v u : List ℕ) {s' : BloomFilter} {c : Bool}
    → insert s v ≡ some (s', c)
    → IsMember s u
    → IsMember s' u
unfolding insert indices
insert-keeps s v u {s'} e h =
    let ((bits, changed), done, rest) =
      >>=-eq-some (set_bits s.bits false (indices s (hashes v))) _ e in
    let same : after s bits changed ≡ s' = cc in
    subst (λ t. IsMember t u) same
      (All-map_imp (λ j. set_bits-keeps s.bits false (indices s (hashes v)) j done)
        (indices s (hashes u)) h)

-- Inserts some items in a row.
unfoldable pub insert_all : BloomFilter → List (List ℕ) → Option BloomFilter
insert_all s [] = some s
insert_all s (v ∷ vs) = do (s', changed) ← insert s v; insert_all s' vs

insert_all_total :
    (s : BloomFilter) (vs : List (List ℕ))
    → IsValid s
    → (s' : BloomFilter) × (insert_all s vs ≡ some s') × IsValid s'
unfolding insert_all
insert_all_total s [] i = (s, refl, i)
insert_all_total s (v ∷ vs) i =
    let (s₁, c, one, j) = insert_total s v i in
    let (s', rest, k) = insert_all_total s₁ vs j in (s', rw one rest, k)

insert_all-keeps :
    (s : BloomFilter) (vs : List (List ℕ)) (u : List ℕ) {s' : BloomFilter}
    → IsValid s
    → insert_all s vs ≡ some s'
    → IsMember s u
    → IsMember s' u
unfolding insert_all
insert_all-keeps s [] u {s'} i e h = let same : s ≡ s' = cc in subst (λ t. IsMember t u) same h
insert_all-keeps s (v ∷ vs) u i e h =
    let (s₁, c, one, j) = insert_total s v i in
    insert_all-keeps s₁ vs u j (rw one at e) (insert-keeps s v u one h)

insert_all-append :
    (s : BloomFilter) (us vs : List (List ℕ)) {t : BloomFilter}
    → insert_all s us ≡ some t
    → insert_all s (us ++ vs) ≡ insert_all t vs
unfolding insert_all
insert_all-append s [] vs {t} e = let same : s ≡ t = cc in ap (λ k. insert_all k vs) same
insert_all-append s (u ∷ us) vs e =
    let ((t₁, c), one, rest) = >>=-eq-some (insert s u) _ e in
    rw one (insert_all-append t₁ us vs rest)

insert_quiet :
    (s : BloomFilter) (v : List ℕ) {t : BloomFilter} {c : Bool}
    → insert s v ≡ some (t, c)
    → IsMember s v
    → c ≡ false
unfolding insert
insert_quiet s v {t} {c} e h =
    let ((bits, changed), done, rest) =
      >>=-eq-some (set_bits s.bits false (indices s (hashes v))) _ e in
    let quiet = set_bits_again s.bits (indices s (hashes v)) h done in
    let same : changed ≡ c = cc in sym same ∙ quiet

-- There are no false negatives: in a filter that `new` has made, inserting never panics, and an item
-- is found whatever was inserted before and after it. Inserting it again reports no change.
pub insert_all-contains :
    (bit_count hash_functions : ℕ) {s : BloomFilter} (before later : List (List ℕ)) (v : List ℕ)
    → new bit_count hash_functions ≡ ok s
    → (s' : BloomFilter) × (insert_all s (before ++ v ∷ later) ≡ some s')
      × (contains s' v ≡ some true)
      × ((t : BloomFilter) × (insert s' v ≡ some (t, false)))
unfolding insert_all contains
insert_all-contains bit_count hash_functions {s} before later v e =
    let (s₁, one, i₁) = insert_all_total s before (new-IsValid bit_count hash_functions e) in
    let (s₂, c, two, i₂) = insert_total s₁ v i₁ in
    let (s', three, i₃) = insert_all_total s₂ later i₂ in
    let held = insert_all-keeps s₂ later v i₂ three (insert-sets s₁ v two) in
    let (t, c', again, i₄) = insert_total s' v i₃ in
    (
      s',
      insert_all-append s before (v ∷ later) one ∙ rw two three,
      all_set-true s'.bits (indices s' (hashes v)) held,
      (t, again ∙ ap (λ b. some (t, b)) (insert_quiet s' v again held)),
    )
