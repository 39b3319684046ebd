-- ===== src/Bloom/Tests.antt =====
-- Runs of the filter, and the theorem about it at an input that meets its hypotheses.
use rust_zero.Prelude.{◌≡◌, refl, true, false, [], ◌∷◌, ◌++◌, some}
use rust_zero.Bloom
use rust_zero.Bloom.{BloomFilter, new, ok}
use rust_zero.Bloom.Members.{insert_all, insert_all-contains}

abbrev empty : BloomFilter
empty = record { bits = 0 ∷ 0 ∷ []; bit_count = 100; hash_functions = 3; insertions = 0 }

new-empty : new 100 3 ≡ ok empty
unfolding new
new-empty = refl

insert_all-contains_example :
    (s : BloomFilter) × (insert_all empty (((1 ∷ []) ∷ []) ++ (7 ∷ 8 ∷ []) ∷ (9 ∷ []) ∷ [])
      ≡ some s)
    × (Bloom.contains s (7 ∷ 8 ∷ []) ≡ some true)
    × ((t : BloomFilter) × (Bloom.insert s (7 ∷ 8 ∷ []) ≡ some (t, false)))
insert_all-contains_example =
    insert_all-contains 100 3 {s = empty} ((1 ∷ []) ∷ []) ((9 ∷ []) ∷ []) (7 ∷ 8 ∷ []) new-empty

-- An item that was never inserted.
absent : Bloom.contains empty (7 ∷ []) ≡ some false
unfolding Bloom.contains Bloom.all_set Bloom.indices Bloom.hashes
absent = refl
