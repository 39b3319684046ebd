-- ===== src/Hash/Tests.antt =====
-- Runs of the consistent hash, and each theorem about it at an input that meets its hypotheses.
use rust_zero.Prelude.{ℕ, ◌≡◌, refl, true, false, ◌&&◌, List, [], ◌∷◌, some, ℕ_discrete}
use rust_zero.Prelude.Sets.{contains}
use rust_zero.Hash
use rust_zero.Hash.{ConsistentHash, new, point, hash_bytes, decimal}
use rust_zero.Hash.Ring.{names_at}
use rust_zero.Hash.Ring.Accurate.{Change, added, run, member, hits, run-names_at}
use rust_zero.Hash.Ring.Successor.{nearer, get-nearest}

-- The nodes `a` and `b`.
abbrev bytes : ℕ → List ℕ
bytes node = node ∷ []

abbrev fresh : ConsistentHash ℕ
fresh = record { replicas = 2; nodes = []; ring = [] }

abbrev changes : List (Change ℕ)
changes = added b'a' ∷ added b'b' ∷ []

new_fresh : new 2 ≡ some fresh
unfolding new
new_fresh = refl

abbrev two : ConsistentHash ℕ
two = run ℕ_discrete bytes fresh changes

abbrev key : List ℕ
key = b'k' ∷ b'1' ∷ []

two-key : Hash.get two key ≡ some b'b'
unfolding Hash.get run Hash.add Hash.place_all Hash.place Hash.owner Hash.next_from contains point
    hash_bytes decimal ℕ_discrete
two-key = refl

run-names_at_example :
    contains ℕ_discrete b'a' (names_at 8436994610035895630 two.ring)
    ≡ (member ℕ_discrete bytes b'a' false changes && hits bytes b'a' 0 2 8436994610035895630)
run-names_at_example =
    run-names_at ℕ_discrete bytes 2 {s = fresh} changes 8436994610035895630 b'a' new_fresh

hits_a : hits bytes b'a' 0 2 8436994610035895630 ≡ true
unfolding hits point hash_bytes decimal
hits_a = refl

a_joined : member ℕ_discrete bytes b'a' false changes ≡ true
unfolding ℕ_discrete
a_joined = refl

get-nearest_example :
    (member ℕ_discrete bytes b'b' false changes ≡ true)
    × ((x : ℕ) × (hits bytes b'b' 0 2 x ≡ true)
        × (nearer (hash_bytes key) x 8436994610035895630 ≡ true))
get-nearest_example =
    get-nearest ℕ_discrete bytes 2 {s = fresh} changes key b'b' b'a' 8436994610035895630 new_fresh
      two-key a_joined hits_a
