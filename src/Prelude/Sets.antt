-- ===== src/Prelude/Sets.antt =====
-- A finite set as a list with no repetition, such as a `HashSet`.
use mathlib.Core.Path.{◌≡◌, refl}
use mathlib.Core.Bool.{Bool, true, false}
use mathlib.Core.Logic.{ite}
use mathlib.Core.List.{List, [], ◌∷◌}
use native.Mathlib.Omega.{arith}

module _ {K : Type 0} (d : Discrete K) where
  unfoldable pub contains : K → List K → Bool
  contains key [] = false
  contains key (k ∷ keys) = ite (d k key) true (contains key keys)

  abbrev pub Distinct : List K → Type 0
  Distinct [] = Unit
  Distinct (k ∷ keys) = (contains k keys ≡ false) × Distinct keys

  -- Every occurrence goes.
  unfoldable pub without : K → List K → List K
  without key [] = []
  without key (k ∷ keys) = ite (d k key) (without key keys) (k ∷ without key keys)

  pub contains-without :
      (key j : K) (keys : List K)
      → contains j (without key keys) ≡ ite (d key j) false (contains j keys)
  unfolding contains without
  contains-without key j [] = ground arith
  contains-without key j (k ∷ keys) = ground (arith, contains-without key j keys)

  pub without-Distinct : (key : K) (keys : List K) → Distinct keys → Distinct (without key keys)
  unfolding without
  without-Distinct key [] h = tt
  without-Distinct key (k ∷ keys) h =
      ground (arith, without-Distinct key keys h.1, contains-without key k keys)

  pub without_absent :
      (key : K) (keys : List K) → contains key keys ≡ false → without key keys ≡ keys
  unfolding contains without
  without_absent key [] h = refl
  without_absent key (k ∷ keys) h = ground (arith, without_absent key keys)
