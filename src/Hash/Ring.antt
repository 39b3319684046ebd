-- ===== src/Hash/Ring.antt =====
-- What the ring of core/src/hash.rs holds: at each hash, the nodes with a replica there.
pub mod Accurate
pub mod Successor
use mathlib.Core.List.{append-nil}
use rust_zero.Prelude.{
  ℕ, zero, suc, ◌+◌, ◌≤◌, ◌<◌, ◌≡◌, ◌≢◌, refl, sym, ap, ◌∙◌, arith, Bool, true, false, not, ◌&&◌,
  ◌||◌, List, [], ◌∷◌, ◌++◌, Option, none, some, ltb, leb, ◌==◌, if◌then◌else◌, ite, ◌⊎◌, inl, inr,
  length,
}
use rust_zero.Prelude.Sets.{contains, without, contains-without, Distinct, without-Distinct}
use rust_zero.Hash.{
  ConsistentHash, Ring, place, displace, place_all, displace_all, keep_entry, point, add, remove,
}

module _ {K : Type 0} where
  abbrev pub Above : ℕ → Ring K → Type 0
  Above i [] = Unit
  Above i ((j, names) ∷ ring) = (i < j) × Above i ring

  -- The hashes ascend, and no entry is empty.
  abbrev pub IsRing : Ring K → Type 0
  IsRing [] = Unit
  IsRing ((i, names) ∷ ring) = (0 < length names) × Above i ring × IsRing ring

  unfoldable pub names_at : ℕ → Ring K → List K
  names_at x [] = []
  names_at x ((i, names) ∷ ring) = if x == i then names else names_at x ring

  names_at_below : (x i : ℕ) (ring : Ring K) → x ≤ i → Above i ring → names_at x ring ≡ []
  unfolding names_at
  names_at_below x i [] h a = refl
  names_at_below x i ((j, names) ∷ ring) h a = ground (arith, names_at_below x i ring h)

  place-Above :
      (i h : ℕ) (node : K) (ring : Ring K) → i < h → Above i ring → Above i (place h node ring)
  unfolding place
  place-Above i h node [] lt a = (lt, tt)
  place-Above i h node ((j, names) ∷ ring) lt a = ground (arith, place-Above i h node ring lt)

  length-push : (names : List K) (node : K) → 0 < length (names ++ node ∷ [])
  length-push [] node = omega arith
  length-push (name ∷ names) node = omega arith

  lift-Above : (h i : ℕ) (ring : Ring K) → h < i → Above i ring → Above h ring
  lift-Above h i [] lt a = tt
  lift-Above h i ((j, names) ∷ ring) lt a = (omega (arith, a.0), lift-Above h i ring lt a.1)

  place-IsRing : (h : ℕ) (node : K) (ring : Ring K) → IsRing ring → IsRing (place h node ring)
  unfolding place
  place-IsRing h node [] r = omega arith
  place-IsRing h node ((i, names) ∷ ring) r = ground (
    arith,
    length-push names node,
    place-IsRing h node ring r.2,
    place-Above i h node ring,
    lift-Above h i ring,
  )

  names_at-place :
      (x h : ℕ) (node : K) (ring : Ring K)
      → IsRing ring
      → names_at x (place h node ring) ≡ names_at x ring ++ (if h == x then node ∷ [] else [])
  unfolding place names_at
  names_at-place x h node [] r = ground arith
  names_at-place x h node ((i, names) ∷ ring) r =
      let nothing = append-nil names in
      let nowhere = append-nil (names_at x ring) in
      ground
        (arith, nothing, nowhere, names_at-place x h node ring r.2, names_at_below x i ring, r.1)

module _ {K : Type 0} (d : Discrete K) where
  displace-Above :
      (i h : ℕ) (node : K) (ring : Ring K) → Above i ring → Above i (displace d h node ring)
  unfolding displace
  displace-Above i h node [] a = tt
  displace-Above i h node ((j, names) ∷ ring) a = ground (arith, displace-Above i h node ring)

  keep_entry-IsRing :
      (i : ℕ) (names : List K) (ring : Ring K)
      → Above i ring
      → IsRing ring
      → IsRing (keep_entry i names ring)
  keep_entry-IsRing i [] ring a r = r
  keep_entry-IsRing i (name ∷ names) ring a r = (omega arith, a, r)

  displace-IsRing :
      (h : ℕ) (node : K) (ring : Ring K) → IsRing ring → IsRing (displace d h node ring)
  unfolding displace
  displace-IsRing h node [] r = tt
  displace-IsRing h node ((i, names) ∷ ring) r = ground (
    arith,
    keep_entry-IsRing i (without d node names) ring r.1 r.2,
    displace-IsRing h node ring r.2,
    displace-Above i h node ring r.1,
  )

  names_at-keep_entry :
      (x i : ℕ) (names : List K) (ring : Ring K)
      → Above i ring
      → names_at x (keep_entry i names ring) ≡ (if x == i then names else names_at x ring)
  unfolding names_at
  names_at-keep_entry x i [] ring a = ground (arith, names_at_below x i ring)
  names_at-keep_entry x i (name ∷ names) ring a = refl

  names_at-displace :
      (x h : ℕ) (node : K) (ring : Ring K)
      → IsRing ring
      → names_at x (displace d h node ring)
        ≡ (if h == x then without d node (names_at x ring) else names_at x ring)
  unfolding displace names_at without
  names_at-displace x h node [] r = ground arith
  names_at-displace x h node ((i, names) ∷ ring) r = ground (
    arith,
    names_at-keep_entry x i (without d node names) ring r.1,
    names_at-displace x h node ring r.2,
    names_at_below x i ring,
  )
