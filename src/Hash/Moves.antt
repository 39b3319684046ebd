-- ===== src/Hash/Moves.antt =====
-- Which keys change their node when the ring of core/src/hash.rs changes.
use rust_zero.Prelude.{
  ℕ, zero, suc, ◌≡◌, ◌≢◌, refl, arith, List, [], ◌∷◌, ◌++◌, Option, none, some, ◌⊎◌, inl, inr,
}
use rust_zero.Prelude.Sets.{without}
use rust_zero.Hash.{
  ConsistentHash, Ring, place, displace, place_all, displace_all, next_from, first, first_entry,
  or_first, owner, point, hash_bytes, add, remove, get,
}

module _ {K : Type 0} where
  first-append :
      (names : List K) (node : K)
      → (first (names ++ node ∷ []) ≡ first names) ⊎ (first (names ++ node ∷ []) ≡ some node)
  first-append [] node = inr refl
  first-append (name ∷ names) node = inl refl

  -- The next entry's first node, as a key finds it.
  abbrev found : ℕ → Ring K → Option (Option K)
  found x ring = elim (next_from x ring) [ none ↦ none | some names ↦ some (first names) ]

  found-place :
      (x h : ℕ) (node : K) (ring : Ring K)
      → (found x (place h node ring) ≡ found x ring)
        ⊎ (found x (place h node ring) ≡ some (some node))
  unfolding place next_from
  found-place x h node [] = ground arith
  found-place x h node ((i, names) ∷ ring) =
      ground (arith, first-append names node, found-place x h node ring)

  first_entry-place :
      (h : ℕ) (node : K) (ring : Ring K)
      → (first_entry (place h node ring) ≡ first_entry ring)
        ⊎ (first_entry (place h node ring) ≡ some node)
  unfolding place first_entry
  first_entry-place h node [] = ground arith
  first_entry-place h node ((i, names) ∷ ring) = ground (arith, first-append names node)

  owner-place :
      (x h : ℕ) (node : K) (ring : Ring K)
      → (owner (place h node ring) x ≡ owner ring x) ⊎ (owner (place h node ring) x ≡ some node)
  unfolding owner or_first
  owner-place x h node ring =
      ground (arith, found-place x h node ring, first_entry-place h node ring)

  owner-place_all :
      (bytes : K → List ℕ) (x : ℕ) (node : K) (r n : ℕ) (ring : Ring K)
      → (owner (place_all bytes node r n ring) x ≡ owner ring x)
        ⊎ (owner (place_all bytes node r n ring) x ≡ some node)
  unfolding place_all
  owner-place_all bytes x node r zero ring = inl refl
  owner-place_all bytes x node r (suc n) ring = ground (
    arith,
    owner-place_all bytes x node (suc r) n (place (point (bytes node) r) node ring),
    owner-place x (point (bytes node) r) node ring,
  )

module _ {K : Type 0} (d : Discrete K) where
  first-without :
      (node m : K) (names : List K)
      → first names ≡ some m
      → m ≢ node
      → first (without d node names) ≡ some m
  unfolding without
  first-without node m [] e n = cc
  first-without node m (name ∷ names) e n = ground arith

  found-displace :
      (x h : ℕ) (node m : K) (ring : Ring K)
      → m ≢ node
      → found x ring ≡ some (some m)
      → found x (displace d h node ring) ≡ some (some m)
  unfolding displace next_from
  found-displace x h node m [] n e = e
  found-displace x h node m ((i, names) ∷ ring) n e =
      ground (arith, first-without node m names, found-displace x h node m ring n)

  found-none-displace :
      (x h : ℕ) (node : K) (ring : Ring K)
      → found x ring ≡ none
      → found x (displace d h node ring) ≡ none
  unfolding displace next_from
  found-none-displace x h node [] e = e
  found-none-displace x h node ((i, names) ∷ ring) e =
      ground (arith, found-none-displace x h node ring)

  first_entry-displace :
      (h : ℕ) (node m : K) (ring : Ring K)
      → m ≢ node
      → first_entry ring ≡ some m
      → first_entry (displace d h node ring) ≡ some m
  unfolding displace first_entry
  first_entry-displace h node m [] n e = e
  first_entry-displace h node m ((i, names) ∷ ring) n e = ground (arith, first-without node m names)

  owner-displace :
      (x h : ℕ) (node m : K) (ring : Ring K)
      → m ≢ node
      → owner ring x ≡ some m
      → owner (displace d h node ring) x ≡ some m
  unfolding owner or_first
  owner-displace x h node m ring n e = ground (
    arith,
    found-displace x h node m ring n,
    found-none-displace x h node ring,
    first_entry-displace h node m ring n,
  )

  module _ (bytes : K → List ℕ) where
    owner-displace_all :
        (x : ℕ) (node m : K) (r n : ℕ) (ring : Ring K)
        → m ≢ node
        → owner ring x ≡ some m
        → owner (displace_all d bytes node r n ring) x ≡ some m
    unfolding displace_all
    owner-displace_all x node m r zero ring n e = e
    owner-displace_all x node m r (suc k) ring n e =
        owner-displace_all x node m (suc r) k (displace d (point (bytes node) r) node ring) n
          (owner-displace x (point (bytes node) r) node m ring n e)

    -- Adding a node moves a key to that node or leaves it where it is, whatever hashes collide.
    pub get-add :
        (s : ConsistentHash K) (node : K) (key : List ℕ)
        → (get (add d bytes s node).0 key ≡ get s key)
          ⊎ (get (add d bytes s node).0 key ≡ some node)
    unfolding get add
    get-add s node key =
        ground (arith, owner-place_all bytes (hash_bytes key) node 0 s.replicas s.ring)

    -- Removing a node leaves every key of another node where it is.
    pub get-remove :
        (s : ConsistentHash K) (node m : K) (key : List ℕ)
        → m ≢ node
        → get s key ≡ some m
        → get (remove d bytes s node).0 key ≡ some m
    unfolding get remove
    get-remove s node m key n e =
        ground (arith, owner-displace_all (hash_bytes key) node m 0 s.replicas s.ring n e)
