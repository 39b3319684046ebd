-- ===== src/Hash/Ring/Accurate.antt =====
-- The ring of core/src/hash.rs against the set of its nodes, after any changes.
use rust_zero.Prelude.{
  ℕ, zero, suc, ◌≡◌, refl, ap, ◌∙◌, arith, Bool, true, false, not, ◌&&◌, ◌||◌, List, [], ◌∷◌, ◌++◌,
  some, ◌==◌, if◌then◌else◌, ite,
}
use rust_zero.Prelude.Sets.{contains, contains-without}
use rust_zero.Hash.{
  ConsistentHash, Ring, place, displace, place_all, displace_all, point, add, remove, new,
}
use rust_zero.Hash.Ring.{
  IsRing, names_at, names_at-place, names_at-displace, place-IsRing, displace-IsRing,
}

contains-append :
    {K : Type 0} (d : Discrete K) (m : K) (xs ys : List K)
    → contains d m (xs ++ ys) ≡ (contains d m xs || contains d m ys)
unfolding contains
contains-append d m [] ys = refl
contains-append d m (x ∷ xs) ys = ground (arith, contains-append d m xs ys)

module _ {K : Type 0} (bytes : K → List ℕ) where
  -- One of `n` replicas of the node, from replica `r` on, has this hash.
  unfoldable pub hits : K → ℕ → ℕ → ℕ → Bool
  hits m r zero x = false
  hits m r (suc n) x = (point (bytes m) r == x) || hits m (suc r) n x

module _ {K : Type 0} (d : Discrete K) (bytes : K → List ℕ) where
  abbrev hit : K → K → ℕ → ℕ → ℕ → Bool
  hit node m r n x = ite (d node m) (hits bytes node r n x) false

  place_all-IsRing :
      (node : K) (r n : ℕ) (ring : Ring K) → IsRing ring → IsRing (place_all bytes node r n ring)
  unfolding place_all
  place_all-IsRing node r zero ring i = i
  place_all-IsRing node r (suc n) ring i =
      place_all-IsRing node (suc r) n _ (place-IsRing (point (bytes node) r) node ring i)

  displace_all-IsRing :
      (node : K) (r n : ℕ) (ring : Ring K)
      → IsRing ring
      → IsRing (displace_all d bytes node r n ring)
  unfolding displace_all
  displace_all-IsRing node r zero ring i = i
  displace_all-IsRing node r (suc n) ring i =
      displace_all-IsRing node (suc r) n _ (displace-IsRing d (point (bytes node) r) node ring i)

  contains-place :
      (x h : ℕ) (node m : K) (ring : Ring K)
      → IsRing ring
      → contains d m (names_at x (place h node ring))
        ≡ (contains d m (names_at x ring) || ite (d node m) (h == x) false)
  unfolding contains
  contains-place x h node m ring i = ground (
    arith,
    names_at-place x h node ring i,
    contains-append d m (names_at x ring) (if h == x then node ∷ [] else []),
  )

  contains-displace :
      (x h : ℕ) (node m : K) (ring : Ring K)
      → IsRing ring
      → contains d m (names_at x (displace d h node ring))
        ≡ (contains d m (names_at x ring) && not (ite (d node m) (h == x) false))
  unfolding contains
  contains-displace x h node m ring i =
      ground
        (arith, names_at-displace d x h node ring i, contains-without d node m (names_at x ring))

  contains-place_all :
      (x : ℕ) (node m : K) (r n : ℕ) (ring : Ring K)
      → IsRing ring
      → contains d m (names_at x (place_all bytes node r n ring))
        ≡ (contains d m (names_at x ring) || hit node m r n x)
  unfolding place_all hits
  contains-place_all x node m r zero ring i = ground arith
  contains-place_all x node m r (suc n) ring i =
      let h = point (bytes node) r in
      ground (
        arith,
        contains-place_all x node m (suc r) n (place h node ring) (place-IsRing h node ring i),
        contains-place x h node m ring i,
      )

  contains-displace_all :
      (x : ℕ) (node m : K) (r n : ℕ) (ring : Ring K)
      → IsRing ring
      → contains d m (names_at x (displace_all d bytes node r n ring))
        ≡ (contains d m (names_at x ring) && not (hit node m r n x))
  unfolding displace_all hits
  contains-displace_all x node m r zero ring i = ground arith
  contains-displace_all x node m r (suc n) ring i =
      let h = point (bytes node) r in
      ground (
        arith,
        contains-displace_all x node m (suc r) n (displace d h node ring)
            (displace-IsRing d h node ring i),
        contains-displace x h node m ring i,
      )

  pub record IsValid (s : ConsistentHash K) : Type 0 where
    pub ring : IsRing s.ring
    pub accurate :
        (x : ℕ) (m : K)
        → contains d m (names_at x s.ring) ≡ (contains d m s.nodes && hits bytes m 0 s.replicas x)

  hits_same : (node m : K) (r n x : ℕ) → node ≡ m → hits bytes node r n x ≡ hits bytes m r n x
  hits_same node m r n x e = ap (λ k. hits bytes k r n x) e

  add-IsValid : (s : ConsistentHash K) (node : K) → IsValid s → IsValid (add d bytes s node).0
  unfolding add contains
  add-IsValid s node v = record {
    ring = ground (arith, place_all-IsRing node 0 s.replicas s.ring v.ring);
    accurate = λ x m. ground (
      arith,
      v.accurate x m,
      contains-place_all x node m 0 s.replicas s.ring v.ring,
      hits_same node m 0 s.replicas x,
    );
  }

  remove-IsValid : (s : ConsistentHash K) (node : K) → IsValid s → IsValid (remove d bytes s node).0
  unfolding remove
  remove-IsValid s node v = record {
    ring = ground (arith, displace_all-IsRing node 0 s.replicas s.ring v.ring);
    accurate = λ x m. ground (
      arith,
      v.accurate x m,
      contains-displace_all x node m 0 s.replicas s.ring v.ring,
      contains-without d node m s.nodes,
      hits_same node m 0 s.replicas x,
    );
  }

pub data Change (K : Type 0) : Type 0 where
  added : K → Change K
  removed : K → Change K

module _ {K : Type 0} (d : Discrete K) (bytes : K → List ℕ) where
  abbrev pub change : ConsistentHash K → Change K → ConsistentHash K
  change s (added node) = (add d bytes s node).0
  change s (removed node) = (remove d bytes s node).0

  unfoldable pub run : ConsistentHash K → List (Change K) → ConsistentHash K
  run s [] = s
  run s (c ∷ cs) = run (change s c) cs

  -- The members after some changes: the last change of a node decides.
  abbrev pub member : K → Bool → List (Change K) → Bool
  member m before [] = before
  member m before (added node ∷ cs) = member m (ite (d node m) true before) cs
  member m before (removed node ∷ cs) = member m (ite (d node m) false before) cs

  pub run-IsValid :
      (s : ConsistentHash K) (cs : List (Change K)) → IsValid d bytes s → IsValid d bytes (run s cs)
  unfolding run
  run-IsValid s [] v = v
  run-IsValid s (added node ∷ cs) v =
      run-IsValid (add d bytes s node).0 cs (add-IsValid d bytes s node v)
  run-IsValid s (removed node ∷ cs) v =
      run-IsValid (remove d bytes s node).0 cs (remove-IsValid d bytes s node v)

  contains-add :
      (s : ConsistentHash K) (node m : K)
      → contains d m (add d bytes s node).0.nodes ≡ ite (d node m) true (contains d m s.nodes)
  unfolding add contains
  contains-add s node m =
      let same = λ (e : node ≡ m). ap (λ k. contains d k s.nodes) e in ground (arith, same)

  contains-remove :
      (s : ConsistentHash K) (node m : K)
      → contains d m (remove d bytes s node).0.nodes ≡ ite (d node m) false (contains d m s.nodes)
  unfolding remove
  contains-remove s node m =
      let same = λ (e : node ≡ m). ap (λ k. contains d k s.nodes) e in
      ground (arith, same, contains-without d node m s.nodes)

  pub contains-run :
      (m : K) (s : ConsistentHash K) (cs : List (Change K))
      → contains d m (run s cs).nodes ≡ member m (contains d m s.nodes) cs
  unfolding run
  contains-run m s [] = refl
  contains-run m s (added node ∷ cs) =
      contains-run m (add d bytes s node).0 cs ∙ ap (λ b. member m b cs) (contains-add s node m)
  contains-run m s (removed node ∷ cs) =
      contains-run m (remove d bytes s node).0 cs
      ∙ ap (λ b. member m b cs) (contains-remove s node m)

  pub replicas-run :
      (s : ConsistentHash K) (cs : List (Change K)) → (run s cs).replicas ≡ s.replicas
  unfolding run add remove
  replicas-run s [] = refl
  replicas-run s (added node ∷ cs) = replicas-run (add d bytes s node).0 cs ∙ ground arith
  replicas-run s (removed node ∷ cs) = replicas-run (remove d bytes s node).0 cs ∙ ground arith

  pub new-IsValid :
      {replicas : ℕ} {s : ConsistentHash K}
      → new replicas ≡ some s
      → (s.replicas ≡ replicas) × (s.nodes ≡ []) × IsValid d bytes s
  unfolding new contains names_at
  new-IsValid e =
      (ground arith, ground arith, record { ring = ground arith; accurate = λ x m. ground arith })

  -- Whatever was added and removed, in whatever order: the ring has a node at a hash exactly if the
  -- last change of the node added it, and one of its replicas has that hash.
  pub run-names_at :
      (replicas : ℕ) {s : ConsistentHash K} (cs : List (Change K)) (x : ℕ) (m : K)
      → new replicas ≡ some s
      → contains d m (names_at x (run s cs).ring) ≡ (member m false cs && hits bytes m 0 replicas x)
  unfolding contains
  run-names_at replicas {s = s} cs x m e =
      let (size, empty, v) = new-IsValid e in
      let content = (run-IsValid s cs v).accurate x m in
      let members = contains-run m s cs in
      let width = replicas-run s cs in ground (arith, ap (λ ns. contains d m ns) empty)
