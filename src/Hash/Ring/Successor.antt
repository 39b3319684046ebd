-- ===== src/Hash/Ring/Successor.antt =====
-- Where the ring of core/src/hash.rs finds a key: at the nearest hash in the order of the ring.
use rust_zero.Prelude.{
  ℕ, zero, suc, ◌≤◌, ◌<◌, ◌≡◌, refl, arith, Bool, true, false, ◌&&◌, ◌||◌, List, [], ◌∷◌, Option,
  none, some, ltb, leb, if◌then◌else◌, ◌⊎◌, length,
}
use rust_zero.Prelude.Sets.{contains}
use rust_zero.Hash.{
  ConsistentHash, Ring, next_from, first, first_entry, or_first, owner, hash_bytes, get, new, point,
}
use rust_zero.Hash.Ring.{IsRing, Above, names_at}
use rust_zero.Hash.Ring.Accurate.{hits, Change, run, member, run-IsValid, run-names_at, new-IsValid}

-- Clockwise from `h`, the hash `x` comes no later than `y`.
abbrev pub nearer : ℕ → ℕ → ℕ → Bool
nearer h x y = if leb h x then ltb y h || leb x y else ltb y h && leb x y

module _ {K : Type 0} (d : Discrete K) where
  first-contains : (m : K) (names : List K) → first names ≡ some m → contains d m names ≡ true
  unfolding contains
  first-contains m [] e = cc
  first-contains m (name ∷ names) e = ground arith

  first_total : (names : List K) → 0 < length names → (m : K) × (first names ≡ some m)
  first_total [] h = elim h [ ]
  first_total (name ∷ names) h = (name, refl)

  not_below :
      (x y : ℕ) (k : K) (ring : Ring K)
      → contains d k (names_at y ring) ≡ true
      → Above x ring
      → x < y
  unfolding names_at contains
  not_below x y k [] c a = ground arith
  not_below x y k ((i, names) ∷ ring) c a = ground (arith, not_below x y k ring)

  entry_at : (x : ℕ) (names : List K) (ring : Ring K) → names_at x ((x, names) ∷ ring) ≡ names
  unfolding names_at
  entry_at x names ring = ground arith

  -- The hash of the entry that a search from `h` finds.
  next_hash : ℕ → Ring K → ℕ
  next_hash h [] = 0
  next_hash h ((i, names) ∷ ring) = if leb h i then i else next_hash h ring

  names_at-next_hash :
      (h : ℕ) (ring : Ring K) {names : List K}
      → next_from h ring ≡ some names
      → (names_at (next_hash h ring) ring ≡ names) × (h ≤ next_hash h ring)
  unfolding next_from names_at next_hash
  names_at-next_hash h [] e = cc
  names_at-next_hash h ((i, ns) ∷ ring) {names} e =
      ground (arith, names_at-next_hash h ring {names = names})

  next_hash_least :
      (h y : ℕ) (k : K) (ring : Ring K) {names : List K}
      → IsRing ring
      → contains d k (names_at y ring) ≡ true
      → next_from h ring ≡ some names
      → (y < h) ⊎ (next_hash h ring ≤ y)
  unfolding next_from names_at next_hash contains
  next_hash_least h y k [] r c e = cc
  next_hash_least h y k ((i, ns) ∷ ring) {names} r c e =
      ground (arith, next_hash_least h y k ring {names = names} r.2, not_below i y k ring)

  next_from-none :
      (h y : ℕ) (k : K) (ring : Ring K)
      → contains d k (names_at y ring) ≡ true
      → next_from h ring ≡ none
      → y < h
  unfolding next_from names_at contains
  next_from-none h y k [] c e = ground arith
  next_from-none h y k ((i, ns) ∷ ring) c e = ground (arith, next_from-none h y k ring)

  -- The nearest entry, for each way that a search goes.
  nearest :
      (h y : ℕ) (k m : K) (ring : Ring K) (found : Option (List K))
      → IsRing ring
      → contains d k (names_at y ring) ≡ true
      → next_from h ring ≡ found
      → or_first found ring ≡ some m
      → (x : ℕ) × (contains d m (names_at x ring) ≡ true) × (nearer h x y ≡ true)
  unfolding or_first first_entry names_at contains
  nearest h y k m ring (some names) r c e f =
      let (at, after) = names_at-next_hash h ring e in
      let held = first-contains m names f in
      let least = next_hash_least h y k ring r c e in (next_hash h ring, rw at held, ground arith)
  nearest h y k m [] none r c e f = cc
  nearest h y k m ((i, ns) ∷ ring) none r c e f =
      let before = next_from-none h y k ((i, ns) ∷ ring) c e in
      let start = next_from-none h i m ((i, ns) ∷ ring) in
      (
        i,
        ground (arith, first-contains m ns f),
        ground (arith, not_below i y k ring, start, first-contains m ns f),
      )

  next_from_full :
      (h : ℕ) (ring : Ring K) {names : List K}
      → IsRing ring
      → next_from h ring ≡ some names
      → 0 < length names
  unfolding next_from
  next_from_full h [] r e = cc
  next_from_full h ((i, ns) ∷ ring) {names} r e =
      ground (arith, next_from_full h ring {names = names} r.2)

  some_first :
      (ring : Ring K) (k : K) (y : ℕ) (found : Option (List K)) (h : ℕ)
      → IsRing ring
      → contains d k (names_at y ring) ≡ true
      → next_from h ring ≡ found
      → (m : K) × (or_first found ring ≡ some m)
  unfolding or_first first_entry names_at contains
  some_first ring k y (some names) h r c e = first_total names (next_from_full h ring r e)
  some_first [] k y none h r c e = cc
  some_first ((i, ns) ∷ ring) k y none h r c e = first_total ns r.0

module _ {K : Type 0} (d : Discrete K) (bytes : K → List ℕ) where
  -- After any changes that leave a member, every key has a node.
  pub get_total :
      (replicas : ℕ) {s : ConsistentHash K} (cs : List (Change K)) (key : List ℕ) (k : K)
      → new replicas ≡ some s
      → 0 < replicas
      → member d bytes k false cs ≡ true
      → (m : K) × (get (run d bytes s cs) key ≡ some m)
  unfolding get owner
  get_total zero cs key k e pos h = elim pos [ ]
  get_total (suc n) {s = s} cs key k e pos h =
      let (size, empty, v) = new-IsValid d bytes e in
      let w = run-IsValid d bytes s cs v in
      let last = run d bytes s cs in
      let y = point (bytes k) 0 in
      let there : contains d k (names_at y last.ring) ≡ true =
        rw (run-names_at d bytes (suc n) cs y k e) (unfold hits in ground arith) in
      some_first d last.ring k y (next_from (hash_bytes key) last.ring) (hash_bytes key) w.ring
        there refl

  -- After any changes, a key with a node goes to one of the members, and of all replicas of all
  -- members one of that node's comes first, clockwise from the hash of the key.
  pub get-nearest :
      (replicas : ℕ) {s : ConsistentHash K} (cs : List (Change K)) (key : List ℕ) (m k : K) (y : ℕ)
      → new replicas ≡ some s
      → get (run d bytes s cs) key ≡ some m
      → member d bytes k false cs ≡ true
      → hits bytes k 0 replicas y ≡ true
      → (member d bytes m false cs ≡ true)
        × ((x : ℕ) × (hits bytes m 0 replicas x ≡ true) × (nearer (hash_bytes key) x y ≡ true))
  unfolding get owner
  get-nearest replicas {s = s} cs key m k y e found old hit =
      let (size, empty, v) = new-IsValid d bytes e in
      let w = run-IsValid d bytes s cs v in
      let last = run d bytes s cs in
      let there : contains d k (names_at y last.ring) ≡ true =
        rw (run-names_at d bytes replicas cs y k e) (ground arith) in
      let (x, held, near) =
        nearest d (hash_bytes key) y k m last.ring (next_from (hash_bytes key) last.ring) w.ring
          there refl found in
      let content = run-names_at d bytes replicas cs x m e in
      (ground arith, (x, ground arith, near))
