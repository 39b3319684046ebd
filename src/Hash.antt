-- ===== src/Hash.antt =====
-- core/src/hash.rs. A node is a value with its bytes, the ring's `BTreeMap` is a list of entries in
-- the order of their hashes, and the set of nodes is a list.
pub mod Moves
pub mod Ring
mod Tests
use Prim.Native.Nat.{bit_xor}
use mathlib.Core.List.{foldl}
use rust_zero.Prelude.{
  ℕ, zero, suc, ◌+◌, ◌*◌, ◌/◌, ◌%◌, ◌^◌, Bool, true, false, List, [], ◌∷◌, ◌++◌, Option, none, some,
  ltb, leb, ◌==◌, if◌then◌else◌, ite, length,
}
use rust_zero.Prelude.Words.{u64}
use rust_zero.Prelude.Sets.{contains, without}

-- `format!("{replica}")` for a number under 10 ^ fuel.
unfoldable pub decimal : ℕ → ℕ → List ℕ
decimal zero n = []
decimal (suc fuel) n =
    let rest = decimal fuel (n / 10) in
    if ltb n 10 then (b'0' + n) ∷ [] else rest ++ (b'0' + n % 10) ∷ []

-- FNV-1a, then the finalizer of SplitMix64.
unfoldable pub hash_bytes : List ℕ → ℕ
hash_bytes bytes =
    let h = foldl (λ h byte. u64 (bit_xor h byte * 0x100000001b3)) 0xcbf29ce484222325 bytes in
    let a = u64 (bit_xor h (h / 2 ^ 30) * 0xbf58476d1ce4e5b9) in
    let b = u64 (bit_xor a (a / 2 ^ 27) * 0x94d049bb133111eb) in bit_xor b (b / 2 ^ 31)

-- The hash of `{node}#{replica}`; a `usize` has at most twenty digits.
unfoldable pub point : List ℕ → ℕ → ℕ
point node replica = hash_bytes (node ++ b'#' ∷ decimal 20 replica)

abbrev pub Ring : Type 0 → Type 0
Ring K = List (ℕ × List K)

-- A virtual replica at its place: `entry(hash).or_default().push(node)`.
unfoldable pub place : {K : Type 0} → ℕ → K → Ring K → Ring K
place h node [] = (h, node ∷ []) ∷ []
place h node ((i, names) ∷ ring) =
    if ltb h i
    then (h, node ∷ []) ∷ (i, names) ∷ ring
    else if h == i
    then (i, names ++ node ∷ []) ∷ ring
    else (i, names) ∷ place h node ring

abbrev pub keep_entry : {K : Type 0} → ℕ → List K → Ring K → Ring K
keep_entry i [] ring = ring
keep_entry i (name ∷ names) ring = (i, name ∷ names) ∷ ring

-- `range(hash..).next()`
unfoldable pub next_from : {K : Type 0} → ℕ → Ring K → Option (List K)
next_from h [] = none
next_from h ((i, names) ∷ ring) = if leb h i then some names else next_from h ring

abbrev pub first : {K : Type 0} → List K → Option K
first [] = none
first (name ∷ names) = some name

first_entry : {K : Type 0} → Ring K → Option K
first_entry [] = none
first_entry ((i, names) ∷ ring) = first names

or_first : {K : Type 0} → Option (List K) → Ring K → Option K
or_first none ring = first_entry ring
or_first (some names) ring = first names

-- The owner of a hash: the node of the next entry, or of the first one after the last.
unfoldable pub owner : {K : Type 0} → Ring K → ℕ → Option K
unfolding or_first first_entry
owner ring h = or_first (next_from h ring) ring

pub record ConsistentHash (K : Type 0) : Type 0 where
  pub replicas : ℕ
  pub nodes : List K
  pub ring : Ring K

-- `none` is a failed assertion.
unfoldable pub new : {K : Type 0} → ℕ → Option (ConsistentHash K)
new replicas =
    if ltb 0 replicas then some (record { replicas = replicas; nodes = []; ring = [] }) else none

module _ {K : Type 0} (d : Discrete K) where
  -- The body of the loop of `remove`.
  unfoldable pub displace : ℕ → K → Ring K → Ring K
  displace h node [] = []
  displace h node ((i, names) ∷ ring) =
      if h == i then keep_entry i (without d node names) ring else (i, names) ∷ displace h node ring

module _ {K : Type 0} (bytes : K → List ℕ) where
  -- The loop of `add`, from a replica on, for so many replicas.
  unfoldable pub place_all : K → ℕ → ℕ → Ring K → Ring K
  place_all node replica zero ring = ring
  place_all node replica (suc n) ring =
      place_all node (suc replica) n (place (point (bytes node) replica) node ring)

module _ {K : Type 0} (d : Discrete K) (bytes : K → List ℕ) where
  -- The loop of `remove`.
  unfoldable pub displace_all : K → ℕ → ℕ → Ring K → Ring K
  displace_all node replica zero ring = ring
  displace_all node replica (suc n) ring =
      displace_all node (suc replica) n (displace d (point (bytes node) replica) node ring)

  unfoldable pub add : ConsistentHash K → K → ConsistentHash K × Bool
  add s node = if contains d node s.nodes then (s, false) else (
    record s { nodes = node ∷ s.nodes; ring = place_all bytes node 0 s.replicas s.ring },
    true,
  )

  unfoldable pub remove : ConsistentHash K → K → ConsistentHash K × Bool
  remove s node =
      if contains d node s.nodes
      then (
        record s { nodes = without d node s.nodes; ring = displace_all node 0 s.replicas s.ring },
        true,
      )
      else (s, false)

unfoldable pub get : {K : Type 0} → ConsistentHash K → List ℕ → Option K
get s key = owner s.ring (hash_bytes key)
