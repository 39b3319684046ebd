-- ===== src/Cache/Memory.antt =====
-- The bounded LRU cache of core/src/cache.rs.
pub mod Invariant
pub mod Eviction
pub mod Reads
use mathlib.Core.Option
use rust_zero.Prelude.{
  ℕ, suc, ◌+◌, Bool, true, false, not, List, [], ◌∷◌, ◌++◌, Option, none, some, ltb, leb,
  if◌then◌else◌, length, map,
}
use rust_zero.Prelude.Words.{u64}
use rust_zero.Prelude.HashMap
use rust_zero.Cache.Ttl.{Entry, is_expired}
use rust_zero.Cache.Recency.{remove_from_recency}

pub record CacheStats : Type 0 where
  pub hits : ℕ
  pub misses : ℕ
  pub insertions : ℕ
  pub evictions : ℕ

pub record MemoryCache (K V : Type 0) : Type 0 where
  pub capacity : ℕ
  pub entries : List (K × Entry V)
  pub recency : List K
  pub counters : CacheStats

-- `none` is a failed assertion.
unfoldable pub new : {K V : Type 0} → ℕ → Option (MemoryCache K V)
new capacity =
    if ltb 0 capacity
    then some (record {
      capacity = capacity;
      entries = [];
      recency = [];
      counters = record { hits = 0; misses = 0; insertions = 0; evictions = 0 };
    })
    else none

unfoldable pub count_evictions : CacheStats → ℕ → CacheStats
count_evictions s n = record s { evictions = u64 (s.evictions + n) }

abbrev pub is_some : {V : Type 0} → Option (Entry V) → Bool
is_some none = false
is_some (some e) = true

module _ {K V : Type 0} (d : Discrete K) where
  -- The `while` loop: the queue that is left is the recursion's argument, and an empty one breaks.
  unfoldable pub evict : List K → MemoryCache K V → MemoryCache K V
  evict [] c = record c { recency = [] }
  evict (oldest ∷ rest) c =
      let next = evict rest (record c {
        entries = HashMap.remove d oldest c.entries;
        counters =
            if is_some (HashMap.get d oldest c.entries)
            then count_evictions c.counters 1
            else c.counters;
      }) in
      if ltb c.capacity (length c.entries) then next else record c { recency = oldest ∷ rest }

  -- The cache with its new entry, before the loop; the queue is the loop's argument.
  unfoldable pub grown : MemoryCache K V → K → V → ℕ → MemoryCache K V
  grown c key value expires_at = record c {
    entries = HashMap.insert d key (record { value = value; expires_at = expires_at }) c.entries;
    counters = record s { insertions = u64 (s.insertions + 1) };
  }
    where
      open c use {counters as s}

  unfoldable pub insert : MemoryCache K V → K → V → ℕ → ℕ → Option (MemoryCache K V)
  unfolding grown
  insert c key value ttl now =
      if ltb 0 ttl
      then some
          (evict (remove_from_recency d c.recency key ++ key ∷ []) (grown c key value (now + ttl)))
      else none

  -- What a read of an entry that is not expired does.
  unfoldable pub touch : MemoryCache K V → K → Option (Entry V) → MemoryCache K V × Option V
  touch c key none = (record c { counters = record s { misses = u64 (s.misses + 1) } }, none)
    where
      open c use {counters as s}
  touch c key (some e) = (
    record c {
      recency = remove_from_recency d c.recency key ++ key ∷ [];
      counters = record s { hits = u64 (s.hits + 1) };
    },
    some e.value,
  )
    where
      open c use {counters as s}

  unfoldable pub get : MemoryCache K V → K → ℕ → MemoryCache K V × Option V
  unfolding touch
  get c key now =
      if is_expired now (HashMap.get d key c.entries)
      then (
        record c {
          entries = HashMap.remove d key c.entries;
          recency = remove_from_recency d c.recency key;
          counters = record s { evictions = u64 (s.evictions + 1); misses = u64 (s.misses + 1) };
        },
        none,
      )
      else touch c key (HashMap.get d key c.entries)
    where
      open c use {counters as s}

  unfoldable pub remove : MemoryCache K V → K → MemoryCache K V × Option V
  remove c key = (
    record c {
      entries = HashMap.remove d key c.entries;
      recency = remove_from_recency d c.recency key;
    },
    Option.map (λ e. e.value) (HashMap.get d key c.entries),
  )

  -- The keys that a test accepts, and their removal one by one.
  unfoldable pub keys_where : (K → Entry V → Bool) → List (K × Entry V) → List K
  keys_where p entries = HashMap.keys (HashMap.retain p entries)

  unfoldable pub remove_keys : MemoryCache K V → List K → MemoryCache K V
  unfolding remove
  remove_keys c [] = c
  remove_keys c (key ∷ keys) = remove_keys (remove c key).0 keys

  unfoldable pub remove_where : MemoryCache K V → (K → V → Bool) → MemoryCache K V × ℕ
  unfolding keys_where remove_keys
  remove_where c predicate =
      let keys = keys_where (λ k e. predicate k e.value) c.entries in
      (remove_keys c keys, length keys)

  unfoldable pub clear : MemoryCache K V → MemoryCache K V
  clear c = record c { entries = []; recency = [] }

  -- `len`
  unfoldable pub len_at : MemoryCache K V → ℕ → MemoryCache K V × ℕ
  unfolding keys_where remove_keys
  len_at c now =
      let expired = keys_where (λ k e. leb e.expires_at now) c.entries in
      let swept = remove_keys c expired in
      (
        record swept { counters = count_evictions swept.counters (length expired) },
        length swept.entries,
      )
