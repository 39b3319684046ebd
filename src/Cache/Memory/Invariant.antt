-- ===== src/Cache/Memory/Invariant.antt =====
-- The entries and the queue of the LRU cache: they hold the same keys, each once.
use rust_zero.Prelude.{
  ℕ, ◌+◌, ◌≤◌, ◌<◌, ◌≡◌, refl, arith, false, List, [], ◌∷◌, ◌++◌, Option, none, some, ltb, length,
  Bool-cases, inl, inr, lt→ltb, ap,
}
use rust_zero.Prelude.HashMap
use rust_zero.Prelude.HashMap.{
  IsMap, get-insert, get-remove, insert-IsMap, remove-IsMap, length-remove,
}
use rust_zero.Cache.Ttl.{Entry, is_expired}
use rust_zero.Cache.Recency.{
  remove_from_recency, contains, Distinct, contains-remove, remove-Distinct, back_once,
  contains-back,
}
use rust_zero.Cache.Memory.{
  MemoryCache, is_some, evict, grown, insert, touch, get, remove, remove_keys,
}

module _ {K V : Type 0} (d : Discrete K) where
  pub record Agrees (entries : List (K × Entry V)) (recency : List K) : Type 0 where
    pub entries_once : IsMap d entries
    pub recency_once : Distinct d recency
    pub same_keys : (k : K) → contains d k recency ≡ is_some (HashMap.get d k entries)

  pub record IsValid (c : MemoryCache K V) : Type 0 where
    pub consistent : Agrees c.entries c.recency
    pub within : length c.entries ≤ c.capacity

  pub remove-Agrees :
      (entries : List (K × Entry V)) (recency : List K) (key : K)
      → Agrees entries recency
      → Agrees (HashMap.remove d key entries) (remove_from_recency d recency key)
  remove-Agrees entries recency key i = record {
    entries_once = remove-IsMap d key entries i.entries_once;
    recency_once = remove-Distinct d recency key i.recency_once;
    same_keys = λ k. ground (
      arith,
      i.same_keys k,
      contains-remove d recency key k i.recency_once,
      get-remove d key k entries,
    );
  }

  -- A new entry, its key at the back of the queue.
  insert-Agrees :
      (entries : List (K × Entry V)) (recency : List K) (key : K) (e : Entry V)
      → Agrees entries recency
      → Agrees (HashMap.insert d key e entries) (remove_from_recency d recency key ++ key ∷ [])
  insert-Agrees entries recency key e i = record {
    entries_once = insert-IsMap d key e entries i.entries_once;
    recency_once = back_once d recency key i.recency_once;
    same_keys = λ k. ground (
      arith,
      i.same_keys k,
      contains-back d recency key k i.recency_once,
      get-insert d key k e entries,
    );
  }

  -- An entry that is there, its key moved to the back.
  touch-Agrees :
      (entries : List (K × Entry V)) (recency : List K) (key : K) {e : Entry V}
      → HashMap.get d key entries ≡ some e
      → Agrees entries recency
      → Agrees entries (remove_from_recency d recency key ++ key ∷ [])
  touch-Agrees entries recency key h i = record {
    entries_once = i.entries_once;
    recency_once = back_once d recency key i.recency_once;
    same_keys = λ k. ground (
      arith,
      i.same_keys k,
      contains-back d recency key k i.recency_once,
      ap (λ j. HashMap.get d j entries),
    );
  }

  pub none_left :
      (entries : List (K × Entry V))
      → ((k : K) → false ≡ is_some (HashMap.get d k entries))
      → length entries ≡ 0
  unfolding HashMap.get
  none_left [] h = refl
  none_left ((k, e) ∷ entries) h = ground (arith, h k)

  -- The front of the queue, and its entry, are taken away.
  pub pop-Agrees :
      (entries : List (K × Entry V)) (oldest : K) (rest : List K)
      → Agrees entries (oldest ∷ rest)
      → Agrees (HashMap.remove d oldest entries) rest
  unfolding contains
  pop-Agrees entries oldest rest i = record {
    entries_once = remove-IsMap d oldest entries i.entries_once;
    recency_once = i.recency_once.1;
    same_keys = λ k. ground (
      arith,
      i.same_keys k,
      i.recency_once,
      ap (λ j. contains d j rest),
      get-remove d oldest k entries,
    );
  }

  pub evict-IsValid :
      (recency : List K) (c : MemoryCache K V)
      → Agrees c.entries recency
      → IsValid (evict d recency c)
  unfolding evict contains
  evict-IsValid [] c i = record {
    consistent = i;
    within = omega (arith, none_left c.entries i.same_keys);
  }
  evict-IsValid (oldest ∷ rest) c i = elim (Bool-cases (ltb c.capacity (length c.entries))) [
    | inl over ↦ rw (over, evict) (evict-IsValid rest _ (pop-Agrees c.entries oldest rest i))
    | inr fits ↦ rw (fits, evict) (record { consistent = i; within = ground arith })
  ]

  -- An insertion with a positive time to live succeeds, and leaves a consistent cache within its
  -- capacity.
  pub insert-IsValid :
      (c : MemoryCache K V) (key : K) (value : V) (ttl now : ℕ)
      → IsValid c
      → 0 < ttl
      → (c' : MemoryCache K V) × (insert d c key value ttl now ≡ some c') × IsValid c'
  unfolding insert
  insert-IsValid c key value ttl now v h =
      let new_entry : Entry V = record { value = value; expires_at = now + ttl } in
      let queue = remove_from_recency d c.recency key ++ key ∷ [] in
      (
        evict d queue (grown d c key value (now + ttl)),
        rw (lt→ltb 0 ttl h),
        evict-IsValid queue (grown d c key value (now + ttl))
            (insert-Agrees c.entries c.recency key new_entry v.consistent),
      )

  touch-IsValid :
      (c : MemoryCache K V) (key : K) (o : Option (Entry V))
      → HashMap.get d key c.entries ≡ o
      → IsValid c
      → IsValid (touch d c key o).0
  unfolding touch
  touch-IsValid c key none e v = record { consistent = v.consistent; within = v.within }
  touch-IsValid c key (some entry) e v = record {
    consistent = touch-Agrees c.entries c.recency key e v.consistent;
    within = v.within;
  }

  -- A read keeps the cache consistent, and no larger than it was.
  pub get-IsValid :
      (c : MemoryCache K V) (key : K) (now : ℕ) → IsValid c → IsValid (get d c key now).0
  unfolding get
  get-IsValid c key now v = elim (Bool-cases (is_expired now (HashMap.get d key c.entries))) [
    | inl expired ↦
        rw (expired, get)
          (record {
            consistent = remove-Agrees c.entries c.recency key v.consistent;
            within = omega (arith, length-remove d key c.entries, v.within);
          })
    | inr live ↦ rw (live, get) (touch-IsValid c key (HashMap.get d key c.entries) refl v)
  ]

  pub remove_keys-IsValid :
      (c : MemoryCache K V) (keys : List K) → IsValid c → IsValid (remove_keys d c keys)
  unfolding remove_keys
  remove_keys-IsValid c [] v = v
  remove_keys-IsValid c (key ∷ keys) v = remove_keys-IsValid (remove d c key).0 keys (record {
    consistent = remove-Agrees c.entries c.recency key v.consistent;
    within = omega (arith, length-remove d key c.entries, v.within);
  })
