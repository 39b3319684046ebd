-- ===== src/Cache/Memory/Eviction.antt =====
-- Which key an insertion into the LRU cache drives out.
use rust_zero.Prelude.{
  ℕ, ◌+◌, ◌≤◌, ◌<◌, ◌≡◌, ◌≢◌, refl, arith, true, false, List, [], ◌∷◌, ◌++◌, none, some, length,
  inl, inr, lt→ltb, ap, sym, ◌∙◌, Option-cases, ◌⊎◌,
}
use rust_zero.Prelude.Words.{u64}
use rust_zero.Prelude.HashMap
use rust_zero.Prelude.HashMap.{
  IsMap, get-insert, get-insert_self, get-remove, length-insert_absent, length-remove_present,
  insert-IsMap, length-insert_present,
}
use rust_zero.Cache.Ttl.{Entry}
use rust_zero.Cache.Recency.{remove_from_recency, contains, remove_absent, contains-front}
use rust_zero.Cache.Memory.{MemoryCache, is_some, evict, grown, insert, count_evictions}
use rust_zero.Cache.Memory.Invariant.{IsValid, Agrees}

true≢false : true ≢ false
true≢false e = cc

module _ {K V : Type 0} (d : Discrete K) where
  evict_fits :
      (recency : List K) (c : MemoryCache K V)
      → length c.entries ≤ c.capacity
      → evict d recency c ≡ record c { recency = recency }
  unfolding evict
  evict_fits [] c h = refl
  evict_fits (oldest ∷ rest) c h = ground arith

  evict_one :
      (oldest : K) (rest : List K) (c : MemoryCache K V) {e : Entry V}
      → HashMap.get d oldest c.entries ≡ some e
      → c.capacity < length c.entries
      → length (HashMap.remove d oldest c.entries) ≤ c.capacity
      → evict d (oldest ∷ rest) c ≡ record c {
        entries = HashMap.remove d oldest c.entries;
        recency = rest;
        counters = count_evictions c.counters 1;
      }
  unfolding evict
  evict_one oldest rest c e over h =
      rw (lt→ltb c.capacity (length c.entries) over, e) (evict_fits rest _ h)

  grown-length :
      (entries : List (K × Entry V)) (key : K) (e : Entry V) (capacity : ℕ)
      → IsMap d entries
      → length entries ≤ capacity
      → (is_some (HashMap.get d key entries) ≡ true) ⊎ (length entries < capacity)
      → length (HashMap.insert d key e entries) ≤ capacity
  grown-length entries key e capacity once h room =
      elim (Option-cases (HashMap.get d key entries)) [
        | inl absent ↦ let n = length-insert_absent d key e entries absent in ground arith
        | inr (old, present) ↦ omega (arith, length-insert_present d key e entries once present)
      ]

  -- A key that is there, or one for which there is room, drives nothing out: its entry is new, it is
  -- the most recently used, and nothing else changes but the count of insertions.
  pub insert_fits :
      (c : MemoryCache K V) (key : K) (value : V) (ttl now : ℕ)
      → IsValid d c
      → 0 < ttl
      → (is_some (HashMap.get d key c.entries) ≡ true) ⊎ (length c.entries < c.capacity)
      → insert d c key value ttl now
        ≡ some (record c {
          entries =
              HashMap.insert d key (record { value = value; expires_at = now + ttl }) c.entries;
          recency = remove_from_recency d c.recency key ++ key ∷ [];
          counters = record c.counters { insertions = u64 (c.counters.insertions + 1) };
        })
  unfolding insert
  insert_fits c key value ttl now v h room = rw (lt→ltb 0 ttl h) (
      ap some (
        evict_fits (remove_from_recency d c.recency key ++ key ∷ [])
          (grown d c key value (now + ttl))
          (grown-length c.entries key (record { value = value; expires_at = now + ttl }) c.capacity
            v.consistent.entries_once v.within room)))

  module _ (entries : List (K × Entry V)) (key oldest : K) where
    held_after :
        (e : Entry V) {old : Entry V}
        → HashMap.get d key entries ≡ none
        → HashMap.get d oldest entries ≡ some old
        → HashMap.get d oldest (HashMap.insert d key e entries) ≡ some old
    held_after e absent held =
        ground (arith, get-insert d key oldest e entries, ap (λ k. HashMap.get d k entries))

    full_lengths :
        (e : Entry V) (capacity : ℕ) {old : Entry V}
        → IsMap d entries
        → HashMap.get d key entries ≡ none
        → length entries ≡ capacity
        → HashMap.get d oldest entries ≡ some old
        → (capacity < length (HashMap.insert d key e entries))
          × (length (HashMap.remove d oldest (HashMap.insert d key e entries)) ≤ capacity)
    full_lengths e capacity once absent full held =
        let grew = length-insert_absent d key e entries absent in
        let shrank =
          length-remove_present d oldest (HashMap.insert d key e entries)
            (insert-IsMap d key e entries once) (held_after e absent held) in
        (omega arith, omega arith)

    -- The front of the queue has an entry, and the new key goes to its end.
    pub full_queue :
        (recency rest : List K)
        → Agrees d entries recency
        → HashMap.get d key entries ≡ none
        → recency ≡ oldest ∷ rest
        → (remove_from_recency d recency key ++ key ∷ [] ≡ oldest ∷ (rest ++ key ∷ []))
          × ((old : Entry V) × (HashMap.get d oldest entries ≡ some old))
    full_queue recency rest i absent e = (
      rw (remove_absent d recency key (i.same_keys key ∙ ap is_some absent), e),
      elim (Option-cases (HashMap.get d oldest entries)) [
        | inl gone ↦ absurd (
            true≢false (
              sym (ap (contains d oldest) e ∙ contains-front d oldest rest)
              ∙ i.same_keys oldest
              ∙ ap is_some gone))
        | inr held ↦ held
      ],
    )

  -- A new key in a full, consistent cache, with a positive time to live, drives out the least recently used one, and no other.
  pub insert_full :
      (c : MemoryCache K V) (key : K) (value : V) (ttl now : ℕ) (oldest : K) (rest : List K)
      → IsValid d c
      → 0 < ttl
      → HashMap.get d key c.entries ≡ none
      → length c.entries ≡ c.capacity
      → c.recency ≡ oldest ∷ rest
      → insert d c key value ttl now
        ≡ some (record c {
          entries =
              HashMap.remove d oldest
                (HashMap.insert d key (record { value = value; expires_at = now + ttl }) c.entries);
          recency = rest ++ key ∷ [];
          counters =
              count_evictions
                (record c.counters { insertions = u64 (c.counters.insertions + 1) })
                1;
        })
  unfolding insert
  insert_full c key value ttl now oldest rest v h absent full e =
      let new_entry : Entry V = record { value = value; expires_at = now + ttl } in
      let (queue, (old, held)) =
        full_queue c.entries key oldest c.recency rest v.consistent absent e in
      let (over, room) =
        full_lengths c.entries key oldest new_entry c.capacity v.consistent.entries_once absent full
          held in
      rw (lt→ltb 0 ttl h, queue)
        (ap some (
          evict_one oldest (rest ++ key ∷ []) (grown d c key value (now + ttl))
            (held_after c.entries key oldest new_entry absent held) over room))
