-- ===== src/Cache/Memory/Reads.antt =====
-- What is read from the LRU cache after an insertion, and what a removal by a test leaves.
use rust_zero.Prelude.{
  ℕ, ◌+◌, ◌≤◌, ◌<◌, ◌≡◌, refl, arith, Bool, false, List, [], ◌∷◌, Option, none, some, if◌then◌else◌,
  length, inl, inr, ap, sym, ◌∙◌, Option-cases, dec_lt,
}
use rust_zero.Prelude.HashMap
use rust_zero.Prelude.HashMap.{
  IsMap, get-insert, get-insert_self, get-remove, get-remove_self, get-retain,
}
use rust_zero.Cache.Ttl.{Entry}
use rust_zero.Cache.Recency.{contains, contains-remove}
use rust_zero.Cache.Memory.{
  MemoryCache, insert, touch, get, remove, remove_keys, keys_where, remove_where,
}
use rust_zero.Cache.Memory.Invariant.{IsValid, none_left, remove_keys-IsValid}
use rust_zero.Cache.Memory.Eviction.{insert_fits, insert_full, full_queue}

module _ {K V : Type 0} (d : Discrete K) where
  get_live :
      (c : MemoryCache K V) (key : K) (now : ℕ) {e : Entry V}
      → HashMap.get d key c.entries ≡ some e
      → now < e.expires_at
      → (get d c key now).1 ≡ some e.value
  unfolding get touch
  get_live c key now h fresh = ground arith

  -- A full cache that may hold something holds something, and its queue is not empty.
  queue_front :
      (c : MemoryCache K V)
      → IsValid d c
      → 0 < length c.entries
      → (oldest : K) × (rest : List K) × (c.recency ≡ oldest ∷ rest)
  unfolding contains
  queue_front c v h = go c.recency refl
    where
      go :
          (q : List K)
          → c.recency ≡ q
          → (oldest : K) × (rest : List K) × (c.recency ≡ oldest ∷ rest)
      go [] e = absurd (
          omega (
            arith,
            none_left d c.entries (λ k. sym (ap (contains d k) e) ∙ v.consistent.same_keys k),
          ))
      go (oldest ∷ rest) e = (oldest, rest, e)

  inserted :
      (c c' : MemoryCache K V) (key : K) (value : V) (ttl now : ℕ)
      → IsValid d c
      → 0 < c.capacity
      → 0 < ttl
      → insert d c key value ttl now ≡ some c'
      → HashMap.get d key c'.entries ≡ some (record { value = value; expires_at = now + ttl })
  inserted c c' key value ttl now v room h e =
      let new_entry : Entry V = record { value = value; expires_at = now + ttl } in
      elim (Option-cases (HashMap.get d key c.entries)) [
        | inr (old, present) ↦ ground (
          arith,
          insert_fits d c key value ttl now v h (inl (rw present refl)),
          get-insert_self d key new_entry c.entries,
        )
        | inl absent ↦ elim (dec_lt (length c.entries) c.capacity) [
          | yes fits ↦ ground (
            arith,
            insert_fits d c key value ttl now v h (inr fits),
            get-insert_self d key new_entry c.entries,
          )
          | no full ↦
              let size : length c.entries ≡ c.capacity = omega (arith, v.within) in
              let (oldest, rest, queue) = queue_front c v (omega arith) in
              let (old, held) =
                (full_queue d c.entries key oldest c.recency rest v.consistent absent queue).1 in
              ground (
                arith,
                insert_full d c key value ttl now oldest rest v h absent size queue,
                get-insert_self d key new_entry c.entries,
                get-remove d oldest key (HashMap.insert d key new_entry c.entries),
                ap (λ k. HashMap.get d k c.entries),
                held,
              )
        ]
      ]

  -- What is inserted, with a positive time to live, into a consistent cache that may hold something is read back, until it expires.
  pub get-insert_live :
      (c c' : MemoryCache K V) (key : K) (value : V) (ttl now later : ℕ)
      → IsValid d c
      → 0 < c.capacity
      → 0 < ttl
      → later < now + ttl
      → insert d c key value ttl now ≡ some c'
      → (get d c' key later).1 ≡ some value
  get-insert_live c c' key value ttl now later v room h fresh e =
      get_live c' key later (inserted c c' key value ttl now v room h e) fresh

  -- A read of an entry that has expired takes it away, from the queue too.
  pub get_expired :
      (c : MemoryCache K V) (key : K) (now : ℕ) {e : Entry V}
      → IsValid d c
      → HashMap.get d key c.entries ≡ some e
      → e.expires_at ≤ now
      → ((get d c key now).1 ≡ none)
        × (HashMap.get d key (get d c key now).0.entries ≡ none)
        × (contains d key (get d c key now).0.recency ≡ false)
  unfolding get
  get_expired c key now v h late = ground (
    arith,
    get-remove_self d key c.entries,
    contains-remove d c.recency key key v.consistent.recency_once,
  )

  get-remove_keys :
      (c : MemoryCache K V) (keys : List K) (j : K)
      → HashMap.get d j (remove_keys d c keys).entries
        ≡ (if contains d j keys then none else HashMap.get d j c.entries)
  unfolding remove_keys contains
  get-remove_keys c [] j = refl
  get-remove_keys c (key ∷ keys) j =
      ground (arith, get-remove_keys (remove d c key).0 keys j, get-remove d key j c.entries)

  contains-keys :
      (p : K → Entry V → Bool) (j : K) (entries : List (K × Entry V))
      → IsMap d entries
      → contains d j (keys_where d p entries)
        ≡ (elim (HashMap.get d j entries) [ none ↦ false | some e ↦ p j e ])
  unfolding contains keys_where HashMap.get HashMap.retain
  contains-keys p j [] h = refl
  contains-keys p j ((k, e) ∷ entries) h = ground (arith, contains-keys p j entries h.1)

  -- What is left of an entry when the entries that a test accepts are removed.
  abbrev pub spared : (V → Bool) → Option (Entry V) → Option (Entry V)
  spared test none = none
  spared test (some e) = if test e.value then none else some e

  -- `remove_where` removes exactly the entries that the test accepts, and the cache stays valid.
  pub remove_where-get :
      (c : MemoryCache K V) (predicate : K → V → Bool) (j : K)
      → IsValid d c
      → IsValid d (remove_where d c predicate).0
        × (HashMap.get d j (remove_where d c predicate).0.entries
            ≡ spared (predicate j) (HashMap.get d j c.entries))
  unfolding remove_where
  remove_where-get c predicate j v =
      let test = λ (k : K) (e : Entry V). predicate k e.value in
      (
        remove_keys-IsValid d c (keys_where d test c.entries) v,
        ground (
          arith,
          get-remove_keys c (keys_where d test c.entries) j,
          contains-keys test j c.entries v.consistent.entries_once,
        ),
      )
