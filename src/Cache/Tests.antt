-- ===== src/Cache/Tests.antt =====
-- Each theorem about the caches at an input that meets its hypotheses.
use rust_zero.Prelude.{ℕ, ◌≡◌, refl, arith, [], ◌∷◌, some, ℕ_discrete}
use rust_zero.Prelude.HashMap
use rust_zero.Cache.Ttl.{Entry}
use rust_zero.Cache.Recency.{contains}
use rust_zero.Cache.Memory
use rust_zero.Cache.Memory.{MemoryCache}
use rust_zero.Cache.Memory.Invariant
use rust_zero.Cache.Memory.Eviction
use rust_zero.Cache.ReadThrough
use rust_zero.Cache.ReadThrough.{ReadThroughCache}
use rust_zero.SingleFlight.{ok, send}

abbrev entry : ℕ → ℕ → Entry ℕ
entry value expires_at = record { value = value; expires_at = expires_at }

-- Two places, both taken; key 1 was used first.
abbrev cache : MemoryCache ℕ ℕ
cache = record {
  capacity = 2;
  entries = (2, entry 20 90) ∷ (1, entry 10 50) ∷ [];
  recency = 1 ∷ 2 ∷ [];
  counters = record { hits = 0; misses = 0; insertions = 2; evictions = 0 };
}

same_keys :
    (k : ℕ)
    → contains ℕ_discrete k cache.recency ≡ Memory.is_some (HashMap.get ℕ_discrete k cache.entries)
unfolding contains HashMap.get
same_keys k = ground arith

cache-IsValid : Invariant.IsValid ℕ_discrete cache
unfolding contains HashMap.get ℕ_discrete
cache-IsValid = record {
  consistent = record {
    entries_once = (refl, (refl, tt));
    recency_once = (refl, (refl, tt));
    same_keys = same_keys;
  };
  within = omega arith;
}

-- Key 3 drives out key 1.
abbrev crowded : MemoryCache ℕ ℕ
crowded = record {
  capacity = 2;
  entries = (3, entry 30 70) ∷ (2, entry 20 90) ∷ [];
  recency = 2 ∷ 3 ∷ [];
  counters = record { hits = 0; misses = 0; insertions = 3; evictions = 1 };
}

insert_full_example : Memory.insert ℕ_discrete cache 3 30 10 60 ≡ some crowded
unfolding HashMap.insert HashMap.remove HashMap.get ℕ_discrete Memory.count_evictions
insert_full_example =
    Eviction.insert_full ℕ_discrete cache 3 30 10 60 1 (2 ∷ []) cache-IsValid (omega arith) refl
      refl refl

-- A new value for key 1 makes it the most recently used.
abbrev renewed : MemoryCache ℕ ℕ
renewed = record cache {
  entries = (1, entry 11 70) ∷ (2, entry 20 90) ∷ [];
  recency = 2 ∷ 1 ∷ [];
  counters = record { hits = 0; misses = 0; insertions = 3; evictions = 0 };
}

-- Key 3 is being fetched for two waiters.
abbrev fetching : ReadThroughCache ℕ ℕ
fetching = record { cache = cache; flights = record { flights = (3, 0 ∷ 1 ∷ []) ∷ []; next = 2 } }

take_end-shares_example :
    (c : ReadThroughCache ℕ ℕ) × (ReadThrough.take_end ℕ_discrete {E = ℕ} fetching 3 (ok 30) 10 60
      ≡ some (c, ok 30, send (0 ∷ 1 ∷ []) (ok 30)))
    × ((ReadThrough.take_start ℕ_discrete c 3 69).1 ≡ ReadThrough.returns 30)
take_end-shares_example =
    ReadThrough.take_end-shares ℕ_discrete ℕ fetching 3 30 10 60 69 (0 ∷ 1 ∷ []) cache-IsValid
      (omega arith) (omega arith) (omega arith) (unfold HashMap.get ℕ_discrete in refl)
