-- ===== src/Cache/Recency.antt =====
-- A queue of distinct keys, least recently used first (core/src/cache.rs).
use rust_zero.Prelude.{◌≡◌, refl, arith, true, false, List, [], ◌∷◌, ◌++◌, ite}
unfoldable pub use rust_zero.Prelude.Sets.{contains, Distinct}

module _ {K : Type 0} (d : Discrete K) where
  -- `position`, then `remove`: the first occurrence goes.
  unfoldable pub remove_from_recency : List K → K → List K
  remove_from_recency [] key = []
  remove_from_recency (k ∷ recency) key =
      ite (d k key) recency (k ∷ remove_from_recency recency key)

  pub remove_absent :
      (recency : List K) (key : K)
      → contains d key recency ≡ false
      → remove_from_recency recency key ≡ recency
  unfolding contains remove_from_recency
  remove_absent [] key h = refl
  remove_absent (k ∷ recency) key h = ground (arith, remove_absent recency key)

  pub contains-remove :
      (recency : List K) (key j : K)
      → Distinct d recency
      → contains d j (remove_from_recency recency key) ≡ ite (d key j) false (contains d j recency)
  unfolding contains remove_from_recency
  contains-remove [] key j h = ground arith
  contains-remove (k ∷ recency) key j h =
      ground (arith, contains-remove recency key j h.1, remove_absent recency key)

  pub remove-Distinct :
      (recency : List K) (key : K)
      → Distinct d recency
      → Distinct d (remove_from_recency recency key)
  unfolding remove_from_recency
  remove-Distinct [] key h = tt
  remove-Distinct (k ∷ recency) key h =
      ground (arith, remove-Distinct recency key h.1, contains-remove recency key k h.1)

  contains-push :
      (recency : List K) (key j : K)
      → contains d j (recency ++ key ∷ []) ≡ ite (d key j) true (contains d j recency)
  unfolding contains
  contains-push [] key j = refl
  contains-push (k ∷ recency) key j = ground (arith, contains-push recency key j)

  push-Distinct :
      (recency : List K) (key : K)
      → contains d key recency ≡ false
      → Distinct d recency
      → Distinct d (recency ++ key ∷ [])
  unfolding contains
  push-Distinct [] key a h = (refl, tt)
  push-Distinct (k ∷ recency) key a h =
      ground (arith, push-Distinct recency key, contains-push recency key k)

  -- A key moved to the back of the queue.
  pub back_once :
      (recency : List K) (key : K)
      → Distinct d recency
      → Distinct d (remove_from_recency recency key ++ key ∷ [])
  back_once recency key h =
      push-Distinct (remove_from_recency recency key) key
        (ground (arith, contains-remove recency key key h)) (remove-Distinct recency key h)

  pub contains-back :
      (recency : List K) (key k : K)
      → Distinct d recency
      → contains d k (remove_from_recency recency key ++ key ∷ [])
        ≡ ite (d key k) true (contains d k recency)
  contains-back recency key k h = ground (
    arith,
    contains-push (remove_from_recency recency key) key k,
    contains-remove recency key k h,
  )

  pub contains-front : (key : K) (recency : List K) → contains d key (key ∷ recency) ≡ true
  unfolding contains
  contains-front key recency = ground arith
