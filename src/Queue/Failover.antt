-- ===== src/Queue/Failover.antt =====
-- The choice of `BalancedPusher` in core/src/queue.rs.
use rust_zero.Prelude.{
  ℕ, zero, suc, ◌+◌, ◌-◌, ◌%◌, ◌<◌, ◌≡◌, refl, sym, ap, ◌∙◌, subst, arith, true, false, List, [],
  ◌∷◌, some, Bool-cases, inl, inr, leb, leb→le, length, get_elem?, get_elem?_total, set, All,
  some-injective,
}
use native.Mathlib.Nat.{mod-lt, mod-eq_of_lt, add-mod_right}
use rust_zero.Prelude.Results.{Result, ok, err}
use rust_zero.Queue.Pushers.{
  Channel, PushError, refused, BalancedPusher, accepts, with_message, try_push_at, push_from,
  balanced_push,
}

-- Some offset leads to each index.
offset_of : (start j n : ℕ) → start < n → j < n → (k : ℕ) × (k < n) × ((start + k) % n ≡ j)
offset_of start j n s h = elim (Bool-cases (leb start j)) [
  | inl e ↦
      let le = leb→le start j e in
      (j - start, omega arith, ap (λ k. k % n) (omega arith) ∙ mod-eq_of_lt h)
  | inr e ↦
      let lt : j < start = ground arith in
      (
        j + n - start,
        omega arith,
        ap (λ k. k % n) (omega arith) ∙ add-mod_right j n ∙ mod-eq_of_lt h,
      )
]

module _ {T : Type 0} where
  -- The producer at an index is full or closed.
  abbrev pub Refuses : List (Channel T) → ℕ → Type 0
  Refuses producers i = (c : Channel T) × (get_elem? producers i ≡ some c) × (accepts c ≡ false)

  -- So are the first `n` producers, counted in a circle.
  abbrev pub Passed : List (Channel T) → ℕ → ℕ → Type 0
  Passed producers start zero = Unit
  Passed producers start (suc n) =
      Passed producers start n × Refuses producers ((start + n) % length producers)

  -- What the pusher gives: the first producer from its start on that accepts, with the value at the end
  -- of its channel, or the value, when every producer refuses.
  abbrev pub IsFirst :
      List (Channel T) → ℕ → T → Result (PushError T) (ℕ × List (Channel T)) → Type 0
  IsFirst producers start v (ok (index, producers')) =
      (offset : ℕ) × (offset < length producers)
      × (index ≡ (start + offset) % length producers)
      × Passed producers start offset
      × ((c : Channel T) × (get_elem? producers index ≡ some c)
          × (accepts c ≡ true)
          × (producers' ≡ set producers index (with_message v c)))
  IsFirst producers start v (err (refused v')) = (v' ≡ v) × All (λ c. accepts c ≡ false) producers

  nth_refusal :
      (producers : List (Channel T)) (start n k : ℕ)
      → k < n
      → Passed producers start n
      → Refuses producers ((start + k) % length producers)
  nth_refusal producers start zero k h p = absurd (omega arith)
  nth_refusal producers start (suc n) k h p = elim (Bool-cases (leb n k)) [
    | inl e ↦
        let same : n ≡ k = omega (arith, leb→le n k e) in
        subst (λ j. Refuses producers ((start + j) % length producers)) same p.1
    | inr e ↦ nth_refusal producers start n k (ground arith) p.0
  ]

  All_by_index :
      (P : Channel T → Type 0) (xs : List (Channel T))
      → ((i : ℕ) (c : Channel T) → get_elem? xs i ≡ some c → i < length xs → P c)
      → All P xs
  All_by_index P [] h = tt
  All_by_index P (x ∷ xs) h =
      (h 0 x refl (omega arith), All_by_index P xs (λ i c e l. h (suc i) c e (omega arith)))

  all_refuse :
      (producers : List (Channel T)) (start : ℕ)
      → start < length producers
      → Passed producers start (length producers)
      → All (λ c. accepts c ≡ false) producers
  all_refuse producers start s p =
      All_by_index (λ c. accepts c ≡ false) producers
        (λ i c e l.
          let (k, lt, at_i) = offset_of start i (length producers) s l in
          let (c', found, full) = nth_refusal producers start (length producers) k lt p in
          let same : c' ≡ c = some-injective (sym found ∙ ap (get_elem? producers) at_i ∙ e) in
          ap accepts (sym same) ∙ full)

  push_from-IsFirst :
      (producers : List (Channel T)) (start left offset : ℕ) (v : T)
      → start < length producers
      → left + offset ≡ length producers
      → Passed producers start offset
      → IsFirst producers start v (push_from producers start left offset v)
  unfolding push_from try_push_at
  push_from-IsFirst producers start zero offset v s e p =
      let all : offset ≡ length producers = omega arith in
      (refl, all_refuse producers start s (subst (λ n. Passed producers start n) all p))
  push_from-IsFirst producers start (suc left) offset v s e p =
      let index = (start + offset) % length producers in
      let (c, found) = get_elem?_total producers index (mod-lt (start + offset) (omega arith)) in
      elim (Bool-cases (accepts c)) [
        | inl taken ↦ rw (found, taken) (offset, omega arith, refl, p, (c, found, taken, refl))
        | inr full ↦
            let next : suc offset ≡ offset + 1 = omega arith in
            rw (found, full)
              (push_from-IsFirst producers start left (offset + 1) v s (omega arith)
                (subst (λ n. Passed producers start n) next (p, (c, found, full))))
      ]

  -- A pusher with a producer gives the value to the first producer that is neither full nor closed, from
  -- the one on whose turn it is, at the end of its channel, and only there; if each of them is full or
  -- closed it gives back the value, and no channel changes.
  pub balanced_push-IsFirst :
      (b : BalancedPusher) (producers : List (Channel T)) (v : T)
      → 0 < length producers
      → IsFirst producers (b.next % length producers) v (balanced_push b producers v).1
  unfolding balanced_push
  balanced_push-IsFirst b producers v h =
      push_from-IsFirst producers (b.next % length producers) (length producers) 0 v
        (mod-lt b.next h) (omega arith) tt
