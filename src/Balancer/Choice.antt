-- ===== src/Balancer/Choice.antt =====
-- `choose` and `select` of core/src/balancer.rs.
use rust_zero.Prelude.{
  ℕ, ◌-◌, ◌<◌, ◌≡◌, ◌≢◌, refl, sym, arith, Bool, true, false, List, ◌∷◌, length, some, get_elem?,
  get_elem?_total, if◌then◌else◌, ◌⊎◌, inl, inr, Bool-cases,
}
use rust_zero.Floats.{Float}
use rust_zero.Balancer.{Node, force_pick_after, healthy, load, choose_second, choose, select}
use rust_zero.Balancer.Random.{IsState, draw_total}

module _ {X : Type 0} (f : Float X) (sqrt : X → X) {T : Type 0} where
  -- What makes one node the better choice of two, at a time.
  abbrev pub IsBetter : ℕ → Node X T → Node X T → Type 0
  IsBetter now a b =
      ((healthy f b ≡ false) ⊎ (healthy f a ≡ true))
      × ((healthy f a ≢ healthy f b)
          ⊎ ((f.le (load f sqrt a) (load f sqrt b) ≡ true)
              ⊎ (f.le (load f sqrt b) (load f sqrt a) ≡ false)
              ⊎ (force_pick_after < now - a.state.last_pick)))

  choose-IsBetter :
      (first second : Node X T) (now : ℕ)
      → (b : Bool) → choose f sqrt first second now ≡ b
      → IsBetter now (if b then second else first) (if b then first else second)
  unfolding choose choose_second
  choose-IsBetter first second now true e = (ground arith, ground arith)
  choose-IsBetter first second now false e = (ground arith, ground arith)

  -- Of two nodes or more, `pick` takes the better one of two different nodes of the balancer: it is
  -- healthy if the other one is, and where both are alike in that its load is not the greater one,
  -- unless it was not picked for longer than `FORCE_PICK_AFTER`.
  pub select-IsBetter :
      (node other : Node X T) (nodes : List (Node X T)) (random now : ℕ)
      → IsState random
      → (random' i j : ℕ) × (a b : Node X T) × (select f sqrt (node ∷ other ∷ nodes) random now
          ≡ some (random', i))
        × IsState random'
        × (i ≢ j)
        × (get_elem? (node ∷ other ∷ nodes) i ≡ some a)
        × (get_elem? (node ∷ other ∷ nodes) j ≡ some b)
        × IsBetter now a b
  unfolding select
  select-IsBetter node other nodes random now h =
      let all = node ∷ other ∷ nodes in
      let ((random', first, second), drawn, (state, lt, lt', ne)) =
        draw_total random (length nodes) h in
      let (a, found) = get_elem?_total all first lt in
      let (b, found') = get_elem?_total all second lt' in
      elim (Bool-cases (choose f sqrt a b now)) [
        | inl taken ↦ (
          random',
          second,
          first,
          b,
          a,
          rw (drawn, found, found', taken) refl,
          state,
          (λ e. ne (sym e)),
          found',
          found,
          choose-IsBetter a b now true taken,
        )
        | inr kept ↦ (
          random',
          first,
          second,
          a,
          b,
          rw (drawn, found, found', kept) refl,
          state,
          ne,
          found,
          found',
          choose-IsBetter a b now false kept,
        )
      ]
