-- ===== src/Window/Update.antt =====
-- `back_mut` on the buckets of a window, by a function of the last bucket.
use rust_zero.Prelude.{ℕ, suc, ◌+◌, ◌<◌, ◌≡◌, refl, ◌∷◌, [], List, some, arith, length, ap}
use rust_zero.Window.{update_back, map_back}
use rust_zero.Window.Rotation.{IsBounded}
use rust_zero.Window.Totals.{total}

module _ {B : Type 0} (g : B → B) where
  length-map_back : (b : B) (bs : List B) → length (map_back g b bs) ≡ suc (length bs)
  unfolding map_back
  length-map_back b [] = refl
  length-map_back b (c ∷ cs) = ap suc (length-map_back c cs)

  pub update_back-IsBounded :
      (empty : B) (count : ℕ) (room : 0 < count) (bs : List B)
      → IsBounded empty count room bs
      → (cs : List B) × (update_back g bs ≡ some cs) × IsBounded empty count room cs
  unfolding update_back
  update_back-IsBounded empty count room [] h = absurd (omega arith)
  update_back-IsBounded empty count room (b ∷ bs) h =
      (map_back g b bs, refl, omega (arith, length-map_back b bs))

  pub total-update_back :
      (m : B → ℕ) (bs cs : List B) (k : ℕ)
      → ((b : B) → m (g b) ≡ m b + k)
      → update_back g bs ≡ some cs
      → total m cs ≡ total m bs + k
  unfolding update_back
  total-update_back m [] cs k h e = ground arith
  total-update_back m (b ∷ bs) cs k h e = go b bs cs (ground arith)
    where
      go : (b : B) (bs cs : List B) → map_back g b bs ≡ cs → total m cs ≡ total m (b ∷ bs) + k
      go b [] cs e = rw (← e) (omega (arith, h b))
      go b (c ∷ bs) cs e = rw (← e) (omega (arith, go c bs (map_back g c bs) refl))
