-- ===== src/Window/Totals.antt =====
-- What a rotation of Window.antt leaves in the window, counted by a measure of the buckets.
use rust_zero.Prelude.{
  ℕ, zero, suc, ◌+◌, ◌-◌, ◌*◌, ◌/◌, ◌≤◌, ◌<◌, ◌≡◌, refl, ◌∷◌, [], ◌++◌, List, arith, length, drop,
  replicate, length-append, length-drop, length-replicate, ap, ◌∙◌, dec_lt, sym,
}
use mathlib.Core.List.{append-nil, append_assoc}
use rust_zero.Prelude.Words.{u64_mod}
use rust_zero.Window.{WindowState, push_bounded, advance, rotate, elapsed_buckets}
use rust_zero.Window.Rotation.{IsBounded}

module _ {B : Type 0} where
  -- The last `n` entries: the reference for a window of `n` buckets.
  abbrev pub keep_last : ℕ → List B → List B
  keep_last n xs = drop (length xs - n) xs

  abbrev pub total : (B → ℕ) → List B → ℕ
  total m [] = 0
  total m (b ∷ bs) = m b + total m bs

  pub total-append : (m : B → ℕ) (xs ys : List B) → total m (xs ++ ys) ≡ total m xs + total m ys
  total-append m [] ys = omega arith
  total-append m (x ∷ xs) ys = omega (arith, total-append m xs ys)

  push_bounded-keep_last :
      (empty : B) (count n : ℕ) (bs : List B)
      → 0 < count
      → length bs ≤ count
      → keep_last count (push_bounded empty count bs ++ replicate n empty)
        ≡ keep_last count (bs ++ replicate (suc n) empty)
  unfolding push_bounded
  push_bounded-keep_last empty count n [] c h = ground arith
  push_bounded-keep_last empty count n (b ∷ bs) c h = ground (
    arith,
    append_assoc bs (empty ∷ []) (replicate n empty),
    length-append bs (empty ∷ []),
    length-append bs (empty ∷ replicate n empty),
    length-replicate n empty,
  )

  advance-keep_last :
      (empty : B) (count n : ℕ) (bs : List B)
      → 0 < count
      → length bs ≤ count
      → advance empty count n bs ≡ keep_last count (bs ++ replicate n empty)
  unfolding advance push_bounded
  advance-keep_last empty count zero bs c h =
      let e : length bs - count ≡ 0 = omega arith in rw (append-nil bs, e)
  advance-keep_last empty count (suc n) bs c h =
      advance-keep_last empty count n (push_bounded empty count bs) c
        (ground (arith, length-append bs (empty ∷ []), length-drop 1 (bs ++ empty ∷ [])))
      ∙ push_bounded-keep_last empty count n bs c h

module _ {B : Type 0} (m : B → ℕ) (empty : B) (weightless : m empty ≡ 0) where
  total-replicate : (n : ℕ) → total m (replicate n empty) ≡ 0
  total-replicate zero = refl
  total-replicate (suc n) = omega (arith, total-replicate n, weightless)

  total-drop-replicate : (i n : ℕ) → total m (drop i (replicate n empty)) ≡ 0
  total-drop-replicate zero n = total-replicate n
  total-drop-replicate (suc i) zero = refl
  total-drop-replicate (suc i) (suc n) = total-drop-replicate i n

  total-drop_old :
      (i n : ℕ) (bs : List B) → length bs ≤ i → total m (drop i (bs ++ replicate n empty)) ≡ 0
  total-drop_old i n [] h = total-drop-replicate i n
  total-drop_old zero n (b ∷ bs) h = absurd (omega arith)
  total-drop_old (suc i) n (b ∷ bs) h = total-drop_old i n bs (omega arith)

  -- What stands after the first `length bs` entries is still there.
  le-total-drop :
      (i : ℕ) (bs : List B) (b : B) (n : ℕ)
      → i ≤ length bs
      → m b ≤ total m (drop i ((bs ++ b ∷ []) ++ replicate n empty))
  le-total-drop zero [] b n h = omega arith
  le-total-drop (suc i) [] b n h = absurd (omega arith)
  le-total-drop zero (c ∷ bs) b n h = omega (arith, le-total-drop zero bs b n (omega arith))
  le-total-drop (suc i) (c ∷ bs) b n h = le-total-drop i bs b n (omega arith)

  module _ (count width : ℕ) (room : 0 < count) (fits : count < u64_mod) (wide : 0 < width)
      (s : WindowState B) (now : ℕ) (bounded : IsBounded empty count room s.buckets) where
    slots : ℕ
    slots = (now - s.current_started) / width

    rotate-full : count ≤ slots → total m (rotate empty count width s now).buckets ≡ 0
    unfolding rotate elapsed_buckets slots
    rotate-full h = ground arith

    rotate-partial :
        slots < count
        → (rotate empty count width s now).buckets
          ≡ keep_last count (s.buckets ++ replicate slots empty)
    unfolding rotate elapsed_buckets slots
    rotate-partial h =
        ground (
          arith,
          advance-keep_last empty count slots s.buckets room bounded.1,
          append-nil s.buckets,
        )

    abbrev elapsed : ℕ
    elapsed = (now - s.current_started) / width

    -- A rotated window weighs what the last `count` buckets weigh when an empty bucket is pushed
    -- for each bucket width that has passed. The measure is any that ignores empty buckets.
    pub rotate-keep_last :
        total m (rotate empty count width s now).buckets
        ≡ total m (keep_last count (s.buckets ++ replicate elapsed empty))
    unfolding slots
    rotate-keep_last = elim (dec_lt elapsed count) [
      | yes h ↦ ap (total m) (rotate-partial h)
      | no h ↦
          rotate-full (omega arith)
          ∙ sym (
              total-drop_old _ elapsed s.buckets (
                omega (
                  arith,
                  length-append s.buckets (replicate elapsed empty),
                  length-replicate elapsed empty,
                )))
    ]

    -- Once a whole window has passed, nothing that was recorded is left.
    pub rotate_idle :
        s.current_started + count * width ≤ now
        → total m (rotate empty count width s now).buckets ≡ 0
    unfolding slots
    rotate_idle h = rotate-full (grind arith)

    -- Before that, the bucket that was last in the window still counts.
    pub rotate_kept :
        (bs : List B) (b : B)
        → s.buckets ≡ bs ++ b ∷ []
        → now < s.current_started + count * width
        → m b ≤ total m (rotate empty count width s now).buckets
    unfolding slots
    rotate_kept bs b e h = rw (rotate-keep_last, e) (le-total-drop _ bs b elapsed enough)
      where
        recent : elapsed < count
        recent = grind arith

        enough : length ((bs ++ b ∷ []) ++ replicate elapsed empty) - count ≤ length bs
        enough = omega (
          arith,
          recent,
          length-append (bs ++ b ∷ []) (replicate elapsed empty),
          length-append bs (b ∷ []),
          length-replicate elapsed empty,
        )
