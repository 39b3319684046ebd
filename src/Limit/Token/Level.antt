-- ===== src/Limit/Token/Level.antt =====
-- The level of a token bucket.
use rust_zero.Prelude.{
  ℕ, ◌-◌, ◌<◌, ◌≡◌, refl, arith, true, Option, some, ltb, if◌then◌else◌, List, [], ◌∷◌, All, ◌>>=◌,
}
use rust_zero.Floats.{Float, FloatLaws}
use rust_zero.Limit.Decision.{LimitDecision, over_quota, duration_max}
use rust_zero.Limit.Token.{TokenLimiter, new, take, refilled, spend}

module _ {X : Type 0} (f : Float X) where
  -- Takes one after the other, each of a number of permits at an instant.
  unfoldable pub takes : TokenLimiter X → List (ℕ × ℕ) → Option (TokenLimiter X)
  takes l [] = some l
  takes l ((permits, now) ∷ es) = do (l', decision) ← take f l permits now; takes l' es

  pub take_total :
      (l : TokenLimiter X) (permits now : ℕ)
      → 0 < permits
      → (r : TokenLimiter X × LimitDecision) × (take f l permits now ≡ some r)
  unfolding take
  take_total l permits now p = (
    if ltb l.burst permits
        then (l, over_quota duration_max)
        else spend f l permits now (refilled f l now),
    ground arith,
  )

  -- More permits than the bucket can ever hold are refused for good, without touching the bucket.
  pub take_never :
      (l : TokenLimiter X) (permits now : ℕ)
      → l.burst < permits
      → take f l permits now ≡ some (l, over_quota duration_max)
  unfolding take
  take_never l permits now h = ground arith

module _ {X : Type 0} (f : Float X) (laws : FloatLaws f) where
  -- Between no token and a full bucket.
  abbrev pub IsLevel : ℕ → X → Type 0
  IsLevel burst x = (f.le (f.of_ℕ 0) x ≡ true) × (f.le x (f.of_ℕ burst) ≡ true)

  abbrev pub IsFilled : TokenLimiter X → Type 0
  IsFilled l = IsLevel l.burst l.bucket.available

  refilled-IsLevel :
      (l : TokenLimiter X) (now : ℕ) → IsFilled l → IsLevel l.burst (refilled f l now)
  unfolding refilled
  refilled-IsLevel l now h = (
    laws.minimum_nonneg _ l.burst (
        laws.plus_nonneg _ _ h.0
          (laws.elapsed_nonneg (now - l.bucket.last_refill) l.rate_per_second)),
    laws.minimum-le _ l.burst,
  )

  spend-IsFilled :
      (l : TokenLimiter X) (permits now : ℕ) (x : X)
      → IsLevel l.burst x
      → IsFilled (spend f l permits now x).0
  unfolding spend
  spend-IsFilled l permits now x h =
      ground (arith, laws.le_minus x permits, laws.minus-le x permits l.burst h.1)

  pub new-IsFilled :
      (rate burst now : ℕ) {l : TokenLimiter X} → new f rate burst now ≡ some l → IsFilled l
  unfolding new
  new-IsFilled rate burst now e = ground (arith, laws.le_refl_of_ℕ burst, laws.zero_le_of_ℕ burst)

  take-IsFilled :
      (l l' : TokenLimiter X) (permits now : ℕ) {decision : LimitDecision}
      → IsFilled l
      → take f l permits now ≡ some (l', decision)
      → IsFilled l'
  unfolding take
  take-IsFilled l l' permits now h e =
      ground (arith, spend-IsFilled l permits now (refilled f l now) (refilled-IsLevel l now h))

  -- Whatever the clock says, takes of at least one permit never panic, and leave the bucket between
  -- no token and `burst` tokens.
  pub takes-IsFilled :
      (l : TokenLimiter X) (es : List (ℕ × ℕ))
      → IsFilled l
      → All (λ e. 0 < e.0) es
      → (last : TokenLimiter X) × (takes f l es ≡ some last) × IsFilled last
  unfolding takes
  takes-IsFilled l [] h p = (l, refl, h)
  takes-IsFilled l ((permits, now) ∷ es) h p =
      let ((l', decision), taken) = take_total f l permits now p.0 in
      let (last, rest, level) = takes-IsFilled l' es (take-IsFilled l l' permits now h taken) p.1 in
      (last, rw taken rest, level)
