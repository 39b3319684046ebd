-- ===== src/Breaker/Rolling/Floor.antt =====
-- Light traffic under the rolling policy: no call is shed below the floor of `minimum_requests`.
use rust_zero.Prelude.{ℕ, ◌-◌, ◌≤◌, ◌≡◌, arith, true, false}
use rust_zero.Floats.{Float, FloatLaws}
use rust_zero.Breaker.Config.{RollingConfig, is_positive}
use rust_zero.Breaker.Rolling.{RollingBreaker, history, should_drop, drop_ratio}

module _ {X : Type 0} (f : Float X) (laws : FloatLaws f) where
  drop_ratio-floor :
      (config : RollingConfig X) (accepted total : ℕ)
      → is_positive f config.sensitivity ≡ true
      → total ≤ config.minimum_requests
      → f.le (drop_ratio f config accepted total) (f.of_ℕ 0) ≡ true
  unfolding drop_ratio is_positive
  drop_ratio-floor config accepted total p h =
      let none_left : total - config.minimum_requests ≡ 0 = omega arith in
      let positive : (f.is_finite config.sensitivity ≡ true)
          × (f.lt (f.of_ℕ 0) config.sensitivity ≡ true) =
        ground arith in
      rw (none_left, drop_ratio)
        (laws.maximum-le _ 0 (
          laws.divide-le _ total (
            laws.zero_minus-le _
              (laws.times_pos config.sensitivity accepted positive.1 positive.0))))

  -- A call is admitted whenever the history has at most `minimum_requests` requests, and then
  -- neither the sequence number nor the random state moves.
  pub should_drop-floor :
      (r : RollingBreaker X) (now : ℕ)
      → is_positive f r.config.sensitivity ≡ true
      → (history f r now).1.1 ≤ r.config.minimum_requests
      → ((should_drop f r now).1 ≡ false)
        × ((should_drop f r now).0.drop_sequence ≡ r.drop_sequence)
        × ((should_drop f r now).0.random ≡ r.random)
  unfolding should_drop history
  should_drop-floor r now p h =
      ground (arith, drop_ratio-floor r.config (history f r now).1.0 (history f r now).1.1 p)
