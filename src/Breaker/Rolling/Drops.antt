-- ===== src/Breaker/Rolling/Drops.antt =====
-- How often the rolling policy lets a call through while it sheds load.
use rust_zero.Prelude.{
  ℕ, suc, ◌+◌, ◌-◌, ◌%◌, ◌≤◌, ◌<◌, ◌≡◌, ◌≢◌, ◌∷◌, [], List, Option, Bool-cases, inl, inr, none,
  some, arith, true, if◌then◌else◌,
}
use rust_zero.Prelude.Words.{u64_mod}
use native.Mathlib.Nat.{mod-lt}
use rust_zero.Floats.{Float}
use rust_zero.Breaker.Config.{CircuitOutcome}
use rust_zero.Breaker.Rolling.{RollingBreaker, record_outcome, history, should_drop, random_unit}

-- A call that asks to be admitted, or the completion of one.
pub data Event : Type 0 where
  ask : ℕ → Event
  complete : CircuitOutcome → ℕ → Event

abbrev pub asks : List Event → ℕ
asks [] = 0
asks (ask now ∷ es) = suc (asks es)
asks (complete outcome now ∷ es) = asks es

module _ {X : Type 0} (f : Float X) where
  -- The breaker that a completion leaves; a panic would leave it as it was.
  abbrev recorded : RollingBreaker X → Option (RollingBreaker X) → RollingBreaker X
  recorded r none = r
  recorded r (some r') = r'

  unfoldable pub admitted : RollingBreaker X → List Event → ℕ
  admitted r [] = 0
  admitted r (ask now ∷ es) =
      let (r', dropped) = should_drop f r now in (if dropped then 0 else 1) + admitted r' es
  admitted r (complete outcome now ∷ es) = admitted (recorded r (record_outcome r outcome now)) es

  -- The calls until the sequence number is the next multiple of the probe interval.
  abbrev until_probe : RollingBreaker X → ℕ
  until_probe r = r.config.probe_interval - r.drop_sequence % r.config.probe_interval

  should_drop-sequence :
      (r : RollingBreaker X) (now : ℕ)
      → 0 < r.config.probe_interval
      → r.drop_sequence + 1 < u64_mod
      → (should_drop f r now).1 ≡ true
      → ((should_drop f r now).0.drop_sequence ≡ r.drop_sequence + 1)
        × ((should_drop f r now).0.config ≡ r.config)
        × (r.drop_sequence + 1) % r.config.probe_interval ≢ 0
  unfolding should_drop history random_unit
  should_drop-sequence r now p w h = ground arith

  recorded-sequence :
      (r : RollingBreaker X) (outcome : CircuitOutcome) (now : ℕ)
      → ((recorded r (record_outcome r outcome now)).drop_sequence ≡ r.drop_sequence)
        × ((recorded r (record_outcome r outcome now)).config ≡ r.config)
  unfolding record_outcome
  recorded-sequence r CircuitOutcome.success now = ground arith
  recorded-sequence r CircuitOutcome.failure now = ground arith
  recorded-sequence r CircuitOutcome.cancellation now = ground arith

  mod_step : (d p : ℕ) → 0 < p → (d + 1) % p ≢ 0 → (d + 1) % p ≡ d % p + 1
  mod_step d p h n = grind arith

  until_probe-ask :
      (r : RollingBreaker X) (now : ℕ)
      → 0 < r.config.probe_interval
      → r.drop_sequence + 1 < u64_mod
      → (should_drop f r now).1 ≡ true
      → until_probe (should_drop f r now).0 + 1 ≡ until_probe r
  until_probe-ask r now p w h =
      let (d, c, n) = should_drop-sequence r now p w h in
      rw (c, d)
        (omega
          (arith, mod_step r.drop_sequence r.config.probe_interval p n, mod-lt r.drop_sequence p))

  admitted_within :
      (r : RollingBreaker X) (es : List Event)
      → 0 < r.config.probe_interval
      → r.drop_sequence + asks es < u64_mod
      → until_probe r ≤ asks es
      → 0 < admitted r es
  unfolding admitted
  admitted_within r [] p w h = absurd (omega (arith, mod-lt r.drop_sequence p))
  admitted_within r (ask now ∷ es) p w h = elim (Bool-cases (should_drop f r now).1) [
    | inl dropped ↦
        rw (dropped, admitted)
          (let (d, c, _) = should_drop-sequence r now p (omega arith) dropped in
            let fewer = until_probe-ask r now p (omega arith) dropped in
            omega (
              arith,
              admitted_within (should_drop f r now).0 es (rw c p) (rw d (omega arith))
                  (omega arith),
            ))
    | inr passed ↦ rw (passed, admitted) (omega arith)
  ]
  admitted_within r (complete outcome now ∷ es) p w h =
      let (d, c) = recorded-sequence r outcome now in
      admitted_within (recorded r (record_outcome r outcome now)) es (rw c p) (rw d w) (rw (c, d) h)

  -- Of `probe_interval` calls in a row at least one is admitted, whatever the random numbers, the
  -- floating-point results, the clock and the completions between the calls are, as long as the
  -- 64-bit sequence number does not wrap.
  pub probe_admitted :
      (r : RollingBreaker X) (es : List Event)
      → 0 < r.config.probe_interval
      → r.drop_sequence + asks es < u64_mod
      → r.config.probe_interval ≤ asks es
      → 0 < admitted r es
  probe_admitted r es p w h = admitted_within r es p w (omega arith)
