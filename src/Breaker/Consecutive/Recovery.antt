-- ===== src/Breaker/Consecutive/Recovery.antt =====
-- How an open circuit recovers, over the traces of Trips.antt.
use rust_zero.Prelude.{
  ℕ, ◌+◌, ◌≤◌, ◌≡◌, refl, arith, List, [], ◌∷◌, ◌++◌, suc, zero, replicate, ◌∙◌,
}
use rust_zero.Breaker.Consecutive.Trips.{Event, run, step, admitted, run-append}
use rust_zero.Breaker.Config.{CircuitBreakerConfig, success, cancellation}
use rust_zero.Breaker.Consecutive.{
  ConsecutiveState, closed, opened, half_open, before_consecutive, record_consecutive,
}
use rust_zero.Breaker.Consecutive.Bounds.{IsValid}

-- Calls in a row, at one instant.
abbrev pub calls_at : ℕ → ℕ → List Event
calls_at n now = replicate n (Event.call now)

module _ {X : Type 0} (config : CircuitBreakerConfig X) where
  calls_run :
      (k attempts successes now : ℕ)
      → IsValid config
      → attempts + k ≤ config.half_open_max_calls
      → (run config (half_open attempts successes) (calls_at k now)
          ≡ half_open (attempts + k) successes)
        × (admitted config (half_open attempts successes) (calls_at k now) ≡ k)
  unfolding run step admitted before_consecutive
  calls_run zero attempts successes now v h = (ground arith, refl)
  calls_run (suc k) attempts successes now v h =
      ground (arith, calls_run k (attempts + 1) successes now v)

  successes_run :
      (k attempts successes now : ℕ)
      → IsValid config
      → successes + suc k ≡ config.half_open_max_calls
      → run config (half_open attempts successes) (replicate (suc k) (Event.complete success now))
        ≡ closed 0
  unfolding run step record_consecutive
  successes_run zero attempts successes now v h = ground arith
  successes_run (suc k) attempts successes now v h =
      ground (arith, successes_run k attempts (successes + 1) now v)

  admitted-append :
      (s : ConsecutiveState) (es fs : List Event)
      → admitted config s (es ++ fs) ≡ admitted config s es + admitted config (run config s es) fs
  unfolding run admitted step
  admitted-append s [] fs = omega arith
  admitted-append s (Event.call now ∷ es) fs =
      omega (arith, admitted-append (before_consecutive config s now).0 es fs)
  admitted-append s (Event.complete o now ∷ es) fs =
      admitted-append (record_consecutive config s o now) es fs

  -- The first call after the timeout is the first probe, so it counts as one of a half-open state.
  probe_first :
      (opened_at now : ℕ) (es : List Event)
      → opened_at + config.reset_timeout ≤ now
      → (run config (opened opened_at) (Event.call now ∷ es)
          ≡ run config (half_open 0 0) (Event.call now ∷ es))
        × (admitted config (opened opened_at) (Event.call now ∷ es)
            ≡ admitted config (half_open 0 0) (Event.call now ∷ es))
  unfolding run admitted step before_consecutive
  probe_first opened_at now es h = ground arith

  -- With every place taken a call is refused; a cancellation frees one place.
  full_refuses :
      (now : ℕ)
      → IsValid config
      → (admitted config (half_open config.half_open_max_calls 0) (calls_at 1 now) ≡ 0)
        × (admitted config
              (half_open config.half_open_max_calls 0)
              (Event.complete cancellation now ∷ Event.call now ∷ [])
            ≡ 1)
  unfolding admitted step before_consecutive record_consecutive
  full_refuses now v = ground arith

  fills_then :
      (n now : ℕ) (es : List Event)
      → IsValid config
      → config.half_open_max_calls ≡ n
      → admitted config (half_open 0 0) (calls_at n now ++ es)
        ≡ n + admitted config (half_open config.half_open_max_calls 0) es
  fills_then n now es v e =
      let (ran, took) = calls_run n 0 0 now v (omega arith) in
      let full : 0 + n ≡ config.half_open_max_calls = omega arith in
      admitted-append (half_open 0 0) (calls_at n now) es ∙ rw (ran, took, full)

  -- Once `reset_timeout` has passed, `half_open_max_calls` calls are admitted and no more, and when
  -- as many successes follow the circuit is closed, with no failure counted.
  pub recovers :
      (k opened_at now later : ℕ)
      → IsValid config
      → config.half_open_max_calls ≡ suc k
      → opened_at + config.reset_timeout ≤ now
      → (admitted config (opened opened_at) (calls_at (suc k) now ++ calls_at 1 now) ≡ suc k)
        × (run config
              (opened opened_at)
              (calls_at (suc k) now ++ replicate (suc k) (Event.complete success later))
            ≡ closed 0)
  recovers k opened_at now later v e h = (
    (probe_first opened_at now (calls_at k now ++ calls_at 1 now) h).1 ∙ extra,
    (probe_first opened_at now (calls_at k now ++ replicate (suc k) (Event.complete success later))
          h).0
        ∙ closes,
  )
    where
      extra : admitted config (half_open 0 0) (calls_at (suc k) now ++ calls_at 1 now) ≡ suc k
      extra = omega (arith, fills_then (suc k) now (calls_at 1 now) v e, full_refuses now v)

      closes :
          run config
            (half_open 0 0)
            (calls_at (suc k) now ++ replicate (suc k) (Event.complete success later))
          ≡ closed 0
      closes =
          run-append config (half_open 0 0) (calls_at (suc k) now)
            (replicate (suc k) (Event.complete success later))
          ∙ rw ((calls_run (suc k) 0 0 now v (omega arith)).0)
              (successes_run k (0 + suc k) 0 later v (omega arith))
