-- ===== src/Breaker/Consecutive/Trips.antt =====
-- When the consecutive policy opens, and for how long. A trace is the sequence of calls and
-- completions that take the lock of one breaker.
use rust_zero.Prelude.{
  ℕ, ◌+◌, ◌<◌, ◌≡◌, refl, arith, List, [], ◌∷◌, ◌++◌, All, suc, if◌then◌else◌, ◌∙◌,
}
use rust_zero.Breaker.Config.{CircuitBreakerConfig, CircuitOutcome, success, failure, cancellation}
use rust_zero.Breaker.Consecutive.{
  ConsecutiveState, closed, opened, before_consecutive, record_consecutive,
}
use rust_zero.Breaker.Consecutive.Bounds.{IsValid}

pub data Event : Type 0 where
  call : ℕ → Event
  complete : CircuitOutcome → ℕ → Event

abbrev pub time : Event → ℕ
time (call now) = now
time (complete outcome now) = now

-- The consecutive failures at the end of a trace that `n` failures precede.
abbrev pub streak : ℕ → List Event → ℕ
streak n [] = n
streak n (call now ∷ es) = streak n es
streak n (complete success now ∷ es) = streak 0 es
streak n (complete failure now ∷ es) = streak (suc n) es
streak n (complete cancellation now ∷ es) = streak n es

-- Every prefix of the trace has a streak below `max`.
abbrev pub StaysBelow : ℕ → ℕ → List Event → Type 0
StaysBelow max n [] = n < max
StaysBelow max n (call now ∷ es) = StaysBelow max n es
StaysBelow max n (complete success now ∷ es) = (n < max) × StaysBelow max 0 es
StaysBelow max n (complete failure now ∷ es) = (n < max) × StaysBelow max (suc n) es
StaysBelow max n (complete cancellation now ∷ es) = StaysBelow max n es

module _ {X : Type 0} (config : CircuitBreakerConfig X) where
  unfoldable pub step : ConsecutiveState → Event → ConsecutiveState
  step s (call now) = (before_consecutive config s now).0
  step s (complete outcome now) = record_consecutive config s outcome now

  unfoldable pub run : ConsecutiveState → List Event → ConsecutiveState
  run s [] = s
  run s (e ∷ es) = run (step s e) es

  pub run-append :
      (s : ConsecutiveState) (es fs : List Event) → run s (es ++ fs) ≡ run (run s es) fs
  unfolding run
  run-append s [] fs = refl
  run-append s (e ∷ es) fs = run-append (step s e) es fs

  StaysBelow-lt : (max n : ℕ) (es : List Event) → StaysBelow max n es → n < max
  StaysBelow-lt max n [] h = h
  StaysBelow-lt max n (call now ∷ es) h = StaysBelow-lt max n es h
  StaysBelow-lt max n (complete success now ∷ es) h = h.0
  StaysBelow-lt max n (complete failure now ∷ es) h = h.0
  StaysBelow-lt max n (complete cancellation now ∷ es) h = StaysBelow-lt max n es h

  -- While no streak reaches `max_failures`, the circuit stays closed, and its counter is the streak.
  pub run-streak :
      (n : ℕ) (es : List Event)
      → IsValid config
      → StaysBelow config.max_failures n es
      → run (closed n) es ≡ closed (streak n es)
  unfolding run step before_consecutive record_consecutive
  run-streak n [] v h = refl
  run-streak n (call now ∷ es) v h = run-streak n es v h
  run-streak n (complete success now ∷ es) v h = run-streak 0 es v h.1
  run-streak n (complete failure now ∷ es) v h =
      ground (arith, run-streak (suc n) es v h.1, StaysBelow-lt config.max_failures (suc n) es h.1)
  run-streak n (complete cancellation now ∷ es) v h = run-streak n es v h

  run_last_failure :
      (n now : ℕ)
      → IsValid config
      → n + 1 ≡ config.max_failures
      → run (closed n) (complete failure now ∷ []) ≡ opened now
  unfolding run step record_consecutive
  run_last_failure n now v e = ground arith

  -- The failure that completes a streak of `max_failures` opens the circuit, at its own instant.
  pub run_trips :
      (es : List Event) (now : ℕ)
      → IsValid config
      → StaysBelow config.max_failures 0 es
      → streak 0 es + 1 ≡ config.max_failures
      → run (closed 0) (es ++ complete failure now ∷ []) ≡ opened now
  run_trips es now v h e =
      run-append (closed 0) es (complete failure now ∷ [])
      ∙ rw (run-streak 0 es v h) (run_last_failure (streak 0 es) now v e)

  -- How many of the calls of a trace are admitted.
  unfoldable pub admitted : ConsecutiveState → List Event → ℕ
  admitted s [] = 0
  admitted s (call now ∷ es) =
      (if (before_consecutive config s now).1 then 1 else 0) + admitted (step s (call now)) es
  admitted s (complete outcome now ∷ es) = admitted (step s (complete outcome now)) es

  -- Until `reset_timeout` has passed an open circuit admits no call, and no late completion changes it.
  pub open_holds :
      (opened_at : ℕ) (es : List Event)
      → All (λ e. time e < opened_at + config.reset_timeout) es
      → 0 < config.reset_timeout
      → (run (opened opened_at) es ≡ opened opened_at) × (admitted (opened opened_at) es ≡ 0)
  unfolding run step admitted before_consecutive record_consecutive
  open_holds opened_at [] h r = (refl, refl)
  open_holds opened_at (call now ∷ es) h r = ground (arith, open_holds opened_at es h.1 r)
  open_holds opened_at (complete outcome now ∷ es) h r =
      ground (arith, open_holds opened_at es h.1 r)
