-- ===== src/Breaker/Circuit/Execution.antt =====
-- The wrappers of core/src/breaker.rs that run an operation behind the breaker, and the permits of
-- operations whose outcome arrives later. The operation acts on a world `W`; `unwound` is an
-- operation that panics, or whose future is dropped, so that the completion guard is dropped.
use rust_zero.Prelude.{
  ℕ, ◌+◌, ◌≡◌, ◌⊎◌, refl, arith, Bool, true, false, Option, none, some, ◌>>=◌, if◌then◌else◌,
}
use rust_zero.Prelude.Words.{u64}
use rust_zero.Floats.{Float}
use rust_zero.Breaker.Config.{CircuitOutcome, success, failure, cancellation}
use rust_zero.Breaker.Circuit.{
  CircuitBreaker, CircuitBreakerError, opened, operation, Result, ok, err, OutcomeCounters,
  before_call, record_outcome, count_outcome,
}

pub data Ending (T E : Type 0) : Type 0 where
  returned : Result T E → Ending T E
  unwound : Ending T E

module _ {T E : Type 0} where
  abbrev pub map_err : Result T E → Result T (CircuitBreakerError E)
  map_err (ok t) = ok t
  map_err (err e) = err (operation e)

  abbrev pub is_ok : Result T E → Bool
  is_ok (ok t) = true
  is_ok (err e) = false

  -- The outcome that the guard records, and what the caller gets: nothing if the call unwinds.
  abbrev pub recorded : (Result T E → CircuitOutcome) → Ending T E → CircuitOutcome
  recorded outcome (returned r) = outcome r
  recorded outcome unwound = cancellation

  abbrev pub handed : Ending T E → Option (Result T (CircuitBreakerError E))
  handed (returned r) = some (map_err r)
  handed unwound = none

-- The counter that an ending of `execute` moves.
abbrev pub counted : {T E : Type 0} → OutcomeCounters → Ending T E → OutcomeCounters
counted c (returned (ok t)) = count_outcome c success
counted c (returned (err e)) = count_outcome c failure
counted c unwound = count_outcome c cancellation

module _ {X : Type 0} (f : Float X) where
  record_outcome-counters :
      (b b' : CircuitBreaker X) (outcome : CircuitOutcome) (now : ℕ)
      → record_outcome b outcome now ≡ some b'
      → b'.counters ≡ count_outcome b.counters outcome
  unfolding record_outcome
  record_outcome-counters b b' outcome now e = ground arith

  before_call-counters :
      (b : CircuitBreaker X) (now : ℕ)
      → (((before_call f b now).1 ≡ true) × ((before_call f b now).0.counters ≡ b.counters))
        ⊎ (((before_call f b now).1 ≡ false)
            × ((before_call f b now).0.counters
                ≡ record b.counters { rejections = u64 (b.counters.rejections + 1) }))
  unfolding before_call
  before_call-counters b now = ground arith

  outcome-counted :
      {T E : Type 0} (c : OutcomeCounters) (ending : Ending T E)
      → count_outcome c (recorded (λ r. if is_ok r then success else failure) ending)
        ≡ counted c ending
  outcome-counted c (returned (ok t)) = refl
  outcome-counted c (returned (err e)) = refl
  outcome-counted c unwound = refl

  -- `acquire`: the permit is there if the call is admitted.
  unfoldable pub acquire : CircuitBreaker X → ℕ → CircuitBreaker X × Bool
  acquire b now = before_call f b now

  unfoldable pub finish : CircuitBreaker X → Bool → ℕ → Option (CircuitBreaker X)
  finish b acceptable now = record_outcome b (if acceptable then success else failure) now

  -- A permit that is dropped unfinished.
  unfoldable pub drop_permit : CircuitBreaker X → ℕ → Option (CircuitBreaker X)
  drop_permit b now = record_outcome b cancellation now

  module _ {T E W : Type 0} where
    -- The outer `Option` is a panic of the breaker itself. The call starts at `now` and ends at `later`.
    unfoldable pub execute_with_outcome :
        CircuitBreaker X
        → ℕ
        → ℕ
        → (W → W × Ending T E)
        → (Result T E → CircuitOutcome)
        → W
        → Option (CircuitBreaker X × W × Option (Result T (CircuitBreakerError E)))
    execute_with_outcome b now later run outcome w =
        let (b₁, admitted) = before_call f b now in
        if admitted
        then (let (w', ending) = run w in
            do b₂ ← record_outcome b₁ (recorded outcome ending) later; some (b₂, w', handed ending))
        else some (b₁, w, some (err opened))

    unfoldable pub execute_with_accept :
        CircuitBreaker X
        → ℕ
        → ℕ
        → (W → W × Ending T E)
        → (Result T E → Bool)
        → W
        → Option (CircuitBreaker X × W × Option (Result T (CircuitBreakerError E)))
    unfolding execute_with_outcome
    execute_with_accept b now later run acceptable w =
        execute_with_outcome b now later run (λ r. if acceptable r then success else failure) w

    unfoldable pub execute :
        CircuitBreaker X
        → ℕ
        → ℕ
        → (W → W × Ending T E)
        → W
        → Option (CircuitBreaker X × W × Option (Result T (CircuitBreakerError E)))
    unfolding execute_with_accept
    execute b now later run w = execute_with_accept b now later run is_ok w

    -- A call that the breaker refuses does not run the operation: the world is unchanged, the caller
    -- gets `Open`, and one rejection is counted. A call that it admits runs the operation once, the
    -- caller gets its result, and its success, failure or cancellation is counted, and nothing else.
    pub execute_effect :
        (b b' : CircuitBreaker X) (now later : ℕ) (run : W → W × Ending T E) (w w' : W)
        (result : Option (Result T (CircuitBreakerError E)))
        → execute b now later run w ≡ some (b', w', result)
        → (((before_call f b now).1 ≡ false)
            × (w' ≡ w)
            × (result ≡ some (err opened))
            × (b'.counters ≡ record b.counters { rejections = u64 (b.counters.rejections + 1) }))
          ⊎ (((before_call f b now).1 ≡ true)
              × (w' ≡ (run w).0)
              × (result ≡ handed (run w).1)
              × (b'.counters ≡ counted b.counters (run w).1))
    unfolding execute
    execute_effect b b' now later run w w' result e = ground (
      arith,
      before_call-counters b now,
      record_outcome-counters (before_call f b now).0 b'
          (recorded (λ r. if is_ok r then success else failure) (run w).1) later,
      outcome-counted b.counters (run w).1,
    )
