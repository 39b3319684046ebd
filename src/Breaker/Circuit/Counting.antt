-- ===== src/Breaker/Circuit/Counting.antt =====
-- The lifetime counters of a breaker, over any sequence of its calls.
use rust_zero.Prelude.{
  ℕ, suc, ◌+◌, ◌<◌, ◌≡◌, arith, List, [], ◌∷◌, Option, some, ◌>>=◌, if◌then◌else◌, length,
  >>=-eq-some,
}
use rust_zero.Prelude.Words.{u64_mod}
use rust_zero.Floats.{Float}
use rust_zero.Breaker.Config.{CircuitOutcome, success, failure, cancellation}
use rust_zero.Breaker.Circuit.{
  CircuitBreaker, OutcomeCounters, before_call, record_outcome, count_outcome,
}

pub data Event : Type 0 where
  call : ℕ → Event
  complete : CircuitOutcome → ℕ → Event

abbrev pub events_total : OutcomeCounters → ℕ
events_total c = c.successes + c.failures + c.rejections + c.cancellations

module _ {X : Type 0} (f : Float X) where
  -- The breaker after a trace, and the calls that it admitted.
  unfoldable pub run : CircuitBreaker X → List Event → Option (CircuitBreaker X × ℕ)
  run b [] = some (b, 0)
  run b (call now ∷ es) =
      let (b', admitted) = before_call f b now in
      do (last, n) ← run b' es; some (last, if admitted then suc n else n)
  run b (complete outcome now ∷ es) = do b' ← record_outcome b outcome now; run b' es

  before_call-counts :
      (b : CircuitBreaker X) (now : ℕ)
      → events_total b.counters + 1 < u64_mod
      → events_total (before_call f b now).0.counters + (if (before_call f b now).1 then 1 else 0)
        ≡ events_total b.counters + 1
  unfolding before_call
  before_call-counts b now h = ground arith

  record_outcome-counts :
      (b b' : CircuitBreaker X) (outcome : CircuitOutcome) (now : ℕ)
      → events_total b.counters + 1 < u64_mod
      → record_outcome b outcome now ≡ some b'
      → events_total b'.counters ≡ events_total b.counters + 1
  unfolding record_outcome count_outcome
  record_outcome-counts b b' success now h e = ground arith
  record_outcome-counts b b' failure now h e = ground arith
  record_outcome-counts b b' cancellation now h e = ground arith

  -- Every call and every completion of a trace is counted once, unless it is the admission of a
  -- call: the four counters grow by the length of the trace less the admitted calls.
  pub run-counts :
      (b last : CircuitBreaker X) (es : List Event) (admitted : ℕ)
      → events_total b.counters + length es < u64_mod
      → run b es ≡ some (last, admitted)
      → events_total last.counters + admitted ≡ events_total b.counters + length es
  unfolding run
  run-counts b last [] admitted h e = ground arith
  run-counts b last (call now ∷ es) admitted h e =
      let ((end, n), ran, out) = >>=-eq-some (run (before_call f b now).0 es) _ e in
      ground
        (arith, before_call-counts b now, run-counts (before_call f b now).0 end es n, ran, out)
  run-counts b last (complete outcome now ∷ es) admitted h e =
      let (b', done, ran) = >>=-eq-some (record_outcome b outcome now) _ e in
      omega (
        arith,
        record_outcome-counts b b' outcome now (omega arith) done,
        run-counts b' last es admitted
            (omega (arith, record_outcome-counts b b' outcome now (omega arith) done)) ran,
      )
