-- ===== src/Breaker/Consecutive/Stale.antt =====
-- core/src/breaker.rs with the calls that are in flight, each with the period of the circuit in which
-- it was admitted: a new period starts whenever the circuit becomes closed, open or half-open.
use rust_zero.Prelude.{
  ℕ, zero, suc, ◌+◌, ◌-◌, ◌≤◌, ◌<◌, ◌≡◌, refl, ap, ◌∙◌, arith, Bool, true, false, List, [], ◌∷◌,
  ◌++◌, Option, none, some, if◌then◌else◌, ◌==◌, replicate, get_elem?, total,
}
use rust_zero.Breaker.Config.{
  CircuitBreakerConfig, BreakerState, CircuitOutcome, failure, cancellation,
}
use rust_zero.Breaker.Consecutive.{
  ConsecutiveState, closed, opened, half_open, status, before_consecutive, record_consecutive,
}
use rust_zero.Breaker.Consecutive.Bounds.{IsValid}

-- `flights` has the period of each call that was admitted and has not finished, the latest call first.
pub record Calls : Type 0 where
  pub state : ConsecutiveState
  pub period : ℕ
  pub flights : List ℕ

-- A call asks for admission, and the call in flight at a place of the list finishes.
pub data Action : Type 0 where
  begins : ℕ → Action
  ends : ℕ → CircuitOutcome → ℕ → Action

abbrev is_same : BreakerState → BreakerState → Bool
is_same BreakerState.closed BreakerState.closed = true
is_same BreakerState.opened BreakerState.opened = true
is_same BreakerState.half_open BreakerState.half_open = true
is_same _ _ = false

-- The period after a change from one state to another.
unfoldable pub period_after : ConsecutiveState → ConsecutiveState → ℕ → ℕ
unfolding status
period_after s s' period = if is_same (status s) (status s') then period else period + 1

abbrev without : List ℕ → ℕ → List ℕ
without [] i = []
without (x ∷ xs) zero = xs
without (x ∷ xs) (suc i) = x ∷ without xs i

-- How many of the calls in flight were admitted in this period.
abbrev pub in_period : ℕ → List ℕ → ℕ
in_period period = total (λ p. if p == period then 1 else 0)

-- A new breaker.
abbrev pub new : Calls
new = record { state = closed 0; period = 0; flights = [] }

-- Calls that fail one after the other, while another call is in flight, up to the one that trips.
abbrev pub fails : ℕ → ℕ → List Action
fails zero now = []
fails (suc n) now = begins now ∷ ends 0 failure now ∷ fails n now

-- The first call, such failures, probes, the cancellation of the first call, and one more call.
abbrev pub stale_trace : ℕ → ℕ → ℕ → ℕ → List Action
stale_trace failures probes opened_at now =
    begins opened_at
    ∷ (fails failures opened_at
        ++ (replicate probes (begins now) ++ (ends probes cancellation now ∷ begins now ∷ [])))

module _ {X : Type 0} (config : CircuitBreakerConfig X) where
  abbrev begun : Calls → ConsecutiveState × Bool → Calls
  begun u (s, admitted) =
      let period = period_after u.state s u.period in
      record {
        state = s;
        period = period;
        flights = if admitted then period ∷ u.flights else u.flights;
      }

  -- The completion of the call in flight at a place, if there is one.
  abbrev finished : Calls → ℕ → CircuitOutcome → ℕ → Option ℕ → Calls
  finished u i outcome now none = u
  finished u i outcome now (some admitted_in) =
      let s = record_consecutive config u.state outcome now in
      record { state = s; period = period_after u.state s u.period; flights = without u.flights i }

  unfoldable pub act : Calls → Action → Calls
  act u (begins now) = begun u (before_consecutive config u.state now)
  act u (ends i outcome now) = finished u i outcome now (get_elem? u.flights i)

  unfoldable pub run : Calls → List Action → Calls
  run u [] = u
  run u (a ∷ actions) = run (act u a) actions

  run-append :
      (u : Calls) (actions others : List Action)
      → run u (actions ++ others) ≡ run (run u actions) others
  unfolding run
  run-append u [] others = refl
  run-append u (a ∷ actions) others = run-append (act u a) actions others

  run-fails :
      (k n now : ℕ)
      → IsValid config
      → n + suc k ≡ config.max_failures
      → run (record { state = closed n; period = 0; flights = 0 ∷ [] }) (fails (suc k) now)
        ≡ record { state = opened now; period = 1; flights = 0 ∷ [] }
  unfolding run act before_consecutive record_consecutive period_after status
  run-fails zero n now v e = ground arith
  run-fails (suc k) n now v e = ground (arith, run-fails k (n + 1) now v)

  admits_probe :
      (attempts now : ℕ)
      → IsValid config
      → attempts < config.half_open_max_calls
      → before_consecutive config (half_open attempts 0) now ≡ (half_open (attempts + 1) 0, true)
  unfolding before_consecutive
  admits_probe attempts now v h = ground (arith, v)

  act_probe :
      (attempts now : ℕ) (flights : List ℕ)
      → IsValid config
      → attempts < config.half_open_max_calls
      → act (record { state = half_open attempts 0; period = 2; flights = flights }) (begins now)
        ≡ record { state = half_open (attempts + 1) 0; period = 2; flights = 2 ∷ flights }
  unfolding act period_after status
  act_probe attempts now flights v h = rw (admits_probe attempts now v h) refl

  replicate-append :
      (k : ℕ) (flights : List ℕ) → replicate k 2 ++ 2 ∷ flights ≡ 2 ∷ replicate k 2 ++ flights
  replicate-append zero flights = refl
  replicate-append (suc k) flights = ap (λ l. 2 ∷ l) (replicate-append k flights)

  probes_run :
      (k attempts now : ℕ) (flights : List ℕ)
      → IsValid config
      → attempts + k ≤ config.half_open_max_calls
      → run
          (record { state = half_open attempts 0; period = 2; flights = flights })
          (replicate k (begins now))
        ≡ record {
          state = half_open (attempts + k) 0;
          period = 2;
          flights = replicate k 2 ++ flights;
        }
  unfolding run
  probes_run zero attempts now flights v h =
      ap (λ n. record { state = half_open n 0; period = 2; flights = flights }) (omega arith)
  probes_run (suc k) attempts now flights v h =
      let one_more : attempts + 1 + k ≡ attempts + suc k = omega arith in
      ap (λ u. run u (replicate k (begins now))) (act_probe attempts now flights v (omega arith))
      ∙ probes_run k (attempts + 1) now (2 ∷ flights) v (omega arith)
      ∙ ap
          (λ n. record {
            state = half_open n 0;
            period = 2;
            flights = replicate k 2 ++ 2 ∷ flights;
          })
          one_more
      ∙ ap (λ l. record { state = half_open (attempts + suc k) 0; period = 2; flights = l })
          (replicate-append k flights)

  reopened :
      (opened_at now : ℕ)
      → IsValid config
      → opened_at + config.reset_timeout ≤ now
      → act (record { state = opened opened_at; period = 1; flights = 0 ∷ [] }) (begins now)
        ≡ record { state = half_open 1 0; period = 2; flights = 2 ∷ 0 ∷ [] }
  unfolding act before_consecutive period_after status
  reopened opened_at now v h = ground arith

  -- The call at the place `n` behind `n` others is the one in flight since the start.
  get_elem?-behind : (n : ℕ) → get_elem? {A = ℕ} (replicate n 2 ++ 0 ∷ []) n ≡ some 0
  get_elem?-behind zero = refl
  get_elem?-behind (suc n) = get_elem?-behind n

  without_behind : (n : ℕ) → without (replicate n 2 ++ 0 ∷ []) n ≡ replicate n 2
  without_behind zero = refl
  without_behind (suc n) = ap (λ k. 2 ∷ k) (without_behind n)

  in_period-replicate : (n : ℕ) → in_period 2 (replicate n 2) ≡ n
  in_period-replicate zero = refl
  in_period-replicate (suc n) = omega (arith, in_period-replicate n)

  -- The cancellation of that call frees the place of a probe.
  frees :
      (m now : ℕ)
      → act
          (record {
            state = half_open (suc m) 0;
            period = 2;
            flights = replicate (suc m) 2 ++ 0 ∷ [];
          })
          (ends (suc m) cancellation now)
        ≡ record { state = half_open m 0; period = 2; flights = replicate (suc m) 2 }
  unfolding act record_consecutive period_after status
  frees m now =
      let u : Calls = record {
        state = half_open (suc m) 0;
        period = 2;
        flights = replicate (suc m) 2 ++ 0 ∷ [];
      } in
      let one_less : suc m - 1 ≡ m = omega arith in
      ap (finished u (suc m) cancellation now) (get_elem?-behind m)
      ∙ ap (λ l. record { state = half_open (suc m - 1) 0; period = 2; flights = 2 ∷ l })
          (without_behind m)
      ∙ ap (λ n. record { state = half_open n 0; period = 2; flights = replicate (suc m) 2 })
          one_less

  half_open_run :
      (m opened_at now : ℕ)
      → IsValid config
      → config.half_open_max_calls ≡ suc m
      → opened_at + config.reset_timeout ≤ now
      → run
          (record { state = opened opened_at; period = 1; flights = 0 ∷ [] })
          (replicate (suc m) (begins now) ++ ends (suc m) cancellation now ∷ begins now ∷ [])
        ≡ record { state = half_open (m + 1) 0; period = 2; flights = replicate (suc (suc m)) 2 }
  unfolding run
  half_open_run m opened_at now v e h =
      let last : List Action = ends (suc m) cancellation now ∷ begins now ∷ [] in
      ap (λ u. run u (replicate m (begins now) ++ last)) (reopened opened_at now v h)
      ∙ run-append (record { state = half_open 1 0; period = 2; flights = 2 ∷ 0 ∷ [] })
          (replicate m (begins now)) last
      ∙ ap (λ u. run u last)
          (probes_run m 1 now (2 ∷ 0 ∷ []) v (omega (arith, e))
            ∙ ap (λ l. record { state = half_open (1 + m) 0; period = 2; flights = l })
                (replicate-append m (0 ∷ []))
            ∙ ap
                (λ n. record {
                  state = half_open n 0;
                  period = 2;
                  flights = replicate (suc m) 2 ++ 0 ∷ [];
                })
                (omega arith))
      ∙ ap (λ u. act u (begins now)) (frees m now)
      ∙ act_probe m now (replicate (suc m) 2) v (omega (arith, e))

  first_call :
      (now : ℕ) → act new (begins now) ≡ record { state = closed 0; period = 0; flights = 0 ∷ [] }
  unfolding act before_consecutive period_after status
  first_call now = ground arith

  run-new :
      (k m opened_at now : ℕ)
      → IsValid config
      → config.max_failures ≡ k
      → config.half_open_max_calls ≡ m
      → opened_at + config.reset_timeout ≤ now
      → run new (stale_trace k m opened_at now)
        ≡ record { state = half_open m 0; period = 2; flights = replicate (m + 1) 2 }
  unfolding run
  run-new zero m opened_at now v d e h = absurd (omega (arith, v))
  run-new (suc k) zero opened_at now v d e h = absurd (omega (arith, v))
  run-new (suc k) (suc m) opened_at now v d e h =
      let count : suc (suc m) ≡ suc m + 1 = omega arith in
      let rest =
        replicate (suc m) (begins now) ++ ends (suc m) cancellation now ∷ begins now ∷ [] in
      ap (λ u. run u (fails (suc k) opened_at ++ rest)) (first_call opened_at)
      ∙ run-append (record { state = closed 0; period = 0; flights = 0 ∷ [] })
          (fails (suc k) opened_at) rest
      ∙ ap (λ u. run u rest) (run-fails k 0 opened_at v (omega (arith, d)))
      ∙ half_open_run m opened_at now v e h
      ∙ ap (λ n. record { state = half_open n 0; period = 2; flights = replicate (suc (suc m)) 2 })
          (omega arith)
      ∙ ap (λ n. record { state = half_open (suc m) 0; period = 2; flights = replicate n 2 }) count

  -- A new breaker admits a call. While it is in flight as many others fail as open the circuit, and
  -- after the timeout probes take every place of the half-open state. Then the first call is
  -- cancelled, which frees the place of a probe, so one more probe is admitted: those in flight that
  -- were admitted since the circuit became half-open are one more than `half_open_max_calls`.
  pub stale_cancellation_exceeds :
      (opened_at now : ℕ)
      → IsValid config
      → opened_at + config.reset_timeout ≤ now
      → let max = config.half_open_max_calls in
        let last = run new (stale_trace config.max_failures max opened_at now) in
        (status last.state ≡ BreakerState.half_open)
        × (in_period last.period last.flights ≡ max + 1)
  unfolding status
  stale_cancellation_exceeds opened_at now v h =
      let max = config.half_open_max_calls in
      let made = run-new config.max_failures max opened_at now v refl refl h in
      (
        ap (λ u. status u.state) made,
        ap (λ u. in_period u.period u.flights) made ∙ in_period-replicate (max + 1),
      )
