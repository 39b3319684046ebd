-- ===== src/Breaker/Consecutive/Probes.antt =====
-- The half-open state: a breaker together with the probes that it has admitted since it became
-- half-open and that have not finished.
use rust_zero.Prelude.{ℕ, ◌+◌, ◌-◌, ◌≤◌, ◌<◌, ◌≡◌, arith, Bool, if◌then◌else◌, ltb, subst}
use rust_zero.Breaker.Consecutive.Trips.{admitted}
use rust_zero.Breaker.Config.{CircuitBreakerConfig, CircuitOutcome, success, cancellation}
use rust_zero.Breaker.Consecutive.{
  ConsecutiveState, closed, opened, half_open, before_consecutive, record_consecutive,
}
use rust_zero.Breaker.Consecutive.Bounds.{
  IsValid, InBounds, before_consecutive-InBounds, record_consecutive-InBounds,
}

pub record System : Type 0 where
  pub state : ConsecutiveState
  pub probes : ℕ

-- The probes of the state that a call leaves: a call that is admitted half-open is a probe, the
-- first one if the circuit was open.
abbrev probes_after : ConsecutiveState → ConsecutiveState × Bool → ℕ → ℕ
probes_after (half_open _ _) (_, admitted) probes = if admitted then probes + 1 else probes
probes_after (opened _) (_, admitted) probes = if admitted then 1 else 0
probes_after (closed _) _ probes = 0

-- The probes still unfinished when one has finished: leaving the half-open state forgets the rest.
abbrev probes_left : ConsecutiveState → ℕ → ℕ
probes_left (half_open _ _) probes = probes - 1
probes_left _ probes = 0

-- A completion that meets a half-open circuit is that of a probe that it admitted since it became
-- half-open; the completions of older calls are left out.
abbrev IsOfProbe : System → Type 0
IsOfProbe u = go u.state
  where
    go : ConsecutiveState → Type 0
    go (half_open _ _) = 0 < u.probes
    go _ = Unit

-- A new breaker.
abbrev pub start : System
start = record { state = closed 0; probes = 0 }

module _ {X : Type 0} (config : CircuitBreakerConfig X) where
  unfoldable pub call : System → ℕ → System
  call u now = record {
    state = (before_consecutive config u.state now).0;
    probes = probes_after u.state (before_consecutive config u.state now) u.probes;
  }

  unfoldable pub finish : System → CircuitOutcome → ℕ → System
  finish u outcome now = record {
    state = record_consecutive config u.state outcome now;
    probes = probes_left (record_consecutive config u.state outcome now) u.probes;
  }

  pub data Step (u : System) : System → Type 0 where
    calls : (now : ℕ) → Step u (call u now)
    finishes : (outcome : CircuitOutcome) (now : ℕ) → IsOfProbe u → Step u (finish u outcome now)

  pub data Reach (u : System) : System → Type 0 where
    here : Reach u u
    next : {v w : System} → Reach u v → Step v w → Reach u w

  -- The attempts of a half-open circuit are its successes and its unfinished probes.
  abbrev pub Accounts : ConsecutiveState → ℕ → Type 0
  Accounts (half_open attempts successes) probes = attempts ≡ successes + probes
  Accounts _ probes = Unit

  pub record Inv (u : System) : Type 0 where
    pub bounds : InBounds config u.state
    pub accounts : Accounts u.state u.probes

  call-Accounts :
      (s : ConsecutiveState) (probes now : ℕ)
      → IsValid config
      → InBounds config s
      → Accounts s probes
      → Accounts
          (before_consecutive config s now).0
          (probes_after s (before_consecutive config s now) probes)
  unfolding before_consecutive
  call-Accounts (closed n) probes now v b h = tt
  call-Accounts (opened t) probes now v b h = ground arith
  call-Accounts (half_open a s) probes now v b h = ground arith

  finish-Accounts :
      (s : ConsecutiveState) (probes : ℕ) (outcome : CircuitOutcome) (now : ℕ)
      → IsValid config
      → InBounds config s
      → IsOfProbe (record { state = s; probes = probes })
      → Accounts s probes
      → Accounts
          (record_consecutive config s outcome now)
          (probes_left (record_consecutive config s outcome now) probes)
  unfolding record_consecutive
  finish-Accounts (closed n) probes success now v b p h = tt
  finish-Accounts (half_open a s) probes success now v b p h = ground arith
  finish-Accounts (half_open a s) probes cancellation now v b p h = omega arith
  finish-Accounts s probes o now v b p h = ground arith

  Step-Inv : {u w : System} → IsValid config → Inv u → Step u w → Inv w
  unfolding call finish
  Step-Inv {u} v h (calls now) = record {
    bounds = before_consecutive-InBounds config u.state now v h.bounds;
    accounts = call-Accounts u.state u.probes now v h.bounds h.accounts;
  }
  Step-Inv {u} v h (finishes outcome now p) = record {
    bounds = record_consecutive-InBounds config u.state outcome now v h.bounds;
    accounts = finish-Accounts u.state u.probes outcome now v h.bounds p h.accounts;
  }

  pub Reach-Inv : {u w : System} → IsValid config → Inv u → Reach u w → Inv w
  Reach-Inv v h here = h
  Reach-Inv v h (next r st) = Step-Inv v (Reach-Inv v h r) st

  start-Inv : IsValid config → Inv start
  start-Inv v = record { bounds = v.some_failures; accounts = tt }

  half_open_admits :
      (attempts successes probes now : ℕ)
      → Inv (record { state = half_open attempts successes; probes = probes })
      → (successes + probes ≤ config.half_open_max_calls)
        × (successes < config.half_open_max_calls)
        × ((before_consecutive config (half_open attempts successes) now).1
            ≡ ltb (successes + probes) config.half_open_max_calls)
  unfolding before_consecutive
  half_open_admits attempts successes probes now i =
      let b = i.bounds in let a = i.accounts in ground arith

  -- Take any state that a new breaker reaches, where each call that finishes while the circuit is
  -- half-open was admitted since it last became half-open: no call of an earlier state, be it closed
  -- or half-open, finishes then. If it is half-open, the successes so far and the probes in
  -- flight are together at most `half_open_max_calls`, the successes alone are fewer, and a call is
  -- admitted exactly if successes and probes in flight are together fewer. So the half-open state
  -- bounds its probes, and never wedges: with no probe in flight the next call is admitted.
  pub half_open_probes :
      {u : System} {attempts successes : ℕ} (now : ℕ)
      → IsValid config
      → Reach start u
      → u.state ≡ half_open attempts successes
      → (successes + u.probes ≤ config.half_open_max_calls)
        × (successes < config.half_open_max_calls)
        × ((before_consecutive config u.state now).1
            ≡ ltb (successes + u.probes) config.half_open_max_calls)
  half_open_probes {u} {attempts} {successes} now v r e = rw e (
      half_open_admits attempts successes u.probes now (
        subst (λ s. Inv (record { state = s; probes = u.probes })) e (Reach-Inv v (start-Inv v) r)))
