-- ===== src/Load/Shedder/Threads.antt =====
-- The threads of a load shedder (core/src/load.rs): any interleaving of their critical sections,
-- loads and exchanges.
use rust_zero.Prelude.{
  ℕ, ◌+◌, ◌-◌, ◌≤◌, ◌<◌, ◌≡◌, refl, subst, arith, Bool, true, false, ◌⊎◌, List, [], ◌∷◌, ◌++◌, some,
  All,
}
use rust_zero.Prelude.Words.{u64}
use rust_zero.Floats.{Float, FloatLaws}
use rust_zero.Limit.Decision.{duration_max}
use rust_zero.Load.{ShedderState}
use rust_zero.Load.Config.{LoadShedderConfig}
use rust_zero.Load.Shedder.{check, smooth, drop_permit, release, initial, instant_max}
use rust_zero.Load.Shedder.Limits.{
  IsConfig, IsValid, Checks, check-Checks, check_returns, drop_permit_total, drop_permit-IsValid,
  smooth-IsValid, initial-IsValid,
}

-- `passed` has, for each thread that stands between its check and its exchange, the `in_flight`
-- that it loaded; `permits` is the number of permits that are not dropped.
pub record System (X : Type 0) : Type 0 where
  pub in_flight : ℕ
  pub permits : ℕ
  pub passed : List ℕ
  pub state : ShedderState X

All-drop :
    (P : ℕ → Type 0) (xs : List ℕ) (y : ℕ) (ys : List ℕ)
    → All P (xs ++ y ∷ ys)
    → P y × All P (xs ++ ys)
All-drop P [] y ys p = p
All-drop P (x ∷ xs) y ys (p, ps) = let (q, qs) = All-drop P xs y ys ps in (q, (p, qs))

module _ {X : Type 0} (f : Float X) (config : LoadShedderConfig X) where
  -- A thread may find any value of `in_flight` at its load. `reserves` is an exchange that
  -- succeeds, `retries` one that fails, spuriously or not. A section that panics poisons the lock,
  -- so it is no step.
  pub data Step (u : System X) : System X → Type 0 where
    passes :
        (active now : ℕ) (usage : X) {s : ShedderState X}
        → check f config u.state active now usage ≡ some (s, true)
        → Step u (record u { state = s; passed = active ∷ u.passed })
    refuses :
        (active now : ℕ) (usage : X) {s : ShedderState X}
        → check f config u.state active now usage ≡ some (s, false)
        → Step u (record u { state = s })
    reserves :
        (before : List ℕ) (active : ℕ) (after : List ℕ)
        → u.passed ≡ before ++ active ∷ after
        → u.in_flight ≡ active
        → Step u (record u {
          in_flight = u64 (active + 1);
          permits = u.permits + 1;
          passed = before ++ after;
        })
    retries :
        (before : List ℕ) (active : ℕ) (after : List ℕ)
        → u.passed ≡ before ++ active ∷ after
        → Step u (record u { passed = before ++ after })
    smooths : (active : ℕ) → Step u (record u { state = smooth f config u.state active })
    releases :
        0 < u.permits
        → Step u (record u { in_flight = release u.in_flight; permits = u.permits - 1 })
    drops :
        (active elapsed now : ℕ) {s : ShedderState X}
        → drop_permit f config u.state active elapsed now ≡ some s
        → Step u (record u { state = s })

  pub data Reach (u : System X) : System X → Type 0 where
    here : Reach u u
    next : {v w : System X} → Reach u v → Step v w → Reach u w

  unfoldable pub start : ℕ → System X
  start now = record { in_flight = 0; permits = 0; passed = []; state = initial f config now }

  record Inv (u : System X) : Type 0 where
    counted : u.in_flight ≡ u.permits
    bounded : u.in_flight ≤ config.max_concurrency
    fresh : All (λ n. n < config.max_concurrency) u.passed
    valid : IsValid config u.state

  module _ (laws : FloatLaws f) (i : IsConfig config) where
    checked :
        {s s' : ShedderState X} (active now : ℕ) (usage : X) {p : Bool}
        → IsValid config s
        → check f config s active now usage ≡ some (s', p)
        → IsValid config s' × ((p ≡ false) ⊎ (active < config.max_concurrency))
    checked {s = s} active now usage v e =
        subst (Checks config i f laws active) e (check-Checks config i f laws s active now usage v)

    dropped :
        {s s' : ShedderState X} (active elapsed now : ℕ)
        → IsValid config s
        → drop_permit f config s active elapsed now ≡ some s'
        → IsValid config s'
    dropped {s = s} {s' = s'} = drop_permit-IsValid config i f laws s s'

    Step-Inv : {u w : System X} → Inv u → Step u w → Inv w
    unfolding release
    Step-Inv inv (passes active now usage e) =
        let (valid, verdict) = checked active now usage inv.valid e in
        let lt : active < config.max_concurrency = ground arith in
        record {
          counted = inv.counted;
          bounded = inv.bounded;
          fresh = (lt, inv.fresh);
          valid = valid;
        }
    Step-Inv inv (refuses active now usage e) = record {
      counted = inv.counted;
      bounded = inv.bounded;
      fresh = inv.fresh;
      valid = (checked active now usage inv.valid e).0;
    }
    Step-Inv inv (reserves before active after e same) =
        let (lt, rest) =
          All-drop (λ n. n < config.max_concurrency) before active after
            (subst (All (λ n. n < config.max_concurrency)) e inv.fresh) in
        record {
          counted = omega (arith, inv.counted, same, lt, i.capacity);
          bounded = omega (arith, lt, i.capacity);
          fresh = rest;
          valid = inv.valid;
        }
    Step-Inv inv (retries before active after e) = record {
      counted = inv.counted;
      bounded = inv.bounded;
      fresh =
          (All-drop (λ n. n < config.max_concurrency) before active after
            (subst (All (λ n. n < config.max_concurrency)) e inv.fresh)).1;
      valid = inv.valid;
    }
    Step-Inv inv (smooths active) = record {
      counted = inv.counted;
      bounded = inv.bounded;
      fresh = inv.fresh;
      valid = smooth-IsValid config i f laws _ active inv.valid;
    }
    Step-Inv inv (releases h) = record {
      counted = omega (arith, inv.counted, inv.bounded, h, i.capacity);
      bounded = omega (arith, inv.counted, inv.bounded, h, i.capacity);
      fresh = inv.fresh;
      valid = inv.valid;
    }
    Step-Inv inv (drops active elapsed now e) = record {
      counted = inv.counted;
      bounded = inv.bounded;
      fresh = inv.fresh;
      valid = dropped active elapsed now inv.valid e;
    }

    start-Inv : (now : ℕ) → Inv (start now)
    unfolding start
    start-Inv now = record {
      counted = refl;
      bounded = omega arith;
      fresh = tt;
      valid = initial-IsValid config i f laws now;
    }

    Reach-Inv : {u w : System X} → Inv u → Reach u w → Inv w
    Reach-Inv h here = h
    Reach-Inv h (next r st) = Step-Inv (Reach-Inv h r) st

    -- Let the settings be positive, `max_concurrency` under the largest `usize`, and `sample_window`
    -- under 2 ^ 32. Whatever the interleaving, the clock and the CPU are, `in_flight` counts the permits that are
    -- not dropped, they are at most `max_concurrency`, and the limit stays between 1 and that.
    pub in_flight_bounded :
        {u : System X} (now : ℕ)
        → Reach (start now) u
        → (u.in_flight ≡ u.permits)
          × (u.permits ≤ config.max_concurrency)
          × (0 < u.state.current_limit)
          × (u.state.current_limit ≤ config.max_concurrency)
    in_flight_bounded now r =
        let h = Reach-Inv (start-Inv now) r in
        (h.counted, omega (arith, h.counted, h.bounded), h.valid.limit.0, h.valid.limit.1)

    -- Let the settings be positive, `max_concurrency` under the largest `usize`, and `sample_window`
    -- under 2 ^ 32. In every state that the threads reach a check returns, if the end of a cooldown
    -- that starts now is not beyond the last instant; and the drop of a permit returns, if its latency
    -- and the latencies of the batch so far do not sum up to more than the largest duration.
    pub sections_return :
        {u : System X} (begin active elapsed now : ℕ) (usage : X)
        → Reach (start begin) u
        → now + config.cooldown ≤ instant_max
        → u.state.total_latency + elapsed ≤ duration_max
        → ((r : ShedderState X × Bool) × (check f config u.state active now usage ≡ some r))
          × ((s : ShedderState X) × (drop_permit f config u.state active elapsed now ≡ some s))
    sections_return {u = u} begin active elapsed now usage r before_end fits =
        let v = (Reach-Inv (start-Inv begin) r).valid in
        let (t, e', w') = drop_permit_total config i f laws u.state active elapsed now v fits in
        (check_returns config i f laws u.state active now usage v before_end, (t, e'))
