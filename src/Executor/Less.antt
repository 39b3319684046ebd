-- ===== src/Executor/Less.antt =====
-- `LessExecutor` of core/src/executor.rs. A call has its time, and the times of calls need not grow.
use rust_zero.Prelude.{
  ℕ, zero, suc, ◌+◌, ◌-◌, ◌≤◌, ◌<◌, ◌≡◌, arith, Bool, true, false, List, [], ◌∷◌, Option, none,
  some, leb, if◌then◌else◌, inl, inr, Bool-cases,
}

pub record LessExecutor : Type 0 where
  pub threshold : ℕ
  pub last_execution : Option ℕ

-- Nothing where the code stops at its assertion.
unfoldable pub new : ℕ → Option LessExecutor
new zero = none
new (suc n) = some (record { threshold = suc n; last_execution = none })

-- `is_some_and`
unfoldable pub is_recent : ℕ → ℕ → Option ℕ → Bool
is_recent threshold now none = false
is_recent threshold now (some last) = leb (now - last) threshold

-- Whether the job runs.
unfoldable pub do_or_discard : LessExecutor → ℕ → LessExecutor × Bool
do_or_discard s now =
    if is_recent s.threshold now s.last_execution
    then (s, false)
    else (record s { last_execution = some now }, true)

-- The time of each call, with whether it ran.
unfoldable pub run : LessExecutor → List ℕ → List (ℕ × Bool)
run s [] = []
run s (now ∷ times) =
    let (s', runs) = do_or_discard s now in let rest = run s' times in (now, runs) ∷ rest

abbrev pub IsDue : ℕ → Option ℕ → ℕ → Type 0
IsDue threshold none now = Unit
IsDue threshold (some last) now = last + threshold < now

abbrev pub IsSoon : ℕ → Option ℕ → ℕ → Type 0
IsSoon threshold none now = ⊥
IsSoon threshold (some last) now = now ≤ last + threshold

-- Each call that ran is more than the threshold after the run before it, and each other call is not.
abbrev pub Spaced : ℕ → Option ℕ → List (ℕ × Bool) → Type 0
Spaced threshold last [] = Unit
Spaced threshold last ((now, true) ∷ calls) =
    IsDue threshold last now × Spaced threshold (some now) calls
Spaced threshold last ((now, false) ∷ calls) =
    IsSoon threshold last now × Spaced threshold last calls

due :
    (threshold now : ℕ) (last : Option ℕ)
    → is_recent threshold now last ≡ false
    → IsDue threshold last now
unfolding is_recent
due threshold now none h = tt
due threshold now (some last) h = ground arith

soon :
    (threshold now : ℕ) (last : Option ℕ)
    → is_recent threshold now last ≡ true
    → IsSoon threshold last now
unfolding is_recent
soon threshold now none h = cc
soon threshold now (some last) h = ground arith

module _ (threshold : ℕ) where
  -- The job runs exactly if more than the threshold has passed since its last run.
  pub run-Spaced :
      (last : Option ℕ) (times : List ℕ)
      → Spaced threshold last (run (record { threshold = threshold; last_execution = last }) times)
  unfolding run do_or_discard
  run-Spaced last [] = tt
  run-Spaced last (now ∷ times) = elim (Bool-cases (is_recent threshold now last)) [
    | inl recent ↦ rw recent (soon threshold now last recent, run-Spaced last times)
    | inr old ↦ rw old (due threshold now last old, run-Spaced (some now) times)
  ]
