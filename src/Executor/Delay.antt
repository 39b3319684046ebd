-- ===== src/Executor/Delay.antt =====
-- `DelayExecutor` of core/src/executor.rs: the callers of `trigger` and the worker, in any order.
use rust_zero.Prelude.{ℕ, ◌+◌, ◌-◌, ◌≤◌, ◌<◌, ◌≡◌, refl, ap, arith, Bool, true, false, sym, ◌∙◌}

-- Where the worker stands; `executing` is from its store to the end of the job.
pub data Phase : Type 0 where
  waiting sleeping executing stopped : Phase

-- `offering` counts the callers between their exchange and their `try_send`, `accepted` the calls
-- that returned `true`, and `executions` the calls of the job.
pub record DelayExecutor : Type 0 where
  pub triggered : Bool
  pub offering : ℕ
  pub queued : Bool
  pub phase : Phase
  pub accepted : ℕ
  pub executions : ℕ

unfoldable pub new : DelayExecutor
new = record {
  triggered = false;
  offering = 0;
  queued = false;
  phase = waiting;
  accepted = 0;
  executions = 0;
}

-- The exchange at the start of `trigger`: if it succeeds the caller goes on, or it returns `false`.
unfoldable pub exchanged : Bool → DelayExecutor → DelayExecutor
exchanged true s = s
exchanged false s = record s { triggered = true; offering = s.offering + 1 }

unfoldable pub exchange : DelayExecutor → DelayExecutor
exchange s = exchanged s.triggered s

-- The channel has one place, and is closed when the worker has returned.
unfoldable pub takes : Phase → Bool → Bool
takes stopped queued = false
takes phase true = false
takes phase false = true

-- The `try_send` of `trigger`, with what follows it.
unfoldable pub offered : Bool → DelayExecutor → DelayExecutor
offered true s = record s { offering = s.offering - 1; queued = true; accepted = s.accepted + 1 }
offered false s = record s { offering = s.offering - 1; triggered = false }

unfoldable pub try_send : DelayExecutor → DelayExecutor
try_send s = offered (takes s.phase s.queued) s

pub data Step (s : DelayExecutor) : DelayExecutor → Type 0 where
  exchanges : Step s (exchange s)
  sends : 0 < s.offering → Step s (try_send s)
  -- `triggers.recv()` has a value.
  receives :
      s.phase ≡ waiting → s.queued ≡ true → Step s (record s { phase = sleeping; queued = false })
  -- The delay is over: the store, and the call of the job.
  wakes :
      s.phase ≡ sleeping
      → Step s (record s { triggered = false; phase = executing; executions = s.executions + 1 })
  finishes : s.phase ≡ executing → Step s (record s { phase = waiting })
  fails : s.phase ≡ executing → Step s (record s { phase = stopped })
  -- `stopping` is ready, or every sender is gone.
  stops_waiting : s.phase ≡ waiting → Step s (record s { phase = stopped })
  stops_sleeping : s.phase ≡ sleeping → Step s (record s { phase = stopped })

pub data Reach (s : DelayExecutor) : DelayExecutor → Type 0 where
  here : Reach s s
  next : {t u : DelayExecutor} → Reach s t → Step t u → Reach s u

abbrev pub number : Bool → ℕ
number true = 1
number false = 0

abbrev pub delayed : Phase → ℕ
delayed sleeping = 1
delayed phase = 0

-- The calls that won their exchange and whose job has not begun.
abbrev pub pending : DelayExecutor → ℕ
pending s = s.offering + number s.queued + delayed s.phase

abbrev pub is_running : Phase → Bool
is_running stopped = false
is_running phase = true

number_le : (b : Bool) → number b ≤ 1
number_le true = omega arith
number_le false = omega arith

record Inv (s : DelayExecutor) : Type 0 where
  alive : is_running s.phase ≡ true → pending s ≡ number s.triggered
  one : is_running s.phase ≡ true → s.accepted ≡ s.executions + number s.queued + delayed s.phase

exchanged-Inv : (s : DelayExecutor) → Inv s → (b : Bool) → s.triggered ≡ b → Inv (exchanged b s)
unfolding exchanged
exchanged-Inv s i true e = i
exchanged-Inv s i false e = record {
  alive = λ n. omega (arith, i.alive n, ap number e);
  one = i.one;
}

free_if : (b : Bool) → number b < 1 → b ≡ false
free_if true h = ground arith
free_if false h = refl

-- A worker that has not stopped has a free place for the caller that won the exchange.
takes_free :
    (s : DelayExecutor) → Inv s → 0 < s.offering → is_running s.phase ≡ true → s.queued ≡ false
takes_free s i h n = free_if s.queued (omega (arith, h, i.alive n, number_le s.triggered))

takes-is_running : (phase : Phase) → takes phase false ≡ is_running phase
unfolding takes
takes-is_running waiting = refl
takes-is_running sleeping = refl
takes-is_running executing = refl
takes-is_running stopped = refl

takes_refused :
    (phase : Phase) (queued : Bool)
    → takes phase queued ≡ false
    → (queued ≡ false)
    → is_running phase ≡ false
unfolding takes
takes_refused phase queued e f = sym (takes-is_running phase) ∙ ap (λ b. takes phase b) (sym f) ∙ e

takes_taken : (phase : Phase) (queued : Bool) → takes phase queued ≡ true → queued ≡ false
unfolding takes
takes_taken stopped queued e = cc
takes_taken waiting false e = refl
takes_taken waiting true e = cc
takes_taken sleeping false e = refl
takes_taken sleeping true e = cc
takes_taken executing false e = refl
takes_taken executing true e = cc

offered-Inv :
    (s : DelayExecutor)
    → Inv s
    → 0 < s.offering
    → (b : Bool) → takes s.phase s.queued ≡ b
    → Inv (offered b s)
unfolding offered
offered-Inv s i h true e =
    let free = ap number (takes_taken s.phase s.queued e) in
    record { alive = λ n. omega (arith, i.alive n, free); one = λ n. omega (arith, i.one n, free) }
offered-Inv s i h false e = record {
  alive = λ n. let halted = takes_refused s.phase s.queued e (takes_free s i h n) in cc;
  one = i.one;
}

Step-Inv : {s t : DelayExecutor} → Inv s → Step s t → Inv t
unfolding exchange try_send
Step-Inv {s = s} i exchanges = exchanged-Inv s i s.triggered refl
Step-Inv {s = s} i (sends h) = offered-Inv s i h (takes s.phase s.queued) refl
Step-Inv {s = s} i (receives p q) =
    let f = ap delayed p in
    let g = ap number q in
    record {
      alive = λ n. omega (arith, i.alive (ap is_running p), f, g);
      one = λ n. omega (arith, i.one (ap is_running p), f, g);
    }
Step-Inv {s = s} i (wakes p) =
    let f = ap delayed p in
    record {
      alive = λ n. omega (arith, i.alive (ap is_running p), f, number_le s.triggered);
      one = λ n. omega (arith, i.one (ap is_running p), f);
    }
Step-Inv {s = s} i (finishes p) =
    let f = ap delayed p in
    record {
      alive = λ n. omega (arith, i.alive (ap is_running p), f);
      one = λ n. omega (arith, i.one (ap is_running p), f);
    }
Step-Inv {s = s} i (fails p) = record { alive = λ n. cc; one = λ n. cc }
Step-Inv {s = s} i (stops_waiting p) = record { alive = λ n. cc; one = λ n. cc }
Step-Inv {s = s} i (stops_sleeping p) = record { alive = λ n. cc; one = λ n. cc }

Reach-Inv : {s t : DelayExecutor} → Inv s → Reach s t → Inv t
Reach-Inv i here = i
Reach-Inv i (next r step) = Step-Inv (Reach-Inv i r) step

start-Inv : Inv new
unfolding new
start-Inv = record { alive = λ n. refl; one = λ n. refl }

-- In any order of callers and worker, while the worker has not stopped: the flag is up exactly while
-- one call waits for its job to begin, so a `try_send` finds room, and each accepted call but the one
-- that waits has had its run of the job.
pub Reach-pending :
    {s : DelayExecutor}
    → Reach new s
    → is_running s.phase ≡ true
    → (pending s ≡ number s.triggered)
      × (0 < s.offering → takes s.phase s.queued ≡ true)
      × (s.accepted ≡ s.executions + number s.queued + delayed s.phase)
Reach-pending {s} r n =
    let i = Reach-Inv start-Inv r in
    (i.alive n, (λ h. rw (takes_free s i h n) (takes-is_running s.phase ∙ n)), i.one n)
