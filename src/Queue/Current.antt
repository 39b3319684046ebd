-- ===== src/Queue/Current.antt =====
-- What a worker of core/src/queue.rs knows of the state.
use rust_zero.Prelude.{
  ℕ, ◌+◌, ◌≤◌, ◌≡◌, refl, sym, subst, arith, Bool, true, false, List, [], ◌∷◌, Option, none, some,
  Bool-cases, inl, inr, ◌&&◌, ◌==◌, length, ltb, get_elem?, set, All, All-map_imp, All-set,
  All-get_elem?, All-replicate,
}
use rust_zero.Queue.{
  Shared, Worker, Phase, reading, parked, selecting, receiving, returned, received, handling, lost,
  Poll, pending, panics, answers, running, paused, shutdown, Polled, receive, poll_receiving,
  poll_handling, begin, poll_received, poll_in, send_state, log, pause, resume, shut_down, try_push,
  has_receiver, is_paused, is_running, QueueState, QueueRuntimeConfig, await_change, read, abort,
}
use rust_zero.Queue.Workers.{
  Queue, Action, polls, aborts, pushes, pauses, resumes, shuts_down, leave, drops, polled, poll_at,
  abort_at, pushed, push, step, run, new,
}

module _ {T : Type 0} where
  -- With no newer version of the state than it has seen, a worker that waits for a change waits in a
  -- pause, and one in `select!` is there while the queue runs.
  abbrev pub Knows : QueueState → ℕ → ℕ → Phase T → Type 0
  Knows state version seen parked = version ≡ seen → state ≡ paused
  Knows state version seen selecting = version ≡ seen → state ≡ running
  Knows state version seen reading = Unit
  Knows state version seen receiving = version ≡ seen → state ≡ running
  Knows state version seen returned = Unit
  Knows state version seen (received v) = Unit
  Knows state version seen (handling v) = Unit
  Knows state version seen (lost v) = Unit

  abbrev pub IsCurrent : QueueState → ℕ → Worker T → Type 0
  IsCurrent state version w = (w.seen ≤ version) × Knows state version w.seen w.phase

  abbrev pub IsValid : Queue T → Type 0
  IsValid q = All (IsCurrent q.shared.state q.shared.version) q.workers

  -- A newer version makes every worker current.
  publish-Knows :
      (state : QueueState) (version seen : ℕ) (phase : Phase T)
      → seen ≤ version
      → Knows state (version + 1) seen phase
  publish-Knows state version seen parked h = λ e. absurd (omega arith)
  publish-Knows state version seen selecting h = λ e. absurd (omega arith)
  publish-Knows state version seen reading h = tt
  publish-Knows state version seen receiving h = λ e. absurd (omega arith)
  publish-Knows state version seen returned h = tt
  publish-Knows state version seen (received v) h = tt
  publish-Knows state version seen (handling v) h = tt
  publish-Knows state version seen (lost v) h = tt

  abbrev Keeps : Shared T → List (Worker T) → Type 0
  Keeps s workers = All (IsCurrent s.state s.version) workers

  send_state-Keeps :
      (receivers : Bool) (state : QueueState) (s : Shared T) (workers : List (Worker T))
      → Keeps s workers
      → Keeps (send_state receivers state s) workers
  unfolding send_state
  send_state-Keeps true state s workers h =
      All-map_imp (λ w c. (omega arith, publish-Knows state s.version w.seen w.phase c.0)) workers h
  send_state-Keeps false state s workers h = h

  pause-Keeps :
      (receivers : Bool) (s : Shared T) (workers : List (Worker T))
      → Keeps s workers
      → Keeps (pause receivers s) workers
  unfolding pause log
  pause-Keeps receivers s workers h = elim (Bool-cases (is_running s.state)) [
    | inl e ↦ rw e (send_state-Keeps receivers paused s workers h)
    | inr e ↦ rw e h
  ]

  resume-Keeps :
      (receivers : Bool) (s : Shared T) (workers : List (Worker T))
      → Keeps s workers
      → Keeps (resume receivers s) workers
  unfolding resume log
  resume-Keeps receivers s workers h = elim (Bool-cases (is_paused s)) [
    | inl e ↦ rw e (send_state-Keeps receivers running s workers h)
    | inr e ↦ rw e h
  ]

  await_change-IsCurrent :
      (s : Shared T) (seen : ℕ) (other : Phase T)
      → seen ≤ s.version
      → Knows s.state s.version seen other
      → IsCurrent s.state s.version (await_change s seen other)
  unfolding await_change
  await_change-IsCurrent s seen other le k = elim (Bool-cases (s.version == seen)) [
    | inl e ↦
        rw e (elim (Bool-cases s.handle_gone) [ inl g ↦ rw g (le, tt) | inr g ↦ rw g (le, k) ])
    | inr e ↦ rw e (omega arith, tt)
  ]

  -- A poll does not change the state, and leaves its worker current.
  abbrev Stays : Shared T → Polled T → Type 0
  Stays s (s', w, taken, begun) =
      (s'.state ≡ s.state) × (s'.version ≡ s.version) × IsCurrent s.state s.version w

  receive-Stays :
      (i : ℕ) (s : Shared T) (seen : ℕ) (messages : List T)
      → seen ≤ s.version
      → Knows s.state s.version seen selecting
      → Stays s (receive i s seen messages)
  unfolding receive
  receive-Stays i s seen [] le k = elim (Bool-cases s.producers_gone) [
    | inl e ↦ rw e (refl, refl, (le, tt))
    | inr e ↦ rw e (refl, refl, (le, k))
  ]
  receive-Stays i s seen (v ∷ messages) le k = (refl, refl, (le, tt))

  poll_receiving-Stays :
      (i : ℕ) (p : Poll) (s : Shared T) (seen : ℕ)
      → seen ≤ s.version
      → Knows s.state s.version seen receiving
      → Stays s (poll_receiving i p s seen)
  unfolding poll_receiving
  poll_receiving-Stays i pending s seen le k = (refl, refl, (le, k))
  poll_receiving-Stays i panics s seen le k = receive-Stays i s seen s.messages le k
  poll_receiving-Stays i (answers r) s seen le k = receive-Stays i s seen s.messages le k

  poll_handling-Stays :
      (i : ℕ) (p : Poll) (s : Shared T) (seen : ℕ) (v : T)
      → seen ≤ s.version
      → Stays s (poll_handling i p s seen v)
  unfolding poll_handling
  poll_handling-Stays i pending s seen v le = (refl, refl, (le, tt))
  poll_handling-Stays i panics s seen v le = (refl, refl, (le, tt))
  poll_handling-Stays i (answers r) s seen v le = (refl, refl, (le, tt))

read-Knows :
    (T : Type 0) (state : QueueState) (version seen : ℕ)
    → Knows {T = T} state version seen (read state)
unfolding read
read-Knows T running version seen = λ e. refl
read-Knows T paused version seen = λ e. refl
read-Knows T shutdown version seen = tt

module _ {T : Type 0} where
  pub poll_in-Stays :
      (i : ℕ) (p : Poll) (s : Shared T) (seen : ℕ) (phase : Phase T)
      → seen ≤ s.version
      → Knows s.state s.version seen phase
      → Stays s (poll_in i p s seen phase)
  unfolding poll_in poll_received begin
  poll_in-Stays i p s seen reading le k = (refl, refl, (le, read-Knows T s.state s.version seen))
  poll_in-Stays i p s seen parked le k = (refl, refl, await_change-IsCurrent s seen parked le k)
  poll_in-Stays i p s seen selecting le k =
      (refl, refl, await_change-IsCurrent s seen receiving le k)
  poll_in-Stays i p s seen receiving le k = poll_receiving-Stays i p s seen le k
  poll_in-Stays i p s seen (received v) le k = poll_handling-Stays i p (begin i s) seen v le
  poll_in-Stays i p s seen (handling v) le k = poll_handling-Stays i p s seen v le
  poll_in-Stays i p s seen returned le k = (refl, refl, (le, tt))
  poll_in-Stays i p s seen (lost v) le k = (refl, refl, (le, tt))

  abort-Knows :
      (state : QueueState) (version seen : ℕ) (phase : Phase T)
      → Knows state version seen (abort phase)
  unfolding abort
  abort-Knows state version seen reading = tt
  abort-Knows state version seen parked = tt
  abort-Knows state version seen selecting = tt
  abort-Knows state version seen receiving = tt
  abort-Knows state version seen returned = tt
  abort-Knows state version seen (received v) = tt
  abort-Knows state version seen (handling v) = tt
  abort-Knows state version seen (lost v) = tt

  poll_at-IsValid :
      (q : Queue T) (i : ℕ) (p : Poll) (o : Option (Worker T))
      → get_elem? q.workers i ≡ o
      → IsValid q
      → IsValid (poll_at q i p o).queue
  unfolding poll_at polled
  poll_at-IsValid q i p none e h = h
  poll_at-IsValid q i p (some w) e h =
      let current = All-get_elem? (IsCurrent q.shared.state q.shared.version) q.workers i h e in
      let (same, same', next) = poll_in-Stays i p q.shared w.seen w.phase current.0 current.1 in
      let made = poll_in i p q.shared w.seen w.phase in
      subst (λ s. All (IsCurrent s (made.0).version) (set q.workers i made.1)) (sym same)
        (subst (λ n. All (IsCurrent q.shared.state n) (set q.workers i made.1)) (sym same')
          (All-set (IsCurrent q.shared.state q.shared.version) q.workers i made.1 h next))

  abort_at-IsValid :
      (q : Queue T) (i : ℕ) (o : Option (Worker T))
      → get_elem? q.workers i ≡ o
      → IsValid q
      → IsValid (abort_at q i o).queue
  unfolding abort_at
  abort_at-IsValid q i none e h = h
  abort_at-IsValid q i (some w) e h =
      let current = All-get_elem? (IsCurrent q.shared.state q.shared.version) q.workers i h e in
      All-set (IsCurrent q.shared.state q.shared.version) q.workers i
        (record { phase = abort w.phase; seen = w.seen }) h
        (current.0, abort-Knows q.shared.state q.shared.version w.seen w.phase)

  push-IsValid : (q : Queue T) (v : T) (gone : Bool) → IsValid q → IsValid (push q v gone).queue
  unfolding push pushed try_push
  push-IsValid q v true h = h
  push-IsValid q v false h =
      elim (Bool-cases
        (has_receiver q.workers && ltb (length q.shared.messages) q.shared.capacity)) [
          | inl e ↦ rw e h
          | inr e ↦ rw e h
        ]

  pub step-IsValid : (q : Queue T) (action : Action T) → IsValid q → IsValid (step q action).queue
  unfolding step shut_down log
  step-IsValid q (polls i p) h = poll_at-IsValid q i p (get_elem? q.workers i) refl h
  step-IsValid q (aborts i) h = abort_at-IsValid q i (get_elem? q.workers i) refl h
  step-IsValid q (pushes v) h = push-IsValid q v q.shared.producers_gone h
  step-IsValid q pauses h = pause-Keeps (has_receiver q.workers) q.shared q.workers h
  step-IsValid q resumes h = resume-Keeps (has_receiver q.workers) q.shared q.workers h
  step-IsValid q shuts_down h =
      send_state-Keeps (has_receiver q.workers) shutdown q.shared q.workers h
  step-IsValid q leave h = h
  step-IsValid q drops h = h

  pub run_from-IsValid :
      (q : Queue T) (actions : List (Action T)) → IsValid q → IsValid (run q actions).queue
  unfolding run
  run_from-IsValid q [] h = h
  run_from-IsValid q (action ∷ actions) h =
      run_from-IsValid (step q action).queue actions (step-IsValid q action h)

  -- From the start of a queue on, no worker sleeps through a change of the state: where it has seen the
  -- newest version, it waits for a change only in a pause, and it is in `select!` only while the queue runs.
  pub run-IsValid :
      (config : QueueRuntimeConfig) (actions : List (Action T))
      → IsValid (run (new config) actions).queue
  unfolding new rust_zero.Queue.start
  run-IsValid config actions = run_from-IsValid (new config) actions (
      All-replicate (IsCurrent running 0) config.workers (record { phase = reading; seen = 0 })
        (omega arith, tt))
