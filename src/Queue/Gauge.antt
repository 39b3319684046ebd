-- ===== src/Queue/Gauge.antt =====
-- The gauge and the events of core/src/queue.rs against the messages that its workers hold.
use rust_zero.Prelude.{
  ℕ, ◌+◌, ◌≤◌, ◌≡◌, refl, ap, arith, Bool, true, false, List, [], ◌∷◌, Option, none, some,
  Bool-cases, inl, inr, ◌&&◌, ◌==◌, length, ltb, get_elem?, total, total-set, total-get_elem?,
  total-replicate,
}
use rust_zero.Prelude.Results.{Result, ok, err}
use rust_zero.Prelude.Texts.{Text}
use rust_zero.Queue.{
  Shared, Worker, Phase, reading, parked, selecting, receiving, returned, received, handling, lost,
  Poll, pending, panics, answers, running, paused, shutdown, Polled, receive, poll_receiving,
  poll_handling, begin, poll_received, poll_in, send_state, log, pause, resume, shut_down, try_push,
  has_receiver, is_paused, is_running, QueueState, QueueRuntimeConfig, await_change, read, abort,
  QueueEvent, queued, started, succeeded, failed, was_paused, was_resumed, was_shutdown, outcome,
}
use rust_zero.Queue.Workers.{
  Queue, Action, polls, aborts, pushes, pauses, resumes, shuts_down, leave, drops, polled, poll_at,
  abort_at, pushed, push, step, run, new,
}

abbrev pub starts : QueueEvent → ℕ
starts queued = 0
starts (started worker) = 1
starts (succeeded worker) = 0
starts (failed worker message) = 0
starts was_paused = 0
starts was_resumed = 0
starts was_shutdown = 0

abbrev pub ends : QueueEvent → ℕ
ends queued = 0
ends (started worker) = 0
ends (succeeded worker) = 1
ends (failed worker message) = 1
ends was_paused = 0
ends was_resumed = 0
ends was_shutdown = 0

outcome-ends :
    (worker : ℕ) (r : Result Text Unit)
    → (starts (outcome worker r) ≡ 0) × (ends (outcome worker r) ≡ 1)
unfolding outcome
outcome-ends worker (ok u) = (refl, refl)
outcome-ends worker (err message) = (refl, refl)

module _ {T : Type 0} where
  -- A message that is in the handler, or that was there at a panic or an abort.
  abbrev pub occupied : Phase T → ℕ
  occupied (handling v) = 1
  occupied (lost v) = 1
  occupied reading = 0
  occupied parked = 0
  occupied selecting = 0
  occupied receiving = 0
  occupied (received v) = 0
  occupied returned = 0

  abbrev pub all_occupied : List (Worker T) → ℕ
  all_occupied = total (λ w. occupied w.phase)

  abbrev pub IsAccounted : Queue T → Type 0
  IsAccounted q =
      (q.shared.inflight ≡ all_occupied q.workers)
      × (total starts q.shared.events ≡ total ends q.shared.events + all_occupied q.workers)

  -- A poll moves the accounts by what its worker holds.
  abbrev Balances : Shared T → Phase T → Polled T → Type 0
  Balances s phase (s', w, taken, begun) =
      (s'.inflight + occupied phase ≡ s.inflight + occupied w.phase)
      × (total starts s'.events + total ends s.events + occupied phase
          ≡ total starts s.events + total ends s'.events + occupied w.phase)

  await_change-occupied :
      (s : Shared T) (seen : ℕ) (other : Phase T)
      → occupied other ≡ 0
      → occupied (await_change s seen other).phase ≡ 0
  unfolding await_change
  await_change-occupied s seen other h = elim (Bool-cases (s.version == seen)) [
    | inl e ↦ rw e (elim (Bool-cases s.handle_gone) [ inl g ↦ rw g refl | inr g ↦ rw g h ])
    | inr e ↦ rw e refl
  ]

  read-occupied : (state : QueueState) (phase : Phase T) → phase ≡ read state → occupied phase ≡ 0
  unfolding read
  read-occupied running phase e = ap occupied e
  read-occupied paused phase e = ap occupied e
  read-occupied shutdown phase e = ap occupied e

  receive-Balances :
      (i : ℕ) (s : Shared T) (seen : ℕ) (messages : List T)
      → Balances s receiving (receive i s seen messages)
  unfolding receive
  receive-Balances i s seen [] = elim (Bool-cases s.producers_gone) [
    | inl e ↦ rw e (refl, refl)
    | inr e ↦ rw e (refl, refl)
  ]
  receive-Balances i s seen (v ∷ messages) = (omega arith, omega arith)

  poll_in-Balances :
      (i : ℕ) (p : Poll) (s : Shared T) (seen : ℕ) (phase : Phase T)
      → occupied phase ≤ s.inflight
      → Balances s phase (poll_in i p s seen phase)
  unfolding poll_in poll_receiving poll_handling poll_received begin
  poll_in-Balances i p s seen reading h =
      let none_held = read-occupied s.state (read s.state) refl in (omega arith, omega arith)
  poll_in-Balances i p s seen parked h =
      let none_held = await_change-occupied s seen parked refl in (omega arith, omega arith)
  poll_in-Balances i p s seen selecting h =
      let none_held = await_change-occupied s seen receiving refl in (omega arith, omega arith)
  poll_in-Balances i pending s seen receiving h = (refl, refl)
  poll_in-Balances i panics s seen receiving h = receive-Balances i s seen s.messages
  poll_in-Balances i (answers r) s seen receiving h = receive-Balances i s seen s.messages
  poll_in-Balances i pending s seen (received v) h = (omega arith, omega arith)
  poll_in-Balances i panics s seen (received v) h = (omega arith, omega arith)
  poll_in-Balances i (answers r) s seen (received v) h =
      let ended = outcome-ends i r in (omega arith, omega arith)
  poll_in-Balances i pending s seen (handling v) h = (refl, omega arith)
  poll_in-Balances i panics s seen (handling v) h = (refl, omega arith)
  poll_in-Balances i (answers r) s seen (handling v) h =
      let ended = outcome-ends i r in (omega arith, omega arith)
  poll_in-Balances i p s seen returned h = (refl, omega arith)
  poll_in-Balances i p s seen (lost v) h = (refl, omega arith)

  poll_at-IsAccounted :
      (q : Queue T) (i : ℕ) (p : Poll) (o : Option (Worker T))
      → get_elem? q.workers i ≡ o
      → IsAccounted q
      → IsAccounted (poll_at q i p o).queue
  unfolding poll_at polled
  poll_at-IsAccounted q i p none e h = h
  poll_at-IsAccounted q i p (some w) e h =
      let held = total-get_elem? (λ w. occupied w.phase) q.workers i e in
      let made = poll_in i p q.shared w.seen w.phase in
      let balanced = poll_in-Balances i p q.shared w.seen w.phase (omega arith) in
      let counted = total-set (λ w. occupied w.phase) q.workers i made.1 e in
      (omega arith, omega arith)

  abort-occupied : (phase : Phase T) → occupied (abort phase) ≡ occupied phase
  unfolding abort
  abort-occupied reading = refl
  abort-occupied parked = refl
  abort-occupied (received v) = refl
  abort-occupied selecting = refl
  abort-occupied receiving = refl
  abort-occupied returned = refl
  abort-occupied (handling v) = refl
  abort-occupied (lost v) = refl

  abort_at-IsAccounted :
      (q : Queue T) (i : ℕ) (o : Option (Worker T))
      → get_elem? q.workers i ≡ o
      → IsAccounted q
      → IsAccounted (abort_at q i o).queue
  unfolding abort_at
  abort_at-IsAccounted q i none e h = h
  abort_at-IsAccounted q i (some w) e h =
      let counted =
        total-set (λ w. occupied w.phase) q.workers i
          (record { phase = abort w.phase; seen = w.seen }) e in
      let same = abort-occupied w.phase in (omega arith, omega arith)

  push-IsAccounted :
      (q : Queue T) (v : T) (gone : Bool) → IsAccounted q → IsAccounted (push q v gone).queue
  unfolding push pushed try_push
  push-IsAccounted q v true h = h
  push-IsAccounted q v false h =
      elim (Bool-cases
        (has_receiver q.workers && ltb (length q.shared.messages) q.shared.capacity)) [
          | inl e ↦ rw e (omega arith, omega arith)
          | inr e ↦ rw e h
        ]

  -- Calls of the handle move neither.
  abbrev Leaves : Shared T → Shared T → Type 0
  Leaves s s' =
      (s'.inflight ≡ s.inflight)
      × (total starts s'.events ≡ total starts s.events)
      × (total ends s'.events ≡ total ends s.events)

  send_state-Leaves :
      (receivers : Bool) (state : QueueState) (s : Shared T)
      → Leaves s (send_state receivers state s)
  unfolding send_state
  send_state-Leaves true state s = (refl, refl, refl)
  send_state-Leaves false state s = (refl, refl, refl)

  pause-Leaves : (receivers : Bool) (s : Shared T) → Leaves s (pause receivers s)
  unfolding pause log
  pause-Leaves receivers s = elim (Bool-cases (is_running s.state)) [
    | inl e ↦
        let same = send_state-Leaves receivers paused s in
        rw e (omega arith, omega arith, omega arith)
    | inr e ↦ rw e (refl, refl, refl)
  ]

  resume-Leaves : (receivers : Bool) (s : Shared T) → Leaves s (resume receivers s)
  unfolding resume log
  resume-Leaves receivers s = elim (Bool-cases (is_paused s)) [
    | inl e ↦
        let same = send_state-Leaves receivers running s in
        rw e (omega arith, omega arith, omega arith)
    | inr e ↦ rw e (refl, refl, refl)
  ]

  step-IsAccounted :
      (q : Queue T) (action : Action T) → IsAccounted q → IsAccounted (step q action).queue
  unfolding step shut_down log
  step-IsAccounted q (polls i p) h = poll_at-IsAccounted q i p (get_elem? q.workers i) refl h
  step-IsAccounted q (aborts i) h = abort_at-IsAccounted q i (get_elem? q.workers i) refl h
  step-IsAccounted q (pushes v) h = push-IsAccounted q v q.shared.producers_gone h
  step-IsAccounted q pauses h =
      let same = pause-Leaves (has_receiver q.workers) q.shared in (omega arith, omega arith)
  step-IsAccounted q resumes h =
      let same = resume-Leaves (has_receiver q.workers) q.shared in (omega arith, omega arith)
  step-IsAccounted q shuts_down h =
      let same = send_state-Leaves (has_receiver q.workers) shutdown q.shared in
      (omega arith, omega arith)
  step-IsAccounted q leave h = h
  step-IsAccounted q drops h = h

  run_from-IsAccounted :
      (q : Queue T) (actions : List (Action T)) → IsAccounted q → IsAccounted (run q actions).queue
  unfolding run
  run_from-IsAccounted q [] h = h
  run_from-IsAccounted q (action ∷ actions) h =
      run_from-IsAccounted (step q action).queue actions (step-IsAccounted q action h)

  -- From the start of a queue on, the gauge is the number of messages that are in the handler or were
  -- there when it panicked or was aborted, and each other message that was started has its event of
  -- success or failure.
  pub run-IsAccounted :
      (config : QueueRuntimeConfig) (actions : List (Action T))
      → IsAccounted (run (new config) actions).queue
  unfolding new rust_zero.Queue.start
  run-IsAccounted config actions =
      let idle =
        total-replicate {A = Worker T} (λ w. occupied w.phase) config.workers
          (record { phase = reading; seen = 0 }) refl in
      run_from-IsAccounted (new config) actions (omega arith, omega arith)
