-- ===== src/Queue/Pausing.antt =====
-- What the workers of core/src/queue.rs start after a pause or a shutdown.
use rust_zero.Prelude.{
  ℕ, ◌+◌, ◌≤◌, ◌≡◌, ◌≢◌, refl, sym, ap, ◌∙◌, arith, Bool, true, false, List, [], ◌∷◌, Option, none,
  some, Bool-cases, inl, inr, if◌then◌else◌, ◌&&◌, ◌==◌, ==_iff, length, ltb, get_elem?, All,
  All-get_elem?, total, total-set, length-append,
}
use rust_zero.Queue.{
  Shared, Worker, Phase, reading, parked, selecting, receiving, returned, received, handling, lost,
  Poll, pending, panics, answers, running, paused, shutdown, Polled, receive, poll_receiving,
  poll_handling, begin, poll_received, poll_in, send_state, log, pause, shut_down, try_push,
  has_receiver, is_running, QueueState, QueueRuntimeConfig, await_change, read, abort, was_paused,
}
use rust_zero.Queue.Workers.{
  Queue, Action, polls, aborts, pushes, pauses, resumes, shuts_down, leave, drops, Stepped, polled,
  poll_at, abort_at, pushed, push, step, run, new,
}
use rust_zero.Queue.Current.{Knows, IsCurrent, IsValid, poll_in-Stays, step-IsValid, run-IsValid}

module _ {T : Type 0} where
  -- A worker that is past its check of the state: between the two branches of `select!`, or with a
  -- message and before the call of the handler.
  abbrev pub between : Phase T → ℕ
  between receiving = 1
  between (received v) = 1
  between reading = 0
  between parked = 0
  between selecting = 0
  between returned = 0
  between (handling v) = 0
  between (lost v) = 0

  abbrev pub betweens : List (Worker T) → ℕ
  betweens = total (λ w. between w.phase)

  -- What a poll starts, it starts from there.
  abbrev Spends : Phase T → Polled T → Type 0
  Spends phase (s, w, taken, begun) = length begun + between w.phase ≤ between phase

  await_change-between :
      (s : Shared T) (seen : ℕ) (other : Phase T)
      → (s.version ≡ seen → between other ≡ 0)
      → between (await_change s seen other).phase ≡ 0
  unfolding await_change
  await_change-between s seen other h = elim (Bool-cases (s.version == seen)) [
    | inl e ↦ rw e (elim (Bool-cases s.handle_gone) [
      | inl g ↦ rw g refl
      | inr g ↦ rw g (h ((==_iff s.version seen).0 e))
    ])
    | inr e ↦ rw e refl
  ]

  receive-Spends :
      (i : ℕ) (s : Shared T) (seen : ℕ) (messages : List T)
      → Spends receiving (receive i s seen messages)
  unfolding receive
  receive-Spends i s seen [] = elim (Bool-cases s.producers_gone) [
    | inl e ↦ rw e (omega arith)
    | inr e ↦ rw e (omega arith)
  ]
  receive-Spends i s seen (v ∷ messages) = omega arith

  read-between : (state : QueueState) (phase : Phase T) → phase ≡ read state → between phase ≡ 0
  unfolding read
  read-between running phase e = ap between e
  read-between paused phase e = ap between e
  read-between shutdown phase e = ap between e

  poll_in-Spends :
      (i : ℕ) (p : Poll) (s : Shared T) (seen : ℕ) (phase : Phase T)
      → s.state ≢ running
      → Knows s.state s.version seen phase
      → Spends phase (poll_in i p s seen phase)
  unfolding poll_in poll_receiving poll_handling poll_received begin
  poll_in-Spends i p s seen reading n k = omega (arith, read-between s.state (read s.state) refl)
  poll_in-Spends i p s seen parked n k =
      omega (arith, await_change-between s seen parked (λ e. refl))
  poll_in-Spends i p s seen selecting n k =
      omega (arith, await_change-between s seen receiving (λ e. absurd (n (k e))))
  poll_in-Spends i pending s seen receiving n k = omega arith
  poll_in-Spends i panics s seen receiving n k = receive-Spends i s seen s.messages
  poll_in-Spends i (answers r) s seen receiving n k = receive-Spends i s seen s.messages
  poll_in-Spends i pending s seen (received v) n k = omega arith
  poll_in-Spends i panics s seen (received v) n k = omega arith
  poll_in-Spends i (answers r) s seen (received v) n k = omega arith
  poll_in-Spends i pending s seen (handling v) n k = omega arith
  poll_in-Spends i panics s seen (handling v) n k = omega arith
  poll_in-Spends i (answers r) s seen (handling v) n k = omega arith
  poll_in-Spends i p s seen returned n k = omega arith
  poll_in-Spends i p s seen (lost v) n k = omega arith

  -- A step that resumes nothing starts at most the messages of workers that are past the check,
  -- and lets no worker get there.
  abbrev Bounded : Queue T → Stepped T → Type 0
  Bounded q r =
      (length r.begun + betweens r.queue.workers ≤ betweens q.workers)
      × (r.queue.shared.state ≢ running)

  poll_at-Bounded :
      (q : Queue T) (i : ℕ) (p : Poll) (o : Option (Worker T))
      → get_elem? q.workers i ≡ o
      → IsValid q
      → q.shared.state ≢ running
      → Bounded q (poll_at q i p o)
  unfolding poll_at polled
  poll_at-Bounded q i p none e h n = (omega arith, n)
  poll_at-Bounded q i p (some w) e h n =
      let current = All-get_elem? (IsCurrent q.shared.state q.shared.version) q.workers i h e in
      let made = poll_in i p q.shared w.seen w.phase in
      let stays = poll_in-Stays i p q.shared w.seen w.phase current.0 current.1 in
      let spent = poll_in-Spends i p q.shared w.seen w.phase n current.1 in
      let counted = total-set (λ w. between w.phase) q.workers i made.1 e in
      (omega arith, λ r. n (sym stays.0 ∙ r))

  abort-between : (phase : Phase T) → between (abort phase) ≤ between phase
  unfolding abort
  abort-between reading = omega arith
  abort-between parked = omega arith
  abort-between selecting = omega arith
  abort-between receiving = omega arith
  abort-between returned = omega arith
  abort-between (received v) = omega arith
  abort-between (handling v) = omega arith
  abort-between (lost v) = omega arith

  abort_at-Bounded :
      (q : Queue T) (i : ℕ) (o : Option (Worker T))
      → get_elem? q.workers i ≡ o
      → q.shared.state ≢ running
      → Bounded q (abort_at q i o)
  unfolding abort_at
  abort_at-Bounded q i none e n = (omega arith, n)
  abort_at-Bounded q i (some w) e n =
      let counted =
        total-set (λ w. between w.phase) q.workers i
          (record { phase = abort w.phase; seen = w.seen }) e in
      let gone = abort-between w.phase in (omega arith, n)

  push-Bounded :
      (q : Queue T) (v : T) (gone : Bool) → q.shared.state ≢ running → Bounded q (push q v gone)
  unfolding push pushed try_push
  push-Bounded q v true n = (omega arith, n)
  push-Bounded q v false n =
      elim (Bool-cases
        (has_receiver q.workers && ltb (length q.shared.messages) q.shared.capacity)) [
          | inl e ↦ rw e (omega arith, n)
          | inr e ↦ rw e (omega arith, n)
        ]

  pause-state :
      (receivers : Bool) (s : Shared T) → s.state ≢ running → (pause receivers s).state ≡ s.state
  unfolding pause
  pause-state receivers s n = still s.state refl
    where
      still :
          (state : QueueState)
          → s.state ≡ state
          → (if is_running s.state then log was_paused (send_state receivers paused s) else s).state
            ≡ s.state
      still running e = absurd (n e)
      still paused e = rw (ap is_running e) refl
      still shutdown e = rw (ap is_running e) refl

  send_state-shutdown :
      (receivers : Bool) (s : Shared T)
      → s.state ≢ running
      → (send_state receivers shutdown s).state ≢ running
  unfolding send_state
  send_state-shutdown true s n = λ e. cc
  send_state-shutdown false s n = n

  abbrev pub is_resume : Action T → Bool
  is_resume resumes = true
  is_resume (polls i p) = false
  is_resume (aborts i) = false
  is_resume (pushes v) = false
  is_resume pauses = false
  is_resume shuts_down = false
  is_resume leave = false
  is_resume drops = false

  step-Bounded :
      (q : Queue T) (action : Action T)
      → is_resume action ≡ false
      → IsValid q
      → q.shared.state ≢ running
      → Bounded q (step q action)
  unfolding step shut_down log
  step-Bounded q (polls i p) r h n = poll_at-Bounded q i p (get_elem? q.workers i) refl h n
  step-Bounded q (aborts i) r h n = abort_at-Bounded q i (get_elem? q.workers i) refl n
  step-Bounded q (pushes v) r h n = push-Bounded q v q.shared.producers_gone n
  step-Bounded q pauses r h n =
      (omega arith, λ e. n (sym (pause-state (has_receiver q.workers) q.shared n) ∙ e))
  step-Bounded q resumes r h n = cc
  step-Bounded q shuts_down r h n =
      (omega arith, send_state-shutdown (has_receiver q.workers) q.shared n)
  step-Bounded q leave r h n = (omega arith, n)
  step-Bounded q drops r h n = (omega arith, n)

  run-Bounded :
      (q : Queue T) (actions : List (Action T))
      → All (λ a. is_resume a ≡ false) actions
      → IsValid q
      → q.shared.state ≢ running
      → Bounded q (run q actions)
  unfolding run
  run-Bounded q [] r h n = (omega arith, n)
  run-Bounded q (action ∷ actions) r h n =
      let s = step q action in
      let first = step-Bounded q action r.0 h n in
      let rest = run-Bounded s.queue actions r.1 (step-IsValid q action h) first.1 in
      (omega (arith, length-append s.begun (run s.queue actions).begun), rest.1)

  -- Once a queue is paused or shut down, the handler is given at most one more message by each worker
  -- that is already between the two branches of its `select!`, or that has received a message and not
  -- yet called the handler with it, as long as the queue is not resumed, whatever else its workers and
  -- callers do.
  pub run-betweens :
      (config : QueueRuntimeConfig) (before after : List (Action T))
      → All (λ a. is_resume a ≡ false) after
      → (run (new config) before).queue.shared.state ≢ running
      → length (run (run (new config) before).queue after).begun
        ≤ betweens (run (new config) before).queue.workers
  run-betweens config before after r n =
      let q = (run (new config) before).queue in
      let bound = run-Bounded q after r (run-IsValid config before) n in omega arith
