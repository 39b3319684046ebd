-- ===== src/Queue/Order.antt =====
-- The order of the messages of core/src/queue.rs.
use rust_zero.Prelude.{
  ◌≡◌, refl, sym, ap, ◌∙◌, Bool, true, false, List, [], ◌∷◌, ◌++◌, Option, none, some, Bool-cases,
  inl, inr, ◌&&◌, length, ltb, ℕ, get_elem?, ◌+◌, ◌==◌, arith, total, total-set, total-append,
  total-replicate,
}
use mathlib.Core.List.{append_assoc, append-nil}
use rust_zero.Queue.{
  Shared, Worker, Phase, reading, parked, selecting, receiving, returned, received, handling, lost,
  Poll, pending, panics, answers, running, paused, shutdown, Polled, receive, poll_receiving,
  poll_handling, begin, poll_received, poll_in, send_state, log, pause, resume, shut_down, try_push,
  has_receiver, is_paused, is_running, QueueState, QueueRuntimeConfig, await_change, read, abort,
}
use rust_zero.Queue.Workers.{
  Queue, Action, polls, aborts, pushes, pauses, resumes, shuts_down, leave, drops, Stepped, polled,
  poll_at, abort_at, pushed, push, step, run, new,
}

module _ {T : Type 0} where
  abbrev Continues : List T → Polled T → Type 0
  Continues messages (s, w, taken, begun) = messages ≡ taken ++ s.messages

  receive-Continues :
      (i : ℕ) (s : Shared T) (seen : ℕ) (messages : List T)
      → s.messages ≡ messages
      → Continues s.messages (receive i s seen messages)
  unfolding receive
  receive-Continues i s seen [] e = refl
  receive-Continues i s seen (v ∷ messages) e = e

  poll_in-Continues :
      (i : ℕ) (p : Poll) (s : Shared T) (seen : ℕ) (phase : Phase T)
      → Continues s.messages (poll_in i p s seen phase)
  unfolding poll_in poll_receiving poll_handling poll_received begin
  poll_in-Continues i p s seen reading = refl
  poll_in-Continues i p s seen parked = refl
  poll_in-Continues i p s seen selecting = refl
  poll_in-Continues i pending s seen receiving = refl
  poll_in-Continues i panics s seen receiving = receive-Continues i s seen s.messages refl
  poll_in-Continues i (answers r) s seen receiving = receive-Continues i s seen s.messages refl
  poll_in-Continues i pending s seen (received v) = refl
  poll_in-Continues i panics s seen (received v) = refl
  poll_in-Continues i (answers r) s seen (received v) = refl
  poll_in-Continues i pending s seen (handling v) = refl
  poll_in-Continues i panics s seen (handling v) = refl
  poll_in-Continues i (answers r) s seen (handling v) = refl
  poll_in-Continues i p s seen returned = refl
  poll_in-Continues i p s seen (lost v) = refl

  send_state-messages :
      (receivers : Bool) (state : QueueState) (s : Shared T)
      → (send_state receivers state s).messages ≡ s.messages
  unfolding send_state
  send_state-messages true state s = refl
  send_state-messages false state s = refl

  pause-messages : (receivers : Bool) (s : Shared T) → (pause receivers s).messages ≡ s.messages
  unfolding pause log
  pause-messages receivers s = elim (Bool-cases (is_running s.state)) [
    | inl e ↦ rw e (send_state-messages receivers paused s)
    | inr e ↦ rw e refl
  ]

  resume-messages : (receivers : Bool) (s : Shared T) → (resume receivers s).messages ≡ s.messages
  unfolding resume log
  resume-messages receivers s = elim (Bool-cases (is_paused s)) [
    | inl e ↦ rw e (send_state-messages receivers running s)
    | inr e ↦ rw e refl
  ]

  -- What was in the channel and what comes in is what is received and what stays, in that order.
  abbrev pub IsOrdered : Queue T → Stepped T → Type 0
  IsOrdered q r = q.shared.messages ++ r.accepted ≡ r.taken ++ r.queue.shared.messages

  poll_at-IsOrdered :
      (q : Queue T) (i : ℕ) (p : Poll) (o : Option (Worker T)) → IsOrdered q (poll_at q i p o)
  unfolding poll_at polled
  poll_at-IsOrdered q i p none = append-nil q.shared.messages
  poll_at-IsOrdered q i p (some w) =
      append-nil q.shared.messages ∙ poll_in-Continues i p q.shared w.seen w.phase

  abort_at-IsOrdered : (q : Queue T) (i : ℕ) (o : Option (Worker T)) → IsOrdered q (abort_at q i o)
  unfolding abort_at
  abort_at-IsOrdered q i none = append-nil q.shared.messages
  abort_at-IsOrdered q i (some w) = append-nil q.shared.messages

  push-IsOrdered : (q : Queue T) (v : T) (gone : Bool) → IsOrdered q (push q v gone)
  unfolding push pushed try_push
  push-IsOrdered q v true = append-nil q.shared.messages
  push-IsOrdered q v false =
      elim (Bool-cases
        (has_receiver q.workers && ltb (length q.shared.messages) q.shared.capacity)) [
          | inl e ↦ rw e refl
          | inr e ↦ rw e (append-nil q.shared.messages)
        ]

  step-IsOrdered : (q : Queue T) (action : Action T) → IsOrdered q (step q action)
  unfolding step shut_down log
  step-IsOrdered q (polls i p) = poll_at-IsOrdered q i p (get_elem? q.workers i)
  step-IsOrdered q (aborts i) = abort_at-IsOrdered q i (get_elem? q.workers i)
  step-IsOrdered q (pushes v) = push-IsOrdered q v q.shared.producers_gone
  step-IsOrdered q pauses =
      append-nil q.shared.messages ∙ sym (pause-messages (has_receiver q.workers) q.shared)
  step-IsOrdered q resumes =
      append-nil q.shared.messages ∙ sym (resume-messages (has_receiver q.workers) q.shared)
  step-IsOrdered q shuts_down =
      append-nil q.shared.messages
      ∙ sym (send_state-messages (has_receiver q.workers) shutdown q.shared)
  step-IsOrdered q leave = append-nil q.shared.messages
  step-IsOrdered q drops = append-nil q.shared.messages

  run-IsOrdered : (q : Queue T) (actions : List (Action T)) → IsOrdered q (run q actions)
  unfolding run
  run-IsOrdered q [] = append-nil q.shared.messages
  run-IsOrdered q (action ∷ actions) =
      let s = step q action in
      let r = run s.queue actions in
      sym (append_assoc q.shared.messages s.accepted r.accepted)
      ∙ ap (λ k. k ++ r.accepted) (step-IsOrdered q action)
      ∙ append_assoc s.taken s.queue.shared.messages r.accepted
      ∙ ap (λ k. s.taken ++ k) (run-IsOrdered s.queue actions)
      ∙ sym (append_assoc s.taken r.taken r.queue.shared.messages)

  -- What the workers have received and not yet called the handler with, by a number for each message.
  abbrev pub pending_of : (T → ℕ) → Phase T → ℕ
  pending_of f (received v) = f v
  pending_of f reading = 0
  pending_of f parked = 0
  pending_of f selecting = 0
  pending_of f receiving = 0
  pending_of f returned = 0
  pending_of f (handling v) = 0
  pending_of f (lost v) = 0

  abbrev pub all_pending : (T → ℕ) → List (Worker T) → ℕ
  all_pending f = total (λ w. pending_of f w.phase)

  abbrev Passes : (T → ℕ) → Phase T → Polled T → Type 0
  Passes f phase (s, w, taken, begun) =
      pending_of f phase + total f taken ≡ total f begun + pending_of f w.phase

  await_change-pending :
      (f : T → ℕ) (s : Shared T) (seen : ℕ) (other : Phase T)
      → pending_of f other ≡ 0
      → pending_of f (await_change s seen other).phase ≡ 0
  unfolding await_change
  await_change-pending f s seen other h = elim (Bool-cases (s.version == seen)) [
    | inl e ↦ rw e (elim (Bool-cases s.handle_gone) [ inl g ↦ rw g refl | inr g ↦ rw g h ])
    | inr e ↦ rw e refl
  ]

  read-pending :
      (f : T → ℕ) (state : QueueState) (phase : Phase T)
      → phase ≡ read state
      → pending_of f phase ≡ 0
  unfolding read
  read-pending f running phase e = ap (pending_of f) e
  read-pending f paused phase e = ap (pending_of f) e
  read-pending f shutdown phase e = ap (pending_of f) e

  receive-Passes :
      (f : T → ℕ) (i : ℕ) (s : Shared T) (seen : ℕ) (messages : List T)
      → Passes f receiving (receive i s seen messages)
  unfolding receive
  receive-Passes f i s seen [] = elim (Bool-cases s.producers_gone) [
    | inl e ↦ rw e (omega arith)
    | inr e ↦ rw e (omega arith)
  ]
  receive-Passes f i s seen (v ∷ messages) = omega arith

  poll_in-Passes :
      (f : T → ℕ) (i : ℕ) (p : Poll) (s : Shared T) (seen : ℕ) (phase : Phase T)
      → Passes f phase (poll_in i p s seen phase)
  unfolding poll_in poll_receiving poll_handling poll_received begin
  poll_in-Passes f i p s seen reading = omega (arith, read-pending f s.state (read s.state) refl)
  poll_in-Passes f i p s seen parked = omega (arith, await_change-pending f s seen parked refl)
  poll_in-Passes f i p s seen selecting =
      omega (arith, await_change-pending f s seen receiving refl)
  poll_in-Passes f i pending s seen receiving = omega arith
  poll_in-Passes f i panics s seen receiving = receive-Passes f i s seen s.messages
  poll_in-Passes f i (answers r) s seen receiving = receive-Passes f i s seen s.messages
  poll_in-Passes f i pending s seen (received v) = omega arith
  poll_in-Passes f i panics s seen (received v) = omega arith
  poll_in-Passes f i (answers r) s seen (received v) = omega arith
  poll_in-Passes f i pending s seen (handling v) = omega arith
  poll_in-Passes f i panics s seen (handling v) = omega arith
  poll_in-Passes f i (answers r) s seen (handling v) = omega arith
  poll_in-Passes f i p s seen returned = omega arith
  poll_in-Passes f i p s seen (lost v) = omega arith

  abbrev IsPassed : (T → ℕ) → Queue T → Stepped T → Type 0
  IsPassed f q r =
      all_pending f q.workers + total f r.taken ≡ total f r.begun + all_pending f r.queue.workers

  poll_at-IsPassed :
      (f : T → ℕ) (q : Queue T) (i : ℕ) (p : Poll) (o : Option (Worker T))
      → get_elem? q.workers i ≡ o
      → IsPassed f q (poll_at q i p o)
  unfolding poll_at polled
  poll_at-IsPassed f q i p none e = omega arith
  poll_at-IsPassed f q i p (some w) e =
      let made = poll_in i p q.shared w.seen w.phase in
      let passed = poll_in-Passes f i p q.shared w.seen w.phase in
      let counted = total-set (λ w. pending_of f w.phase) q.workers i made.1 e in omega arith

  abort-pending : (f : T → ℕ) (phase : Phase T) → pending_of f (abort phase) ≡ pending_of f phase
  unfolding abort
  abort-pending f reading = refl
  abort-pending f parked = refl
  abort-pending f selecting = refl
  abort-pending f receiving = refl
  abort-pending f returned = refl
  abort-pending f (received v) = refl
  abort-pending f (handling v) = refl
  abort-pending f (lost v) = refl

  abort_at-IsPassed :
      (f : T → ℕ) (q : Queue T) (i : ℕ) (o : Option (Worker T))
      → get_elem? q.workers i ≡ o
      → IsPassed f q (abort_at q i o)
  unfolding abort_at
  abort_at-IsPassed f q i none e = omega arith
  abort_at-IsPassed f q i (some w) e =
      let counted =
        total-set (λ w. pending_of f w.phase) q.workers i
          (record { phase = abort w.phase; seen = w.seen }) e in
      let same = abort-pending f w.phase in omega arith

  push-IsPassed : (f : T → ℕ) (q : Queue T) (v : T) (gone : Bool) → IsPassed f q (push q v gone)
  unfolding push pushed
  push-IsPassed f q v true = omega arith
  push-IsPassed f q v false = omega arith

  step-IsPassed : (f : T → ℕ) (q : Queue T) (action : Action T) → IsPassed f q (step q action)
  unfolding step
  step-IsPassed f q (polls i p) = poll_at-IsPassed f q i p (get_elem? q.workers i) refl
  step-IsPassed f q (aborts i) = abort_at-IsPassed f q i (get_elem? q.workers i) refl
  step-IsPassed f q (pushes v) = push-IsPassed f q v q.shared.producers_gone
  step-IsPassed f q pauses = omega arith
  step-IsPassed f q resumes = omega arith
  step-IsPassed f q shuts_down = omega arith
  step-IsPassed f q leave = omega arith
  step-IsPassed f q drops = omega arith

  run-IsPassed :
      (f : T → ℕ) (q : Queue T) (actions : List (Action T)) → IsPassed f q (run q actions)
  unfolding run
  run-IsPassed f q [] = omega arith
  run-IsPassed f q (action ∷ actions) =
      let s = step q action in
      let r = run s.queue actions in
      omega (
        arith,
        step-IsPassed f q action,
        run-IsPassed f s.queue actions,
        total-append f s.taken r.taken,
        total-append f s.begun r.begun,
      )

  -- From the start of a queue on, whatever its workers and callers do, the messages that it accepted are
  -- those that workers have received, in the order in which they were accepted, and then those that are
  -- still in the channel; and each message that was received has gone to the handler once, or its
  -- worker is about to call the handler with it: for every number that one gives to messages, the
  -- sum over those received is the sum over both of these. So none is lost before the handler or
  -- given to it twice, though two workers may call it in another order than they received.
  pub run-accepted :
      (config : QueueRuntimeConfig) (actions : List (Action T)) (f : T → ℕ)
      → ((run (new config) actions).accepted
          ≡ (run (new config) actions).taken ++ (run (new config) actions).queue.shared.messages)
        × (total f (run (new config) actions).taken
            ≡ total f (run (new config) actions).begun
              + all_pending f (run (new config) actions).queue.workers)
  unfolding new rust_zero.Queue.start
  run-accepted config actions f =
      let idle =
        total-replicate {A = Worker T} (λ w. pending_of f w.phase) config.workers
          (record { phase = reading; seen = 0 }) refl in
      (run-IsOrdered (new config) actions, omega (arith, run-IsPassed f (new config) actions))
