-- ===== src/Queue/Ending.antt =====
-- How the workers of core/src/queue.rs end after a shutdown.
use rust_zero.Prelude.{
  ℕ, ◌-◌, ◌≤◌, ◌≡◌, ◌≢◌, refl, sym, ap, ◌∙◌, subst, arith, Bool, true, false, List, [], ◌∷◌, Option,
  none, some, Bool-cases, inl, inr, if◌then◌else◌, ◌&&◌, ◌==◌, ==_iff, length, ltb, get_elem?, set,
  total, All-get_elem?, get_elem?-set_self, get_elem?-set_other,
}
use rust_zero.Queue.{
  Shared, Worker, Poll, shutdown, poll_in, send_state, log, pause, resume, shut_down, try_push,
  has_receiver, is_paused, is_running, is_alive, QueueRuntimeConfig, abort,
}
use rust_zero.Prelude.{some-injective}
use rust_zero.Queue.Workers.{
  Queue, Action, polls, aborts, pushes, pauses, resumes, shuts_down, leave, drops, polled, poll_at,
  abort_at, pushed, push, step, run, new,
}
use rust_zero.Queue.Current.{IsCurrent, IsValid, poll_in-Stays, step-IsValid, run-IsValid}
use rust_zero.Queue.Rank.{is_done, rank, poll_in-Falls, abort-rank, rank-zero, rank-le}

module _ {T : Type 0} where
  -- The polls of a worker at which its handler is done.
  abbrev pub turns : ℕ → Action T → ℕ
  turns i (polls j p) = if j == i then is_done p else 0
  turns i (aborts j) = 0
  turns i (pushes v) = 0
  turns i pauses = 0
  turns i resumes = 0
  turns i shuts_down = 0
  turns i leave = 0
  turns i drops = 0

  abbrev pub all_turns : ℕ → List (Action T) → ℕ
  all_turns i = total (turns i)

  -- What a step makes of a worker, once the queue is shut down.
  abbrev Nears : ℕ → ℕ → Worker T → Queue T → Type 0
  Nears i n w q =
      (q.shared.state ≡ shutdown)
      × ((w' : Worker T) × (get_elem? q.workers i ≡ some w') × (rank w'.phase ≤ rank w.phase - n))

  stays-Nears :
      (i : ℕ) (w : Worker T) (q : Queue T)
      → q.shared.state ≡ shutdown
      → get_elem? q.workers i ≡ some w
      → Nears i 0 w q
  stays-Nears i w q d e = (d, (w, e, omega arith))

  poll_at-Nears :
      (q : Queue T) (i j : ℕ) (p : Poll) (w : Worker T) (o : Option (Worker T))
      → get_elem? q.workers j ≡ o
      → IsValid q
      → q.shared.state ≡ shutdown
      → get_elem? q.workers i ≡ some w
      → Nears i (if j == i then is_done p else 0) w (poll_at q j p o).queue
  unfolding poll_at polled
  poll_at-Nears q i j p w none o h d e = elim (Bool-cases (j == i)) [
    | inl s ↦ let same = ap (get_elem? q.workers) ((==_iff j i).0 s) in cc
    | inr s ↦ rw s (stays-Nears i w q d e)
  ]
  poll_at-Nears q i j p w (some v) o h d e =
      let current = All-get_elem? (IsCurrent q.shared.state q.shared.version) q.workers j h o in
      let made = poll_in j p q.shared v.seen v.phase in
      let stays = poll_in-Stays j p q.shared v.seen v.phase current.0 current.1 in
      let falls = poll_in-Falls j p q.shared v.seen v.phase d current.1 in
      elim (Bool-cases (j == i)) [
        | inl s ↦
            let at_i = (==_iff j i).0 s in
            let same : v ≡ w = some-injective (sym o ∙ ap (get_elem? q.workers) at_i ∙ e) in
            rw s (
              stays.0 ∙ d,
              (
                made.1,
                subst (λ k. get_elem? (set q.workers j made.1) k ≡ some made.1) at_i
                    (get_elem?-set_self q.workers j made.1 o),
                subst (λ u. rank made.1.phase ≤ rank u.phase - is_done p) same falls,
              ),
            )
        | inr s ↦
            let apart : j ≢ i = λ k. let true_too = (==_iff j i).1 k in cc in
            rw s (stays.0 ∙ d, (w, get_elem?-set_other q.workers j i made.1 apart ∙ e, omega arith))
      ]

  abort_at-Nears :
      (q : Queue T) (i j : ℕ) (w : Worker T) (o : Option (Worker T))
      → get_elem? q.workers j ≡ o
      → q.shared.state ≡ shutdown
      → get_elem? q.workers i ≡ some w
      → Nears i 0 w (abort_at q j o).queue
  unfolding abort_at
  abort_at-Nears q i j w none o d e = stays-Nears i w q d e
  abort_at-Nears q i j w (some v) o d e =
      let made : Worker T = record { phase = abort v.phase; seen = v.seen } in
      elim (Bool-cases (j == i)) [
        | inl s ↦
            let at_i = (==_iff j i).0 s in
            let same : v ≡ w = some-injective (sym o ∙ ap (get_elem? q.workers) at_i ∙ e) in
            let lower = subst (λ u. rank made.phase ≤ rank u.phase) same (abort-rank v.phase) in
            (
              d,
              (
                made,
                subst (λ k. get_elem? (set q.workers j made) k ≡ some made) at_i
                    (get_elem?-set_self q.workers j made o),
                omega arith,
              ),
            )
        | inr s ↦
            let apart : j ≢ i = λ k. let true_too = (==_iff j i).1 k in cc in
            (d, (w, get_elem?-set_other q.workers j i made apart ∙ e, omega arith))
      ]

  push-Nears :
      (q : Queue T) (i : ℕ) (v : T) (w : Worker T) (gone : Bool)
      → q.shared.state ≡ shutdown
      → get_elem? q.workers i ≡ some w
      → Nears i 0 w (push q v gone).queue
  unfolding push pushed try_push
  push-Nears q i v w true d e = stays-Nears i w q d e
  push-Nears q i v w false d e =
      elim (Bool-cases
        (has_receiver q.workers && ltb (length q.shared.messages) q.shared.capacity)) [
          | inl t ↦ rw t (stays-Nears i w q d e)
          | inr t ↦ rw t (stays-Nears i w q d e)
        ]

  -- A queue that is shut down stays so.
  pause-shutdown :
      (receivers : Bool) (s : Shared T) → s.state ≡ shutdown → (pause receivers s).state ≡ shutdown
  unfolding pause
  pause-shutdown receivers s d = rw (ap is_running d) d

  resume-shutdown :
      (receivers : Bool) (s : Shared T) → s.state ≡ shutdown → (resume receivers s).state ≡ shutdown
  unfolding resume is_paused
  resume-shutdown receivers s d = let still : is_paused s ≡ false = rw d refl in rw still d

  send_state-shutdown :
      (receivers : Bool) (s : Shared T)
      → s.state ≡ shutdown
      → (send_state receivers shutdown s).state ≡ shutdown
  unfolding send_state
  send_state-shutdown true s d = refl
  send_state-shutdown false s d = d

  step-Nears :
      (q : Queue T) (i : ℕ) (w : Worker T) (action : Action T)
      → IsValid q
      → q.shared.state ≡ shutdown
      → get_elem? q.workers i ≡ some w
      → Nears i (turns i action) w (step q action).queue
  unfolding step shut_down log
  step-Nears q i w (polls j p) h d e = poll_at-Nears q i j p w (get_elem? q.workers j) refl h d e
  step-Nears q i w (aborts j) h d e = abort_at-Nears q i j w (get_elem? q.workers j) refl d e
  step-Nears q i w (pushes v) h d e = push-Nears q i v w q.shared.producers_gone d e
  step-Nears q i w pauses h d e =
      (pause-shutdown (has_receiver q.workers) q.shared d, (w, e, omega arith))
  step-Nears q i w resumes h d e =
      (resume-shutdown (has_receiver q.workers) q.shared d, (w, e, omega arith))
  step-Nears q i w shuts_down h d e =
      (send_state-shutdown (has_receiver q.workers) q.shared d, (w, e, omega arith))
  step-Nears q i w leave h d e = stays-Nears i w q d e
  step-Nears q i w drops h d e = stays-Nears i w q d e

  run-Nears :
      (q : Queue T) (i : ℕ) (w : Worker T) (actions : List (Action T))
      → IsValid q
      → q.shared.state ≡ shutdown
      → get_elem? q.workers i ≡ some w
      → Nears i (all_turns i actions) w (run q actions).queue
  unfolding run
  run-Nears q i w [] h d e = stays-Nears i w q d e
  run-Nears q i w (action ∷ actions) h d e =
      let (d', (w', e', near)) = step-Nears q i w action h d e in
      let (d'', (w'', e'', nearer)) =
        run-Nears (step q action).queue i w' actions (step-IsValid q action h) d' e' in
      (d'', (w'', e'', omega arith))

  -- Once a queue is shut down, a worker has ended after three more of its polls at which the handler,
  -- if it runs, is done, whatever comes between them and however many messages are in the channel.
  pub run-ended :
      (config : QueueRuntimeConfig) (before after : List (Action T)) (i : ℕ) (w : Worker T)
      → (run (new config) before).queue.shared.state ≡ shutdown
      → get_elem? (run (new config) before).queue.workers i ≡ some w
      → 3 ≤ all_turns i after
      → (w' : Worker T) × (get_elem? (run (run (new config) before).queue after).queue.workers i
          ≡ some w')
        × (is_alive w'.phase ≡ false)
  run-ended config before after i w d e n =
      let (d', (w', e', near)) =
        run-Nears (run (new config) before).queue i w after (run-IsValid config before) d e in
      (w', e', rank-zero w'.phase (omega (arith, rank-le w.phase)))
