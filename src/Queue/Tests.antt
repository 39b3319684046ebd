-- ===== src/Queue/Tests.antt =====
-- Runs of the queue, and the theorems about it at inputs that meet their hypotheses.
use rust_zero.Prelude.{
  ◌%◌, ◌≡◌, ◌≤◌, refl, arith, false, List, [], ◌∷◌, ◌++◌, some, get_elem?, length, ℕ, ◌+◌, total,
}
use rust_zero.Prelude.Results.{ok, err}
use rust_zero.Queue.{
  QueueRuntimeConfig, Worker, Phase, reading, selecting, receiving, returned, Poll, pending, panics,
  answers, paused, shutdown, is_alive, validate,
}
use rust_zero.Queue.Workers.{Queue, Action, polls, pushes, pauses, resumes, shuts_down, run, new}
use rust_zero.Queue.Order.{all_pending, run-accepted}
use rust_zero.Queue.Current.{IsValid, run-IsValid}
use rust_zero.Queue.Pausing.{betweens, run-betweens}
use rust_zero.Queue.Gauge.{IsAccounted, run-IsAccounted}
use rust_zero.Queue.Pushers.{Channel, BalancedPusher, balanced_push, fanout_push}
use rust_zero.Queue.Failover.{IsFirst, balanced_push-IsFirst}
use rust_zero.Queue.Ending.{run-ended}

abbrev config : QueueRuntimeConfig
config = record {
  name = b'q' ∷ [];
  capacity = 4;
  workers = 2;
  event_capacity = 1;
  shutdown_timeout = 1;
}

validate_run : validate (λ t. t) config ≡ ok tt
unfolding validate
validate_run = refl

-- The first worker is between the branches, the second before them, and two messages wait.
abbrev paused_run : List (Action ℕ)
paused_run = pushes 7 ∷ pushes 8 ∷ polls 0 pending ∷ polls 0 pending ∷ polls 1 pending ∷ pauses ∷ []

abbrev later : List (Action ℕ)
later =
    polls 1 (answers (ok tt))
    ∷ polls 0 (answers (ok tt))
    ∷ polls 0 (answers (ok tt))
    ∷ polls 1 panics
    ∷ []

-- Only the first worker starts a message.
only_first : (run (run (new config) paused_run).queue later).begun ≡ 7 ∷ []
unfolding run rust_zero.Queue.Workers.step rust_zero.Queue.Workers.poll_at
    rust_zero.Queue.Workers.push new rust_zero.Queue.start rust_zero.Queue.Workers.pushed
    rust_zero.Queue.try_push rust_zero.Queue.has_receiver rust_zero.Queue.Workers.polled
    rust_zero.Queue.poll_in rust_zero.Queue.read rust_zero.Queue.await_change
    rust_zero.Queue.poll_receiving rust_zero.Queue.receive rust_zero.Queue.pause rust_zero.Queue.log
    rust_zero.Queue.send_state rust_zero.Queue.Workers.abort_at rust_zero.Queue.abort
    rust_zero.Queue.is_paused rust_zero.Queue.outcome rust_zero.Queue.poll_handling
    rust_zero.Queue.resume rust_zero.Queue.shut_down rust_zero.Queue.poll_received
only_first = refl

run-accepted_example :
    ((run (new config) (paused_run ++ later)).accepted
      ≡ (run (new config) (paused_run ++ later)).taken
        ++ (run (new config) (paused_run ++ later)).queue.shared.messages)
    × (total (λ v. v) (run (new config) (paused_run ++ later)).taken
        ≡ total (λ v. v) (run (new config) (paused_run ++ later)).begun
          + all_pending (λ v. v) (run (new config) (paused_run ++ later)).queue.workers)
run-accepted_example = run-accepted config (paused_run ++ later) (λ v. v)

run-IsValid_example : IsValid (run (new config) paused_run).queue
run-IsValid_example = run-IsValid config paused_run

paused_run_state : (run (new config) paused_run).queue.shared.state ≡ paused
unfolding run rust_zero.Queue.Workers.step rust_zero.Queue.Workers.poll_at
    rust_zero.Queue.Workers.push new rust_zero.Queue.start rust_zero.Queue.Workers.pushed
    rust_zero.Queue.try_push rust_zero.Queue.has_receiver rust_zero.Queue.Workers.polled
    rust_zero.Queue.poll_in rust_zero.Queue.read rust_zero.Queue.await_change
    rust_zero.Queue.poll_receiving rust_zero.Queue.receive rust_zero.Queue.pause rust_zero.Queue.log
    rust_zero.Queue.send_state rust_zero.Queue.Workers.abort_at rust_zero.Queue.abort
    rust_zero.Queue.is_paused rust_zero.Queue.outcome rust_zero.Queue.poll_handling
    rust_zero.Queue.resume rust_zero.Queue.shut_down
paused_run_state = refl

run-betweens_example :
    length (run (run (new config) paused_run).queue later).begun
    ≤ betweens (run (new config) paused_run).queue.workers
unfolding run
run-betweens_example =
    run-betweens config paused_run later (refl, (refl, (refl, (refl, tt))))
      (λ e. let still = paused_run_state in cc)

run-IsAccounted_example : IsAccounted (run (new config) (paused_run ++ later)).queue
run-IsAccounted_example = run-IsAccounted config (paused_run ++ later)

-- The first worker starts a message after the shutdown and then ends.
abbrev shut_run : List (Action ℕ)
shut_run = pushes 7 ∷ polls 0 pending ∷ polls 0 pending ∷ shuts_down ∷ []

abbrev last_turns : List (Action ℕ)
last_turns = polls 0 panics ∷ polls 1 pending ∷ polls 0 (answers (err [])) ∷ polls 0 panics ∷ []

run-ended_example :
    (w' : Worker ℕ) × (get_elem? (run (run (new config) shut_run).queue last_turns).queue.workers 0
      ≡ some w')
    × (is_alive w'.phase ≡ false)
unfolding run rust_zero.Queue.Workers.step rust_zero.Queue.shut_down rust_zero.Queue.log
    rust_zero.Queue.send_state rust_zero.Queue.has_receiver rust_zero.Queue.Workers.poll_at
    rust_zero.Queue.Workers.push new rust_zero.Queue.start rust_zero.Queue.Workers.pushed
    rust_zero.Queue.Workers.polled rust_zero.Queue.poll_in rust_zero.Queue.read
    rust_zero.Queue.try_push rust_zero.Queue.await_change
run-ended_example =
    run-ended config shut_run last_turns 0 (record { phase = receiving; seen = 0 }) refl refl
      (omega arith)

-- The producer whose turn it is is full, the next one is not.
abbrev producers : List (Channel ℕ)
producers =
    record { capacity = 2; messages = []; closed = false }
    ∷ record { capacity = 1; messages = 5 ∷ []; closed = false }
    ∷ []

failover_run :
    (balanced_push (record { next = 3 }) producers 6).1
    ≡ ok (
      0,
      record { capacity = 2; messages = 6 ∷ []; closed = false }
          ∷ record { capacity = 1; messages = 5 ∷ []; closed = false }
          ∷ [],
    )
unfolding balanced_push rust_zero.Queue.Pushers.push_from rust_zero.Queue.Pushers.try_push_at
    rust_zero.Queue.Pushers.accepts
failover_run = refl

fanout_run : fanout_push producers 6 ≡ (
  1 ∷ [],
  record { capacity = 2; messages = 6 ∷ []; closed = false }
      ∷ record { capacity = 1; messages = 5 ∷ []; closed = false }
      ∷ [],
)
unfolding fanout_push rust_zero.Queue.Pushers.fanout_from rust_zero.Queue.Pushers.accepts
fanout_run = refl

balanced_push-IsFirst_example :
    IsFirst producers (3 % length producers) 6 (balanced_push (record { next = 3 }) producers 6).1
balanced_push-IsFirst_example =
    balanced_push-IsFirst (record { next = 3 }) producers 6 (omega arith)
