-- ===== src/Queue/Workers.antt =====
-- The tasks of core/src/queue.rs in any order: polls of the workers between calls of the producers and
-- of the handle.
use rust_zero.Prelude.{
  ℕ, Bool, true, false, List, [], ◌∷◌, ◌++◌, Option, none, some, if◌then◌else◌, get_elem?, set,
}
use rust_zero.Queue.{
  QueueRuntimeConfig, Shared, Worker, Poll, Polled, poll_in, abort, has_receiver, pause, resume,
  shut_down, try_push, start,
}

pub record Queue (T : Type 0) : Type 0 where
  pub shared : Shared T
  pub workers : List (Worker T)

-- A poll of a worker, its abort, a call of a producer or of the handle, and the end of all producers
-- and of the handle.
pub data Action (T : Type 0) : Type 0 where
  polls : ℕ → Poll → Action T
  aborts : ℕ → Action T
  pushes : T → Action T
  pauses resumes shuts_down leave drops : Action T

-- A step with the messages that the channel accepts, those that workers receive, and those that they
-- call the handler with.
pub record Stepped (T : Type 0) : Type 0 where
  pub queue : Queue T
  pub accepted : List T
  pub taken : List T
  pub begun : List T

module _ {T : Type 0} where
  abbrev quiet : Queue T → Stepped T
  quiet q = record { queue = q; accepted = []; taken = []; begun = [] }

  unfoldable pub polled : List (Worker T) → ℕ → Polled T → Stepped T
  polled workers i (s, w, taken, begun) = record {
    queue = record { shared = s; workers = set workers i w };
    accepted = [];
    taken = taken;
    begun = begun;
  }

  unfoldable pub poll_at : Queue T → ℕ → Poll → Option (Worker T) → Stepped T
  poll_at q i p none = quiet q
  poll_at q i p (some w) = polled q.workers i (poll_in i p q.shared w.seen w.phase)

  unfoldable pub abort_at : Queue T → ℕ → Option (Worker T) → Stepped T
  abort_at q i none = quiet q
  abort_at q i (some w) =
      quiet
        (record q { workers = set q.workers i (record { phase = abort w.phase; seen = w.seen }) })

  unfoldable pub pushed : Queue T → T → Shared T × Bool → Stepped T
  pushed q v (s, accepted) = record {
    queue = record q { shared = s };
    accepted = if accepted then v ∷ [] else [];
    taken = [];
    begun = [];
  }

  unfoldable pub push : Queue T → T → Bool → Stepped T
  push q v true = quiet q
  push q v false = pushed q v (try_push (has_receiver q.workers) v q.shared)

  unfoldable pub step : Queue T → Action T → Stepped T
  step q (polls i p) = poll_at q i p (get_elem? q.workers i)
  step q (aborts i) = abort_at q i (get_elem? q.workers i)
  step q (pushes v) = push q v q.shared.producers_gone
  step q pauses = quiet (record q { shared = pause (has_receiver q.workers) q.shared })
  step q resumes = quiet (record q { shared = resume (has_receiver q.workers) q.shared })
  step q shuts_down = quiet (record q { shared = shut_down (has_receiver q.workers) q.shared })
  step q leave = quiet (record q { shared = record q.shared { producers_gone = true } })
  step q drops = quiet (record q { shared = record q.shared { handle_gone = true } })

  abbrev pub and_then : Stepped T → Stepped T → Stepped T
  and_then a b = record {
    queue = b.queue;
    accepted = a.accepted ++ b.accepted;
    taken = a.taken ++ b.taken;
    begun = a.begun ++ b.begun;
  }

  unfoldable pub run : Queue T → List (Action T) → Stepped T
  run q [] = quiet q
  run q (action ∷ actions) =
      let stepped = step q action in and_then stepped (run stepped.queue actions)

  unfoldable pub new : QueueRuntimeConfig → Queue T
  new config = let (s, workers) = start config in record { shared = s; workers = workers }
