-- ===== src/Queue.antt =====
-- core/src/queue.rs: a queue with its workers. A worker goes from one poll of its task to the next: it
-- reads the state, waits for a change, polls the two branches of `select!` one after the other, calls
-- the handler for the message that it has received, and polls the future of the handler. What other
-- threads do comes between any two of these, also between a `recv` and the call of the handler. The times of the
-- events are left out, and `pause`, `resume` and `shutdown` are one step each.
pub mod Workers
pub mod Order
pub mod Current
pub mod Pausing
pub mod Gauge
pub mod Rank
pub mod Ending
pub mod Pushers
pub mod Failover
mod Tests
use rust_zero.Prelude.{
  ℕ, zero, suc, ◌+◌, ◌-◌, Bool, true, false, not, ◌&&◌, List, [], ◌∷◌, ◌++◌, Option, none, some,
  ltb, ◌==◌, if◌then◌else◌, length, get_elem?, set, replicate,
}
use rust_zero.Prelude.Results.{Result, ok, err, ◌>>?◌, unless}
use rust_zero.Prelude.Texts.{Text, is_empty}

pub record QueueRuntimeConfig : Type 0 where
  pub name : Text
  pub capacity : ℕ
  pub workers : ℕ
  pub event_capacity : ℕ
  pub shutdown_timeout : ℕ

pub data QueueConfigError : Type 0 where
  empty_name zero_capacity zero_workers zero_event_capacity zero_shutdown_timeout : QueueConfigError

-- `str::trim` is an argument.
unfoldable pub validate : (Text → Text) → QueueRuntimeConfig → Result QueueConfigError Unit
validate trim config = unless (is_empty (trim config.name)) empty_name >>? λ u.
    unless (config.capacity == 0) zero_capacity >>? λ u.
    unless (config.workers == 0) zero_workers >>? λ u.
    unless (config.event_capacity == 0) zero_event_capacity >>? λ u.
    unless (config.shutdown_timeout == 0) zero_shutdown_timeout

pub data QueueState : Type 0 where
  running paused shutdown : QueueState

pub data QueueEvent : Type 0 where
  queued : QueueEvent
  started succeeded : ℕ → QueueEvent
  failed : ℕ → Text → QueueEvent
  was_paused was_resumed was_shutdown : QueueEvent

-- What the tasks share: the `watch` channel of the state with its version, the channel of the
-- messages, the gauge of the messages that are processed, and the events, the last one first.
pub record Shared (T : Type 0) : Type 0 where
  pub state : QueueState
  pub version : ℕ
  pub handle_gone : Bool
  pub capacity : ℕ
  pub messages : List T
  pub producers_gone : Bool
  pub inflight : ℕ
  pub events : List QueueEvent

-- Where a worker stands: before it reads the state, in `changed` while the queue is paused, before the
-- first and before the second branch of `select!`, with a message but before the call of the handler, in
-- the handler, and at its end, which a panic or an abort in the handler may bring about.
pub data Phase (T : Type 0) : Type 0 where
  reading parked selecting receiving returned : Phase T
  received handling lost : T → Phase T

-- `seen` is the version that `changed` compares.
pub record Worker (T : Type 0) : Type 0 where
  pub phase : Phase T
  pub seen : ℕ

-- What a poll finds: the lock of the receiver or the handler may be pending, and the handler panics or
-- gives its result.
pub data Poll : Type 0 where
  pending panics : Poll
  answers : Result Text Unit → Poll

-- The event of a result.
unfoldable pub outcome : ℕ → Result Text Unit → QueueEvent
outcome worker (ok u) = succeeded worker
outcome worker (err message) = failed worker message

abbrev pub is_running : QueueState → Bool
is_running running = true
is_running paused = false
is_running shutdown = false

-- What a poll makes: the shared state, the worker, the message that it receives, and the message that
-- it calls the handler with.
abbrev pub Polled : Type 0 → Type 0
Polled T = Shared T × Worker T × List T × List T

module _ {T : Type 0} where
  unfoldable pub read : QueueState → Phase T
  read running = selecting
  read paused = parked
  read shutdown = returned

  -- `changed`, which goes on to `other` where nothing has.
  unfoldable pub await_change : Shared T → ℕ → Phase T → Worker T
  await_change s seen other =
      if s.version == seen
      then record { phase = if s.handle_gone then returned else other; seen = seen }
      else record { phase = reading; seen = s.version }

  -- `recv`, with the lock taken.
  unfoldable pub receive : ℕ → Shared T → ℕ → List T → Polled T
  receive worker s seen [] =
      (s, record { phase = if s.producers_gone then returned else selecting; seen = seen }, [], [])
  receive worker s seen (v ∷ messages) =
      (record s { messages = messages }, record { phase = received v; seen = seen }, v ∷ [], [])

  unfoldable pub poll_receiving : ℕ → Poll → Shared T → ℕ → Polled T
  poll_receiving worker pending s seen = (s, record { phase = selecting; seen = seen }, [], [])
  poll_receiving worker panics s seen = receive worker s seen s.messages
  poll_receiving worker (answers r) s seen = receive worker s seen s.messages

  unfoldable pub poll_handling : ℕ → Poll → Shared T → ℕ → T → Polled T
  poll_handling worker pending s seen v = (s, record { phase = handling v; seen = seen }, [], [])
  poll_handling worker panics s seen v = (s, record { phase = lost v; seen = seen }, [], [])
  poll_handling worker (answers r) s seen v = (
    record s { inflight = s.inflight - 1; events = outcome worker r ∷ s.events },
    record { phase = reading; seen = seen },
    [],
    [],
  )

  -- From the event on, up to the call of the handler.
  unfoldable pub begin : ℕ → Shared T → Shared T
  begin worker s = record s { inflight = s.inflight + 1; events = started worker ∷ s.events }

  -- With the first poll of the handler, which follows its call.
  unfoldable pub poll_received : ℕ → Poll → Shared T → ℕ → T → Polled T
  poll_received worker p s seen v =
      let (s', w, taken, begun) = poll_handling worker p (begin worker s) seen v in
      (s', w, taken, v ∷ begun)

  -- A poll of `worker_loop`.
  unfoldable pub poll_in : ℕ → Poll → Shared T → ℕ → Phase T → Polled T
  poll_in worker p s seen reading = (s, record { phase = read s.state; seen = seen }, [], [])
  poll_in worker p s seen parked = (s, await_change s seen parked, [], [])
  poll_in worker p s seen selecting = (s, await_change s seen receiving, [], [])
  poll_in worker p s seen receiving = poll_receiving worker p s seen
  poll_in worker p s seen (received v) = poll_received worker p s seen v
  poll_in worker p s seen (handling v) = poll_handling worker p s seen v
  poll_in worker p s seen returned = (s, record { phase = returned; seen = seen }, [], [])
  poll_in worker p s seen (lost v) = (s, record { phase = lost v; seen = seen }, [], [])

  -- `abort_all`, for one task, which ends at its next `await`; a task that has received a message has
  -- none before the call of the handler.
  unfoldable pub abort : Phase T → Phase T
  abort reading = returned
  abort parked = returned
  abort selecting = returned
  abort receiving = returned
  abort returned = returned
  abort (received v) = received v
  abort (handling v) = lost v
  abort (lost v) = lost v

  abbrev pub is_alive : Phase T → Bool
  is_alive returned = false
  is_alive (lost v) = false
  is_alive reading = true
  is_alive parked = true
  is_alive selecting = true
  is_alive receiving = true
  is_alive (received v) = true
  is_alive (handling v) = true

  -- Some worker still has the receivers of the two channels.
  unfoldable pub has_receiver : List (Worker T) → Bool
  has_receiver [] = false
  has_receiver (w ∷ workers) = if is_alive w.phase then true else has_receiver workers

  -- `watch::Sender::send`, which changes nothing when no receiver is left.
  unfoldable pub send_state : Bool → QueueState → Shared T → Shared T
  send_state receivers state s =
      if receivers then record s { state = state; version = s.version + 1 } else s

  unfoldable pub log : QueueEvent → Shared T → Shared T
  log event s = record s { events = event ∷ s.events }

  unfoldable pub is_paused : Shared T → Bool
  is_paused s = elim s.state [ running ↦ false | paused ↦ true | shutdown ↦ false ]

  unfoldable pub pause : Bool → Shared T → Shared T
  pause receivers s =
      if is_running s.state then log was_paused (send_state receivers paused s) else s

  unfoldable pub resume : Bool → Shared T → Shared T
  resume receivers s = if is_paused s then log was_resumed (send_state receivers running s) else s

  -- `shutdown` before it waits.
  unfoldable pub shut_down : Bool → Shared T → Shared T
  shut_down receivers s = log was_shutdown (send_state receivers shutdown s)

  -- `QueueProducer::try_push`, with whether it accepts.
  unfoldable pub try_push : Bool → T → Shared T → Shared T × Bool
  try_push receivers v s =
      if receivers && ltb (length s.messages) s.capacity
      then (record s { messages = s.messages ++ v ∷ []; events = queued ∷ s.events }, true)
      else (s, false)

  -- The tasks and the state that `start_inner` makes.
  unfoldable pub start : QueueRuntimeConfig → Shared T × List (Worker T)
  start config = (
    record {
      state = running;
      version = 0;
      handle_gone = false;
      capacity = config.capacity;
      messages = [];
      producers_gone = false;
      inflight = 0;
      events = [];
    },
    replicate config.workers (record { phase = reading; seen = 0 }),
  )
