-- ===== src/Queue/Rank.antt =====
-- How far a worker of core/src/queue.rs is from its end after a shutdown.
use rust_zero.Prelude.{
  ℕ, ◌-◌, ◌≤◌, ◌≡◌, ◌≢◌, refl, ap, arith, false, List, [], ◌∷◌, Bool-cases, inl, inr, ◌==◌, ==_iff,
}
use rust_zero.Queue.{
  Shared, Phase, reading, parked, selecting, receiving, returned, received, handling, lost, Poll,
  pending, panics, answers, running, paused, shutdown, Polled, receive, poll_receiving,
  poll_handling, poll_in, begin, poll_received, is_alive, QueueState, await_change, read, abort,
}
use rust_zero.Queue.Current.{Knows}

-- A poll at which the handler is done, if the worker is in the handler.
abbrev pub is_done : Poll → ℕ
is_done pending = 0
is_done panics = 1
is_done (answers r) = 1

pub done-le : (p : Poll) → is_done p ≤ 1
done-le pending = omega arith
done-le panics = omega arith
done-le (answers r) = omega arith

module _ {T : Type 0} where
  -- The polls that a worker needs at most.
  abbrev pub rank : Phase T → ℕ
  rank returned = 0
  rank (lost v) = 0
  rank reading = 1
  rank parked = 2
  rank selecting = 2
  rank (received v) = 2
  rank (handling v) = 2
  rank receiving = 3

  abbrev pub Falls : Poll → Phase T → Polled T → Type 0
  Falls p phase (s, w, taken, begun) = rank w.phase ≤ rank phase - is_done p

  -- With a newer version there is a change.
  await_change-rank :
      (s : Shared T) (seen : ℕ) (other : Phase T)
      → s.version ≢ seen
      → rank (await_change s seen other).phase ≡ 1
  unfolding await_change
  await_change-rank s seen other n = elim (Bool-cases (s.version == seen)) [
    | inl e ↦ absurd (n ((==_iff s.version seen).0 e))
    | inr e ↦ rw e refl
  ]

  receive-rank :
      (i : ℕ) (s : Shared T) (seen : ℕ) (messages : List T)
      → rank (receive i s seen messages).1.phase ≤ 2
  unfolding receive
  receive-rank i s seen [] = elim (Bool-cases s.producers_gone) [
    | inl e ↦ rw e (omega arith)
    | inr e ↦ rw e (omega arith)
  ]
  receive-rank i s seen (v ∷ messages) = omega arith

  read-rank :
      (state : QueueState) (phase : Phase T)
      → phase ≡ read state
      → state ≡ shutdown
      → rank phase ≡ 0
  unfolding read
  read-rank running phase e d = cc
  read-rank paused phase e d = cc
  read-rank shutdown phase e d = ap rank e

  pub poll_in-Falls :
      (i : ℕ) (p : Poll) (s : Shared T) (seen : ℕ) (phase : Phase T)
      → s.state ≡ shutdown
      → Knows s.state s.version seen phase
      → Falls p phase (poll_in i p s seen phase)
  unfolding poll_in poll_receiving poll_handling poll_received begin
  poll_in-Falls i p s seen reading d k =
      omega (arith, read-rank s.state (read s.state) refl d, done-le p)
  poll_in-Falls i p s seen parked d k =
      omega (arith, await_change-rank s seen parked (λ e. let paused_too = k e in cc), done-le p)
  poll_in-Falls i p s seen selecting d k =
      omega
        (arith, await_change-rank s seen receiving (λ e. let running_too = k e in cc), done-le p)
  poll_in-Falls i pending s seen receiving d k = omega arith
  poll_in-Falls i panics s seen receiving d k = omega (arith, receive-rank i s seen s.messages)
  poll_in-Falls i (answers r) s seen receiving d k = omega (arith, receive-rank i s seen s.messages)
  poll_in-Falls i pending s seen (received v) d k = omega arith
  poll_in-Falls i panics s seen (received v) d k = omega arith
  poll_in-Falls i (answers r) s seen (received v) d k = omega arith
  poll_in-Falls i pending s seen (handling v) d k = omega arith
  poll_in-Falls i panics s seen (handling v) d k = omega arith
  poll_in-Falls i (answers r) s seen (handling v) d k = omega arith
  poll_in-Falls i p s seen returned d k = omega arith
  poll_in-Falls i p s seen (lost v) d k = omega arith

  pub abort-rank : (phase : Phase T) → rank (abort phase) ≤ rank phase
  unfolding abort
  abort-rank reading = omega arith
  abort-rank parked = omega arith
  abort-rank selecting = omega arith
  abort-rank receiving = omega arith
  abort-rank returned = omega arith
  abort-rank (received v) = omega arith
  abort-rank (handling v) = omega arith
  abort-rank (lost v) = omega arith

  pub rank-zero : (phase : Phase T) → rank phase ≤ 0 → is_alive phase ≡ false
  rank-zero returned h = refl
  rank-zero (lost v) h = refl
  rank-zero reading h = absurd (omega arith)
  rank-zero parked h = absurd (omega arith)
  rank-zero selecting h = absurd (omega arith)
  rank-zero (received v) h = absurd (omega arith)
  rank-zero (handling v) h = absurd (omega arith)
  rank-zero receiving h = absurd (omega arith)

  pub rank-le : (phase : Phase T) → rank phase ≤ 3
  rank-le returned = omega arith
  rank-le (lost v) = omega arith
  rank-le reading = omega arith
  rank-le parked = omega arith
  rank-le selecting = omega arith
  rank-le (received v) = omega arith
  rank-le (handling v) = omega arith
  rank-le receiving = omega arith
