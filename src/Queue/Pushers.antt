-- ===== src/Queue/Pushers.antt =====
-- `BalancedPusher` and `FanoutPusher` of core/src/queue.rs.
use rust_zero.Prelude.{
  ℕ, zero, suc, ◌+◌, ◌%◌, Bool, not, ◌&&◌, List, [], ◌∷◌, ◌++◌, Option, none, some, ltb,
  if◌then◌else◌, length, get_elem?, set,
}
use rust_zero.Prelude.Results.{Result, ok, err}
use rust_zero.Prelude.Words.{u64}

-- The channel of a producer; it is closed when its receiver is gone.
pub record Channel (T : Type 0) : Type 0 where
  pub capacity : ℕ
  pub messages : List T
  pub closed : Bool

pub data PusherConfigError : Type 0 where
  no_producers : PusherConfigError

pub data PushError (T : Type 0) : Type 0 where
  refused : T → PushError T

-- The producers are shared with their other users, so they are a state of their own.
pub record BalancedPusher : Type 0 where
  pub next : ℕ

module _ {T : Type 0} where
  unfoldable pub accepts : Channel T → Bool
  accepts c = not c.closed && ltb (length c.messages) c.capacity

  abbrev pub with_message : T → Channel T → Channel T
  with_message v c = record c { messages = c.messages ++ v ∷ [] }

  -- `try_push` of the producer at an index, which gives the value back when it fails.
  unfoldable pub try_push_at :
      List (Channel T) → ℕ → T → Option (Channel T) → Result (PushError T) (List (Channel T))
  try_push_at producers index v none = err (refused v)
  try_push_at producers index v (some c) =
      if accepts c then ok (set producers index (with_message v c)) else err (refused v)

  unfoldable pub new : List (Channel T) → Result PusherConfigError BalancedPusher
  new [] = err no_producers
  new (c ∷ producers) = ok (record { next = 0 })

  abbrev pub or_push :
      ℕ
      → Result (PushError T) (List (Channel T))
      → (T → Result (PushError T) (ℕ × List (Channel T)))
      → Result (PushError T) (ℕ × List (Channel T))
  or_push index (ok producers) rest = ok (index, producers)
  or_push index (err (refused v)) rest = rest v

  -- The loop over the offsets, of which `left` are left.
  unfoldable pub push_from :
      List (Channel T) → ℕ → ℕ → ℕ → T → Result (PushError T) (ℕ × List (Channel T))
  push_from producers start zero offset v = err (refused v)
  push_from producers start (suc left) offset v =
      let index = (start + offset) % length producers in
      or_push index (try_push_at producers index v (get_elem? producers index))
        (push_from producers start left (offset + 1))

  -- With the index that is taken and the producers after it.
  unfoldable pub balanced_push :
      BalancedPusher
      → List (Channel T)
      → T
      → BalancedPusher × Result (PushError T) (ℕ × List (Channel T))
  balanced_push b producers v = (
    record { next = u64 (b.next + 1) },
    push_from producers (b.next % length producers) (length producers) 0 v,
  )

  -- `FanoutPusher::try_push` from the producer at an index on: the indices that fail, and the producers.
  unfoldable pub fanout_from : ℕ → List (Channel T) → T → List ℕ × List (Channel T)
  fanout_from index [] v = ([], [])
  fanout_from index (c ∷ producers) v =
      let (failing, rest) = fanout_from (index + 1) producers v in
      if accepts c then (failing, with_message v c ∷ rest) else (index ∷ failing, c ∷ rest)

  unfoldable pub fanout_push : List (Channel T) → T → List ℕ × List (Channel T)
  fanout_push producers v = fanout_from 0 producers v
