-- ===== src/SingleFlight.antt =====
-- core/src/singleflight.rs. `execute` is split at its `await`: `join` is what it does before, `land`
-- what the leader does when its operation ends, and `cancel` is the drop of an armed guard, when the
-- leader's future is dropped instead. A waiter is the number of its channel, and the messages that a
-- function sends are a list. `none` is a failed `expect`.
pub mod Accounts
pub mod Flights
mod Tests
use mathlib.Core.Option
use rust_zero.Prelude.{ℕ, ◌+◌, Bool, true, false, List, [], ◌∷◌, ◌++◌, Option, none, some, ◌>>=◌}
use rust_zero.Prelude.HashMap

pub data SingleFlightError (E : Type 0) : Type 0 where
  operation : E → SingleFlightError E
  leader_cancelled : SingleFlightError E

pub data Result (V E : Type 0) : Type 0 where
  ok : V → Result V E
  err : E → Result V E

-- `next` is the number of the next channel.
pub record SingleFlight (K : Type 0) : Type 0 where
  pub flights : List (K × List ℕ)
  pub next : ℕ

unfoldable pub new : {K : Type 0} → SingleFlight K
new = record { flights = []; next = 0 }

-- The result that the leader returns and shares, from the outcome of its operation.
unfoldable pub map_err : {V E : Type 0} → Result V E → Result V (SingleFlightError E)
map_err (ok v) = ok v
map_err (err e) = err (operation e)

abbrev pub send : {M : Type 0} → List ℕ → M → List (ℕ × M)
send [] message = []
send (w ∷ waiters) message = (w, message) ∷ send waiters message

module _ {K : Type 0} (d : Discrete K) where
  unfoldable pub join_flight : SingleFlight K → K → Option (List ℕ) → SingleFlight K × Option ℕ
  join_flight s key none = (record s { flights = HashMap.insert d key [] s.flights }, none)
  join_flight s key (some waiters) = (
    record s {
      flights = HashMap.insert d key (waiters ++ s.next ∷ []) s.flights;
      next = s.next + 1;
    },
    some s.next,
  )

  -- A leader gets `none`, a waiter its channel.
  unfoldable pub join : SingleFlight K → K → SingleFlight K × Option ℕ
  unfolding join_flight
  join s key = join_flight s key (HashMap.get d key s.flights)

  unfoldable pub land :
      {V E : Type 0}
      → SingleFlight K
      → K
      → Result V E
      → Option (
          SingleFlight K
          × Result V (SingleFlightError E)
          × List (ℕ × Result V (SingleFlightError E)))
  land s key outcome = do
    waiters ← HashMap.get d key s.flights
    some (
      record s { flights = HashMap.remove d key s.flights },
      map_err outcome,
      send waiters (map_err outcome),
    )

  unfoldable pub cancelled :
      {V E : Type 0} → Option (List ℕ) → List (ℕ × Result V (SingleFlightError E))
  cancelled none = []
  cancelled (some waiters) = send waiters (err leader_cancelled)

  unfoldable pub cancel :
      {V E : Type 0}
      → SingleFlight K
      → K
      → SingleFlight K × List (ℕ × Result V (SingleFlightError E))
  unfolding cancelled
  cancel s key = (
    record s { flights = HashMap.remove d key s.flights },
    cancelled (HashMap.get d key s.flights),
  )
