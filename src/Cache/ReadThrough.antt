-- ===== src/Cache/ReadThrough.antt =====
-- ReadThroughCache of core/src/cache.rs, over the caches of Memory.antt and the flights of
-- core/src/singleflight.rs. `take` is split at its two `await`s. `none` is a panic.
use rust_zero.Prelude.{ℕ, ◌+◌, ◌<◌, ◌≡◌, refl, List, Option, none, some, ◌>>=◌}
use rust_zero.Prelude.HashMap
use rust_zero.SingleFlight
use rust_zero.SingleFlight.{
  SingleFlight, Result, ok, err, SingleFlightError, send, join, land, map_err,
}
use rust_zero.Cache.Memory
use rust_zero.Cache.Memory.{MemoryCache}
use rust_zero.Cache.Memory.Invariant.{IsValid, insert-IsValid}
use rust_zero.Cache.Memory.Reads.{get-insert_live}

pub record ReadThroughCache (K V : Type 0) : Type 0 where
  pub cache : MemoryCache K V
  pub flights : SingleFlight K

-- How `take` goes on: it returns, waits for a leader, or is the leader.
pub data Start (V : Type 0) : Type 0 where
  returns : V → Start V
  waits : ℕ → Start V
  leads : Start V

unfoldable pub new : {K V : Type 0} → ℕ → Option (ReadThroughCache K V)
new capacity = do
  cache ← Memory.new capacity
  some (record { cache = cache; flights = SingleFlight.new })

module _ {K V : Type 0} (d : Discrete K) where
  role : Option ℕ → Start V
  role none = leads
  role (some w) = waits w

  start_with : ReadThroughCache K V → K → Option V → ReadThroughCache K V × Start V
  start_with c key (some value) = (c, returns value)
  start_with c key none =
      let (flights, channel) = join d c.flights key in
      (record c { flights = flights }, role channel)

  unfoldable pub take_start : ReadThroughCache K V → K → ℕ → ReadThroughCache K V × Start V
  unfolding start_with role
  take_start c key now =
      let (cache, found) = Memory.get d c.cache key now in
      start_with (record c { cache = cache }) key found

  -- A leader looks again before it fetches, and then lands with what it finds.
  unfoldable pub look_again : ReadThroughCache K V → K → ℕ → ReadThroughCache K V × Option V
  look_again c key now =
      let (cache, found) = Memory.get d c.cache key now in (record c { cache = cache }, found)

  stored : {E : Type 0} → ReadThroughCache K V → K → Result V E → ℕ → ℕ → Option (MemoryCache K V)
  stored c key (ok value) ttl now = Memory.insert d c.cache key value ttl now
  stored c key (err e) ttl now = some c.cache

  -- The leader's fetch has ended.
  unfoldable pub take_end :
      {E : Type 0}
      → ReadThroughCache K V
      → K
      → Result V E
      → ℕ
      → ℕ
      → Option (
          ReadThroughCache K V
          × Result V (SingleFlightError E)
          × List (ℕ × Result V (SingleFlightError E)))
  unfolding stored
  take_end c key outcome ttl now = do
    cache ← stored c key outcome ttl now
    (flights, result, messages) ← land d c.flights key outcome
    some (record { cache = cache; flights = flights }, result, messages)

  unfoldable pub remove : ReadThroughCache K V → K → ReadThroughCache K V × Option V
  remove c key =
      let (cache, value) = Memory.remove d c.cache key in (record c { cache = cache }, value)

  -- Let the cache be consistent and its capacity and the time to live positive. When a leader's fetch
  -- gives a value, the leader returns it and every waiter is sent it, and
  -- until it expires the next `take` of the key returns it too, with no fetch and no wait.
  pub take_end-shares :
      (E : Type 0) (c : ReadThroughCache K V) (key : K) (value : V) (ttl now later : ℕ)
      (waiters : List ℕ)
      → IsValid d c.cache
      → 0 < c.cache.capacity
      → 0 < ttl
      → later < now + ttl
      → HashMap.get d key c.flights.flights ≡ some waiters
      → (c' : ReadThroughCache K V) × (take_end {E = E} c key (ok value) ttl now
          ≡ some (c', ok value, send waiters (ok value)))
        × ((take_start c' key later).1 ≡ returns value)
  unfolding take_end take_start land map_err
  take_end-shares E c key value ttl now later waiters v room h fresh e =
      let (cache, inserted, valid) = insert-IsValid d c.cache key value ttl now v h in
      let read = get-insert_live d c.cache cache key value ttl now later v room h fresh inserted in
      (
        record {
          cache = cache;
          flights = record {
            flights = HashMap.remove d key c.flights.flights;
            next = c.flights.next;
          };
        },
        rw inserted (rw e refl),
        rw read refl,
      )
