-- ===== src/SingleFlight/Flights.antt =====
-- Who shares a result in core/src/singleflight.rs: the callers of one key, while its leader runs.
use rust_zero.Prelude.{
  ℕ, ◌≡◌, ◌≢◌, refl, sym, subst, ap, ◌∙◌, arith, List, [], ◌∷◌, ◌++◌, Option, none, some, ite,
}
use mathlib.Core.List.{append_assoc, append-nil}
use rust_zero.Prelude.HashMap
use rust_zero.SingleFlight.{SingleFlight, Result, map_err, send, join, join_flight, land}

abbrev pub own : Option ℕ → List ℕ
own none = []
own (some w) = w ∷ []

module _ {K : Type 0} (d : Discrete K) where
  -- The calls of some keys in a row, and the channels that the callers of `key` wait at.
  unfoldable pub join_all : K → SingleFlight K → List K → SingleFlight K × List ℕ
  join_all key s [] = (s, [])
  join_all key s (k ∷ ks) =
      let (s', channel) = join d s k in
      let (last, channels) = join_all key s' ks in
      (last, ite (d k key) (own channel ++ channels) channels)

  join_same :
      (s : SingleFlight K) (key : K) (waiters : List ℕ)
      → HashMap.get d key s.flights ≡ some waiters
      → HashMap.get d key (join d s key).0.flights ≡ some (waiters ++ own (join d s key).1)
  unfolding join join_flight
  join_same s key waiters e =
      ground (arith, e, HashMap.get-insert_self d key (waiters ++ s.next ∷ []) s.flights)

  join_other :
      (s : SingleFlight K) (k key : K) {waiters : List ℕ}
      → k ≢ key
      → HashMap.get d key s.flights ≡ some waiters
      → HashMap.get d key (join d s k).0.flights ≡ some waiters
  unfolding join join_flight
  join_other s k key {waiters} n e = by_flight (HashMap.get d k s.flights)
    where
      by_flight :
          (m : Option (List ℕ)) → HashMap.get d key (join_flight d s k m).0.flights ≡ some waiters
      by_flight none = ground (arith, e, n, HashMap.get-insert d k key [] s.flights)
      by_flight (some ws) =
          ground (arith, e, n, HashMap.get-insert d k key (ws ++ s.next ∷ []) s.flights)

  waiters_of :
      (key : K) (s : SingleFlight K) (ks : List K) (waiters : List ℕ)
      → HashMap.get d key s.flights ≡ some waiters
      → HashMap.get d key (join_all key s ks).0.flights ≡ some (waiters ++ (join_all key s ks).1)
  unfolding join_all
  waiters_of key s [] waiters e = e ∙ ap some (sym (append-nil waiters))
  waiters_of key s (k ∷ ks) waiters e = elim (d k key) [
    | yes same ↦
        let s' = (join d s k).0 in
        let channel = own (join d s k).1 in
        let joined : HashMap.get d key s'.flights ≡ some (waiters ++ channel) =
          subst
            (λ j. HashMap.get d key (join d s j).0.flights ≡ some (waiters ++ own (join d s j).1))
            (sym same) (join_same s key waiters e) in
        let rest = waiters_of key s' ks (waiters ++ channel) joined in
        let assoc = append_assoc waiters channel (join_all key s' ks).1 in
        ground (arith, same, rest, assoc)
    | no other ↦
        let rest = waiters_of key (join d s k).0 ks waiters (join_other s k key other e) in
        ground (arith, other, rest)
  ]

  leader_starts :
      (s : SingleFlight K) (key : K) (m : Option (List ℕ))
      → (join_flight d s key m).1 ≡ none
      → HashMap.get d key (join_flight d s key m).0.flights ≡ some []
  unfolding join_flight
  leader_starts s key none e = HashMap.get-insert_self d key [] s.flights
  leader_starts s key (some ws) e = cc

  -- Let a caller become the leader of a key, and let others call, for this key or for other keys.
  -- When the leader's operation ends, the leader gets its outcome, that outcome is sent to exactly
  -- the callers of the key that wait, in the order of their calls, and the flight is over.
  pub land-join_all :
      {V E : Type 0} (s : SingleFlight K) (key : K) (ks : List K) (outcome : Result V E)
      → (join d s key).1 ≡ none
      → (land d (join_all key (join d s key).0 ks).0 key outcome
          ≡ some (
            record (join_all key (join d s key).0 ks).0 {
              flights = HashMap.remove d key (join_all key (join d s key).0 ks).0.flights;
            },
            map_err outcome,
            send (join_all key (join d s key).0 ks).1 (map_err outcome),
          ))
        × (HashMap.get d key (HashMap.remove d key (join_all key (join d s key).0 ks).0.flights)
            ≡ none)
  unfolding land join
  land-join_all s key ks outcome leads =
      let started = leader_starts s key (HashMap.get d key s.flights) leads in
      let waits = waiters_of key (join d s key).0 ks [] started in
      (rw waits refl, HashMap.get-remove_self d key (join_all key (join d s key).0 ks).0.flights)
