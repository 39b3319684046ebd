-- ===== src/SingleFlight/Accounts.antt =====
-- The calls of core/src/singleflight.rs in any order: who runs an operation, and who is answered.
use rust_zero.Prelude.{
  ℕ, ◌+◌, ◌<◌, ◌≡◌, refl, sym, ap, subst, ◌∙◌, arith, Bool, true, false, List, [], ◌∷◌, ◌++◌,
  Option, none, some, ltb, ◌==◌, if◌then◌else◌,
}
use rust_zero.Prelude.HashMap
use rust_zero.Cache.Recency.{
  remove_from_recency, contains, Distinct, contains-remove, remove-Distinct,
}
use rust_zero.SingleFlight.{
  SingleFlight, new, Result, SingleFlightError, map_err, send, join, join_flight, land, cancel,
  cancelled, err, leader_cancelled,
}

abbrev pub count : ℕ → List ℕ → ℕ
count w [] = 0
count w (v ∷ vs) = (if v == w then 1 else 0) + count w vs

count-append : (w : ℕ) (xs ys : List ℕ) → count w (xs ++ ys) ≡ count w xs + count w ys
count-append w [] ys = omega arith
count-append w (x ∷ xs) ys = omega (arith, count-append w xs ys)

-- How often a channel is sent a message.
abbrev pub answers : {M : Type 0} → ℕ → List (ℕ × M) → ℕ
answers w [] = 0
answers w ((v, m) ∷ ms) = (if v == w then 1 else 0) + answers w ms

answers-append :
    {M : Type 0} (w : ℕ) (xs ys : List (ℕ × M)) → answers w (xs ++ ys) ≡ answers w xs + answers w ys
answers-append w [] ys = omega arith
answers-append w ((v, m) ∷ xs) ys = omega (arith, answers-append w xs ys)

answers-send : {M : Type 0} (w : ℕ) (vs : List ℕ) (m : M) → answers w (send vs m) ≡ count w vs
answers-send w [] m = refl
answers-send w (v ∷ vs) m = omega (arith, answers-send w vs m)

abbrev pub is_some : {A : Type 0} → Option A → Bool
is_some none = false
is_some (some a) = true

module _ {K : Type 0} (d : Discrete K) where
  -- How often a channel waits in the flights.
  abbrev pub waits : ℕ → List (K × List ℕ) → ℕ
  waits w [] = 0
  waits w ((k, vs) ∷ m) = count w vs + waits w m

  waits-remove :
      (w : ℕ) (key : K) (m : List (K × List ℕ)) {vs : List ℕ}
      → HashMap.IsMap d m
      → HashMap.get d key m ≡ some vs
      → waits w (HashMap.remove d key m) + count w vs ≡ waits w m
  unfolding HashMap.get HashMap.remove
  waits-remove w key [] i e = ground arith
  waits-remove w key ((k, us) ∷ m) {vs} i e =
      ground (arith, waits-remove w key m {vs = vs} i.1, HashMap.remove_absent d key m)

  waits_none :
      (w : ℕ) (m : List (K × List ℕ))
      → ((k : K) → is_some (HashMap.get d k m) ≡ false)
      → waits w m ≡ 0
  unfolding HashMap.get
  waits_none w [] h = refl
  waits_none w ((k, vs) ∷ m) h = let first = h k in ground arith

  waits-insert_absent :
      (w : ℕ) (key : K) (vs : List ℕ) (m : List (K × List ℕ))
      → HashMap.get d key m ≡ none
      → waits w (HashMap.insert d key vs m) ≡ count w vs + waits w m
  unfolding HashMap.insert
  waits-insert_absent w key vs m e = omega (arith, ap (waits w) (HashMap.remove_absent d key m e))

  waits-insert_push :
      (w : ℕ) (key : K) (vs : List ℕ) (c : ℕ) (m : List (K × List ℕ))
      → HashMap.IsMap d m
      → HashMap.get d key m ≡ some vs
      → waits w (HashMap.insert d key (vs ++ c ∷ []) m) ≡ waits w m + (if c == w then 1 else 0)
  unfolding HashMap.insert
  waits-insert_push w key vs c m i e =
      omega (arith, waits-remove w key m i e, count-append w vs (c ∷ []))

-- `running` has the key of each leader whose operation has not ended, and `messages` what was sent.
pub record System (K M : Type 0) : Type 0 where
  pub flight : SingleFlight K
  pub running : List K
  pub messages : List (ℕ × M)

abbrev running_after : {K : Type 0} → K → Option ℕ → List K → List K
running_after key none running = key ∷ running
running_after key (some w) running = running

unfoldable pub call : {K M : Type 0} → Discrete K → System K M → K → System K M
call d u key = record u {
  flight = (join d u.flight key).0;
  running = running_after key (join d u.flight key).1 u.running;
}

unfoldable pub start : {K M : Type 0} → System K M
start = record { flight = new; running = []; messages = [] }

module _ {K : Type 0} (d : Discrete K) (V E : Type 0) where
  abbrev pub M : Type 0
  M = Result V (SingleFlightError E)

  -- Only the leader that runs for a key lands it or has its guard dropped.
  pub data Step (u : System K M) : System K M → Type 0 where
    calls : (key : K) → Step u (call d u key)
    lands :
        (key : K) (outcome : Result V E) {s : SingleFlight K} {r : M} {sent : List (ℕ × M)}
        → contains d key u.running ≡ true
        → land d u.flight key outcome ≡ some (s, r, sent)
        → Step u (record u {
          flight = s;
          running = remove_from_recency d u.running key;
          messages = sent ++ u.messages;
        })
    cancels :
        (key : K)
        → contains d key u.running ≡ true
        → Step u (record u {
          flight = (cancel d {V = V} {E = E} u.flight key).0;
          running = remove_from_recency d u.running key;
          messages = (cancel d {V = V} {E = E} u.flight key).1 ++ u.messages;
        })

  pub data Reach (u : System K M) : System K M → Type 0 where
    here : Reach u u
    next : {v w : System K M} → Reach u v → Step v w → Reach u w

  record Inv (u : System K M) : Type 0 where
    distinct : Distinct d u.running
    unique : HashMap.IsMap d u.flight.flights
    leads : (k : K) → contains d k u.running ≡ is_some (HashMap.get d k u.flight.flights)
    accounts :
        (w : ℕ)
        → waits d w u.flight.flights + answers w u.messages ≡ (if ltb w u.flight.next then 1 else 0)

  join-Inv :
      (u : System K M) (key : K)
      → Inv u
      → (m : Option (List ℕ)) → HashMap.get d key u.flight.flights ≡ m
      → Inv (record u {
        flight = (join_flight d u.flight key m).0;
        running = running_after key (join_flight d u.flight key m).1 u.running;
      })
  unfolding join_flight contains
  join-Inv u key i none e = record {
    distinct = (i.leads key ∙ ap is_some e, i.distinct);
    unique = HashMap.insert-IsMap d key [] u.flight.flights i.unique;
    leads = λ k. ground (arith, i.leads k, HashMap.get-insert d key k [] u.flight.flights);
    accounts = λ w. omega (arith, i.accounts w, waits-insert_absent d w key [] u.flight.flights e);
  }
  join-Inv u key i (some ws) e = record {
    distinct = i.distinct;
    unique = HashMap.insert-IsMap d key (ws ++ u.flight.next ∷ []) u.flight.flights i.unique;
    leads = λ k. ground (
      arith,
      i.leads k,
      e,
      HashMap.get-insert d key k (ws ++ u.flight.next ∷ []) u.flight.flights,
    );
    accounts = λ w.
        let p = waits-insert_push d w key ws u.flight.next u.flight.flights i.unique e in
        let q = i.accounts w in ground arith;
  }

  remove-Inv :
      (u : System K M) (key : K) (waiters : List ℕ) (m : M)
      → Inv u
      → HashMap.get d key u.flight.flights ≡ some waiters
      → Inv (record u {
        flight = record { flights = HashMap.remove d key u.flight.flights; next = u.flight.next };
        running = remove_from_recency d u.running key;
        messages = send waiters m ++ u.messages;
      })
  remove-Inv u key waiters m i e = record {
    distinct = remove-Distinct d u.running key i.distinct;
    unique = HashMap.remove-IsMap d key u.flight.flights i.unique;
    leads = λ k. ground (
      arith,
      i.leads k,
      HashMap.get-remove d key k u.flight.flights,
      contains-remove d u.running key k i.distinct,
    );
    accounts = λ w. omega (
      arith,
      i.accounts w,
      waits-remove d w key u.flight.flights i.unique e,
      answers-append w (send waiters m) u.messages,
      answers-send w waiters m,
    );
  }

  flight_of :
      (u : System K M) (key : K)
      → Inv u
      → contains d key u.running ≡ true
      → (waiters : List ℕ) × (HashMap.get d key u.flight.flights ≡ some waiters)
  flight_of u key i h = present (HashMap.get d key u.flight.flights) (sym (i.leads key) ∙ h)
    where
      present : (m : Option (List ℕ)) → is_some m ≡ true → (waiters : List ℕ) × (m ≡ some waiters)
      present none e = cc
      present (some ws) e = (ws, refl)

  Step-Inv : {u w : System K M} → Inv u → Step u w → Inv w
  unfolding call join land cancel cancelled
  Step-Inv {u = u} i (calls key) = join-Inv u key i (HashMap.get d key u.flight.flights) refl
  Step-Inv {u = u} i (lands key outcome {s = s} {sent = sent} h e) =
      let (waiters, found) = flight_of u key i h in
      let message : M = map_err outcome in
      let rest : SingleFlight K = record {
        flights = HashMap.remove d key u.flight.flights;
        next = u.flight.next;
      } in
      let landed : land d u.flight key outcome ≡ some (rest, message, send waiters message) =
        rw found refl in
      let found_pair : SingleFlight K × List (ℕ × M) = (rest, send waiters message) in
      let landed_pair : SingleFlight K × List (ℕ × M) = (s, sent) in
      let both : found_pair ≡ landed_pair = cc in
      subst
        (λ p. Inv (record {
          flight = p.0;
          running = remove_from_recency d u.running key;
          messages = p.1 ++ u.messages;
        }))
        both (remove-Inv u key waiters message i found)
  Step-Inv {u = u} i (cancels key h) =
      let (waiters, found) = flight_of u key i h in
      rw found (remove-Inv u key waiters (err leader_cancelled) i found)

  start-Inv : Inv start
  unfolding start new contains HashMap.get
  start-Inv = record { distinct = tt; unique = tt; leads = λ k. refl; accounts = λ w. ground arith }

  Reach-Inv : {u w : System K M} → Inv u → Reach u w → Inv w
  Reach-Inv i here = i
  Reach-Inv i (next r st) = Step-Inv (Reach-Inv i r) st

  -- At most one leader runs for a key at any time, and whenever its operation ends its flight is
  -- there, so that the leader returns, with the outcome of its operation.
  pub one_leader :
      {u : System K M} (key : K) (outcome : Result V E)
      → Reach start u
      → contains d key u.running ≡ true
      → Distinct d u.running
        × ((s : SingleFlight K) × (sent : List (ℕ × M)) × (land d u.flight key outcome
              ≡ some (s, map_err outcome, sent)))
  unfolding land
  one_leader {u = u} key outcome r h =
      let i = Reach-Inv start-Inv r in
      let (waiters, found) = flight_of u key i h in
      (
        i.distinct,
        (
          record { flights = HashMap.remove d key u.flight.flights; next = u.flight.next },
          send waiters (map_err outcome),
          rw found refl,
        ),
      )

  -- Once no leader runs, every channel that a caller was given has been sent exactly one message,
  -- whether its leader's operation ended or was cancelled.
  pub answered_once :
      {u : System K M} (w : ℕ)
      → Reach start u
      → w < u.flight.next
      → u.running ≡ []
      → answers w u.messages ≡ 1
  unfolding contains
  answered_once {u = u} w r h e =
      let i = Reach-Inv start-Inv r in
      let idle = waits_none d w u.flight.flights (λ k. sym (i.leads k) ∙ ap (contains d k) e) in
      let total = i.accounts w in ground arith
