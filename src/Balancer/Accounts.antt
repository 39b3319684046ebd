-- ===== src/Balancer/Accounts.antt =====
-- The accounts of core/src/balancer.rs: the requests that are in flight, and those that were made.
use rust_zero.Prelude.{
  ℕ, zero, suc, ◌+◌, ◌<◌, ◌≡◌, ◌≢◌, refl, sym, ap, subst, ◌∙◌, arith, Bool, List, [], ◌∷◌, map,
  length, length-set, Option, none, some, get_elem?, get_elem?_total, get_elem?-set_self,
  get_elem?-set_other, set, All, ℕ_discrete,
}
use rust_zero.Prelude.Words.{u64}
use rust_zero.Floats.{Float}
use rust_zero.Balancer.{
  Node, P2cBalancer, P2cRequest, new_node, new, mark_picked, complete_node, select, pick, complete,
}
use rust_zero.Balancer.Calls.{
  System, Action, picks, ends, without, at, holds, times_in, ended, step, run, holds-without,
  All-without,
}
use rust_zero.Balancer.Random.{IsState}
use rust_zero.Balancer.Choice.{select-IsBetter}

elem_lt : {A : Type 0} (xs : List A) (i : ℕ) {a : A} → get_elem? xs i ≡ some a → i < length xs
elem_lt [] i e = cc
elem_lt (x ∷ xs) zero e = omega arith
elem_lt (x ∷ xs) (suc i) {a = a} e = omega (arith, elem_lt xs i {a = a} e)

module _ {X : Type 0} {T : Type 0} where
  record Inv (s : System X T) : Type 0 where
    drawn : IsState s.balancer.random
    some_node : 0 < length s.balancer.nodes
    inside : All (λ r. r.node < length s.balancer.nodes) s.held
    accounts :
        (i : ℕ) (n : Node X T)
        → get_elem? s.balancer.nodes i ≡ some n
        → (n.inflight ≡ u64 (holds i s.held)) × (n.requests ≡ u64 (times_in i s.made))

  -- What holds of each element by its index holds after one of them has changed.
  all-set :
      (P Q : ℕ → Node X T → Type 0) (xs : List (Node X T)) (i : ℕ) {a : Node X T} (v : Node X T)
      → get_elem? xs i ≡ some a
      → ((j : ℕ) (n : Node X T) → get_elem? xs j ≡ some n → P j n)
      → (P i a → Q i v)
      → ((j : ℕ) (n : Node X T) → i ≢ j → P j n → Q j n)
      → (j : ℕ) (n : Node X T) → get_elem? (set xs i v) j ≡ some n
      → Q j n
  all-set P Q xs i {a = a} v found h here other j n e = elim (ℕ_discrete i j) [
    | yes same ↦
        let there : get_elem? (set xs i v) j ≡ some v =
          subst (λ k. get_elem? (set xs i v) k ≡ some v) same (get_elem?-set_self xs i v found) in
        let equal : v ≡ n = cc in
        subst (λ m. Q j m) equal (subst (λ k. Q k v) same (here (h i a found)))
    | no different ↦ other j n different (h j n (sym (get_elem?-set_other xs i j v different) ∙ e))
  ]

module _ {X : Type 0} (f : Float X) (sqrt exp negate : X → X) {T : Type 0} where
  -- `pick` has a node, whatever the balancer.
  select_total :
      (nodes : List (Node X T)) (random now : ℕ)
      → 0 < length nodes
      → IsState random
      → (random' i : ℕ) × (a : Node X T) × (select f sqrt nodes random now ≡ some (random', i))
        × IsState random'
        × (get_elem? nodes i ≡ some a)
  unfolding select
  select_total [] random now pos h = absurd (omega arith)
  select_total (node ∷ []) random now pos h = (random, 0, node, refl, h, refl)
  select_total (node ∷ other ∷ nodes) random now pos h =
      let (random', i, j, a, b, e, state, ne, found, found', better) =
        select-IsBetter f sqrt node other nodes random now h in
      (random', i, a, e, state, found)

  picked-Inv :
      (s : System X T) (chosen marked started : ℕ)
      → Inv s
      → (s' : System X T) × (step f sqrt exp negate s (picks chosen marked started) ≡ some s')
        × Inv s'
  unfolding step pick mark_picked
  picked-Inv s chosen marked started v =
      let (random', i, a, e, state, found) =
        select_total s.balancer.nodes s.balancer.random chosen v.some_node v.drawn in
      let nodes = set s.balancer.nodes i (mark_picked a marked) in
      (
        record {
          balancer = record { nodes = nodes; random = random' };
          held = record { node = i; started = started } ∷ s.held;
          made = i ∷ s.made;
        },
        rw (e, found) refl,
        record {
          drawn = state;
          some_node =
              omega (arith, v.some_node, length-set s.balancer.nodes i (mark_picked a marked));
          inside =
              subst (λ k. All (λ q. q.node < k) (record { node = i; started = started } ∷ s.held))
                (sym (length-set s.balancer.nodes i (mark_picked a marked)))
                (elem_lt s.balancer.nodes i found, v.inside);
          accounts =
              all-set
                (λ j n.
                  (n.inflight ≡ u64 (holds j s.held)) × (n.requests ≡ u64 (times_in j s.made)))
                (λ j n.
                  (n.inflight ≡ u64 (at j i + holds j s.held))
                  × (n.requests ≡ u64 (at j i + times_in j s.made)))
                s.balancer.nodes i (mark_picked a marked) found v.accounts (λ h. ground arith)
                (λ j n ne h. ground arith);
        },
      )

  ended-Inv :
      (s : System X T) (n now : ℕ) (success : Bool)
      → Inv s
      → (m : Option P2cRequest) → get_elem? s.held n ≡ m
      → (s' : System X T) × (ended f sqrt exp negate s n now success m ≡ some s') × Inv s'
  unfolding ended complete complete_node
  ended-Inv s n now success v none e = (s, refl, v)
  ended-Inv s n now success v (some r) e =
      let (lt, rest) = All-without (λ r. r.node < length s.balancer.nodes) s.held n e v.inside in
      let (a, found) = get_elem?_total s.balancer.nodes r.node lt in
      let ended_node = complete_node f exp negate a r.started now success in
      (
        record s {
          balancer = record s.balancer { nodes = set s.balancer.nodes r.node ended_node };
          held = without s.held n;
        },
        rw found refl,
        record {
          drawn = v.drawn;
          some_node = omega (arith, v.some_node, length-set s.balancer.nodes r.node ended_node);
          inside =
              subst (λ k. All (λ q. q.node < k) (without s.held n))
                (sym (length-set s.balancer.nodes r.node ended_node)) rest;
          accounts =
              all-set
                (λ j n.
                  (n.inflight ≡ u64 (holds j s.held)) × (n.requests ≡ u64 (times_in j s.made)))
                (λ j m.
                  (m.inflight ≡ u64 (holds j (without s.held n)))
                  × (m.requests ≡ u64 (times_in j s.made)))
                s.balancer.nodes r.node ended_node found v.accounts
                (λ h. ground (arith, holds-without r.node s.held n r e))
                (λ j m ne h. ground (arith, holds-without j s.held n r e));
        },
      )

  run-Inv :
      (s : System X T) (actions : List Action)
      → Inv s
      → (s' : System X T) × (run f sqrt exp negate s actions ≡ some s') × Inv s'
  unfolding run step
  run-Inv s [] v = (s, refl, v)
  run-Inv s (picks chosen marked started ∷ actions) v =
      let (s', e, v') = picked-Inv s chosen marked started v in
      let (t, e', w) = run-Inv s' actions v' in (t, rw e e', w)
  run-Inv s (ends n now success ∷ actions) v =
      let (s', e, v') = ended-Inv s n now success v (get_elem? s.held n) refl in
      let (t, e', w) = run-Inv s' actions v' in (t, rw e e', w)

  fresh :
      (now : ℕ) (values : List T) (i : ℕ) {n : Node X T}
      → get_elem? (map (new_node f now) values) i ≡ some n
      → (n.inflight ≡ 0) × (n.requests ≡ 0)
  unfolding new_node
  fresh now [] i e = cc
  fresh now (v ∷ values) zero {n = n} e =
      let same : new_node f now v ≡ n = cc in
      (ap (λ m. m.inflight) (sym same), ap (λ m. m.requests) (sym same))
  fresh now (v ∷ values) (suc i) {n = n} e = fresh now values i {n = n} e

  new-Inv :
      (now : ℕ) (values : List T) {b : P2cBalancer X T}
      → new f now values ≡ some b
      → Inv (record { balancer = b; held = []; made = [] })
  unfolding new
  new-Inv now [] e = cc
  new-Inv now (v ∷ values) {b = b} e =
      let same : record { nodes = map (new_node f now) (v ∷ values); random = 5573589319906701683 }
          ≡ b =
        cc in
      subst (λ c. Inv (record { balancer = c; held = []; made = [] })) same
        (record {
          drawn = (omega arith, omega arith);
          some_node = omega arith;
          inside = tt;
          accounts = λ i n e. let zeros = fresh now (v ∷ values) i {n = n} e in ground arith;
        })

-- In any order of picks and ends of requests, no call fails, every request holds a node of the
-- balancer, each node's `inflight` is the number of the requests that hold it, and its `requests`
-- the number of all that ever held it, both modulo 2 ^ 64.
pub run_accounts :
    {X T : Type 0} (f : Float X) (sqrt exp negate : X → X) (now : ℕ) (values : List T)
    (actions : List Action) {b : P2cBalancer X T}
    → new f now values ≡ some b
    → (s : System X T) × (run f sqrt exp negate
          (record { balancer = b; held = []; made = [] })
          actions
        ≡ some s)
      × All (λ r. r.node < length s.balancer.nodes) s.held
      × ((i : ℕ) (n : Node X T)
          → get_elem? s.balancer.nodes i ≡ some n
          → (n.inflight ≡ u64 (holds i s.held)) × (n.requests ≡ u64 (times_in i s.made)))
run_accounts f sqrt exp negate now values actions e =
    let (s, ran, v) =
      run-Inv f sqrt exp negate (record { balancer = _; held = []; made = [] }) actions
        (new-Inv f sqrt exp negate now values e) in
    (s, ran, v.inside, v.accounts)
