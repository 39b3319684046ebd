-- ===== src/Balancer/Tests.antt =====
-- Runs of the balancer, and the theorems about it at inputs that meet their hypotheses.
use rust_zero.Prelude.{
  ℕ, ◌<◌, ◌≡◌, ◌≢◌, refl, arith, true, false, List, [], ◌∷◌, some, All, get_elem?, length,
}
use rust_zero.Prelude.Words.{u64}
use rust_zero.Floats.Naturals.{naturals}
use rust_zero.Balancer.{Node, P2cBalancer, new, new_node, select}
use rust_zero.Balancer.Random.{IsState}
use rust_zero.Balancer.Choice.{IsBetter, select-IsBetter}
use rust_zero.Balancer.Accounts.{run_accounts}
use rust_zero.Balancer.Calls.{System, Action, picks, ends, run, holds, times_in}

abbrev node : ℕ → Node ℕ ℕ
node value = record {
  value = value;
  inflight = value;
  requests = value;
  state = record { latency_micros = 100; success = 1; last_update = 0; last_pick = 0 };
}

abbrev whole : ℕ → ℕ
whole n = n

select-IsBetter_example :
    (random' i j : ℕ) × (a b : Node ℕ ℕ) × (select naturals whole
        (node 3 ∷ node 1 ∷ node 2 ∷ [])
        5573589319906701683
        5
      ≡ some (random', i))
    × IsState random'
    × (i ≢ j)
    × (get_elem? (node 3 ∷ node 1 ∷ node 2 ∷ []) i ≡ some a)
    × (get_elem? (node 3 ∷ node 1 ∷ node 2 ∷ []) j ≡ some b)
    × IsBetter naturals whole 5 a b
select-IsBetter_example =
    select-IsBetter naturals whole (node 3) (node 1) (node 2 ∷ []) 5573589319906701683 5
      (omega arith, omega arith)

abbrev pool : P2cBalancer ℕ ℕ
unfolding new_node
pool = record {
  nodes = new_node naturals 0 7 ∷ new_node naturals 0 8 ∷ [];
  random = 5573589319906701683;
}

new-pool : new naturals 0 (7 ∷ 8 ∷ []) ≡ some pool
unfolding new new_node
new-pool = refl

abbrev actions : List Action
actions = picks 1 2 3 ∷ picks 4 5 6 ∷ ends 1 7 true ∷ ends 4 8 false ∷ picks 9 10 11 ∷ []

run_accounts_example :
    (s : System ℕ ℕ) × (run naturals whole whole whole
        (record { balancer = pool; held = []; made = [] })
        actions
      ≡ some s)
    × All (λ r. r.node < length s.balancer.nodes) s.held
    × ((i : ℕ) (n : Node ℕ ℕ)
        → get_elem? s.balancer.nodes i ≡ some n
        → (n.inflight ≡ u64 (holds i s.held)) × (n.requests ≡ u64 (times_in i s.made)))
run_accounts_example =
    run_accounts naturals whole whole whole 0 (7 ∷ 8 ∷ []) actions {b = pool} new-pool
