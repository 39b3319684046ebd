-- ===== src/SingleFlight/Tests.antt =====
-- Runs of the single flight, and each theorem about it at an input that meets its hypotheses.
use rust_zero.Prelude.{ℕ, ◌≡◌, refl, arith, true, [], ◌∷◌, none, ℕ_discrete}
use rust_zero.Prelude.HashMap
use rust_zero.Cache.Recency.{contains, remove_from_recency}
use rust_zero.SingleFlight.{
  SingleFlight, Result, ok, err, leader_cancelled, new, join, join_flight, cancel, cancelled,
}
use rust_zero.SingleFlight.Accounts.{
  System, M, Reach, here, next, calls, cancels, call, start, answers, answered_once,
}

abbrev outcome : Result ℕ ℕ
outcome = ok 8

abbrev busy : SingleFlight ℕ
busy = record { flights = (4, 0 ∷ []) ∷ []; next = 1 }

leads_five : (join ℕ_discrete busy 5).1 ≡ none
unfolding join join_flight HashMap.get ℕ_discrete
leads_five = refl

abbrev shared : System ℕ (M ℕ_discrete ℕ ℕ)
shared = record {
  flight = record { flights = (5, 0 ∷ []) ∷ []; next = 1 };
  running = 5 ∷ [];
  messages = [];
}

abbrev abandoned : System ℕ (M ℕ_discrete ℕ ℕ)
abandoned = record {
  flight = record { flights = []; next = 1 };
  running = [];
  messages = (0, err leader_cancelled) ∷ [];
}

shared-reached : Reach ℕ_discrete ℕ ℕ start shared
unfolding start new call join join_flight HashMap.get HashMap.insert HashMap.remove ℕ_discrete
shared-reached = next (next here (calls 5)) (calls 5)

runs_five : contains ℕ_discrete 5 shared.running ≡ true
unfolding contains ℕ_discrete
runs_five = refl

abandoned-reached : Reach ℕ_discrete ℕ ℕ start abandoned
unfolding cancel cancelled HashMap.get HashMap.remove contains remove_from_recency ℕ_discrete
abandoned-reached = next shared-reached (cancels 5 runs_five)

answered_once_example : answers 0 abandoned.messages ≡ 1
answered_once_example =
    answered_once ℕ_discrete ℕ ℕ {u = abandoned} 0 abandoned-reached (omega arith) refl
