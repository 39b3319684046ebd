-- ===== src/Balancer/Calls.antt =====
-- Calls of core/src/balancer.rs in any order, and the requests that their callers hold.
use rust_zero.Prelude.{
  ℕ, zero, suc, ◌+◌, ◌≡◌, ap, subst, arith, Bool, List, [], ◌∷◌, Option, none, some, ◌==◌,
  get_elem?, if◌then◌else◌, ◌>>=◌, All,
}
use rust_zero.Floats.{Float}
use rust_zero.Balancer.{P2cBalancer, P2cRequest, pick, complete}

-- The requests that their callers hold, and the node of each that was ever made.
pub record System (X T : Type 0) : Type 0 where
  pub balancer : P2cBalancer X T
  pub held : List P2cRequest
  pub made : List ℕ

-- A call of `pick` with its times, and the end of the held request at a position: `false` is also
-- what a request that is dropped gives.
pub data Action : Type 0 where
  picks : ℕ → ℕ → ℕ → Action
  ends : ℕ → ℕ → Bool → Action

abbrev pub without : List P2cRequest → ℕ → List P2cRequest
without [] n = []
without (r ∷ rs) zero = rs
without (r ∷ rs) (suc n) = r ∷ without rs n

abbrev pub at : ℕ → ℕ → ℕ
at i j = if i == j then 1 else 0

abbrev pub holds : ℕ → List P2cRequest → ℕ
holds i [] = 0
holds i (r ∷ rs) = at i r.node + holds i rs

abbrev pub times_in : ℕ → List ℕ → ℕ
times_in i [] = 0
times_in i (j ∷ js) = at i j + times_in i js

module _ {X : Type 0} (f : Float X) (sqrt exp negate : X → X) {T : Type 0} where
  unfoldable pub ended : System X T → ℕ → ℕ → Bool → Option P2cRequest → Option (System X T)
  ended s n now success none = some s
  ended s n now success (some r) = complete f exp negate s.balancer r now success >>= λ b.
      some (record s { balancer = b; held = without s.held n })

  unfoldable pub step : System X T → Action → Option (System X T)
  step s (picks chosen marked started) = pick f sqrt s.balancer chosen marked started >>= λ (b, r).
      some (record { balancer = b; held = r ∷ s.held; made = r.node ∷ s.made })
  step s (ends n now success) = ended s n now success (get_elem? s.held n)

  unfoldable pub run : System X T → List Action → Option (System X T)
  run s [] = some s
  run s (a ∷ actions) = step s a >>= λ s'. run s' actions

pub holds-without :
    (i : ℕ) (rs : List P2cRequest) (n : ℕ) (r : P2cRequest)
    → get_elem? rs n ≡ some r
    → holds i rs ≡ at i r.node + holds i (without rs n)
holds-without i [] n r e = cc
holds-without i (q ∷ rs) zero r e = let same : q ≡ r = cc in ap (λ k. at i k.node + holds i rs) same
holds-without i (q ∷ rs) (suc n) r e = omega (arith, holds-without i rs n r e)

pub All-without :
    (P : P2cRequest → Type 0) (rs : List P2cRequest) (n : ℕ) {r : P2cRequest}
    → get_elem? rs n ≡ some r
    → All P rs
    → P r × All P (without rs n)
All-without P [] n e h = cc
All-without P (q ∷ rs) zero {r = r} e h = let same : q ≡ r = cc in (subst P same h.0, h.1)
All-without P (q ∷ rs) (suc n) {r = r} e h =
    let (here, rest) = All-without P rs n {r = r} e h.1 in (here, (h.0, rest))
