-- ===== src/Balancer.antt =====
-- core/src/balancer.rs: the power-of-two-choices balancer. A request holds its node's index in the
-- place of a reference, and a time is a number of nanoseconds.
pub mod Random
pub mod Choice
pub mod Calls
pub mod Accounts
mod Tests
use Prim.Native.Nat.{bit_xor}
use rust_zero.Prelude.{
  ℕ, zero, suc, ◌+◌, ◌-◌, ◌*◌, ◌/◌, ◌%◌, Bool, true, false, ◌&&◌, List, [], ◌∷◌, map, length,
  Option, none, some, ◌>>=◌, ltb, leb, get_elem?, set, if◌then◌else◌,
}
use rust_zero.Prelude.Words.{u64, u64_mod}
use rust_zero.Floats.{Float}

-- `DECAY_TIME` and `FORCE_PICK_AFTER`
abbrev pub decay_time : ℕ
decay_time = 10_000_000_000

abbrev pub force_pick_after : ℕ
force_pick_after = 1_000_000_000

pub record NodeState (X : Type 0) : Type 0 where
  pub latency_micros : X
  pub success : X
  pub last_update : ℕ
  pub last_pick : ℕ

pub record Node (X T : Type 0) : Type 0 where
  pub value : T
  pub inflight : ℕ
  pub requests : ℕ
  pub state : NodeState X

pub record P2cBalancer (X T : Type 0) : Type 0 where
  pub nodes : List (Node X T)
  pub random : ℕ

pub record P2cRequest : Type 0 where
  pub node : ℕ
  pub started : ℕ

pub record NodeSnapshot (X T : Type 0) : Type 0 where
  pub value : T
  pub inflight : ℕ
  pub requests : ℕ
  pub latency : ℕ
  pub success_rate : X

-- `self.random` after a draw from it, with no exchange that fails.
unfoldable pub shifted : ℕ → ℕ
shifted current =
    let left = bit_xor current (u64 (current * 8192)) in
    let right = bit_xor left (left / 128) in bit_xor right (u64 (right * 131072))

-- Nothing where the remainder by 0 panics.
unfoldable pub next_index : ℕ → ℕ → Option (ℕ × ℕ)
next_index random zero = none
next_index random (suc n) = some (shifted random, shifted random % suc n)

-- The two indices of `pick`, with the random state that they leave.
unfoldable pub draw : ℕ → ℕ → Option (ℕ × ℕ × ℕ)
draw random len = next_index random len >>= λ (random', first).
    next_index random' (len - 1) >>= λ (random'', second).
    some (random'', first, if leb first second then second + 1 else second)

unfoldable pub mark_picked : {X T : Type 0} → Node X T → ℕ → Node X T
mark_picked node now = record node {
  state = record node.state { last_pick = now };
  inflight = u64 (node.inflight + 1);
  requests = u64 (node.requests + 1);
}

module _ {X : Type 0} (f : Float X) where
  -- `old * weight + new * (1.0 - weight)`
  unfoldable pub blend : X → X → X → X
  blend weight old new = f.plus (f.times old weight) (f.times new (f.minus (f.of_ℕ 1) weight))

  -- `==`, which is false of a NaN.
  unfoldable pub is_zero : X → Bool
  is_zero x = f.le x (f.of_ℕ 0) && f.le (f.of_ℕ 0) x

-- `f64::exp` and the unary minus.
module _ {X : Type 0} (f : Float X) (exp negate : X → X) where
  unfoldable pub weight_of : ℕ → X
  weight_of elapsed = exp (f.divide (negate (f.as_secs elapsed)) (f.as_secs decay_time))

  unfoldable pub updated : NodeState X → ℕ → ℕ → Bool → NodeState X
  updated state started now success =
      let weight = weight_of (now - state.last_update) in
      let latency = f.of_ℕ ((now - started) / 1000) in
      record {
        latency_micros =
            if is_zero f state.latency_micros
            then latency
            else blend f weight state.latency_micros latency;
        success = blend f weight state.success (if success then f.of_ℕ 1 else f.of_ℕ 0);
        last_update = now;
        last_pick = state.last_pick;
      }

module _ {X : Type 0} (f : Float X) {T : Type 0} where
  -- `Node::new`
  unfoldable pub new_node : ℕ → T → Node X T
  new_node now value = record {
    value = value;
    inflight = 0;
    requests = 0;
    state = record {
      latency_micros = f.of_ℕ 0;
      success = f.of_ℕ 1;
      last_update = now;
      last_pick = now;
    };
  }

  -- `P2cBalancer::new`; `none` is `BalancerError::Empty`.
  unfoldable pub new : ℕ → List T → Option (P2cBalancer X T)
  new now [] = none
  new now (v ∷ values) =
      some (record { nodes = map (new_node now) (v ∷ values); random = 5573589319906701683 })

  unfoldable pub healthy : Node X T → Bool
  healthy node = f.lt (f.literal 1 2) node.state.success

  unfoldable pub snapshots : P2cBalancer X T → List (NodeSnapshot X T)
  snapshots b =
      map
        (λ node. record {
          value = node.value;
          inflight = node.inflight;
          requests = node.requests;
          latency = f.from_secs (f.divide node.state.latency_micros (f.of_ℕ 1000000));
          success_rate = node.state.success;
        })
        b.nodes

module _ {X : Type 0} (f : Float X) (exp negate : X → X) {T : Type 0} where
  -- `Node::complete`
  unfoldable pub complete_node : Node X T → ℕ → ℕ → Bool → Node X T
  complete_node node started now success = record node {
    inflight = u64 (node.inflight + (u64_mod - 1));
    state = updated f exp negate node.state started now success;
  }

  -- `P2cRequest::complete`
  unfoldable pub complete : P2cBalancer X T → P2cRequest → ℕ → Bool → Option (P2cBalancer X T)
  complete b request now success = get_elem? b.nodes request.node >>= λ node. some (record b {
    nodes = set b.nodes request.node (complete_node node request.started now success);
  })

  -- The `drop` of a request that was not completed.
  unfoldable pub drop : P2cBalancer X T → P2cRequest → ℕ → Option (P2cBalancer X T)
  drop b request now = complete b request now false

-- `f64::sqrt`
module _ {X : Type 0} (f : Float X) (sqrt : X → X) {T : Type 0} where
  unfoldable pub load : Node X T → X
  load node =
      f.times (sqrt (f.maximum node.state.latency_micros (f.of_ℕ 1)))
        (f.plus (f.of_ℕ node.inflight) (f.of_ℕ 1))

  -- `second` where the two nodes are equally healthy, with the time of `elapsed`.
  unfoldable pub choose_second : Node X T → Node X T → ℕ → Bool
  choose_second first second now =
      if ltb force_pick_after (now - second.state.last_pick)
      then true
      else if f.le (load first) (load second)
      then false
      else true

  -- `choose`: whether it takes `second`.
  unfoldable pub choose : Node X T → Node X T → ℕ → Bool
  choose first second now =
      if healthy f first
      then (if healthy f second then choose_second first second now else false)
      else (if healthy f second then true else choose_second first second now)

  -- `selected` in `pick`, with the random state.
  unfoldable pub select : List (Node X T) → ℕ → ℕ → Option (ℕ × ℕ)
  select [] random now = draw random 0 >>= λ (random', first, second). some (random', first)
  select (node ∷ []) random now = some (random, 0)
  select (node ∷ other ∷ nodes) random now =
      draw random (length (node ∷ other ∷ nodes)) >>= λ (random', first, second).
      get_elem? (node ∷ other ∷ nodes) first >>= λ a.
      get_elem? (node ∷ other ∷ nodes) second >>= λ b.
      some (random', if choose a b now then second else first)

  -- `pick`, with the times of `choose`, of `mark_picked` and of the request.
  unfoldable pub pick : P2cBalancer X T → ℕ → ℕ → ℕ → Option (P2cBalancer X T × P2cRequest)
  pick b chosen marked started = select b.nodes b.random chosen >>= λ (random, i).
      get_elem? b.nodes i >>= λ node. some (
        record { nodes = set b.nodes i (mark_picked node marked); random = random },
        record { node = i; started = started },
      )
