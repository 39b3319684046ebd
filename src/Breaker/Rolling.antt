-- ===== src/Breaker/Rolling.antt =====
-- The rolling adaptive policy of core/src/breaker.rs. Floating-point arithmetic is a parameter; the
-- loop of `random_unit` takes one round, since one step is one call.
pub mod History
pub mod Drops
pub mod Floor
use Prim.Native.Nat.{bit_xor}
use mathlib.Core.List.{foldl}
use mathlib.Core.Option
use rust_zero.Prelude.{
  ℕ, ◌+◌, ◌-◌, ◌*◌, ◌/◌, ◌%◌, ◌^◌, Bool, true, false, List, [], ◌∷◌, Option, none, some, ◌==◌,
  if◌then◌else◌, max, not, ltb,
}
use rust_zero.Prelude.Words.{u64, u64_mod, saturate64}
use rust_zero.Floats.{Float}
use rust_zero.Window.{WindowState, rotate, update_back}
use rust_zero.Breaker.Config.{RollingConfig, CircuitOutcome, success, failure, cancellation}

pub record OutcomeBucket : Type 0 where
  pub accepted : ℕ
  pub total : ℕ

abbrev pub empty : OutcomeBucket
empty = record { accepted = 0; total = 0 }

pub record RollingBreaker (X : Type 0) : Type 0 where
  pub config : RollingConfig X
  pub bucket_width : ℕ
  pub state : WindowState OutcomeBucket
  pub random : ℕ
  pub drop_sequence : ℕ

unfoldable pub add_outcome : CircuitOutcome → OutcomeBucket → OutcomeBucket
add_outcome success b = record {
  accepted = saturate64 (b.accepted + 1);
  total = saturate64 (b.total + 1);
}
add_outcome _ b = record b { total = saturate64 (b.total + 1) }

unfoldable pub add_saturating : ℕ × ℕ → OutcomeBucket → ℕ × ℕ
add_saturating (accepted, total) b =
    (saturate64 (accepted + b.accepted), saturate64 (total + b.total))

-- One round of the xorshift generator.
unfoldable pub xorshift : ℕ → ℕ
xorshift current =
    let a = bit_xor current (u64 (current * 2 ^ 13)) in
    let b = bit_xor a (a / 2 ^ 7) in max (bit_xor b (u64 (b * 2 ^ 17))) 1

module _ {X : Type 0} where
  -- `next_seed` is the static counter `NEXT_SEED`; it is returned as the call leaves it.
  unfoldable pub new : RollingConfig X → ℕ → ℕ → RollingBreaker X × ℕ
  new config now next_seed = (
    record {
      config = config;
      bucket_width = max (nanos (config.window / config.buckets)) 1;
      state = record { current_started = now; buckets = empty ∷ [] };
      random = if config.random_seed == 0 then next_seed else config.random_seed;
      drop_sequence = 0;
    },
    if config.random_seed == 0 then u64 (next_seed + 0x9e37_79b9_7f4a_7c15) else next_seed,
  )
    where
      -- `u64::try_from(..).unwrap_or(u64::MAX)`
      nanos : ℕ → ℕ
      nanos n = saturate64 n

  unfoldable pub rotated : RollingBreaker X → ℕ → WindowState OutcomeBucket
  rotated r now = rotate empty r.config.buckets r.bucket_width r.state now

  -- `none` is the panic of a window with no bucket.
  unfoldable pub record_outcome : RollingBreaker X → CircuitOutcome → ℕ → Option (RollingBreaker X)
  record_outcome r cancellation now = some r
  record_outcome r outcome now =
      Option.map
        (λ bs. record r {
          state = record { current_started = (rotated r now).current_started; buckets = bs };
        })
        (update_back (add_outcome outcome) (rotated r now).buckets)

module _ {X : Type 0} (f : Float X) where
  unfoldable pub drop_ratio : RollingConfig X → ℕ → ℕ → X
  drop_ratio config accepted total =
      let unprotected = f.of_ℕ (total - config.minimum_requests) in
      let weighted_accepted = f.times config.sensitivity (f.of_ℕ accepted) in
      f.maximum
        (f.divide (f.minus unprotected weighted_accepted) (f.plus (f.of_ℕ total) (f.of_ℕ 1)))
        (f.of_ℕ 0)

  unfoldable pub history : RollingBreaker X → ℕ → RollingBreaker X × (ℕ × ℕ × X)
  history r now =
      let s = rotated r now in
      let (accepted, total) = foldl add_saturating (0, 0) s.buckets in
      (record r { state = s }, (accepted, total, drop_ratio r.config accepted total))

  unfoldable pub random_unit : RollingBreaker X → RollingBreaker X × X
  random_unit r =
      let next = xorshift r.random in
      (record r { random = next }, f.times (f.of_ℕ (next / 2 ^ 11)) (f.literal 1 (2 ^ 53)))

  unfoldable pub should_drop : RollingBreaker X → ℕ → RollingBreaker X × Bool
  should_drop r now =
      let (r₁, (_, _, ratio)) = history r now in
      if f.le ratio (f.of_ℕ 0)
      then (r₁, false)
      else let sequence = u64 (r₁.drop_sequence + 1) in
        let r₂ = record r₁ { drop_sequence = sequence } in
        if sequence % r.config.probe_interval == 0
        then (r₂, false)
        else let (r₃, unit) = random_unit r₂ in (r₃, f.lt unit ratio)
