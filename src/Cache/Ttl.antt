-- ===== src/Cache/Ttl.antt =====
-- The expiring cache of core/src/cache.rs, and the spread of expiry times.
pub mod Expiry
use Prim.Native.Nat.{bit_xor}
use mathlib.Core.Option
use rust_zero.Prelude.{
  ℕ, ◌+◌, ◌-◌, ◌*◌, ◌/◌, ◌%◌, ◌^◌, Bool, true, false, not, List, [], Option, none, some, ltb, leb,
  ◌==◌, if◌then◌else◌, length, min,
}
use rust_zero.Prelude.Words.{u64, u64_mod, saturate128}
use rust_zero.Prelude.HashMap
use rust_zero.Limit.Decision.{duration_max}

-- A SplitMix64 step on the sequence number.
unfoldable pub mix : ℕ → ℕ
mix sequence =
    let a = u64 (sequence + 0x9e37_79b9_7f4a_7c15) in
    let b = u64 (bit_xor a (a / 2 ^ 30) * 0xbf58_476d_1ce4_e5b9) in
    let c = u64 (bit_xor b (b / 2 ^ 27) * 0x94d0_49bb_1331_11eb) in bit_xor c (c / 2 ^ 31)

unfoldable pub jittered_ttl : ℕ → ℕ → ℕ → ℕ
jittered_ttl base jitter sequence =
    if jitter == 0
    then base
    else let added_nanos = mix sequence % saturate128 (jitter + 1) in
      let added =
        min (added_nanos / 1_000_000_000) (u64_mod - 1) * 1_000_000_000
        + added_nanos % 1_000_000_000 in
      min (base + added) duration_max

pub record Entry (V : Type 0) : Type 0 where
  pub value : V
  pub expires_at : ℕ

abbrev pub is_expired : {V : Type 0} → ℕ → Option (Entry V) → Bool
is_expired now none = false
is_expired now (some e) = leb e.expires_at now

module _ {K V : Type 0} (d : Discrete K) where
  -- `none` is the failed assertion on the time to live.
  unfoldable pub insert : List (K × Entry V) → K → V → ℕ → ℕ → Option (List (K × Entry V))
  insert entries key value ttl now =
      if ltb 0 ttl
      then some (HashMap.insert d key (record { value = value; expires_at = now + ttl }) entries)
      else none

  -- The entries that a read leaves, and what it returns.
  unfoldable pub get : List (K × Entry V) → K → ℕ → List (K × Entry V) × Option V
  get entries key now =
      if is_expired now (HashMap.get d key entries)
      then (HashMap.remove d key entries, none)
      else (entries, Option.map (λ e. e.value) (HashMap.get d key entries))

  unfoldable pub remove : List (K × Entry V) → K → List (K × Entry V) × Option V
  remove entries key =
      (HashMap.remove d key entries, Option.map (λ e. e.value) (HashMap.get d key entries))

abbrev pub is_live : {K V : Type 0} → ℕ → K → Entry V → Bool
is_live now k e = ltb now e.expires_at

-- `len`
unfoldable pub len_at : {K V : Type 0} → List (K × Entry V) → ℕ → List (K × Entry V) × ℕ
len_at entries now = let kept = HashMap.retain (is_live now) entries in (kept, length kept)
