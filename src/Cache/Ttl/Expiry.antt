-- ===== src/Cache/Ttl/Expiry.antt =====
-- Expiry in the cache of Ttl.antt.
use native.Mathlib.Nat.{mod-lt}
use rust_zero.Prelude.{ℕ, ◌+◌, ◌%◌, ◌≤◌, ◌<◌, ◌≡◌, arith, List, none, some, ltb, if◌then◌else◌, ite}
use rust_zero.Prelude.Words.{saturate128}
use rust_zero.Prelude.HashMap.{get-insert}
use rust_zero.Limit.Decision.{duration_max}
use rust_zero.Cache.Ttl.{Entry, insert, get, mix, jittered_ttl}

remainder-le : (x jitter : ℕ) → x % saturate128 (jitter + 1) ≤ jitter
remainder-le x jitter = omega (
  arith,
  mod-lt x {m = saturate128 (jitter + 1)} (let p : 0 < saturate128 (jitter + 1) = omega arith in p),
)

-- The spread only delays the expiry, by at most `jitter`, if the sum is a `Duration`.
pub jittered_ttl_bounds :
    (base jitter sequence : ℕ)
    → base + jitter ≤ duration_max
    → (base ≤ jittered_ttl base jitter sequence)
      × (jittered_ttl base jitter sequence ≤ base + jitter)
unfolding jittered_ttl
jittered_ttl_bounds base jitter sequence h = ground (arith, remainder-le (mix sequence) jitter)

module _ {K V : Type 0} (d : Discrete K) where
  -- After an insertion a read of a key gives the new value until it expires and nothing from then
  -- on; every other key is read as before, at the same instant.
  pub get-insert_at :
      (entries entries' : List (K × Entry V)) (key j : K) (value : V) (ttl now later : ℕ)
      → 0 < ttl
      → insert d entries key value ttl now ≡ some entries'
      → (get d entries' j later).1
        ≡ ite
            (d key j)
            (if ltb later (now + ttl) then some value else none)
            (get d entries j later).1
  unfolding insert get
  get-insert_at entries entries' key j value ttl now later h e =
      ground (arith, get-insert d key j (record { value = value; expires_at = now + ttl }) entries)
