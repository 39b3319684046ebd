-- ===== src/Limit/Period/Quota.antt =====
-- What a sequence of takes in one window is granted.
use rust_zero.Prelude.{
  ℕ, suc, ◌+◌, ◌-◌, ◌*◌, ◌/◌, ◌≤◌, ◌<◌, ◌≡◌, ◌≢◌, arith, List, [], ◌∷◌, Option, none, some, ltb,
  if◌then◌else◌, ◌>>=◌, All, min, ite, if_pos, if_neg, subst,
}
use rust_zero.Prelude.Words.{u32_mod, u64_mod}
use rust_zero.Prelude.HashMap
use rust_zero.Prelude.HashMap.{get-insert}
use rust_zero.Limit.Decision.{
  LimitDecision, PeriodWindow, as_millis, retry_after, current, spend, is_allowed,
}
use rust_zero.Limit.Period.{PeriodLimiter, take, entry, new}

now-lt-next : (period now : ℕ) → 0 < period → now < (now / period + 1) * period
now-lt-next period now p = grind arith

-- The wait that a refusal reports ends with the window: after it the clock stands at the start of
-- the next window, and it is never zero, if the end of the window fits 64 bits.
pub retry_after-next :
    (period now : ℕ)
    → 0 < period
    → (now / period + 1) * period < u64_mod
    → (now + retry_after period now / 1_000_000 ≡ (now / period + 1) * period)
      × (0 < retry_after period now)
unfolding retry_after
retry_after-next period now p h = omega (arith, now-lt-next period now p)

module _ {K : Type 0} (d : Discrete K) where
  -- What is used of the quota of a key in a window.
  abbrev pub used_in : PeriodLimiter K → K → ℕ → ℕ
  used_in l key window = (entry d l.windows key window).used

  -- The permits that a trace of takes grants to `key`, and the limiter that it leaves.
  unfoldable pub granted : K → PeriodLimiter K → List (K × ℕ) → Option (PeriodLimiter K × ℕ)
  granted key l [] = some (l, 0)
  granted key l ((k, now) ∷ es) = do
    (l', decision) ← take d l k now
    (last, n) ← granted key l' es
    some (last, if is_allowed decision then ite (d k key) (suc n) n else n)

  abbrev pub takes_of : K → List (K × ℕ) → ℕ
  takes_of key [] = 0
  takes_of key ((k, now) ∷ es) = ite (d k key) (suc (takes_of key es)) (takes_of key es)

  take-used :
      (l l' : PeriodLimiter K) (key k : K) (now : ℕ) {decision : LimitDecision}
      → l.quota < u32_mod
      → take d l k now ≡ some (l', decision)
      → (used_in l' key (now / as_millis l.period)
          ≡ ite
              (d k key)
              (used_in l key (now / as_millis l.period) + (if is_allowed decision then 1 else 0))
              (used_in l key (now / as_millis l.period)))
        × (is_allowed decision ≡ ltb (used_in l k (now / as_millis l.period)) l.quota)
        × (l'.quota ≡ l.quota)
        × (l'.period ≡ l.period)
  unfolding take entry spend current is_allowed
  take-used l l' key k now q e = ground (
    arith,
    get-insert d k key
        (spend l.quota (retry_after (as_millis l.period) now)
          (entry d l.windows k (now / as_millis l.period))).0
        l.windows,
  )

  take_total :
      (l : PeriodLimiter K) (k : K) (now : ℕ)
      → 0 < as_millis l.period
      → (r : PeriodLimiter K × LimitDecision) × (take d l k now ≡ some r)
  unfolding take
  take_total l k now p =
      let spent =
        spend l.quota (retry_after (as_millis l.period) now)
          (entry d l.windows k (now / as_millis l.period)) in
      ((record l { windows = HashMap.insert d k spent.0 l.windows }, spent.1), ground arith)

  take_step :
      (l : PeriodLimiter K) (key k : K) (now window : ℕ)
      → 0 < as_millis l.period
      → l.quota < u32_mod
      → now / as_millis l.period ≡ window
      → (l' : PeriodLimiter K) × (decision : LimitDecision) × (take d l k now ≡ some (l', decision))
        × (used_in l' key window
            ≡ ite
                (d k key)
                (used_in l key window + (if is_allowed decision then 1 else 0))
                (used_in l key window))
        × ((k ≡ key) → is_allowed decision ≡ ltb (used_in l key window) l.quota)
        × (l'.quota ≡ l.quota)
        × (l'.period ≡ l.period)
  take_step l key k now window p q e =
      let ((l', decision), taken) = take_total l k now p in
      let (used, decided, same_quota, same_period) = take-used l l' key k now q taken in
      (
        l',
        decision,
        taken,
        rw e at used,
        λ same.
            subst (λ j. is_allowed decision ≡ ltb (used_in l j window) l.quota) same
              (rw e at decided),
        same_quota,
        same_period,
      )

  -- Let a sequence of takes, of any keys, fall into one window. Then none panics, and of those for
  -- `key` exactly as many are granted as the quota leaves and were asked for: the takes of other
  -- keys make no difference.
  pub granted_total :
      (key : K) (l : PeriodLimiter K) (es : List (K × ℕ)) (window : ℕ)
      → 0 < as_millis l.period
      → l.quota < u32_mod
      → used_in l key window ≤ l.quota
      → All (λ e. e.1 / as_millis l.period ≡ window) es
      → (last : PeriodLimiter K) × (granted key l es
          ≡ some (last, min (l.quota - used_in l key window) (takes_of key es)))
  unfolding granted
  granted_total key l [] window p q u h = (l, ground arith)
  granted_total key l ((k, now) ∷ es) window p q u h =
      let (l', decision, taken, used, decided, same_quota, same_period) =
        take_step l key k now window p q h.0 in
      elim (d k key) [
        | yes same ↦
            let test = decided same in
            let used' = rw (if_pos (d k key) same) at used in
            let (last, rest) =
              granted_total key l' es window (rw same_period p) (rw same_quota q) (ground arith)
                (rw same_period h.1) in
            (last, ground arith)
        | no other ↦
            let used' = rw (if_neg (d k key) other) at used in
            let (last, rest) =
              granted_total key l' es window (rw same_period p) (rw same_quota q)
                (rw (used', same_quota) u) (rw same_period h.1) in
            (last, ground arith)
      ]

  -- A take in a later window finds the whole quota, whatever was used before.
  pub used_in-later :
      (l : PeriodLimiter K) (key : K) (window : ℕ) {w : PeriodWindow}
      → HashMap.get d key l.windows ≡ some w
      → w.window ≢ window
      → used_in l key window ≡ 0
  unfolding entry current
  used_in-later l key window h n = ground arith

  -- Every take of a period under a millisecond panics, though `new` accepts such a period.
  pub take_panics :
      (period quota now : ℕ) (key : K)
      → 0 < period
      → period < 1_000_000
      → 0 < quota
      → (l : PeriodLimiter K) × (new period quota ≡ some l) × (take d l key now ≡ none)
  unfolding new take
  take_panics period quota now key p small q =
      (record { period = period; quota = quota; windows = [] }, ground arith, ground arith)
