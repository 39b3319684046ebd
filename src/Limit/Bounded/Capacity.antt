-- ===== src/Limit/Bounded/Capacity.antt =====
-- The bound on the keys of the rescue limiter, and what it does to active quotas.
use rust_zero.Prelude.{
  ℕ, ◌/◌, ◌≤◌, ◌<◌, ◌≡◌, ◌≢◌, ◌⊎◌, arith, false, List, [], ◌∷◌, none, some, length, All,
  Option-cases, inl, inr,
}
use rust_zero.Prelude.HashMap
use rust_zero.Prelude.HashMap.{
  IsMap, get-insert, get-retain_kept, retain-IsMap, insert-IsMap, length-retain,
  length-insert_absent, length-insert_present, get-retain,
}
use rust_zero.Limit.Decision.{
  LimitDecision, over_quota, PeriodWindow, as_millis, retry_after, spend,
}
use rust_zero.Limit.Period.{entry}
use rust_zero.Limit.Bounded.{BoundedPeriodLimiter, take, make_room, is_full, is_active}

module _ {K : Type 0} (d : Discrete K) where
  pub record IsValid (l : BoundedPeriodLimiter K) : Type 0 where
    pub distinct : IsMap d l.windows
    pub capacity : length l.windows ≤ l.max_keys

  room-length :
      (l : BoundedPeriodLimiter K) (key : K) (window : ℕ)
      → IsValid l
      → IsMap d (make_room d l key window) × (length (make_room d l key window) ≤ l.max_keys)
  unfolding make_room
  room-length l key window v = ground (
    arith,
    retain-IsMap d (is_active window) l.windows v.distinct,
    length-retain (is_active window) l.windows,
  )

  room-get :
      (l : BoundedPeriodLimiter K) (key : K) (window : ℕ)
      → is_full d l key (make_room d l key window) ≡ false
      → (HashMap.get d key (make_room d l key window) ≡ none)
          × (length (make_room d l key window) < l.max_keys)
        ⊎ ((w : PeriodWindow) × (HashMap.get d key (make_room d l key window) ≡ some w))
  unfolding make_room is_full
  room-get l key window h = elim (Option-cases (HashMap.get d key l.windows)) [
    | inl e ↦ inl (ground (arith, get-retain d (is_active window) key l.windows e))
    | inr (w, e) ↦ inr (w, ground arith)
  ]

  insert-fits :
      (m : List (K × PeriodWindow)) (key : K) (w : PeriodWindow) (n : ℕ)
      → IsMap d m
      → length m ≤ n
      → ((HashMap.get d key m ≡ none) × (length m < n))
        ⊎ ((v : PeriodWindow) × (HashMap.get d key m ≡ some v))
      → IsMap d (HashMap.insert d key w m) × (length (HashMap.insert d key w m) ≤ n)
  insert-fits m key w n distinct h (inl (absent, room)) =
      (insert-IsMap d key w m distinct, omega (arith, length-insert_absent d key w m absent))
  insert-fits m key w n distinct h (inr (v, present)) = (
    insert-IsMap d key w m distinct,
    omega (arith, length-insert_present d key w m distinct present),
  )

  -- A take keeps the keys distinct and their number within `max_keys`.
  pub take-IsValid :
      (l l' : BoundedPeriodLimiter K) (key : K) (now : ℕ) {decision : LimitDecision}
      → IsValid l
      → take d l key now ≡ some (l', decision)
      → IsValid l'
  unfolding take
  take-IsValid l l' key now v e =
      let window : ℕ = now / as_millis l.period in
      let windows : List (K × PeriodWindow) = make_room d l key window in
      let spent =
        spend l.quota (retry_after (as_millis l.period) now) (entry d windows key window) in
      let (distinct, short) = room-length l key window v in
      ground (
        arith,
        distinct,
        short,
        room-get l key window,
        insert-fits windows key spent.0 l.max_keys distinct short,
      )

  make_room-kept :
      (l : BoundedPeriodLimiter K) (key j : K) (window : ℕ) {w : PeriodWindow}
      → HashMap.get d j l.windows ≡ some w
      → w.window ≡ window
      → HashMap.get d j (make_room d l key window) ≡ some w
  unfolding make_room
  make_room-kept l key j window {w} h active =
      ground (arith, get-retain_kept d (is_active window) j {v = w} l.windows h)

  -- A take of one key leaves every other quota of the current window as it was: none is evicted.
  pub take_keeps_active :
      (l l' : BoundedPeriodLimiter K) (key j : K) (now : ℕ) {decision : LimitDecision}
      {w : PeriodWindow}
      → key ≢ j
      → HashMap.get d j l.windows ≡ some w
      → w.window ≡ now / as_millis l.period
      → take d l key now ≡ some (l', decision)
      → HashMap.get d j l'.windows ≡ some w
  unfolding take
  take_keeps_active l l' key j now {w = w} other h active e =
      let window : ℕ = now / as_millis l.period in
      let windows : List (K × PeriodWindow) = make_room d l key window in
      let spent =
        spend l.quota (retry_after (as_millis l.period) now) (entry d windows key window) in
      ground
        (arith, make_room-kept l key j window {w = w} h active, get-insert d key j spent.0 windows)

  All-retain :
      (window : ℕ) (m : List (K × PeriodWindow))
      → All (λ e. e.1.window ≡ window) (HashMap.retain (is_active window) m)
  unfolding HashMap.retain
  All-retain window [] = tt
  All-retain window ((k, w) ∷ m) = ground (arith, All-retain window m)

  refused-windows :
      (l l' : BoundedPeriodLimiter K) (key : K) (now retry : ℕ)
      → 0 < l.quota
      → HashMap.get d key l.windows ≡ none
      → take d l key now ≡ some (l', over_quota retry)
      → (l.max_keys ≤ length l'.windows)
        × (l'.windows ≡ HashMap.retain (is_active (now / as_millis l.period)) l.windows)
  unfolding take make_room is_full entry spend
  refused-windows l l' key now retry q absent e =
      ground (arith, get-retain d (is_active (now / as_millis l.period)) key l.windows absent)

  -- A key that has no entry is refused only if `max_keys` keys are in the current window.
  pub take_refuses_full :
      (l l' : BoundedPeriodLimiter K) (key : K) (now retry : ℕ)
      → 0 < l.quota
      → HashMap.get d key l.windows ≡ none
      → take d l key now ≡ some (l', over_quota retry)
      → (l.max_keys ≤ length l'.windows)
        × All (λ e. e.1.window ≡ now / as_millis l.period) l'.windows
  take_refuses_full l l' key now retry q absent e =
      let (full, kept) = refused-windows l l' key now retry q absent e in
      (full, rw kept (All-retain (now / as_millis l.period) l.windows))
