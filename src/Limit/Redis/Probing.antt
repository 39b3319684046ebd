-- ===== src/Limit/Redis/Probing.antt =====
-- Who asks Redis while the backend is down.
use rust_zero.Prelude.{
  ℕ, zero, suc, ◌+◌, ◌<◌, ◌≤◌, ◌≡◌, refl, ap, arith, none, get_elem?, Bool, false, List, [], ◌∷◌,
  Option, some, ◌>>=◌, leb, ltb, if◌then◌else◌, ◌||◌, Bool-cases, inl, inr, All,
}
use rust_zero.Prelude.Int.{ℤ}
use rust_zero.Floats.{Float}
use rust_zero.Limit.Decision.{LimitDecision, over_quota, duration_max}
use rust_zero.Limit.Token.Level.{take_total}
use rust_zero.Limit.Redis.{
  unavailable, probing, RedisLimiterMonitor, should_attempt_redis, RedisTokenLimiter, rescue, Start,
  decided, waits, token_start, token_end,
}

-- How many of a sequence of callers, at the given times, are sent to Redis, when no reply comes in
-- between.
unfoldable pub attempts : RedisLimiterMonitor → List ℕ → RedisLimiterMonitor × ℕ
attempts m [] = (m, 0)
attempts m (now ∷ ts) =
    let (m₁, attempt) = should_attempt_redis m now in
    let (m₂, n) = attempts m₁ ts in (m₂, if attempt then suc n else n)

abbrev pub any_after : ℕ → List ℕ → Bool
any_after t [] = false
any_after t (now ∷ ts) = leb t now || any_after t ts

-- Behind a probe nobody is sent to Redis, at any time: only a reply ends this.
pub attempts-probing :
    (m : RedisLimiterMonitor) (ts : List ℕ) → m.backend_state ≡ probing → attempts m ts ≡ (m, 0)
unfolding attempts should_attempt_redis
attempts-probing m [] h = refl
attempts-probing m (now ∷ ts) h = ground (arith, attempts-probing m ts h)

-- While the backend is unavailable exactly one caller is sent to it, the first that comes when the
-- probe is due, and none if none comes then.
pub attempts_unavailable :
    (m : RedisLimiterMonitor) (ts : List ℕ)
    → m.backend_state ≡ unavailable
    → (attempts m ts).1 ≡ (if any_after m.next_probe_at_ms ts then 1 else 0)
unfolding attempts should_attempt_redis
attempts_unavailable m [] h = refl
attempts_unavailable m (now ∷ ts) h =
    ground (
      arith,
      attempts_unavailable m ts h,
      attempts-probing (record m { backend_state = probing }) ts,
    )

-- A call of `take`: its permits, instant and Unix time.
pub record Call : Type 0 where
  pub permits : ℕ
  pub now : ℕ
  pub millis : ℕ

-- The limiter and its calls that wait for Redis, the latest first.
pub record Client (X : Type 0) : Type 0 where
  pub limiter : RedisTokenLimiter X
  pub waiting : List Call

-- A call of `take`; the reply of Redis to a waiting call, by its place, with the instant and the Unix
-- time; and the drop of the future of a waiting call.
pub data Event : Type 0 where
  takes : Call → Event
  replies : ℕ → Option (List ℤ) → ℕ → ℕ → Event
  drops : ℕ → Event

abbrev without : List Call → ℕ → List Call
without [] i = []
without (c ∷ cs) zero = cs
without (c ∷ cs) (suc i) = c ∷ without cs i

-- Each call of `take` in the trace asks for some permits.
abbrev pub AsksSome : Event → Type 0
AsksSome (takes c) = 0 < c.permits
AsksSome (replies i reply now millis) = Unit
AsksSome (drops i) = Unit

rescue_state :
    (m : RedisLimiterMonitor) (decision : LimitDecision)
    → m.backend_state ≡ probing
    → (rescue m decision).backend_state ≡ probing
unfolding rescue
rescue_state m LimitDecision.allowed h = h
rescue_state m LimitDecision.hit_quota h = h
rescue_state m (over_quota _) h = h

module _ {X : Type 0} (f : Float X) where
  abbrev started : Client X → Call → RedisTokenLimiter X × Start → Client X × ℕ
  started q c (l, decided decision) = (record q { limiter = l }, 0)
  started q c (l, waits) = (record { limiter = l; waiting = c ∷ q.waiting }, 1)

  -- The reply to a waiting call; nothing happens if none stands at that place.
  replied : Client X → ℕ → Option (List ℤ) → ℕ → ℕ → Option Call → Option (Client X)
  replied q i reply now millis none = some q
  replied q i reply now millis (some c) = do
    (l, decision) ← token_end f q.limiter reply c.permits now millis
    some (record { limiter = l; waiting = without q.waiting i })

  -- An event, with 1 for a call that asks Redis; `none` is a panic.
  unfoldable pub step : Client X → Event → Option (Client X × ℕ)
  unfolding replied
  step q (takes c) = do r ← token_start f q.limiter c.permits c.now c.millis; some (started q c r)
  step q (replies i reply now millis) = do
    q' ← replied q i reply now millis (get_elem? q.waiting i)
    some (q', 0)
  step q (drops i) = some (record q { waiting = without q.waiting i }, 0)

  -- The client after a trace, and the number of calls that asked Redis.
  unfoldable pub run : Client X → List Event → Option (Client X × ℕ)
  run q [] = some (q, 0)
  run q (event ∷ events) = do (q₁, m) ← step q event; (q₂, n) ← run q₁ events; some (q₂, m + n)

  start_probing :
      (l : RedisTokenLimiter X) (permits now millis : ℕ)
      → l.monitor.backend_state ≡ probing
      → 0 < permits
      → (l' : RedisTokenLimiter X) × (decision : LimitDecision) × (token_start f l permits now
            millis
          ≡ some (l', decided decision))
        × (l'.monitor.backend_state ≡ probing)
  unfolding token_start should_attempt_redis rescue
  start_probing l permits now millis h p = elim (Bool-cases (ltb l.burst permits)) [
    | inl never ↦ (l, over_quota duration_max, ground arith, h)
    | inr fits ↦
        let ((local, decision), taken) = take_total f l.local permits now p in
        (
          record l { local = local; monitor = rescue l.monitor decision },
          decision,
          ground arith,
          rescue_state l.monitor decision h,
        )
  ]

  -- Behind a probe that is gone: nobody waits.
  abbrev IsStuck : Client X → Type 0
  IsStuck q = (q.limiter.monitor.backend_state ≡ probing) × (q.waiting ≡ [])

  step-IsStuck :
      (q : Client X) (event : Event)
      → IsStuck q
      → AsksSome event
      → (q' : Client X) × (step q event ≡ some (q', 0)) × IsStuck q'
  unfolding step replied
  step-IsStuck q (takes c) h p =
      let (l, decision, made, still) = start_probing q.limiter c.permits c.now c.millis h.0 p in
      (record q { limiter = l }, rw made refl, (still, h.1))
  step-IsStuck q (replies i reply now millis) h p = (q, rw (ap (λ cs. get_elem? cs i) h.1) refl, h)
  step-IsStuck q (drops i) h p =
      (record q { waiting = without q.waiting i }, refl, (h.0, ap (λ cs. without cs i) h.1))

  run-IsStuck :
      (q : Client X) (events : List Event)
      → IsStuck q
      → All AsksSome events
      → (q' : Client X) × (run q events ≡ some (q', 0)) × IsStuck q'
  unfolding run
  run-IsStuck q [] h p = (q, refl, h)
  run-IsStuck q (event ∷ events) h p =
      let (q₁, made, h₁) = step-IsStuck q event h p.0 in
      let (q₂, rest, h₂) = run-IsStuck q₁ events h₁ p.1 in (q₂, rw (made, rest) refl, h₂)

  probe_starts :
      (l : RedisTokenLimiter X) (c : Call)
      → l.monitor.backend_state ≡ unavailable
      → l.monitor.next_probe_at_ms ≤ c.millis
      → 0 < c.permits
      → c.permits ≤ l.burst
      → token_start f l c.permits c.now c.millis
        ≡ some (record l { monitor = record l.monitor { backend_state = probing } }, waits)
  unfolding token_start should_attempt_redis
  probe_starts l c h due p fits = ground (arith, h)

  -- Let Redis be down, no call wait for it, and the next probe be due. The next call of `take`, with
  -- some permits and no more than the burst, asks Redis; let its future be dropped before the reply.
  -- Then, whatever calls with some permits, replies and drops follow and at whatever times, nothing
  -- panics, none of these calls asks Redis, no call waits for it, and the backend state is still that
  -- of the probe.
  pub abandoned_probe :
      (l : RedisTokenLimiter X) (c : Call) (events : List Event)
      → l.monitor.backend_state ≡ unavailable
      → l.monitor.next_probe_at_ms ≤ c.millis
      → 0 < c.permits
      → c.permits ≤ l.burst
      → All AsksSome events
      → (last : Client X) × (run (record { limiter = l; waiting = [] }) (takes c ∷ drops 0 ∷ events)
          ≡ some (last, 1))
        × (last.limiter.monitor.backend_state ≡ probing)
        × (last.waiting ≡ [])
  unfolding run step
  abandoned_probe l c events h due p fits asks =
      let stuck : Client X = record {
        limiter = record l { monitor = record l.monitor { backend_state = probing } };
        waiting = [];
      } in
      let (last, rest, (state, nobody)) = run-IsStuck stuck events (refl, refl) asks in
      (last, rw (probe_starts l c h due p fits, rest) refl, state, nobody)
