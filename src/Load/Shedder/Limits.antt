-- ===== src/Load/Shedder/Limits.antt =====
-- Well-formed states of the load shedder, and what its critical sections do to them.
use rust_zero.Prelude.{
  ℕ, zero, suc, ◌+◌, ◌-◌, ◌/◌, ◌≤◌, ◌<◌, ◌≡◌, refl, ap, arith, Bool, true, false, List, [], ◌∷◌,
  ◌++◌, Option, none, some, dec_lt, ◌⊎◌, Bool-cases, inl, inr, subst, leb, if◌then◌else◌, min,
  length, length-append, length-drop,
}
use rust_zero.Prelude.Words.{u32, u64, u64_mod, u32_mod}
use rust_zero.Floats.{Float, FloatLaws}
use rust_zero.Limit.Decision.{duration_max}
use rust_zero.Window.Update.{update_back-IsBounded}
use rust_zero.Load.{
  Bucket, ShedderState, empty_bucket, rotate_buckets, rotated, pushed, trimmed, last_started,
  rolling_capacity, production_limit, limit_for,
}
use rust_zero.Load.Config.{LoadShedderMode, latency, cpu_throughput, LoadShedderConfig}
use rust_zero.Load.Shedder.{
  check, cool, decided, instant_max, limit_in, is_refused, is_latency, smooth, adjusted,
  record_sample, record_completion, limited, average, drop_permit, complete, initial,
}

pub record IsConfig {X : Type 0} (config : LoadShedderConfig X) : Type 0 where
  pub capacity : (0 < config.max_concurrency) × (config.max_concurrency + 1 < u64_mod)
  pub room : 0 < config.bucket_count
  pub wide : 0 < config.bucket_duration
  pub window : (0 < config.sample_window) × (config.sample_window < u32_mod)

pub record IsValid {X : Type 0} (config : LoadShedderConfig X) (s : ShedderState X) : Type 0 where
  pub limit : (0 < s.current_limit) × (s.current_limit ≤ config.max_concurrency)
  pub buckets : (0 < length s.buckets) × (length s.buckets ≤ config.bucket_count)
  pub samples : s.sample_count < config.sample_window

length-pushed : (latest width step n : ℕ) → length (pushed latest width step n) ≡ n
unfolding pushed
length-pushed latest width step zero = refl
length-pushed latest width step (suc n) = ap suc (length-pushed latest width (suc step) n)

length-rotated :
    (width count : ℕ) (bs : List Bucket) (latest now : ℕ)
    → 0 < count
    → 0 < length bs
    → (0 < length (rotated width count bs latest now))
      × (length (rotated width count bs latest now) ≤ count)
unfolding rotated trimmed
length-rotated width count bs latest now room h =
    let n = min (u64 ((now - latest) / width)) count in
    let longer = bs ++ pushed latest width 0 n in
    ground (
      arith,
      length-pushed latest width 0 n,
      length-append bs (pushed latest width 0 n),
      length-drop (length longer - count) longer,
    )

last_started-some :
    (bs : List Bucket) → 0 < length bs → (latest : ℕ) × (last_started bs ≡ some latest)
unfolding last_started
last_started-some [] h = elim h [ ]
last_started-some (b ∷ []) h = (b.started_at, refl)
last_started-some (b ∷ c ∷ bs) h = last_started-some (c ∷ bs) (ground arith)

either_total :
    {S : Type 0} {P : S → Type 0} {a c : Option S} (b : Bool)
    → (s : S) × (a ≡ some s) × P s
    → (s : S) × (c ≡ some s) × P s
    → (s : S) × ((if b then a else c) ≡ some s) × P s
either_total true p q = p
either_total false p q = q

module _ {X : Type 0} (config : LoadShedderConfig X) (i : IsConfig config) where
  pub rotate_buckets_total :
      (s : ShedderState X) (now : ℕ)
      → IsValid config s
      → (r : ShedderState X) × (rotate_buckets config s now ≡ some r) × IsValid config r
  unfolding rotate_buckets
  rotate_buckets_total s now v =
      let (latest, started) = last_started-some s.buckets v.buckets.0 in
      let bs = rotated config.bucket_duration config.bucket_count s.buckets latest now in
      (
        record s { buckets = bs },
        ground (arith, started, i.wide),
        record {
          limit = v.limit;
          buckets =
              length-rotated config.bucket_duration config.bucket_count s.buckets latest now i.room
                v.buckets.0;
          samples = v.samples;
        },
      )

  module _ (f : Float X) (laws : FloatLaws f) where
    limit_for-bounds :
        (x : X) (m : Option ℕ)
        → (0 < limit_for f config x m) × (limit_for f config x m ≤ config.max_concurrency)
    unfolding limit_for
    limit_for-bounds x none = (i.capacity.0, omega arith)
    limit_for-bounds x (some m) =
        let large = laws.to_ℕ_maximum (f.ceil (f.times x (f.as_secs m))) 1 (omega arith) in
        ground (arith, large, i.capacity)

    limit_in-bounds :
        (mode : LoadShedderMode) (s : ShedderState X)
        → IsValid config s
        → (0 < limit_in f config mode s) × (limit_in f config mode s ≤ config.max_concurrency)
    unfolding limit_in production_limit rolling_capacity
    limit_in-bounds latency s v = v.limit
    limit_in-bounds cpu_throughput s v = limit_for-bounds _ _

    admitted_lt :
        (s : ShedderState X) (active now : ℕ) (usage : X)
        → is_refused f config s active now usage ≡ false
        → active < config.max_concurrency
    unfolding is_refused
    admitted_lt s active now usage e = ground (arith, e)

    -- What a check leaves if it returns: a valid state, and a thread that goes on only if the
    -- `in_flight` that it loaded is under `max_concurrency`.
    abbrev pub Checks : ℕ → Option (ShedderState X × Bool) → Type 0
    Checks active none = Unit
    Checks active (some (s, passed)) =
        IsValid config s × ((passed ≡ false) ⊎ (active < config.max_concurrency))

    cool-Checks :
        (s : ShedderState X) (active until : ℕ)
        → IsValid config s
        → Checks active (cool f config s until)
    unfolding cool
    cool-Checks s active until v = elim (Bool-cases (leb until instant_max)) [
      | inl e ↦
          rw e (record { limit = v.limit; buckets = v.buckets; samples = v.samples }, inl refl)
      | inr e ↦ rw e tt
    ]

    decided-Checks :
        (s : ShedderState X) (active now : ℕ) (usage : X)
        → IsValid config s
        → Checks active (decided f config s active now usage)
    unfolding decided
    decided-Checks s active now usage v =
        elim (Bool-cases (is_refused f config s active now usage)) [
          | inl e ↦ rw e (elim (Bool-cases (f.le config.cpu_threshold usage)) [
            | inl hot ↦ rw hot (cool-Checks s active (now + config.cooldown) v)
            | inr cold ↦ rw cold (v, inl refl)
          ])
          | inr e ↦ rw e (v, inr (admitted_lt s active now usage e))
        ]

    decided_returns :
        (s : ShedderState X) (active now : ℕ) (usage : X)
        → now + config.cooldown ≤ instant_max
        → (r : ShedderState X × Bool) × (decided f config s active now usage ≡ some r)
    unfolding decided cool
    decided_returns s active now usage h =
        elim (Bool-cases (is_refused f config s active now usage)) [
          | inl e ↦ elim (Bool-cases (f.le config.cpu_threshold usage)) [
            | inl hot ↦ (
              (record s { cooldown_until = some (now + config.cooldown) }, false),
              ground (arith, h),
            )
            | inr cold ↦ ((s, false), rw e (rw cold refl))
          ]
          | inr e ↦ ((s, true), rw e refl)
        ]

    pub check-Checks :
        (s : ShedderState X) (active now : ℕ) (usage : X)
        → IsValid config s
        → Checks active (check f config s active now usage)
    unfolding check
    check-Checks s active now usage v =
        let (r, e, w) = rotate_buckets_total s now v in
        let next : ShedderState X = record r { current_limit = limit_in f config config.mode r } in
        let valid : IsValid config next = record {
          limit = limit_in-bounds config.mode r w;
          buckets = w.buckets;
          samples = w.samples;
        } in
        rw e (decided-Checks next active now usage valid)

    -- In a valid state a check panics only if the end of the cooldown is beyond the last instant.
    pub check_returns :
        (s : ShedderState X) (active now : ℕ) (usage : X)
        → IsValid config s
        → now + config.cooldown ≤ instant_max
        → (r : ShedderState X × Bool) × (check f config s active now usage ≡ some r)
    unfolding check
    check_returns s active now usage v h =
        let (r, e, w) = rotate_buckets_total s now v in
        let next : ShedderState X = record r { current_limit = limit_in f config config.mode r } in
        let (made, same) = decided_returns next active now usage h in (made, rw e same)

    adjusted-bounds :
        (limit mean : ℕ)
        → (0 < limit) × (limit ≤ config.max_concurrency)
        → (0 < adjusted f config limit mean)
          × (adjusted f config limit mean ≤ config.max_concurrency)
    unfolding adjusted
    adjusted-bounds limit mean h = ground (arith, i.capacity, h)

    record_sample_total :
        (s : ShedderState X) (elapsed : ℕ)
        → IsValid config s
        → s.total_latency + elapsed ≤ duration_max
        → (s' : ShedderState X) × (record_sample f config s elapsed ≡ some s') × IsValid config s'
    unfolding record_sample
    record_sample_total s elapsed v room =
        let count = u64 (s.sample_count + 1) in
        let next = record s {
          sample_count = 0;
          total_latency = 0;
          current_limit =
              adjusted f config s.current_limit ((s.total_latency + elapsed) / u32 count);
        } in
        let b = adjusted-bounds s.current_limit ((s.total_latency + elapsed) / u32 count) v.limit in
        elim (dec_lt count config.sample_window) [
          | yes p ↦ (
            record s { sample_count = count; total_latency = s.total_latency + elapsed },
            ground (arith, p, room),
            record { limit = v.limit; buckets = v.buckets; samples = p },
          )
          | no q ↦ (
            next,
            ground (arith, q, v.samples, i.window, room),
            record { limit = b; buckets = v.buckets; samples = i.window.0 },
          )
        ]

    record_sample_panics :
        (s : ShedderState X) (elapsed : ℕ)
        → duration_max < s.total_latency + elapsed
        → record_sample f config s elapsed ≡ none
    unfolding record_sample
    record_sample_panics s elapsed h = ground (arith, h)

    record_completion_total :
        (s : ShedderState X) (active elapsed now : ℕ)
        → IsValid config s
        → (s' : ShedderState X) × (record_completion f config s active elapsed now ≡ some s')
          × IsValid config s'
    unfolding record_completion limited limit_in
    record_completion_total s active elapsed now v =
        let (r, e, w) = rotate_buckets_total s now v in
        let (buckets, u, bounded) =
          update_back-IsBounded (complete elapsed) (empty_bucket now) config.bucket_count i.room
            r.buckets w.buckets in
        let next : ShedderState X = record r {
          buckets = buckets;
          smoothed_in_flight = average f config (f.of_ℕ active) r.smoothed_in_flight;
        } in
        (
          limited f config next,
          rw e (rw u refl),
          record {
            limit =
                limit_in-bounds cpu_throughput next
                  (record { limit = w.limit; buckets = bounded; samples = w.samples });
            buckets = bounded;
            samples = w.samples;
          },
        )

    -- In a valid state the drop of a permit panics only if the sum of the latencies is beyond the
    -- largest duration.
    pub drop_permit_total :
        (s : ShedderState X) (active elapsed now : ℕ)
        → IsValid config s
        → s.total_latency + elapsed ≤ duration_max
        → (s' : ShedderState X) × (drop_permit f config s active elapsed now ≡ some s')
          × IsValid config s'
    unfolding drop_permit
    drop_permit_total s active elapsed now v room =
        either_total (is_latency config.mode) (record_sample_total s elapsed v room)
          (record_completion_total s active elapsed now v)

    -- If it returns, the state is valid.
    pub drop_permit-IsValid :
        (s s' : ShedderState X) (active elapsed now : ℕ)
        → IsValid config s
        → drop_permit f config s active elapsed now ≡ some s'
        → IsValid config s'
    unfolding drop_permit
    drop_permit-IsValid s s' active elapsed now v e =
        elim (dec_lt duration_max (s.total_latency + elapsed)) [
          | yes h ↦ elim (Bool-cases (is_latency config.mode)) [
            | inl t ↦
                absurd
                  (let panics = record_sample_panics s elapsed h in ground (arith, e, t, panics))
            | inr t ↦
                let (u, found, w) = record_completion_total s active elapsed now v in
                let same : u ≡ s' = ground (arith, e, t, found) in subst (IsValid config) same w
          ]
          | no h ↦
              let (u, found, w) = drop_permit_total s active elapsed now v (omega (arith, h)) in
              let same : u ≡ s' = cc in subst (IsValid config) same w
        ]

    pub smooth-IsValid :
        (s : ShedderState X) (active : ℕ)
        → IsValid config s
        → IsValid config (smooth f config s active)
    unfolding smooth
    smooth-IsValid s active v = record { limit = v.limit; buckets = v.buckets; samples = v.samples }

    pub initial-IsValid : (now : ℕ) → IsValid config (initial f config now)
    unfolding initial
    initial-IsValid now = record {
      limit = ground (arith, i.capacity);
      buckets = omega (arith, i.room);
      samples = i.window.0;
    }
