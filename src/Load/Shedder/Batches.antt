-- ===== src/Load/Shedder/Batches.antt =====
-- The batches of latencies by which the load shedder of core/src/load.rs adapts its limit.
use rust_zero.Prelude.{
  ℕ, suc, ◌+◌, ◌/◌, ◌<◌, ◌≤◌, ◌≡◌, refl, ap, ◌∙◌, arith, List, [], ◌∷◌, Option, some, ◌>>=◌, length,
}
use rust_zero.Prelude.Words.{u32, u64, u32_mod}
use rust_zero.Floats.{Float}
use rust_zero.Limit.Decision.{duration_max}
use rust_zero.Load.{ShedderState}
use rust_zero.Load.Config.{LoadShedderConfig}
use rust_zero.Load.Shedder.{record_sample, adjusted}

abbrev pub sum : List ℕ → ℕ
sum [] = 0
sum (n ∷ ns) = n + sum ns

module _ {X : Type 0} (f : Float X) (config : LoadShedderConfig X) where
  -- The state after permits that lasted this long are dropped.
  unfoldable pub record_samples : ShedderState X → List ℕ → Option (ShedderState X)
  record_samples s [] = some s
  record_samples s (elapsed ∷ es) = do s' ← record_sample f config s elapsed; record_samples s' es

  abbrev adapted : ShedderState X → ℕ → ShedderState X
  adapted s total = record s {
    sample_count = 0;
    total_latency = 0;
    current_limit = adjusted f config s.current_limit (total / config.sample_window);
  }

  sample_kept :
      (s : ShedderState X) (e : ℕ)
      → config.sample_window < u32_mod
      → s.sample_count + 1 < config.sample_window
      → s.total_latency + e ≤ duration_max
      → record_sample f config s e
        ≡ some (record s { sample_count = s.sample_count + 1; total_latency = s.total_latency + e })
  unfolding record_sample
  sample_kept s e small h room = ground arith

  sample_last :
      (s : ShedderState X) (e : ℕ)
      → config.sample_window < u32_mod
      → s.sample_count + 1 ≡ config.sample_window
      → s.total_latency + e ≤ duration_max
      → record_sample f config s e ≡ some (adapted s (s.total_latency + (e + 0)))
  unfolding record_sample
  sample_last s e small h room =
      let all : e + 0 ≡ e = omega arith in
      let width : u32 (u64 (s.sample_count + 1)) ≡ config.sample_window = omega arith in
      ground arith

  rest_of_batch :
      (s : ShedderState X) (e : ℕ) (es : List ℕ)
      → config.sample_window < u32_mod
      → s.sample_count + suc (length es) ≡ config.sample_window
      → s.total_latency + (e + sum es) ≤ duration_max
      → record_samples s (e ∷ es) ≡ some (adapted s (s.total_latency + (e + sum es)))
  unfolding record_samples
  rest_of_batch s e [] small h room = rw (sample_last s e small h (omega arith)) refl
  rest_of_batch s e (e' ∷ es) small h room =
      let next : ShedderState X = record s {
        sample_count = s.sample_count + 1;
        total_latency = s.total_latency + e;
      } in
      let short : s.sample_count + 1 < config.sample_window = omega (arith, h) in
      let same : s.total_latency + e + (e' + sum es) ≡ s.total_latency + (e + (e' + sum es)) =
        omega arith in
      rw (sample_kept s e small short (omega arith))
        (rw (← same) (rest_of_batch next e' es small (omega (arith, h)) (omega arith)))

  -- From the start of a batch, if `sample_window` is under 2 ^ 32, `sample_window` latencies whose sum
  -- is a duration change the limit once, by their average, and another batch starts.
  pub record_samples_batch :
      (s : ShedderState X) (e : ℕ) (es : List ℕ)
      → config.sample_window < u32_mod
      → s.sample_count ≡ 0
      → s.total_latency ≡ 0
      → length (e ∷ es) ≡ config.sample_window
      → sum (e ∷ es) ≤ duration_max
      → record_samples s (e ∷ es)
        ≡ some (record s {
          sample_count = 0;
          total_latency = 0;
          current_limit = adjusted f config s.current_limit (sum (e ∷ es) / config.sample_window);
        })
  record_samples_batch s e es small none_yet no_time full room =
      let all : s.total_latency + (e + sum es) ≡ sum (e ∷ es) = omega arith in
      let done = rest_of_batch s e es small (omega (arith, full, none_yet)) (omega arith) in
      done ∙ ap (λ n. some (adapted s n)) all
