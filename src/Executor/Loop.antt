-- ===== src/Executor/Loop.antt =====
-- The loop of the workers of core/src/executor.rs, for any round of it, and its rules.
use mathlib.Core.List.{append_assoc, append-nil}
use rust_zero.Prelude.{
  ◌≡◌, refl, sym, ap, ◌∙◌, Bool, true, false, not, List, [], ◌∷◌, ◌++◌, if◌then◌else◌, inl, inr,
  Bool-cases, subst, All, All-append,
}
use rust_zero.Executor.{Output, executes, replies, executed, batches, flush_batch}

-- A round gives the state that is left, what is done, and if the loop goes on.
abbrev pub Round : Type 0 → Type 0 → Type 0 → Type 0
Round S E T = S × List (Output T) × Bool

module _ {S E T : Type 0} (step : S → E → Round S E T) where
  unfoldable pub run : S → List E → Round S E T
  run s [] = (s, [], true)
  run s (e ∷ es) =
      let (s', outputs, goes_on) = step s e in
      let (last, later, goes_on') = run s' es in
      if goes_on then (last, outputs ++ later, goes_on') else (s', outputs, false)

-- The items that a worker takes from its channel until it stops.
module _ {E T : Type 0} (values : E → List T) (ends : E → Bool) where
  abbrev pub items : List E → List T
  items [] = []
  items (e ∷ es) = values e ++ (if ends e then [] else items es)

pub executed-append :
    {T : Type 0} (os ps : List (Output T)) → executed (os ++ ps) ≡ executed os ++ executed ps
executed-append [] ps = refl
executed-append (executes batch ∷ os) ps =
    ap (λ k. batch ++ k) (executed-append os ps)
    ∙ sym (append_assoc batch (executed os) (executed ps))
executed-append (replies n ∷ os) ps = executed-append os ps

pub batches-append :
    {T : Type 0} (os ps : List (Output T)) → batches (os ++ ps) ≡ batches os ++ batches ps
batches-append [] ps = refl
batches-append (executes batch ∷ os) ps = ap (λ k. batch ∷ k) (batches-append os ps)
batches-append (replies n ∷ os) ps = batches-append os ps

pub executed-flush_batch : {T : Type 0} (batch : List T) → executed (flush_batch batch) ≡ batch
unfolding flush_batch
executed-flush_batch [] = refl
executed-flush_batch (value ∷ batch) = append-nil (value ∷ batch)

regroup :
    {T : Type 0} (a b c h v w : List T) → a ++ h ≡ b ++ v → c ≡ h ++ w → a ++ c ≡ b ++ (v ++ w)
regroup a b c h v w p q =
    ap (λ k. a ++ k) q ∙ sym (append_assoc a h w) ∙ ap (λ k. k ++ w) p ∙ append_assoc b v w

module _ {S E T : Type 0} (step : S → E → Round S E T) (held : S → List T) (values : E → List T)
    (ends : E → Bool)
    (keeps : (s : S) (e : E) → executed (step s e).1 ++ held (step s e).0 ≡ held s ++ values e)
    (stops : (s : S) (e : E) → (step s e).2 ≡ not (ends e)) where
  -- If each round keeps its items, so does the loop.
  pub kept-run :
      (s : S) (es : List E)
      → executed (run step s es).1 ++ held (run step s es).0 ≡ held s ++ items values ends es
  unfolding run
  kept-run s [] = sym (append-nil (held s))
  kept-run s (e ∷ es) =
      let (s', os, goes_on) = step s e in
      let (last, later, goes_on') = run step s' es in
      elim (Bool-cases (ends e)) [
        | inl yes_ends ↦
            let halts : goes_on ≡ false = rw (stops s e, yes_ends) refl in
            rw (halts, yes_ends) (keeps s e ∙ ap (λ k. held s ++ k) (sym (append-nil (values e))))
        | inr no_end ↦
            let goes : goes_on ≡ true = rw (stops s e, no_end) refl in
            rw (goes, no_end)
              (ap (λ k. k ++ held last) (executed-append os later)
                ∙ append_assoc (executed os) (executed later) (held last)
                ∙ regroup (executed os) (held s) (executed later ++ held last) (held s') (values e)
                    (items values ends es) (keeps s e) (kept-run s' es))
      ]

module _ {S E T : Type 0} (step : S → E → Round S E T) (P : S → Type 0) (Q : List T → Type 0)
    (steps : (s : S) (e : E)
      → P s
      → ((step s e).2 ≡ true → P (step s e).0) × All Q (batches (step s e).1)) where
  -- What an invariant of the rounds gives each batch of a round, it gives each batch of the loop.
  pub run_holds : (s : S) (es : List E) → P s → All Q (batches (run step s es).1)
  unfolding run
  run_holds s [] p = tt
  run_holds s (e ∷ es) p =
      let (s', os, goes_on) = step s e in
      let (last, later, goes_on') = run step s' es in
      let (keeps, here) = steps s e p in
      elim (Bool-cases goes_on) [
        | inl goes ↦ rw goes (
            subst (All Q) (sym (batches-append os later))
              (All-append Q (batches os) (batches later) here (run_holds s' es (keeps goes))))
        | inr halts ↦ rw halts here
      ]

module _ {S E T : Type 0} (step : S → E → Round S E T) (ends : E → Bool)
    (stops : (s : S) (e : E) → (step s e).2 ≡ not (ends e)) where
  -- What the loop has done by a later event, if none before it ends the loop.
  pub run-append :
      (s : S) (es fs : List E)
      → All (λ e. ends e ≡ false) es
      → (run step s (es ++ fs)).1 ≡ (run step s es).1 ++ (run step (run step s es).0 fs).1
  unfolding run
  run-append s [] fs h = refl
  run-append s (e ∷ es) fs h =
      let (s', os, goes_on) = step s e in
      let (last, later, goes_on') = run step s' es in
      let goes : goes_on ≡ true = rw (stops s e, h.0) refl in
      rw goes (
        ap (λ k. os ++ k) (run-append s' es fs h.1)
        ∙ sym (append_assoc os later (run step last fs).1))
