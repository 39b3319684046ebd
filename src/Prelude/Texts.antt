-- ===== src/Prelude/Texts.antt =====
-- Texts as their bytes, with the functions on `str` that several components call.
use Prim.Native.Nat.{ℕ}
use mathlib.Core.Path.{◌≡◌, refl, sym, ap, ◌∙◌}
use mathlib.Core.Bool.{Bool, true, false, ◌&&◌, ◌||◌}
use mathlib.Core.Logic.{inl, inr}
use mathlib.Core.List.{List, [], ◌∷◌, ◌++◌}
use mathlib.Core.Option.{Option, none, some}
use native.Mathlib.Omega.{arith}
use rust_zero.Prelude.Tests.{◌==◌, ==_iff, if◌then◌else◌, Bool-cases}
use rust_zero.Prelude.Lists.{All}

abbrev pub Text : Type 0
Text = List ℕ

abbrev pub is_empty : Text → Bool
is_empty [] = true
is_empty (c ∷ text) = false

abbrev pub same_text : Text → Text → Bool
same_text [] [] = true
same_text [] (c ∷ text) = false
same_text (c ∷ text) [] = false
same_text (c ∷ text) (d ∷ other) = (c == d) && same_text text other

pub same_text_refl : (s : Text) → same_text s s ≡ true
same_text_refl [] = refl
same_text_refl (b ∷ s) = rw ((==_iff b b).1 refl, same_text_refl s) refl

pub same_text→eq : (s t : Text) → same_text s t ≡ true → s ≡ t
same_text→eq [] [] h = refl
same_text→eq [] (c ∷ t) h = cc
same_text→eq (c ∷ s) [] h = cc
same_text→eq (c ∷ s) (d ∷ t) h = ground (arith, same_text→eq s t, ==_iff c d)

abbrev pub any : {A : Type 0} → (A → Bool) → List A → Bool
any p [] = false
any p (a ∷ as') = p a || any p as'

abbrev pub prepend : ℕ → List Text → List Text
prepend c [] = (c ∷ []) ∷ []
prepend c (segment ∷ segments) = (c ∷ segment) ∷ segments

abbrev pub starts_with : ℕ → Text → Bool
starts_with d [] = false
starts_with d (c ∷ text) = c == d

-- `contains` of a byte.
abbrev pub has : ℕ → Text → Bool
has d = any (λ c. c == d)

unfoldable pub strip_prefix : ℕ → Text → Option Text
strip_prefix d [] = none
strip_prefix d (c ∷ text) = if c == d then some text else none

abbrev pub after : ℕ → Option Text → Option Text
after c none = none
after c (some text) = some (c ∷ text)

unfoldable pub strip_suffix : ℕ → Text → Option Text
strip_suffix d [] = none
strip_suffix d (c ∷ []) = if c == d then some [] else none
strip_suffix d (c ∷ b ∷ text) = after c (strip_suffix d (b ∷ text))

abbrev pub after_first : ℕ → Option (Text × Text) → Option (Text × Text)
after_first c none = none
after_first c (some (s, t)) = some (c ∷ s, t)

-- `split_once` at a byte.
unfoldable pub split_once_at : ℕ → Text → Option (Text × Text)
split_once_at d [] = none
split_once_at d (c ∷ text) =
    let rest = split_once_at d text in if c == d then some ([], text) else after_first c rest

unfoldable pub trim_start_matches : ℕ → Text → Text
trim_start_matches d [] = []
trim_start_matches d (c ∷ text) =
    let rest = trim_start_matches d text in if c == d then rest else c ∷ text

unfoldable pub trim_end_matches : ℕ → Text → Text
trim_end_matches d [] = []
trim_end_matches d (c ∷ text) =
    let rest = trim_end_matches d text in if is_empty rest && (c == d) then [] else c ∷ rest

abbrev pub trim_matches : ℕ → Text → Text
trim_matches d text = trim_end_matches d (trim_start_matches d text)

-- `split` at a byte.
unfoldable pub split : ℕ → Text → List Text
split d [] = [] ∷ []
split d (c ∷ text) = if c == d then [] ∷ split d text else prepend c (split d text)

-- The byte does not occur.
abbrev pub IsPlain : ℕ → Text → Type 0
IsPlain d = All (λ c. (c == d) ≡ false)

module _ (d : ℕ) where
  pub split_plain : (s t : Text) → IsPlain d s → split d (s ++ d ∷ t) ≡ s ∷ split d t
  unfolding split
  split_plain [] t h = rw ((==_iff d d).1 refl) refl
  split_plain (c ∷ s) t h = rw (h.0, split_plain s t h.1) refl

  pub split_last : (s : Text) → IsPlain d s → split d s ≡ s ∷ []
  unfolding split
  split_last [] h = refl
  split_last (c ∷ s) h = rw (h.0, split_last s h.1) refl

  -- There is a first part.
  pub split_first : (t : Text) → (s : Text) × (ss : List Text) × (split d t ≡ s ∷ ss)
  unfolding split
  split_first [] = ([], [], refl)
  split_first (c ∷ t) = elim (Bool-cases (c == d)) [
    | inl e ↦ ([], split d t, rw e refl)
    | inr e ↦ let (s, ss, same) = split_first t in (c ∷ s, ss, rw (e, same) refl)
  ]

  -- The parts with the byte between them.
  abbrev pub joined : List Text → Text
  joined [] = []
  joined (s ∷ []) = s
  joined (s ∷ t ∷ ts) = s ++ d ∷ joined (t ∷ ts)

  joined-prepend : (c : ℕ) (ss : List Text) → joined (prepend c ss) ≡ c ∷ joined ss
  joined-prepend c [] = refl
  joined-prepend c (s ∷ []) = refl
  joined-prepend c (s ∷ t ∷ ts) = refl

  joined_next : (c : ℕ) (ss : List Text) → joined ([] ∷ prepend c ss) ≡ d ∷ joined (prepend c ss)
  joined_next c [] = refl
  joined_next c (s ∷ ss) = refl

  joined_empty : (t : Text) → joined ([] ∷ split d t) ≡ d ∷ joined (split d t)
  unfolding split
  joined_empty [] = refl
  joined_empty (c ∷ t) = elim (Bool-cases (c == d)) [
    | inl e ↦ rw e refl
    | inr e ↦ rw e (joined_next c (split d t))
  ]

  pub joined-split : (t : Text) → joined (split d t) ≡ t
  unfolding split
  joined-split [] = refl
  joined-split (c ∷ t) = elim (Bool-cases (c == d)) [
    | inl e ↦ rw e (
        joined_empty t
        ∙ ap (λ k. d ∷ k) (joined-split t)
        ∙ ap (λ b. b ∷ t) (sym ((==_iff c d).0 e)))
    | inr e ↦ rw e (joined-prepend c (split d t) ∙ ap (λ k. c ∷ k) (joined-split t))
  ]

  -- Plain parts come back from the text that joins them.
  pub split-joined :
      (s : Text) (ss : List Text) → All (IsPlain d) (s ∷ ss) → split d (joined (s ∷ ss)) ≡ s ∷ ss
  split-joined s [] h = split_last s h.0
  split-joined s (t ∷ ss) h =
      split_plain s (joined (t ∷ ss)) h.0 ∙ ap (λ k. s ∷ k) (split-joined t ss h.1)
