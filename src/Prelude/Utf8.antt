-- ===== src/Prelude/Utf8.antt =====
-- `String::from_utf8`: the ranges of the bytes that may follow a lead byte, and whether a text keeps to
-- them (the table of well-formed sequences of the Unicode standard).
use Prim.Native.Nat.{ℕ}
use mathlib.Core.Bool.{Bool, true, false, ◌&&◌}
use mathlib.Core.List.{List, [], ◌∷◌}
use mathlib.Core.Option.{Option, none, some}
use rust_zero.Prelude.Tests.{◌==◌, ltb, leb, if◌then◌else◌}
use rust_zero.Prelude.Texts.{Text}

abbrev pub Range : Type 0
Range = ℕ × ℕ

abbrev trailing : Range
trailing = (128, 191)

abbrev within : ℕ → Range → Bool
within b (low, high) = leb low b && leb b high

unfoldable pub following : ℕ → Option (List Range)
following b =
    if ltb b 128
    then some []
    else if ltb b 194
    then none
    else if ltb b 224
    then some (trailing ∷ [])
    else if b == 224
    then some ((160, 191) ∷ trailing ∷ [])
    else if b == 237
    then some ((128, 159) ∷ trailing ∷ [])
    else if ltb b 240
    then some (trailing ∷ trailing ∷ [])
    else if b == 240
    then some ((144, 191) ∷ trailing ∷ trailing ∷ [])
    else if ltb b 244
    then some (trailing ∷ trailing ∷ trailing ∷ [])
    else if b == 244
    then some ((128, 143) ∷ trailing ∷ trailing ∷ [])
    else none

-- `expected` are the bytes that the last sequence still lacks.
unfoldable pub valid_from : List Range → Text → Bool
valid_from [] [] = true
valid_from (range ∷ expected) [] = false
valid_from [] (b ∷ text) = elim (following b) [
  | none ↦ false
  | some expected ↦ valid_from expected text
]
valid_from (range ∷ expected) (b ∷ text) = within b range && valid_from expected text

unfoldable pub is_utf8 : Text → Bool
is_utf8 text = valid_from [] text
