-- ===== src/Prelude/Numerals.antt =====
-- `str::parse` of integers and booleans.
use Prim.Native.Nat.{ℕ, zero, suc, ◌+◌, ◌-◌, ◌*◌, ◌^◌}
use mathlib.Core.Bool.{Bool, true, false, ◌&&◌}
use mathlib.Core.List.{[], ◌∷◌}
use mathlib.Core.Option.{Option, none, some}
use rust_zero.Prelude.Partial.{◌>>=◌}
use rust_zero.Prelude.Tests.{◌==◌, ltb, leb, if◌then◌else◌}
use rust_zero.Prelude.Int.{ℤ, pos, negsuc}
use rust_zero.Prelude.Texts.{Text, same_text}

abbrev pub digit : ℕ → Option ℕ
digit c = if leb b'0' c && leb c b'9' then some (c - b'0') else none

-- The digits of a number, the first before `total`.
unfoldable pub digits_from : ℕ → Text → Option ℕ
digits_from total [] = some total
digits_from total (c ∷ text) = digit c >>= λ d. digits_from (total * 10 + d) text

unfoldable pub parse_digits : Text → Option ℕ
parse_digits [] = none
parse_digits (c ∷ text) = digits_from 0 (c ∷ text)

-- A sign before the digits of an unsigned number may only be a plus.
unfoldable pub parse_unsigned : ℕ → Text → Option ℕ
parse_unsigned bits [] = none
parse_unsigned bits (c ∷ text) =
    (if c == b'+' then parse_digits text else parse_digits (c ∷ text)) >>= λ n.
    if ltb n (2 ^ bits) then some n else none

-- -(n) within `bits` bits.
abbrev negated : ℕ → ℕ → Option ℤ
negated bits zero = some (pos 0)
negated bits (suc n) = if ltb n (2 ^ (bits - 1)) then some (negsuc n) else none

unfoldable pub parse_signed : ℕ → Text → Option ℤ
parse_signed bits [] = none
parse_signed bits (c ∷ text) =
    if c == b'-'
    then parse_digits text >>= negated bits
    else (if c == b'+' then parse_digits text else parse_digits (c ∷ text)) >>= λ n.
        if ltb n (2 ^ (bits - 1)) then some (pos n) else none

unfoldable pub parse_bool : Text → Option Bool
parse_bool text =
    if same_text text (b't' ∷ b'r' ∷ b'u' ∷ b'e' ∷ [])
    then some true
    else if same_text text (b'f' ∷ b'a' ∷ b'l' ∷ b's' ∷ b'e' ∷ [])
    then some false
    else none
