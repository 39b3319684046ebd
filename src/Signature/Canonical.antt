-- ===== src/Signature/Canonical.antt =====
-- The text that core/src/auth.rs signs.
use rust_zero.Prelude.{
  ℕ, zero, suc, ◌+◌, ◌*◌, ◌/◌, ◌%◌, ◌^◌, ◌<◌, ◌≡◌, refl, sym, ap, ◌∙◌, arith, Bool, true, false, [],
  ◌∷◌, ◌++◌, some, ltb, ltb→lt, ◌==◌, ◌&&◌, All, All-append, All-map_imp, >>=-eq-some, Bool-cases,
  inl, inr, some-injective, leb,
}
use rust_zero.Prelude.Int.{ℤ, pos, negsuc}
use rust_zero.Prelude.Numerals.{digit, digits_from}
use rust_zero.Prelude.Texts.{Text, IsPlain}
use rust_zero.Hash.{decimal}
use rust_zero.Signature.{newline, print, to_ascii_uppercase, canonical}

digits_from-append :
    (total : ℕ) (text : Text) (c : ℕ) {n m : ℕ}
    → digits_from total text ≡ some n
    → digit c ≡ some m
    → digits_from total (text ++ c ∷ []) ≡ some (n * 10 + m)
unfolding digits_from
digits_from-append total [] c {n} {m} e f = rw f (ap (λ k. some (k * 10 + m)) (some-injective e))
digits_from-append total (b ∷ text) c e f =
    let (d, found, rest) = >>=-eq-some (digit b) (λ d. digits_from (total * 10 + d) text) e in
    rw found (digits_from-append (total * 10 + d) text c rest f)

digit_of : (n : ℕ) → n < 10 → digit (b'0' + n) ≡ some n
digit_of n h = ground arith

-- A number is read back from its digits.
digits_from-decimal : (fuel n : ℕ) → n < 10 ^ fuel → digits_from 0 (decimal fuel n) ≡ some n
unfolding digits_from decimal
digits_from-decimal zero n h = ap some (omega arith)
digits_from-decimal (suc fuel) n h = elim (Bool-cases (ltb n 10)) [
  | inl e ↦ rw e (let read = digit_of n (ltb→lt n 10 e) in rw read (ap some (omega arith)))
  | inr e ↦ rw e (
      digits_from-append 0 (decimal fuel (n / 10)) (b'0' + n % 10)
        (digits_from-decimal fuel (n / 10) (omega arith)) (digit_of (n % 10) (omega arith))
      ∙ ap some (omega arith))
]

decimal-injective : (n m : ℕ) → n < 10 ^ 20 → m < 10 ^ 20 → decimal 20 n ≡ decimal 20 m → n ≡ m
decimal-injective n m h k e =
    some-injective
      (sym (digits_from-decimal 20 n h) ∙ ap (digits_from 0) e ∙ digits_from-decimal 20 m k)

-- Every byte of a number is a digit.
abbrev IsDigits : Text → Type 0
IsDigits = All (λ c. (leb b'0' c && leb c b'9') ≡ true)

decimal-IsDigits : (fuel n : ℕ) → IsDigits (decimal fuel n)
unfolding decimal
decimal-IsDigits zero n = tt
decimal-IsDigits (suc fuel) n = elim (Bool-cases (ltb n 10)) [
  | inl e ↦ rw e (ground arith, tt)
  | inr e ↦ rw e (
      All-append (λ c. (leb b'0' c && leb c b'9') ≡ true) (decimal fuel (n / 10))
        ((b'0' + n % 10) ∷ []) (decimal-IsDigits fuel (n / 10)) (ground arith, tt))
]

IsDigits-IsPlain : (s : Text) → IsDigits s → IsPlain newline s
IsDigits-IsPlain = All-map_imp (λ c h. ground arith)

print-IsPlain : (t : ℤ) → IsPlain newline (print t)
unfolding print
print-IsPlain (pos n) = IsDigits-IsPlain (decimal 20 n) (decimal-IsDigits 20 n)
print-IsPlain (negsuc n) =
    (refl, IsDigits-IsPlain (decimal 20 (n + 1)) (decimal-IsDigits 20 (n + 1)))

-- `i64`
abbrev pub IsI64 : ℤ → Type 0
IsI64 (pos n) = n < 2 ^ 63
IsI64 (negsuc n) = n < 2 ^ 63

-- A text of digits does not begin with a minus sign.
no_minus : (s t : Text) → IsDigits s → s ≡ b'-' ∷ t → ◌≡◌ {A = Bool} true false
no_minus [] t h e = cc
no_minus (c ∷ s) t h e = let same : c ≡ b'-' = cc in ground arith

print-injective : (t u : ℤ) → IsI64 t → IsI64 u → print t ≡ print u → t ≡ u
unfolding print
print-injective (pos n) (pos m) h k e = ap pos (decimal-injective n m (omega arith) (omega arith) e)
print-injective (pos n) (negsuc m) h k e =
    let never = no_minus (decimal 20 n) (decimal 20 (m + 1)) (decimal-IsDigits 20 n) e in cc
print-injective (negsuc n) (pos m) h k e =
    let never = no_minus (decimal 20 m) (decimal 20 (n + 1)) (decimal-IsDigits 20 m) (sym e) in cc
print-injective (negsuc n) (negsuc m) h k e =
    let tails : decimal 20 (n + 1) ≡ decimal 20 (m + 1) = cc in
    let same = decimal-injective (n + 1) (m + 1) (omega arith) (omega arith) tails in
    ap negsuc (omega arith)

-- A plain text before a separator is the same in equal texts.
plain_before :
    (d : ℕ) (s s' t t' : Text)
    → IsPlain d s
    → IsPlain d s'
    → s ++ d ∷ t ≡ s' ++ d ∷ t'
    → (s ≡ s') × (t ≡ t')
plain_before d [] [] t t' h k e = (refl, cc)
plain_before d [] (c ∷ s') t t' h k e =
    let same : d ≡ c = cc in let never : (c == d) ≡ false = k.0 in absurd (ground arith)
plain_before d (c ∷ s) [] t t' h k e =
    let same : c ≡ d = cc in let never : (c == d) ≡ false = h.0 in absurd (ground arith)
plain_before d (c ∷ s) (c' ∷ s') t t' h k e =
    let head : c ≡ c' = cc in
    let tails : s ++ d ∷ t ≡ s' ++ d ∷ t' = cc in
    let (same, same') = plain_before d s s' t t' h.1 k.1 tails in (cc, same')

upper-IsPlain : (s : Text) → IsPlain newline s → IsPlain newline (to_ascii_uppercase s)
unfolding to_ascii_uppercase
upper-IsPlain [] h = tt
upper-IsPlain (c ∷ s) h = (let plain = h.0 in ground arith, upper-IsPlain s h.1)

-- Equal texts are made of equal parts, but for the case of the methods.
pub canonical-injective :
    (t t' : ℤ) (method method' target target' : Text)
    → IsI64 t
    → IsI64 t'
    → IsPlain newline method
    → IsPlain newline method'
    → canonical t method target ≡ canonical t' method' target'
    → (t ≡ t') × (to_ascii_uppercase method ≡ to_ascii_uppercase method') × (target ≡ target')
unfolding canonical
canonical-injective t t' method method' target target' i i' p p' e =
    let (printed, rest) =
      plain_before newline (print t) (print t') (to_ascii_uppercase method ++ newline ∷ target)
        (to_ascii_uppercase method' ++ newline ∷ target') (print-IsPlain t) (print-IsPlain t') e in
    let (methods, targets) =
      plain_before newline (to_ascii_uppercase method) (to_ascii_uppercase method') target target'
        (upper-IsPlain method p) (upper-IsPlain method' p') rest in
    (print-injective t t' i i' printed, methods, targets)
