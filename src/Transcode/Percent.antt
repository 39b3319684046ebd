-- ===== src/Transcode/Percent.antt =====
-- An encoder of RFC 3986 and the decoder of gateway/src/transcode.rs.
use rust_zero.Prelude.{
  ℕ, ◌+◌, ◌/◌, ◌%◌, ◌<◌, ◌≡◌, refl, ap, arith, Bool, true, false, [], ◌∷◌, some, ltb, ◌==◌, ==_iff,
  if◌then◌else◌, All, Bool-cases, inl, inr,
}
use rust_zero.Prelude.Results.{ok}
use rust_zero.Prelude.Texts.{Text}
use rust_zero.Prelude.Utf8.{is_utf8}
use rust_zero.Transcode.{percent, plus, hex_digit, hex_byte, decode_from, percent_decode}

abbrev pub hex_upper : ℕ → ℕ
hex_upper n = if ltb n 10 then b'0' + n else 55 + n

-- Every byte that `keep` does not keep is escaped.
unfoldable pub percent_encode : (ℕ → Bool) → Text → Text
percent_encode keep [] = []
percent_encode keep (c ∷ text) =
    let rest = percent_encode keep text in
    if keep c then c ∷ rest else percent ∷ hex_upper (c / 16) ∷ hex_upper (c % 16) ∷ rest

hex_digit-hex_upper : (n : ℕ) → n < 16 → hex_digit (hex_upper n) ≡ some n
hex_digit-hex_upper n h = ground arith

hex_upper-plus : (n : ℕ) → (hex_upper n == plus) ≡ false
hex_upper-plus n = ground arith

hex_byte-hex_upper :
    (c : ℕ) (text : Text)
    → c < 256
    → hex_byte (hex_upper (c / 16) ∷ hex_upper (c % 16) ∷ text) ≡ some c
unfolding hex_byte
hex_byte-hex_upper c text h =
    rw
      (
        hex_upper-plus (c / 16),
        hex_digit-hex_upper (c / 16) (omega arith),
        hex_digit-hex_upper (c % 16) (omega arith),
      )
      (ap some (omega arith))

decode_from_plain :
    (c : ℕ) (text : Text) {bytes : Text}
    → (c == percent) ≡ false
    → (c == plus) ≡ false
    → decode_from 0 text ≡ ok bytes
    → decode_from 0 (c ∷ text) ≡ ok (c ∷ bytes)
unfolding decode_from
decode_from_plain c text p q e = ground arith

decode_from_escape :
    (c : ℕ) (text : Text) {bytes : Text}
    → c < 256
    → decode_from 0 text ≡ ok bytes
    → decode_from 0 (percent ∷ hex_upper (c / 16) ∷ hex_upper (c % 16) ∷ text) ≡ ok (c ∷ bytes)
unfolding decode_from
decode_from_escape c text h e = ground (arith, hex_byte-hex_upper c text h)

pub kept : (keep : ℕ → Bool) (c d : ℕ) → keep c ≡ true → keep d ≡ false → (c == d) ≡ false
kept keep c d h n = elim (Bool-cases (c == d)) [
  | inl e ↦ let same = ap keep ((==_iff c d).0 e) in cc
  | inr e ↦ e
]

module _ (keep : ℕ → Bool) (no_percent : keep percent ≡ false) (no_plus : keep plus ≡ false) where
  decode_from-percent_encode :
      (text : Text) → All (λ c. c < 256) text → decode_from 0 (percent_encode keep text) ≡ ok text
  unfolding decode_from percent_encode
  decode_from-percent_encode [] h = refl
  decode_from-percent_encode (c ∷ text) h = elim (Bool-cases (keep c)) [
    | inl e ↦ rw e (
        decode_from_plain c (percent_encode keep text) (kept keep c percent e no_percent)
          (kept keep c plus e no_plus) (decode_from-percent_encode text h.1))
    | inr e ↦
        rw e (
          decode_from_escape c (percent_encode keep text) h.0 (decode_from-percent_encode text h.1))
  ]

  -- What an encoder that escapes at least `%` and `+` makes of a text is decoded to the text.
  pub percent_decode-percent_encode :
      (text : Text)
      → All (λ c. c < 256) text
      → is_utf8 text ≡ true
      → percent_decode (percent_encode keep text) ≡ ok text
  unfolding percent_decode
  percent_decode-percent_encode text bytes valid =
      rw (decode_from-percent_encode text bytes, valid) refl
