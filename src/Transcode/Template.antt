-- ===== src/Transcode/Template.antt =====
-- A template of gateway/src/transcode.rs against the paths that are made from it.
use rust_zero.Prelude.{
  ℕ, All-append, ◌<◌, ◌≡◌, refl, ap, ◌∙◌, arith, Bool, true, false, List, [], ◌∷◌, ◌++◌, map, none,
  some, ◌==◌, All, Bool-cases, inl, inr, ◌/◌, ◌%◌,
}
use rust_zero.Prelude.Results.{ok}
use rust_zero.Prelude.Texts.{
  Text, is_empty, same_text_refl, starts_with, strip_prefix, strip_suffix, after,
  trim_start_matches, trim_end_matches, trim_matches, split, IsPlain, split_last, joined,
  split-joined,
}
use rust_zero.Prelude.Utf8.{is_utf8}
use rust_zero.Transcode.{
  slash, percent, plus, insert, capture_name, percent_decode, match_part, match_parts,
  match_template,
}
use rust_zero.Transcode.Percent.{hex_upper, percent_encode, kept, percent_decode-percent_encode}

-- A part of a template with the value that a path has there.
pub data Segment : Type 0 where
  literal : Text → Segment
  capture : (name : Text) → (value : Text) → Segment

-- The part of the template.
abbrev pub shown : Segment → Text
shown (literal text) = text
shown (capture name value) = b'{' ∷ (name ++ b'}' ∷ [])

-- The part of the path.
abbrev pub filled : (ℕ → Bool) → Segment → Text
filled keep (literal text) = text
filled keep (capture name value) = percent_encode keep value

abbrev pub rooted : List Text → Text
rooted parts = slash ∷ joined slash parts

-- The captures, in the order of the path.
abbrev pub recorded : List Segment → List (Text × Text) → List (Text × Text)
recorded [] captures = captures
recorded (literal text ∷ segments) captures = recorded segments captures
recorded (capture name value ∷ segments) captures = recorded segments (insert name value captures)

abbrev pub IsSegment : Segment → Type 0
IsSegment (literal text) =
    IsPlain slash text × (is_empty text ≡ false) × (starts_with b'{' text ≡ false)
IsSegment (capture name value) =
    IsPlain slash name
    × IsPlain b'=' name
    × All (λ c. c < 256) value
    × (is_utf8 value ≡ true)
    × (is_empty value ≡ false)

-- Nothing to trim at the end.
abbrev IsTrimmed : Text → Type 0
IsTrimmed text = (trim_end_matches slash text ≡ text) × (is_empty text ≡ false)

append-IsTrimmed : (s t : Text) → IsTrimmed t → IsTrimmed (s ++ t)
unfolding trim_end_matches
append-IsTrimmed [] t h = h
append-IsTrimmed (c ∷ s) t h = let rest = append-IsTrimmed s t h in (rw (rest.0, rest.1) refl, refl)

plain-IsTrimmed : (s : Text) → IsPlain slash s → is_empty s ≡ false → IsTrimmed s
unfolding trim_end_matches
plain-IsTrimmed [] p e = cc
plain-IsTrimmed (c ∷ []) p e = (rw p.0 refl, refl)
plain-IsTrimmed (c ∷ d ∷ s) p e =
    let rest = plain-IsTrimmed (d ∷ s) p.1 refl in (rw rest.0 refl, refl)

abbrev IsFull : Text → Type 0
IsFull s = IsPlain slash s × (is_empty s ≡ false)

joined-IsTrimmed :
    (s : Text) (ss : List Text) → All IsFull (s ∷ ss) → IsTrimmed (joined slash (s ∷ ss))
joined-IsTrimmed s [] h = plain-IsTrimmed s h.0.0 h.0.1
joined-IsTrimmed s (t ∷ ss) h =
    append-IsTrimmed s (slash ∷ joined slash (t ∷ ss))
      (append-IsTrimmed (slash ∷ []) (joined slash (t ∷ ss)) (joined-IsTrimmed t ss h.1))

start_full : (s t : Text) → IsFull s → trim_start_matches slash (s ++ t) ≡ s ++ t
unfolding trim_start_matches
start_full [] t h = cc
start_full (c ∷ s) t h = rw h.0.0 refl

start-joined :
    (s : Text) (ss : List Text)
    → All IsFull (s ∷ ss)
    → trim_start_matches slash (joined slash (s ∷ ss)) ≡ joined slash (s ∷ ss)
unfolding trim_start_matches
start-joined [] [] h = cc
start-joined (c ∷ s) [] h = rw h.0.0.0 refl
start-joined s (t ∷ ss) h = start_full s (slash ∷ joined slash (t ∷ ss)) h.0

abbrev plain_parts : (ss : List Text) → All IsFull ss → All (IsPlain slash) ss
plain_parts [] h = tt
plain_parts (s ∷ ss) h = (h.0.0, plain_parts ss h.1)

-- The parts of a text that is made of parts.
split-rooted :
    (s : Text) (ss : List Text)
    → All IsFull (s ∷ ss)
    → split slash (trim_matches slash (rooted (s ∷ ss))) ≡ s ∷ ss
unfolding trim_start_matches
split-rooted s ss h =
    ap (λ t. split slash (trim_end_matches slash t)) (start-joined s ss h)
    ∙ ap (split slash) (joined-IsTrimmed s ss h).0
    ∙ split-joined slash s ss (plain_parts (s ∷ ss) h)

strip_suffix_last : (name : Text) → strip_suffix b'}' (name ++ b'}' ∷ []) ≡ some name
unfolding strip_suffix
strip_suffix_last [] = refl
strip_suffix_last (c ∷ []) = refl
strip_suffix_last (c ∷ d ∷ name) = ap (after c) (strip_suffix_last (d ∷ name))

capture_name-shown :
    (name : Text) → IsPlain b'=' name → capture_name (b'{' ∷ (name ++ b'}' ∷ [])) ≡ some name
unfolding capture_name strip_prefix
capture_name-shown name h = rw (strip_suffix_last name, split_last b'=' name h) refl

capture_name_literal : (text : Text) → starts_with b'{' text ≡ false → capture_name text ≡ none
unfolding capture_name strip_prefix
capture_name_literal [] h = refl
capture_name_literal (c ∷ text) h = rw h refl

match_part_literal :
    (text : Text) (captures : List (Text × Text))
    → starts_with b'{' text ≡ false
    → match_part text text captures ≡ some captures
unfolding match_part
match_part_literal text captures h = ground (arith, capture_name_literal text, same_text_refl text)

match_part_capture :
    (name actual : Text) {value : Text} (captures : List (Text × Text))
    → IsPlain b'=' name
    → percent_decode actual ≡ ok value
    → match_part (b'{' ∷ (name ++ b'}' ∷ [])) actual captures ≡ some (insert name value captures)
unfolding match_part
match_part_capture name actual captures h e = ground (arith, capture_name-shown name)

shown-IsFull : (segment : Segment) → IsSegment segment → IsFull (shown segment)
shown-IsFull (literal text) h = (h.0, h.1)
shown-IsFull (capture name value) h =
    ((refl, All-append (λ c. (c == slash) ≡ false) name (b'}' ∷ []) h.0 (refl, tt)), refl)

hex_upper-slash : (n : ℕ) → (hex_upper n == slash) ≡ false
hex_upper-slash n = ground arith

module _ (keep : ℕ → Bool) (no_percent : keep percent ≡ false) (no_plus : keep plus ≡ false)
    (no_slash : keep slash ≡ false) where
  encode-IsPlain : (text : Text) → IsPlain slash (percent_encode keep text)
  unfolding percent_encode
  encode-IsPlain [] = tt
  encode-IsPlain (c ∷ text) = elim (Bool-cases (keep c)) [
    | inl e ↦ rw e (kept keep c slash e no_slash, encode-IsPlain text)
    | inr e ↦
        rw e (refl, (hex_upper-slash (c / 16), (hex_upper-slash (c % 16), encode-IsPlain text)))
  ]

  encode_full : (text : Text) → is_empty text ≡ false → is_empty (percent_encode keep text) ≡ false
  unfolding percent_encode
  encode_full [] h = cc
  encode_full (c ∷ text) h = elim (Bool-cases (keep c)) [ inl e ↦ rw e refl | inr e ↦ rw e refl ]

  filled-IsFull : (segment : Segment) → IsSegment segment → IsFull (filled keep segment)
  filled-IsFull (literal text) h = (h.0, h.1)
  filled-IsFull (capture name value) h = (encode-IsPlain value, encode_full value h.4)

  match_segment :
      (segment : Segment) (captures : List (Text × Text))
      → IsSegment segment
      → match_part (shown segment) (filled keep segment) captures
        ≡ some (recorded (segment ∷ []) captures)
  match_segment (literal text) captures h = match_part_literal text captures h.2
  match_segment (capture name value) captures h =
      match_part_capture name (percent_encode keep value) captures h.1
        (percent_decode-percent_encode keep no_percent no_plus value h.2 h.3)

  recorded_next :
      (segment : Segment) (segments : List Segment) (captures : List (Text × Text))
      → recorded segments (recorded (segment ∷ []) captures)
        ≡ recorded (segment ∷ segments) captures
  recorded_next (literal text) segments captures = refl
  recorded_next (capture name value) segments captures = refl

  match_parts-recorded :
      (segments : List Segment) (captures : List (Text × Text))
      → All IsSegment segments
      → match_parts (map shown segments) (map (filled keep) segments) captures
        ≡ some (recorded segments captures)
  unfolding match_parts
  match_parts-recorded [] captures h = refl
  match_parts-recorded (segment ∷ segments) captures h = rw (match_segment segment captures h.0) (
      match_parts-recorded segments (recorded (segment ∷ []) captures) h.1
      ∙ ap some (recorded_next segment segments captures))

  map-IsFull :
      (f : Segment → Text)
      → ((s : Segment) → IsSegment s → IsFull (f s))
      → (segments : List Segment) → All IsSegment segments
      → All IsFull (map f segments)
  map-IsFull f each [] h = tt
  map-IsFull f each (s ∷ segments) h = (each s h.0, map-IsFull f each segments h.1)

  -- A template matches the path that has its literal parts and, in place of its captures, texts that
  -- an encoder makes which escapes at least `%`, `+` and `/`; the captures are then exactly the texts
  -- before encoding, under the names of the template. No part of the path is empty.
  pub match_template-recorded :
      (first : Segment) (segments : List Segment)
      → All IsSegment (first ∷ segments)
      → match_template
          (rooted (map shown (first ∷ segments)))
          (rooted (map (filled keep) (first ∷ segments)))
        ≡ some (recorded (first ∷ segments) [])
  unfolding match_template
  match_template-recorded first segments h =
      rw
        (
          split-rooted (shown first) (map shown segments)
              (map-IsFull shown shown-IsFull (first ∷ segments) h),
          split-rooted (filled keep first) (map (filled keep) segments)
              (map-IsFull (filled keep) filled-IsFull (first ∷ segments) h),
        )
        (match_parts-recorded (first ∷ segments) [] h)
