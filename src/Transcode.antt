-- ===== src/Transcode.antt =====
-- gateway/src/transcode.rs: the bindings of HTTP paths to methods of protobuf, their templates, and the
-- choice of a binding for a request. The messages of the errors are constructors.
pub mod Routes
pub mod Choice
pub mod Percent
pub mod Template
pub mod Json
pub mod Request
pub mod Paths
pub mod Blocked
mod Tests
use rust_zero.Prelude.{
  ℕ, zero, suc, ◌+◌, ◌-◌, ◌*◌, Bool, true, false, not, ◌&&◌, ◌||◌, List, [], ◌∷◌, Option, none,
  some, ◌>>=◌, ltb, leb, ◌==◌, if◌then◌else◌, length,
}
use rust_zero.Prelude.Results.{Result, ok, err, ◌>>?◌, unless, ok_or}
use rust_zero.Prelude.Texts.{
  Text, is_empty, same_text, any, has, starts_with, strip_prefix, strip_suffix, trim_matches, split,
}
use rust_zero.Prelude.Utf8.{is_utf8}

pub data HttpVerb : Type 0 where
  get put post delete patch : HttpVerb

abbrev pub verb_name : HttpVerb → Text
verb_name get = b'G' ∷ b'E' ∷ b'T' ∷ []
verb_name put = b'P' ∷ b'U' ∷ b'T' ∷ []
verb_name post = b'P' ∷ b'O' ∷ b'S' ∷ b'T' ∷ []
verb_name delete = b'D' ∷ b'E' ∷ b'L' ∷ b'E' ∷ b'T' ∷ b'E' ∷ []
verb_name patch = b'P' ∷ b'A' ∷ b'T' ∷ b'C' ∷ b'H' ∷ []

unfoldable pub verb_matches : HttpVerb → Text → Bool
verb_matches verb method = same_text (verb_name verb) method

pub record HttpBinding : Type 0 where
  pub verb : HttpVerb
  pub path : Text
  pub rpc : Text
  pub body : Option Text

-- Why a request is invalid: the texts of `InvalidRequest`.
pub data Problem : Type 0 where
  percent_encoding not_utf8 not_object : Problem
  unknown_field not_boolean not_integer not_unsigned : Text → Problem

-- The status codes of gRPC.
pub data Code : Type 0 where
  ok_code cancelled unknown invalid_argument deadline_exceeded not_found already_exists : Code
  permission_denied resource_exhausted failed_precondition aborted out_of_range : Code
  unimplemented internal unavailable data_loss unauthenticated : Code

pub data TranscodeError : Type 0 where
  descriptor reflection_descriptor invalid_reflection_response invalid_authorization :
      TranscodeError
  reflection unknown_method unsupported_client_streaming invalid_template : Text → TranscodeError
  no_route unexpected_body invalid_json : TranscodeError
  invalid_request : Problem → TranscodeError
  status : Code → TranscodeError

abbrev pub slash : ℕ
slash = b'/'

abbrev pub percent : ℕ
percent = b'%'

abbrev pub plus : ℕ
plus = b'+'

abbrev pub hex_digit : ℕ → Option ℕ
hex_digit c =
    if leb b'0' c && leb c b'9'
    then some (c - b'0')
    else if leb b'A' c && leb c b'F'
    then some (c - 55)
    else if leb b'a' c && leb c b'f'
    then some (c - 87)
    else none

-- `u8::from_str_radix(hex, 16)` of the two bytes after a percent sign: a first byte `+` is a sign.
unfoldable pub hex_byte : Text → Option ℕ
hex_byte (a ∷ b ∷ text) =
    if a == plus
    then hex_digit b
    else hex_digit a >>= λ high. hex_digit b >>= λ low. some (high * 16 + low)
hex_byte text = none

-- `b'%' if index + 2 < input.len()`, with the bytes from the index.
abbrev pub is_escape : ℕ → Text → Bool
is_escape c rest = (c == percent) && leb 2 (length rest)

abbrev pub unescaped : ℕ → ℕ
unescaped c = if c == plus then b' ' else c

-- The loop of `percent_decode`: `skip` bytes are already read.
unfoldable pub decode_from : ℕ → Text → Result TranscodeError Text
decode_from skip [] = ok []
decode_from (suc skip) (c ∷ text) = decode_from skip text
decode_from zero (c ∷ text) = elim (is_escape c text) [
  | true ↦ ok_or (invalid_request percent_encoding) (hex_byte text) >>? λ byte.
      decode_from 2 text >>? λ bytes. ok (byte ∷ bytes)
  | false ↦ decode_from 0 text >>? λ bytes. ok (unescaped c ∷ bytes)
]

unfoldable pub percent_decode : Text → Result TranscodeError Text
percent_decode value = decode_from 0 value >>? λ bytes.
    if is_utf8 bytes then ok bytes else err (invalid_request not_utf8)

abbrev pub unbalanced : Text → Bool
unbalanced part = not (same_bool (has b'{' part) (has b'}' part))
  where
    same_bool : Bool → Bool → Bool
    same_bool true b = b
    same_bool false b = not b

unfoldable pub validate_template : Text → Result TranscodeError Unit
validate_template template =
    unless (not (starts_with slash template) || any unbalanced (split slash template))
      (invalid_template template)

-- The bytes of the parts that are no capture.
unfoldable pub weight_of : List Text → ℕ
weight_of [] = 0
weight_of (part ∷ parts) =
    let rest = weight_of parts in if starts_with b'{' part then rest else length part + rest

unfoldable pub literal_weight : Text → ℕ
literal_weight template = weight_of (split slash template)

-- The order of `str`, byte by byte.
unfoldable pub less_text : Text → Text → Bool
less_text s [] = false
less_text [] (d ∷ t) = true
less_text (c ∷ s) (d ∷ t) = ltb c d || (c == d) && less_text s t

-- `BTreeMap::insert` into the entries in the order of their keys.
unfoldable pub insert : {A : Type 0} → Text → A → List (Text × A) → List (Text × A)
insert key a [] = (key, a) ∷ []
insert key a ((k, b) ∷ entries) =
    if same_text key k
    then (key, a) ∷ entries
    else if less_text key k
    then (key, a) ∷ (k, b) ∷ entries
    else (k, b) ∷ insert key a entries

abbrev pub first_part : List Text → Text
first_part [] = []
first_part (part ∷ parts) = part

-- The name of a capture, which a pattern may follow.
unfoldable pub capture_name : Text → Option Text
capture_name part =
    strip_prefix b'{' part >>= strip_suffix b'}' >>= λ name. some (first_part (split b'=' name))

abbrev pub to_option : {A : Type 0} → Result TranscodeError A → Option A
to_option (ok a) = some a
to_option (err e) = none

-- A step of the loop of `match_template`.
unfoldable pub match_part : Text → Text → List (Text × Text) → Option (List (Text × Text))
match_part expected actual captures = elim (capture_name expected) [
  | some name ↦ to_option (percent_decode actual) >>= λ value. some (insert name value captures)
  | none ↦ if same_text expected actual then some captures else none
]

unfoldable pub match_parts :
    List Text → List Text → List (Text × Text) → Option (List (Text × Text))
match_parts [] [] captures = some captures
match_parts [] (actual ∷ path) captures = none
match_parts (expected ∷ template) [] captures = none
match_parts (expected ∷ template) (actual ∷ path) captures =
    match_part expected actual captures >>= match_parts template path

unfoldable pub match_template : Text → Text → Option (List (Text × Text))
match_template template path =
    match_parts (split slash (trim_matches slash template)) (split slash (trim_matches slash path))
      []
