-- ===== src/Jwt.antt =====
-- rest/src/auth.rs: bearer tokens and HS256 JSON Web Tokens. A text is its bytes; a header's value
-- has only ASCII bytes, since `to_str` gives no other.
pub mod Failure
pub mod Split
pub mod Bearer
pub mod RoundTrip
pub mod Sound
mod Tests
use rust_zero.Prelude.{
  ℕ, zero, suc, ◌+◌, ◌-◌, Bool, true, false, not, ◌&&◌, ◌||◌, List, [], ◌∷◌, ◌++◌, map, Option,
  none, some, ◌>>=◌, ltb, leb, ◌==◌, if◌then◌else◌,
}
use rust_zero.Prelude.Texts.{Text, is_empty, same_text, any, split}
use rust_zero.Prelude.Words.{saturate64}
use rust_zero.Jwt.Failure
use rust_zero.Jwt.Failure.{AuthFailure}
use rust_zero.Prelude.Results.{Result, ok, err, ◌>>?◌, unless, ok_or}

abbrev pub dot : ℕ
dot = b'.'

-- `char::is_whitespace`, of an ASCII byte.
abbrev pub is_whitespace : ℕ → Bool
is_whitespace c = (leb 9 c && leb c 13) || (c == 32)

abbrev pub first_with : ℕ → Option (Text × Text) → Option (Text × Text)
first_with c none = none
first_with c (some (scheme, rest)) = some (c ∷ scheme, rest)

-- `split_once(char::is_whitespace)`
unfoldable pub split_once : Text → Option (Text × Text)
split_once [] = none
split_once (c ∷ text) =
    let rest = split_once text in if is_whitespace c then some ([], text) else first_with c rest

unfoldable pub trim_start : Text → Text
trim_start [] = []
trim_start (c ∷ text) = let rest = trim_start text in if is_whitespace c then rest else c ∷ text

unfoldable pub trim_end : Text → Text
trim_end [] = []
trim_end (c ∷ text) =
    let rest = trim_end text in if is_empty rest && is_whitespace c then [] else c ∷ rest

abbrev pub to_ascii_lowercase : ℕ → ℕ
to_ascii_lowercase c = if leb 65 c && leb c 90 then c + 32 else c

-- `eq_ignore_ascii_case`
unfoldable pub eq_ignore_ascii_case : Text → Text → Bool
eq_ignore_ascii_case s t = same_text (map to_ascii_lowercase s) (map to_ascii_lowercase t)

abbrev pub bearer : Text
bearer = b'b' ∷ b'e' ∷ b'a' ∷ b'r' ∷ b'e' ∷ b'r' ∷ []

unfoldable pub bearer_token : Text → Option Text
bearer_token value = split_once value >>= λ (scheme, rest).
    let token = trim_start (trim_end rest) in
    if eq_ignore_ascii_case scheme bearer && (not (is_empty token) && not (any is_whitespace token))
    then some token
    else none

pub data JwtError : Type 0 where
  malformed unsupported_algorithm invalid_signature expired not_yet_valid invalid_claims : JwtError

-- `AuthFailure::from`
unfoldable pub failure_from : JwtError → AuthFailure
failure_from malformed = Failure.malformed_credentials
failure_from unsupported_algorithm = Failure.malformed_credentials
failure_from invalid_claims = Failure.malformed_credentials
failure_from invalid_signature = Failure.invalid_credentials
failure_from expired = Failure.expired_credentials
failure_from not_yet_valid = Failure.not_yet_valid

-- The calls of the `base64`, `hmac` and `serde_json` crates, for claims of the type `T` and JSON
-- values of the type `V`.
pub record Crates (V T : Type 0) : Type 0 where
  pub encode : Text → Text
  pub decode : Text → Option Text
  -- `new_from_slice`, `update` and `finalize`, and `verify_slice` against what they give.
  pub mac : Text → Text → Option Text
  pub verify_slice : Text → Text → Bool
  pub parse : Text → Option V
  -- `get(key)` with `as_str` and with `as_u64`.
  pub str_at : Text → V → Option Text
  pub u64_at : Text → V → Option ℕ
  pub to_vec : T → Option Text
  pub from_slice : Text → Option T

-- `alg`, `exp`, `nbf` and `HS256`
abbrev pub alg : Text
alg = b'a' ∷ b'l' ∷ b'g' ∷ []

abbrev pub exp : Text
exp = b'e' ∷ b'x' ∷ b'p' ∷ []

abbrev pub nbf : Text
nbf = b'n' ∷ b'b' ∷ b'f' ∷ []

abbrev pub hs256 : Text
hs256 = b'H' ∷ b'S' ∷ b'2' ∷ b'5' ∷ b'6' ∷ []

-- `{"alg":"HS256","typ":"JWT"}`
abbrev pub header_json : Text
header_json =
    b'{' ∷ b'"' ∷ b'a' ∷ b'l' ∷ b'g' ∷ b'"' ∷ b':' ∷ b'"' ∷ b'H' ∷ b'S' ∷ b'2' ∷ b'5' ∷ b'6' ∷ b'"'
    ∷ b',' ∷ b'"' ∷ b't' ∷ b'y' ∷ b'p' ∷ b'"' ∷ b':' ∷ b'"' ∷ b'J' ∷ b'W' ∷ b'T' ∷ b'"' ∷ b'}' ∷ []

unfoldable pub segments : List Text → Result JwtError (Text × Text × Text)
segments (header ∷ claims ∷ signature ∷ []) = ok (header, claims, signature)
segments other = err malformed

abbrev pub is_hs256 : Option Text → Bool
is_hs256 none = false
is_hs256 (some a) = same_text a hs256

unfoldable pub is_expired : ℕ → ℕ → Option ℕ → Bool
is_expired now leeway none = false
is_expired now leeway (some expires) = ltb (saturate64 (expires + leeway)) now

unfoldable pub is_early : ℕ → ℕ → Option ℕ → Bool
is_early now leeway none = false
is_early now leeway (some not_before) = ltb (saturate64 (now + leeway)) not_before

module _ {V T : Type 0} (c : Crates V T) where
  unfoldable pub encode_hs256 : T → Text → Result JwtError Text
  encode_hs256 claims secret = unless (is_empty secret) invalid_signature >>? λ u.
      ok_or invalid_claims (c.to_vec claims) >>? λ bytes.
      let signing_input = c.encode header_json ++ dot ∷ c.encode bytes in
      ok_or invalid_signature (c.mac secret signing_input) >>? λ tag.
      ok (signing_input ++ dot ∷ c.encode tag)

  -- Whether `verify_slice` accepts the signature with a secret.
  abbrev pub accepts : Text → Text → Text → Bool
  accepts signing_input signature secret = elim (c.mac secret signing_input) [
    | none ↦ false
    | some tag ↦ c.verify_slice tag signature
  ]

  -- The checks of `decode_hs256` on the claims, after those of the signature.
  unfoldable pub checked_claims : Text → ℕ → ℕ → Result JwtError T
  checked_claims claims leeway now = ok_or malformed (c.decode claims) >>? λ claim_bytes.
      ok_or invalid_claims (c.parse claim_bytes) >>? λ claim_value.
      unless (is_expired now leeway (c.u64_at exp claim_value)) expired >>? λ u.
      unless (is_early now leeway (c.u64_at nbf claim_value)) not_yet_valid >>? λ u.
      ok_or invalid_claims (c.from_slice claim_bytes)

  unfoldable pub decode_hs256 : Text → List Text → ℕ → ℕ → Result JwtError T
  decode_hs256 token secrets leeway now =
      segments (split dot token) >>? λ (header, claims, signature).
      ok_or malformed (c.decode header >>= c.parse) >>? λ header_value.
      unless (not (is_hs256 (c.str_at alg header_value))) unsupported_algorithm >>? λ u.
      ok_or malformed (c.decode signature) >>? λ tag.
      unless (not (any (accepts (header ++ dot ∷ claims) tag) secrets)) invalid_signature >>? λ u.
      checked_claims claims leeway now

  abbrev pub or_failure : Result JwtError T → Result AuthFailure T
  or_failure (ok claims) = ok claims
  or_failure (err e) = err (failure_from e)

  -- What `call` makes of the `authorization` header of a request, in the middleware of a route and of
  -- `JwtAuth`: its claims, or why it is refused.
  unfoldable pub authorize : Option Text → List Text → ℕ → ℕ → Result AuthFailure T
  authorize header secrets leeway now =
      ok_or Failure.missing_credentials (header >>= bearer_token) >>? λ token.
      or_failure (decode_hs256 token secrets leeway now)
