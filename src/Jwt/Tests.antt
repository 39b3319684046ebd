-- ===== src/Jwt/Tests.antt =====
-- Runs of the token code, and the theorems about it at inputs that meet their hypotheses, with crates
-- that are easy to compute with.
use rust_zero.Prelude.{
  ◌+◌, ◌-◌, ◌≡◌, refl, sym, ap, arith, false, [], ◌∷◌, ◌++◌, map, some, ◌==◌, All,
}
use rust_zero.Prelude.Results.{ok, err}
use rust_zero.Jwt.Failure
use rust_zero.Jwt.{Crates, dot, is_whitespace, hs256, bearer_token, encode_hs256, authorize}
use rust_zero.Prelude.Texts.{Text, same_text, same_text_refl}
use rust_zero.Jwt.RoundTrip.{CrateLaws, encode_hs256-authorize}
use rust_zero.Jwt.Sound.{Shown, authorize-Shown}

-- Every byte is moved out of the way of the dots, the tag is the secret before the input, and the
-- claims are a text whose `exp` and `nbf` are 50.
abbrev toy : Crates Text Text
toy = record {
  encode = map (λ b. b + 100);
  decode = λ text. some (map (λ b. b - 100) text);
  mac = λ secret input. some (secret ++ input);
  verify_slice = same_text;
  parse = some;
  str_at = λ key v. some hs256;
  u64_at = λ key v. some 50;
  to_vec = some;
  from_slice = some;
}

alphabet :
    (text : Text)
    → All (λ b. ((b == dot) ≡ false) × (is_whitespace b ≡ false)) (map (λ b. b + 100) text)
alphabet [] = tt
alphabet (b ∷ text) = ((ground arith, ground arith), alphabet text)

back : (text : Text) → map (λ b. b - 100) (map (λ b. b + 100) text) ≡ text
back [] = refl
back (b ∷ text) = let same : (b + 100) - 100 ≡ b = omega arith in rw (same, back text) refl

toy_laws : CrateLaws toy
toy_laws = record {
  encode_alphabet = alphabet;
  decode-encode = λ text. ap some (back text);
  mac_total = λ secret input. (secret ++ input, refl);
  verify_refl = same_text_refl;
  parse_header = (_, refl, refl);
  parse-to_vec = λ claims e. (_, refl);
}

abbrev claims : Text
claims = b'm' ∷ b'e' ∷ []

abbrev secret : Text
secret = b's' ∷ []

-- `bEARER`
abbrev scheme : Text
scheme = b'b' ∷ b'E' ∷ b'A' ∷ b'R' ∷ b'E' ∷ b'R' ∷ []

abbrev signing_input : Text
signing_input = toy.encode rust_zero.Jwt.header_json ++ dot ∷ toy.encode claims

abbrev token : Text
token = signing_input ++ dot ∷ toy.encode (secret ++ signing_input)

encoded : encode_hs256 toy claims secret ≡ ok token
unfolding encode_hs256
encoded = refl

encode_hs256-authorize_example :
    authorize toy (some (scheme ++ 32 ∷ token)) ((b'n' ∷ []) ∷ secret ∷ []) 3 52 ≡ ok claims
unfolding rust_zero.Jwt.is_expired rust_zero.Jwt.is_early rust_zero.Jwt.eq_ignore_ascii_case
encode_hs256-authorize_example =
    encode_hs256-authorize toy toy_laws claims secret scheme ((b'n' ∷ []) ∷ []) [] 3 52 encoded
      (λ bytes e. sym e) (λ bytes v e f. (refl, refl))
      (refl, (refl, (refl, (refl, (refl, (refl, tt)))))) refl

authorize-Shown_example :
    (value t : Text) × (some (scheme ++ 32 ∷ token) ≡ some value)
    × (bearer_token value ≡ some t)
    × Shown toy t ((b'n' ∷ []) ∷ secret ∷ []) 3 52 claims
authorize-Shown_example =
    authorize-Shown toy (some (scheme ++ 32 ∷ token)) ((b'n' ∷ []) ∷ secret ∷ []) 3 52
      encode_hs256-authorize_example

-- A header without a token.
no_token : authorize toy (some scheme) (secret ∷ []) 3 52 ≡ err Failure.missing_credentials
unfolding authorize bearer_token rust_zero.Jwt.split_once
no_token = refl
