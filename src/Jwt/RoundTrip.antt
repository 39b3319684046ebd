-- ===== src/Jwt/RoundTrip.antt =====
-- A token that rest/src/auth.rs has encoded is accepted.
use mathlib.Core.List.{append_assoc}
use rust_zero.Prelude.{
  ℕ, ◌≡◌, refl, sym, ap, ◌∙◌, arith, Bool, true, false, List, [], ◌∷◌, ◌++◌, none, some, ◌==◌, All,
  All-map_imp, subst,
}
use rust_zero.Prelude.Results.{ok, unless, ok_or, >>?-eq-ok, ok_or-eq-ok, ok-injective}
use rust_zero.Jwt.{
  Crates, dot, is_whitespace, segments, bearer, bearer_token, eq_ignore_ascii_case,
  invalid_signature, invalid_claims, alg, exp, nbf, hs256, header_json, is_expired, is_early,
  encode_hs256, checked_claims, decode_hs256, accepts, authorize,
}
use rust_zero.Prelude.Texts.{Text, is_empty, any, split, IsPlain, split_plain, split_last}
use rust_zero.Jwt.Bearer.{IsSolid, bearer_token_of, IsSolid-append, filled-append}

-- What the crates document: the alphabet of URL-safe base64, that it decodes what it encodes, that
-- HMAC takes a key of any length and accepts its own tag, and that JSON of `to_vec` is JSON.
pub record CrateLaws {V T : Type 0} (c : Crates V T) : Type 0 where
  pub encode_alphabet :
      (text : Text) → All (λ b. ((b == dot) ≡ false) × (is_whitespace b ≡ false)) (c.encode text)
  pub decode-encode : (text : Text) → c.decode (c.encode text) ≡ some text
  pub mac_total : (secret input : Text) → (tag : Text) × (c.mac secret input ≡ some tag)
  pub verify_refl : (tag : Text) → c.verify_slice tag tag ≡ true
  pub parse_header : (v : V) × (c.parse header_json ≡ some v) × (c.str_at alg v ≡ some hs256)
  pub parse-to_vec :
      (claims : T) {bytes : Text}
      → c.to_vec claims ≡ some bytes
      → (v : V) × (c.parse bytes ≡ some v)

any-mem :
    {A : Type 0} (p : A → Bool) (before : List A) (a : A) (after : List A)
    → p a ≡ true
    → any p (before ++ a ∷ after) ≡ true
any-mem p [] a after h = rw h refl
any-mem p (b ∷ before) a after h = ground (arith, any-mem p before a after h)

module _ {V T : Type 0} (c : Crates V T) (laws : CrateLaws c) where
  encode-IsPlain : (text : Text) → IsPlain dot (c.encode text)
  encode-IsPlain text = All-map_imp (λ b h. h.0) (c.encode text) (laws.encode_alphabet text)

  encode-IsSolid : (text : Text) → IsSolid (c.encode text)
  encode-IsSolid text = All-map_imp (λ b h. h.1) (c.encode text) (laws.encode_alphabet text)

  -- What a token is made of.
  encode_hs256-eq-ok :
      (claims : T) (secret : Text) {token : Text}
      → encode_hs256 c claims secret ≡ ok token
      → (bytes tag : Text) × (c.to_vec claims ≡ some bytes)
        × (c.mac secret (c.encode header_json ++ dot ∷ c.encode bytes) ≡ some tag)
        × (token ≡ (c.encode header_json ++ dot ∷ c.encode bytes) ++ dot ∷ c.encode tag)
  unfolding encode_hs256
  encode_hs256-eq-ok claims secret e =
      let (u, filled, e1) = >>?-eq-ok (unless (is_empty secret) invalid_signature) _ e in
      let (bytes, made, e2) = >>?-eq-ok (ok_or invalid_claims (c.to_vec claims)) _ e1 in
      let (tag, signed, e3) =
        >>?-eq-ok
          (ok_or invalid_signature (c.mac secret (c.encode header_json ++ dot ∷ c.encode bytes))) _
          e2 in
      (
        bytes,
        tag,
        ok_or-eq-ok invalid_claims (c.to_vec claims) made,
        ok_or-eq-ok invalid_signature _ signed,
        sym (ok-injective e3),
      )

  segments_of :
      (h b s : Text)
      → IsPlain dot h
      → IsPlain dot b
      → IsPlain dot s
      → segments (split dot ((h ++ dot ∷ b) ++ dot ∷ s)) ≡ ok (h, b, s)
  unfolding segments
  segments_of h b s p q r =
      ap (λ t. segments (split dot t)) (append_assoc h (dot ∷ b) (dot ∷ s))
      ∙ ap segments (
          split_plain dot h (b ++ dot ∷ s) p
          ∙ ap (λ k. h ∷ k) (split_plain dot b s q ∙ ap (λ k. b ∷ k) (split_last dot s r)))

  checked :
      (claims : T) (bytes : Text) (v : V) (leeway now : ℕ)
      → c.parse bytes ≡ some v
      → c.from_slice bytes ≡ some claims
      → is_expired now leeway (c.u64_at exp v) ≡ false
      → is_early now leeway (c.u64_at nbf v) ≡ false
      → checked_claims c (c.encode bytes) leeway now ≡ ok claims
  unfolding checked_claims
  checked claims bytes v leeway now p q r s = rw (laws.decode-encode bytes, p, r, s, q) refl

  decoded :
      (claims : T) (bytes tag secret : Text) (before after : List Text) (v : V) (leeway now : ℕ)
      → c.mac secret (c.encode header_json ++ dot ∷ c.encode bytes) ≡ some tag
      → c.parse bytes ≡ some v
      → c.from_slice bytes ≡ some claims
      → is_expired now leeway (c.u64_at exp v) ≡ false
      → is_early now leeway (c.u64_at nbf v) ≡ false
      → decode_hs256 c
          ((c.encode header_json ++ dot ∷ c.encode bytes) ++ dot ∷ c.encode tag)
          (before ++ secret ∷ after)
          leeway
          now
        ≡ ok claims
  unfolding decode_hs256
  decoded claims bytes tag secret before after v leeway now signed p q r s =
      let (header_value, parsed, found) = laws.parse_header in
      let input = c.encode header_json ++ dot ∷ c.encode bytes in
      let signs : accepts c input tag secret ≡ true =
        ap (λ o. elim o [ none ↦ false | some tag' ↦ c.verify_slice tag' tag ]) signed
        ∙ laws.verify_refl tag in
      let one = any-mem (accepts c input tag) before secret after signs in
      rw
        (
          segments_of (c.encode header_json) (c.encode bytes) (c.encode tag)
              (encode-IsPlain header_json) (encode-IsPlain bytes) (encode-IsPlain tag),
          laws.decode-encode header_json,
          parsed,
          found,
          laws.decode-encode tag,
          one,
        )
        (checked claims bytes v leeway now p q r s)

-- A token that `encode_hs256` gives is accepted under a header with any spelling of `Bearer`, by a
-- server that has the secret among its secrets, at a time that the claims allow, and the claims come
-- back as they were. It needs the crates' laws, and claims that their JSON gives back.
pub encode_hs256-authorize :
    {V T : Type 0} (c : Crates V T)
    → CrateLaws c
    → (claims : T) (secret scheme : Text) (before after : List Text) (leeway now : ℕ) {token : Text}
    → encode_hs256 c claims secret ≡ ok token
    → ((bytes : Text) → c.to_vec claims ≡ some bytes → c.from_slice bytes ≡ some claims)
    → ((bytes : Text) (v : V)
        → c.to_vec claims ≡ some bytes
        → c.parse bytes ≡ some v
        → (is_expired now leeway (c.u64_at exp v) ≡ false)
          × (is_early now leeway (c.u64_at nbf v) ≡ false))
    → IsSolid scheme
    → eq_ignore_ascii_case scheme bearer ≡ true
    → authorize c (some (scheme ++ 32 ∷ token)) (before ++ secret ∷ after) leeway now ≡ ok claims
unfolding authorize
encode_hs256-authorize c laws claims secret scheme before after leeway now {token = token} e back
      timely solid same =
    let (bytes, tag, made, signed, whole) = encode_hs256-eq-ok c laws claims secret e in
    let (v, parsed) = laws.parse-to_vec claims made in
    let (late, early) = timely bytes v made parsed in
    let firm =
      IsSolid-append (c.encode header_json ++ dot ∷ c.encode bytes) (c.encode tag)
        (IsSolid-append (c.encode header_json) (c.encode bytes) (encode-IsSolid c laws header_json)
          (encode-IsSolid c laws bytes))
        (encode-IsSolid c laws tag) in
    let bears : bearer_token (scheme ++ 32 ∷ token) ≡ some token =
      bearer_token_of scheme token solid same
        (rw whole (filled-append (c.encode header_json ++ dot ∷ c.encode bytes) (c.encode tag)))
        (subst IsSolid (sym whole) firm) in
    let accepted : decode_hs256 c token (before ++ secret ∷ after) leeway now ≡ ok claims =
      rw whole (
        decoded c laws claims bytes tag secret before after v leeway now signed parsed
          (back bytes made) late early) in
    rw (bears, accepted) refl
