-- ===== src/Jwt/Sound.antt =====
-- What a request that rest/src/auth.rs lets through has shown.
use rust_zero.Prelude.{
  ℕ, ◌+◌, ◌≤◌, ◌≡◌, refl, ap, arith, Bool, true, false, not, List, [], ◌∷◌, ◌++◌, Option, none,
  some, ◌>>=◌, Bool-cases, inl, inr, >>=-eq-some,
}
use rust_zero.Prelude.Words.{saturate64}
use rust_zero.Prelude.Results.{
  Result, ok, err, unless, ok_or, >>?-eq-ok, unless-eq-ok, ok_or-eq-ok, ok-injective,
}
use rust_zero.Jwt.Failure
use rust_zero.Jwt.Failure.{AuthFailure}
use rust_zero.Jwt.{
  Crates, dot, segments, bearer_token, JwtError, malformed, unsupported_algorithm,
  invalid_signature, expired, not_yet_valid, invalid_claims, alg, exp, nbf, is_hs256, is_expired,
  is_early, checked_claims, decode_hs256, or_failure, accepts, authorize,
}
use rust_zero.Prelude.Texts.{Text, any, split}
use rust_zero.Jwt.Split.{split-three}

any_some :
    {A : Type 0} (p : A → Bool) (xs : List A)
    → any p xs ≡ true
    → (before : List A) × (a : A) × (after : List A) × (xs ≡ before ++ a ∷ after) × (p a ≡ true)
any_some p [] h = cc
any_some p (x ∷ xs) h = elim (Bool-cases (p x)) [
  | inl yes_here ↦ ([], x, xs, refl, yes_here)
  | inr no_here ↦
      let later : any p xs ≡ true = ground arith in
      let (before, a, after, e, holds) = any_some p xs later in
      (x ∷ before, a, after, ap (λ k. x ∷ k) e, holds)
]

not-false : (b : Bool) → not b ≡ false → b ≡ true
not-false true h = refl
not-false false h = cc

module _ {V T : Type 0} (c : Crates V T) where
  abbrev pub IsTimely : ℕ → ℕ → V → Type 0
  IsTimely leeway now v =
      ((expires : ℕ) → c.u64_at exp v ≡ some expires → now ≤ saturate64 (expires + leeway))
      × ((not_before : ℕ)
          → c.u64_at nbf v ≡ some not_before
          → not_before ≤ saturate64 (now + leeway))

  -- The claims are those of the second segment, at a time that they allow.
  abbrev pub Claimed : Text → ℕ → ℕ → T → Type 0
  Claimed claims leeway now result =
      (bytes : Text) × (v : V) × (c.decode claims ≡ some bytes)
      × (c.parse bytes ≡ some v)
      × IsTimely leeway now v
      × (c.from_slice bytes ≡ some result)

  abbrev pub Shown : Text → List Text → ℕ → ℕ → T → Type 0
  Shown token secrets leeway now result =
      (header claims signature tag : Text) × (v : V) × (before : List Text) × (secret : Text)
      × (after : List Text) × (token ≡ header ++ dot ∷ (claims ++ dot ∷ signature))
      × ((c.decode header >>= c.parse) ≡ some v)
      × (is_hs256 (c.str_at alg v) ≡ true)
      × (c.decode signature ≡ some tag)
      × (secrets ≡ before ++ secret ∷ after)
      × (accepts c (header ++ dot ∷ claims) tag secret ≡ true)
      × Claimed claims leeway now result

  late :
      (now leeway : ℕ) (o : Option ℕ) (expires : ℕ)
      → is_expired now leeway o ≡ false
      → o ≡ some expires
      → now ≤ saturate64 (expires + leeway)
  unfolding is_expired
  late now leeway none expires h e = cc
  late now leeway (some n) expires h e = let same : n ≡ expires = cc in ground arith

  early :
      (now leeway : ℕ) (o : Option ℕ) (not_before : ℕ)
      → is_early now leeway o ≡ false
      → o ≡ some not_before
      → not_before ≤ saturate64 (now + leeway)
  unfolding is_early
  early now leeway none not_before h e = cc
  early now leeway (some n) not_before h e = let same : n ≡ not_before = cc in ground arith

  checked_claims-Claimed :
      (claims : Text) (leeway now : ℕ) {result : T}
      → checked_claims c claims leeway now ≡ ok result
      → Claimed claims leeway now result
  unfolding checked_claims
  checked_claims-Claimed claims leeway now e =
      let (bytes, decoded, e1) = >>?-eq-ok (ok_or malformed (c.decode claims)) _ e in
      let (v, parsed, e2) = >>?-eq-ok (ok_or invalid_claims (c.parse bytes)) _ e1 in
      let (u, fresh, e3) =
        >>?-eq-ok (unless (is_expired now leeway (c.u64_at exp v)) expired) _ e2 in
      let (w, begun, e4) =
        >>?-eq-ok (unless (is_early now leeway (c.u64_at nbf v)) not_yet_valid) _ e3 in
      (
        bytes,
        v,
        ok_or-eq-ok malformed (c.decode claims) decoded,
        ok_or-eq-ok invalid_claims (c.parse bytes) parsed,
        (
          (λ expires f.
              late now leeway (c.u64_at exp v) expires
                (unless-eq-ok (is_expired now leeway (c.u64_at exp v)) expired fresh) f),
          (λ not_before f.
              early now leeway (c.u64_at nbf v) not_before
                (unless-eq-ok (is_early now leeway (c.u64_at nbf v)) not_yet_valid begun) f),
        ),
        ok_or-eq-ok invalid_claims (c.from_slice bytes) e4,
      )

  three : (ss : List Text) {h b s : Text} → segments ss ≡ ok (h, b, s) → ss ≡ h ∷ b ∷ s ∷ []
  unfolding segments
  three [] e = cc
  three (a ∷ []) e = cc
  three (a ∷ b ∷ []) e = cc
  three (a ∷ b ∷ d ∷ []) e = ap (λ p. p.0 ∷ p.1 ∷ p.2 ∷ []) (ok-injective e)
  three (a ∷ b ∷ d ∷ f ∷ ss) e = cc

  decode_hs256-Shown :
      (token : Text) (secrets : List Text) (leeway now : ℕ) {result : T}
      → decode_hs256 c token secrets leeway now ≡ ok result
      → Shown token secrets leeway now result
  unfolding decode_hs256
  decode_hs256-Shown token secrets leeway now e =
      let ((header, claims, signature), cut, e1) = >>?-eq-ok (segments (split dot token)) _ e in
      let (v, parsed, e2) = >>?-eq-ok (ok_or malformed (c.decode header >>= c.parse)) _ e1 in
      let (u, algorithm, e3) =
        >>?-eq-ok (unless (not (is_hs256 (c.str_at alg v))) unsupported_algorithm) _ e2 in
      let (tag, tagged, e4) = >>?-eq-ok (ok_or malformed (c.decode signature)) _ e3 in
      let (w, signed, e5) =
        >>?-eq-ok
          (unless (not (any (accepts c (header ++ dot ∷ claims) tag) secrets)) invalid_signature) _
          e4 in
      let valid =
        not-false (any (accepts c (header ++ dot ∷ claims) tag) secrets)
          (unless-eq-ok _ invalid_signature signed) in
      let (before, secret, after, among, accepted) =
        any_some (accepts c (header ++ dot ∷ claims) tag) secrets valid in
      (
        header,
        claims,
        signature,
        tag,
        v,
        before,
        secret,
        after,
        split-three token header claims signature (three (split dot token) cut),
        ok_or-eq-ok malformed (c.decode header >>= c.parse) parsed,
        not-false (is_hs256 (c.str_at alg v)) (unless-eq-ok _ unsupported_algorithm algorithm),
        ok_or-eq-ok malformed (c.decode signature) tagged,
        among,
        accepted,
        checked_claims-Claimed claims leeway now e5,
      )

  or_failure-eq-ok :
      (r : Result JwtError T) {result : T} → or_failure c r ≡ ok result → r ≡ ok result
  or_failure-eq-ok (ok a) e = ap ok (ok-injective e)
  or_failure-eq-ok (err f) e = cc

-- A request that is let through has a header with a bearer token of three segments, whose header
-- says HS256, whose signature HMAC accepts with one of the secrets, and whose claims are given back
-- at a time from `nbf` less the leeway to `exp` plus the leeway.
pub authorize-Shown :
    {V T : Type 0} (c : Crates V T) (header : Option Text) (secrets : List Text) (leeway now : ℕ)
    {result : T}
    → authorize c header secrets leeway now ≡ ok result
    → (value token : Text) × (header ≡ some value)
      × (bearer_token value ≡ some token)
      × Shown c token secrets leeway now result
unfolding authorize
authorize-Shown c header secrets leeway now e =
    let (token, found, decoded) =
      >>?-eq-ok (ok_or Failure.missing_credentials (header >>= bearer_token)) _ e in
    let (value, given, borne) =
      >>=-eq-some header bearer_token
        (ok_or-eq-ok Failure.missing_credentials (header >>= bearer_token) found) in
    (
      value,
      token,
      given,
      borne,
      decode_hs256-Shown c token secrets leeway now
          (or_failure-eq-ok c (decode_hs256 c token secrets leeway now) decoded),
    )
