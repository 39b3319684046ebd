-- ===== src/Signature/Replay.antt =====
-- What `verify` of core/src/auth.rs accepts.
use rust_zero.Prelude.{
  ◌≤◌, ◌≡◌, refl, sym, ap, ◌∙◌, subst, arith, Bool, true, false, ◌||◌, some, ltb, if◌then◌else◌,
  some-injective, ◌≢◌, ◌⊎◌, inl, inr, Bool-cases,
}
use rust_zero.Prelude.HashMap
use rust_zero.Prelude.Int.{ℤ}
use rust_zero.Prelude.Results.{
  ok, err, unless, ok_or, >>?-eq-ok, unless-eq-ok, ok_or-eq-ok, ok-injective,
}
use rust_zero.Prelude.Texts.{Text, is_empty, IsPlain, same_text, same_text_refl, same_text→eq}
use rust_zero.Jwt.Failure.{invalid_signature, stale_signature}
use rust_zero.Signature.{
  RequestSignature, Mac, newline, to_ascii_uppercase, canonical, abs_diff, RequestSignatureVerifier,
  as_secs, sign_request, verify,
}
use rust_zero.Signature.Canonical.{IsI64, canonical-injective}

-- What the crates document: decoding undoes encoding, and a tag is verified against the tag that is
-- made, and against no other.
pub record MacLaws (c : Mac) : Type 0 where
  pub decode-encode : (text : Text) → c.decode (c.encode text) ≡ some text
  pub verify_refl : (tag : Text) → c.verify_slice tag tag ≡ true
  pub verify_only : (tag supplied : Text) → c.verify_slice tag supplied ≡ true → tag ≡ supplied

module _ (c : Mac) (d : Discrete Text) where
  -- What a signature is made of.
  sign_request-eq-ok :
      (id secret : Text) (timestamp : ℤ) (method target : Text) {signature : RequestSignature}
      → sign_request c id secret timestamp method target ≡ ok signature
      → (tag : Text) × (c.mac secret (canonical timestamp method target) ≡ some tag)
        × (record { key_id = id; timestamp = timestamp; signature = c.encode tag } ≡ signature)
  unfolding sign_request
  sign_request-eq-ok id secret timestamp method target e =
      let (u, filled, e1) =
        >>?-eq-ok (unless (is_empty secret || is_empty method || is_empty target) invalid_signature)
          _ e in
      let (tag, made, e2) =
        >>?-eq-ok (ok_or invalid_signature (c.mac secret (canonical timestamp method target))) _
          e1 in
      (
        tag,
        ok_or-eq-ok invalid_signature (c.mac secret (canonical timestamp method target)) made,
        ok-injective e2,
      )

  -- What an accepted signature shows.
  abbrev pub IsShown : RequestSignatureVerifier → RequestSignature → Text → Text → ℤ → Type 0
  IsShown v signature method target now =
      (abs_diff now signature.timestamp ≤ as_secs v.max_clock_skew)
      × ((secret supplied tag : Text) × (HashMap.get d signature.key_id v.keys ≡ some secret)
          × (c.decode signature.signature ≡ some supplied)
          × (c.mac secret (canonical signature.timestamp method target) ≡ some tag)
          × (c.verify_slice tag supplied ≡ true))

  verify-IsShown :
      (v : RequestSignatureVerifier) (signature : RequestSignature) (method target : Text) (now : ℤ)
      {u : Unit}
      → verify c d v signature method target now ≡ ok u
      → IsShown v signature method target now
  unfolding verify
  verify-IsShown v signature method target now {u} e =
      let stale = ltb (as_secs v.max_clock_skew) (abs_diff now signature.timestamp) in
      let (u1, fresh, e1) = >>?-eq-ok (unless stale stale_signature) _ e in
      let (secret, key, e2) =
        >>?-eq-ok (ok_or invalid_signature (HashMap.get d signature.key_id v.keys)) _ e1 in
      let (supplied, decoded, e3) =
        >>?-eq-ok (ok_or invalid_signature (c.decode signature.signature)) _ e2 in
      let (tag, made, e4) =
        >>?-eq-ok
          (ok_or invalid_signature (c.mac secret (canonical signature.timestamp method target))) _
          e3 in
      let is_fresh = unless-eq-ok stale stale_signature fresh in
      (
        ground arith,
        (
          secret,
          supplied,
          tag,
          ok_or-eq-ok invalid_signature (HashMap.get d signature.key_id v.keys) key,
          ok_or-eq-ok invalid_signature (c.decode signature.signature) decoded,
          ok_or-eq-ok invalid_signature (c.mac secret (canonical signature.timestamp method target))
              made,
          verified (c.verify_slice tag supplied) e4,
        ),
      )
    where
      verified : (b : Bool) → (if b then ok tt else err invalid_signature) ≡ ok u → b ≡ true
      verified true e = refl
      verified false e = cc

  -- A signature is accepted, within the clock skew, by a verifier that has its key, for the signed target
  -- and the signed method in any case of its letters.
  pub sign_request-verify :
      MacLaws c
      → (v : RequestSignatureVerifier) (id secret : Text) (timestamp now : ℤ)
        (method method' target : Text) {signature : RequestSignature}
      → sign_request c id secret timestamp method target ≡ ok signature
      → HashMap.get d id v.keys ≡ some secret
      → to_ascii_uppercase method' ≡ to_ascii_uppercase method
      → abs_diff now timestamp ≤ as_secs v.max_clock_skew
      → verify c d v signature method' target now ≡ ok tt
  unfolding verify canonical
  sign_request-verify laws v id secret timestamp now method method' target e key same fresh =
      let (tag, made, s) = sign_request-eq-ok id secret timestamp method target e in
      let not_stale : ltb (as_secs v.max_clock_skew) (abs_diff now timestamp) ≡ false =
        ground arith in
      subst (λ k. verify c d v k method' target now ≡ ok tt) s
        (rw (not_stale, key, laws.decode-encode tag, same, made, laws.verify_refl tag) refl)

  -- A text that a key has the tag of another text for, though it is not that text.
  abbrev pub IsForged : Text → Text → Text → Type 0
  IsForged secret signed text = (text ≢ signed) × (c.mac secret text ≡ c.mac secret signed)

  IsForged-or_same :
      (secret signed text : Text)
      → c.mac secret text ≡ c.mac secret signed
      → (text ≡ signed) ⊎ IsForged secret signed text
  IsForged-or_same secret signed text e = elim (Bool-cases (same_text text signed)) [
    | inl t ↦ inl (same_text→eq text signed t)
    | inr t ↦ inr (λ s. let alike = ap (same_text text) (sym s) ∙ same_text_refl text in cc, e)
  ]

  -- If a verifier that holds the key of a signature under its name accepts the signature for some request,
  -- then the timestamp is within the clock skew, and the request has the signed target and, but for
  -- its case, the signed method; or else the text to be signed for the request is another text than
  -- the one that was signed, for which the key gives the same tag: a forgery of HMAC. The methods
  -- have no line break.
  pub verify-signed :
      MacLaws c
      → (v : RequestSignatureVerifier) (id secret : Text) (timestamp now : ℤ)
        (method method' target target' : Text) {signature : RequestSignature} {u : Unit}
      → IsI64 timestamp
      → IsPlain newline method
      → IsPlain newline method'
      → HashMap.get d id v.keys ≡ some secret
      → sign_request c id secret timestamp method target ≡ ok signature
      → verify c d v signature method' target' now ≡ ok u
      → (abs_diff now timestamp ≤ as_secs v.max_clock_skew)
        × (((to_ascii_uppercase method' ≡ to_ascii_uppercase method) × (target' ≡ target))
            ⊎ IsForged secret
                (canonical timestamp method target)
                (canonical timestamp method' target'))
  verify-signed laws v id secret timestamp now method method' target target' {signature} i p p' key
        e a =
      let (tag, made, s) = sign_request-eq-ok id secret timestamp method target e in
      let made_of : RequestSignature = record {
        key_id = id;
        timestamp = timestamp;
        signature = c.encode tag;
      } in
      let (fresh, (secret', supplied, tag', key', decoded, made', verified)) =
        verify-IsShown v made_of method' target' now
          (ap (λ k. verify c d v k method' target' now) s ∙ a) in
      let secrets : secret' ≡ secret = some-injective (sym key' ∙ key) in
      let tags : tag' ≡ tag =
        laws.verify_only tag' supplied verified
        ∙ some-injective (sym decoded ∙ laws.decode-encode tag) in
      let alike =
        ap (λ k. c.mac k (canonical timestamp method' target')) (sym secrets)
        ∙ made'
        ∙ ap some tags
        ∙ sym made in
      (
        fresh,
        elim (IsForged-or_same secret (canonical timestamp method target)
            (canonical timestamp method' target') alike) [
              | inl same ↦
                  let (times, methods, targets) =
                    canonical-injective timestamp timestamp method' method target' target i i p' p
                      same in
                  inl (methods, targets)
              | inr forged ↦ inr forged
            ],
      )
