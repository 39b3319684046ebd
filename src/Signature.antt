-- ===== src/Signature.antt =====
-- core/src/auth.rs: the signatures of requests. Base64 and HMAC are arguments, and a duration is its
-- nanoseconds.
pub mod Canonical
pub mod Replay
mod Tests
use rust_zero.Prelude.{
  ℕ, zero, suc, ◌+◌, ◌-◌, ◌/◌, Bool, true, false, ◌||◌, List, [], ◌∷◌, ◌++◌, map, Option, none,
  some, ltb, leb, ◌==◌, ◌&&◌, if◌then◌else◌, min, max,
}
use rust_zero.Prelude.HashMap
use rust_zero.Prelude.Int.{ℤ, pos, negsuc}
use rust_zero.Prelude.Results.{Result, ok, err, ◌>>?◌, unless, ok_or}
use rust_zero.Prelude.Texts.{Text, is_empty, any}
use rust_zero.Hash.{decimal}
use rust_zero.Jwt.Failure.{AuthFailure, invalid_signature, stale_signature}

pub record RequestSignature : Type 0 where
  pub key_id : Text
  pub timestamp : ℤ
  pub signature : Text

-- The calls of the crates `base64` and `hmac`: `new_from_slice`, `update` and `finalize`, and
-- `verify_slice` against what they give.
pub record Mac : Type 0 where
  pub encode : Text → Text
  pub decode : Text → Option Text
  pub mac : Text → Text → Option Text
  pub verify_slice : Text → Text → Bool

abbrev pub newline : ℕ
newline = 10

-- `{timestamp}`, which has at most twenty digits.
unfoldable pub print : ℤ → Text
print (pos n) = decimal 20 n
print (negsuc n) = b'-' ∷ decimal 20 (n + 1)

abbrev pub upper : ℕ → ℕ
upper c = if leb b'a' c && leb c b'z' then c - 32 else c

unfoldable pub to_ascii_uppercase : Text → Text
to_ascii_uppercase = map upper

unfoldable pub canonical : ℤ → Text → Text → Text
canonical timestamp method target =
    print timestamp ++ newline ∷ (to_ascii_uppercase method ++ newline ∷ target)

-- `abs_diff`
unfoldable pub abs_diff : ℤ → ℤ → ℕ
abs_diff (pos a) (pos b) = max a b - min a b
abs_diff (pos a) (negsuc b) = a + b + 1
abs_diff (negsuc a) (pos b) = a + b + 1
abs_diff (negsuc a) (negsuc b) = max a b - min a b

pub record RequestSignatureVerifier : Type 0 where
  pub keys : List (Text × Text)
  pub max_clock_skew : ℕ

abbrev pub as_secs : ℕ → ℕ
as_secs duration = duration / 1000000000

module _ (d : Discrete Text) where
  -- `collect` into a map, in which a later key replaces an equal one.
  unfoldable pub collect : List (Text × Text) → List (Text × Text) → List (Text × Text)
  collect map [] = map
  collect map ((id, secret) ∷ keys) = collect (HashMap.insert d id secret map) keys

  abbrev pub no_keys : List (Text × Text) → Bool
  no_keys [] = true
  no_keys (key ∷ keys) = false

  unfoldable pub new : List (Text × Text) → ℕ → Result AuthFailure RequestSignatureVerifier
  new keys max_clock_skew = unless (max_clock_skew == 0) invalid_signature >>? λ u.
      let map = collect [] keys in
      unless (no_keys map || any (λ key. is_empty key.0 || is_empty key.1) map) invalid_signature
      >>? λ u. ok (record { keys = map; max_clock_skew = max_clock_skew })

module _ (c : Mac) where
  unfoldable pub sign_request : Text → Text → ℤ → Text → Text → Result AuthFailure RequestSignature
  sign_request key_id secret timestamp method target =
      unless (is_empty secret || is_empty method || is_empty target) invalid_signature >>? λ u.
      ok_or invalid_signature (c.mac secret (canonical timestamp method target)) >>? λ tag.
      ok (record { key_id = key_id; timestamp = timestamp; signature = c.encode tag })

  unfoldable pub verify :
      Discrete Text
      → RequestSignatureVerifier
      → RequestSignature
      → Text
      → Text
      → ℤ
      → Result AuthFailure Unit
  verify d v signature method target now =
      unless (ltb (as_secs v.max_clock_skew) (abs_diff now signature.timestamp)) stale_signature
      >>? λ u. ok_or invalid_signature (HashMap.get d signature.key_id v.keys) >>? λ secret.
          ok_or invalid_signature (c.decode signature.signature) >>? λ supplied.
          ok_or invalid_signature (c.mac secret (canonical signature.timestamp method target))
          >>? λ tag. if c.verify_slice tag supplied then ok tt else err invalid_signature
