-- ===== src/Signature/Tests.antt =====
-- Runs of the signatures, and the theorems about them at inputs that meet their hypotheses, with a MAC
-- that is easy to compute with: the secret before the text.
use rust_zero.Prelude.{◌⊎◌, ◌≡◌, ◌≤◌, refl, arith, [], ◌∷◌, ◌++◌, some, ℕ_discrete}
use mathlib.Core.List.{List-discrete}
use rust_zero.Prelude.HashMap
use rust_zero.Prelude.Int.{pos, negsuc}
use rust_zero.Prelude.Results.{ok}
use rust_zero.Prelude.Texts.{Text, same_text, same_text_refl, same_text→eq}
use rust_zero.Signature.{
  RequestSignature, Mac, to_ascii_uppercase, canonical, abs_diff, RequestSignatureVerifier, as_secs,
  sign_request, verify,
}
use rust_zero.Signature.Replay.{IsForged, MacLaws, sign_request-verify, verify-signed}

-- The digits of -12, a method and a target.
canonical_run :
    canonical (negsuc 11) (b'g' ∷ b'e' ∷ b't' ∷ []) (b'/' ∷ [])
    ≡ b'-' ∷ b'1' ∷ b'2' ∷ 10 ∷ b'G' ∷ b'E' ∷ b'T' ∷ 10 ∷ b'/' ∷ []
unfolding canonical rust_zero.Signature.print rust_zero.Hash.decimal to_ascii_uppercase
canonical_run = refl

abbrev toy : Mac
toy = record {
  encode = λ text. text;
  decode = λ text. some text;
  mac = λ secret text. some (secret ++ text);
  verify_slice = same_text;
}

toy_laws : MacLaws toy
toy_laws = record {
  decode-encode = λ text. refl;
  verify_refl = same_text_refl;
  verify_only = same_text→eq;
}

abbrev secret : Text
secret = b'k' ∷ []

abbrev id : Text
id = b'i' ∷ []

abbrev get : Text
get = b'g' ∷ b'e' ∷ b't' ∷ []

abbrev get_upper : Text
get_upper = b'G' ∷ b'E' ∷ b'T' ∷ []

abbrev target : Text
target = b'/' ∷ b'a' ∷ []

-- Thirty seconds.
abbrev verifier : Discrete Text → RequestSignatureVerifier
verifier d = record { keys = HashMap.insert d id secret []; max_clock_skew = 30000000000 }

abbrev signed : RequestSignature
signed = record {
  key_id = id;
  timestamp = pos 100;
  signature = secret ++ canonical (pos 100) get target;
}

sign_run : sign_request toy id secret (pos 100) get target ≡ ok signed
unfolding sign_request
sign_run = refl

abbrev texts : Discrete Text
texts = List-discrete ℕ_discrete

sign_request-verify_example :
    verify toy texts (verifier texts) signed get_upper target (pos 120) ≡ ok tt
unfolding to_ascii_uppercase abs_diff
sign_request-verify_example =
    sign_request-verify toy texts toy_laws (verifier texts) id secret (pos 100) (pos 120) get
      get_upper target sign_run (HashMap.get-insert_self texts id secret []) refl (omega arith)

verify-signed_example :
    (abs_diff (pos 120) (pos 100) ≤ as_secs 30000000000)
    × (((to_ascii_uppercase get_upper ≡ to_ascii_uppercase get) × (target ≡ target))
        ⊎ IsForged toy texts secret
            (canonical (pos 100) get target)
            (canonical (pos 100) get_upper target))
verify-signed_example =
    verify-signed toy texts toy_laws (verifier texts) id secret (pos 100) (pos 120) get get_upper
      target target (omega arith) (refl, (refl, (refl, tt))) (refl, (refl, (refl, tt)))
      (HashMap.get-insert_self texts id secret []) sign_run sign_request-verify_example
