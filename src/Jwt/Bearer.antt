-- ===== src/Jwt/Bearer.antt =====
-- The token of an `authorization` header.
use rust_zero.Prelude.{
  ◌≡◌, refl, ap, Bool, true, false, ◌&&◌, [], ◌∷◌, ◌++◌, some, if◌then◌else◌, All,
}
use rust_zero.Prelude.Texts.{Text, is_empty, any}
use rust_zero.Jwt.{
  is_whitespace, split_once, trim_start, trim_end, eq_ignore_ascii_case, bearer, bearer_token,
}

abbrev pub IsSolid : Text → Type 0
IsSolid = All (λ c. is_whitespace c ≡ false)

any-solid : (s : Text) → IsSolid s → any is_whitespace s ≡ false
any-solid [] h = refl
any-solid (c ∷ s) h = rw (h.0, any-solid s h.1) refl

trim_start-solid : (s : Text) → IsSolid s → trim_start s ≡ s
unfolding trim_start
trim_start-solid [] h = refl
trim_start-solid (c ∷ s) h = rw h.0 refl

and_false : (b : Bool) → (b && false) ≡ false
and_false true = refl
and_false false = refl

trim_end-solid : (s : Text) → IsSolid s → trim_end s ≡ s
unfolding trim_end
trim_end-solid [] h = refl
trim_end-solid (c ∷ s) h =
    rw (trim_end-solid s h.1, h.0) (ap (λ b. if b then [] else c ∷ s) (and_false (is_empty s)))

split_once-solid : (s t : Text) → IsSolid s → split_once (s ++ 32 ∷ t) ≡ some (s, t)
unfolding split_once
split_once-solid [] t h = refl
split_once-solid (c ∷ s) t h = rw (h.0, split_once-solid s t h.1) refl

-- A scheme that is `bearer` in any case, a space and a token without whitespace.
pub bearer_token_of :
    (scheme token : Text)
    → IsSolid scheme
    → eq_ignore_ascii_case scheme bearer ≡ true
    → is_empty token ≡ false
    → IsSolid token
    → bearer_token (scheme ++ 32 ∷ token) ≡ some token
unfolding bearer_token
bearer_token_of scheme token solid same filled whole =
    rw
      (
        split_once-solid scheme token solid,
        trim_end-solid token whole,
        trim_start-solid token whole,
        same,
        filled,
        any-solid token whole,
      )
      refl

pub IsSolid-append : (s t : Text) → IsSolid s → IsSolid t → IsSolid (s ++ 46 ∷ t)
IsSolid-append [] t h i = (refl, i)
IsSolid-append (c ∷ s) t h i = (h.0, IsSolid-append s t h.1 i)

pub filled-append : (s t : Text) → is_empty (s ++ 46 ∷ t) ≡ false
filled-append [] t = refl
filled-append (c ∷ s) t = refl
