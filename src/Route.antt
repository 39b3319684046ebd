-- ===== src/Route.antt =====
-- rest/src/route.rs: declarative route policies. A text is its bytes.
pub mod Compile
pub mod Compiled
pub mod Sound
pub mod Chain
pub mod Call
mod Tests
use mathlib.Core.List.{foldl, reverse}
use rust_zero.Prelude.{
  ℕ, zero, suc, ◌*◌, ◌≡◌, refl, Bool, true, false, not, ◌&&◌, List, [], ◌∷◌, ◌++◌, map, Option,
  none, some, ◌>>=◌, if◌then◌else◌, ite, ◌==◌,
}
use rust_zero.Prelude.HashMap
use rust_zero.Prelude.Results.{Result, ok, err, ◌>>?◌, unless}
use rust_zero.Prelude.Sets.{contains}

abbrev pub Text : Type 0
Text = List ℕ

abbrev pub slash : ℕ
slash = b'/'

abbrev pub is_empty : Text → Bool
is_empty [] = true
is_empty (c ∷ text) = false

-- `starts_with('/')`
abbrev pub starts_with_slash : Text → Bool
starts_with_slash [] = false
starts_with_slash (c ∷ text) = c == slash

-- `or`, `is_some` and `unwrap_or` of an option.
abbrev pub or_else : {A : Type 0} → Option A → Option A → Option A
or_else none other = other
or_else (some a) other = some a

abbrev pub unwrap_or : {A : Type 0} → Option A → A → A
unwrap_or none a = a
unwrap_or (some b) a = b

abbrev pub is_some : {A : Type 0} → Option A → Bool
is_some none = false
is_some (some a) = true

-- The claim projection is of the type `C`.
pub record RouteJwtConfig (C : Type 0) : Type 0 where
  pub secret : Text
  pub previous_secret : Option Text
  pub leeway_seconds : ℕ
  pub claim_projection : C

pub record RoutePolicyConfig (C : Type 0) : Type 0 where
  pub method : Text
  pub path : Text
  pub public : Bool
  pub jwt : Option (RouteJwtConfig C)
  pub timeout_ms : Option ℕ
  pub max_body_bytes : Option ℕ
  pub priority : Option Bool
  pub sse : Option Bool

pub record RouteGroupConfig (C : Type 0) : Type 0 where
  pub prefix : Text
  pub jwt : Option (RouteJwtConfig C)
  pub timeout_ms : Option ℕ
  pub max_body_bytes : Option ℕ
  pub priority : Bool
  pub sse : Bool
  pub middleware : List Text
  pub routes : List (RoutePolicyConfig C)

-- A `Method` is of the type `M`, a `Duration` a number of milliseconds.
pub record CompiledPolicy (M C : Type 0) : Type 0 where
  pub method : M
  pub pattern : Text
  pub jwt_secrets : Option (List Text)
  pub jwt_leeway_seconds : ℕ
  pub jwt_claim_projection : C
  pub timeout : Option ℕ
  pub max_body_bytes : Option ℕ
  pub priority : Bool
  pub sse : Bool
  pub middleware : List Text

-- `W` is the type of `Arc<dyn RouteMiddleware>`.
pub record RoutePolicies (M C W : Type 0) : Type 0 where
  pub routes : List (CompiledPolicy M C)
  pub middleware : List (Text × W)

-- The messages of the `Err` results.
pub data RouteError : Type 0 where
  empty_path zero_timeout zero_max_body empty_secret empty_previous_secret empty_middleware_name :
      RouteError
  relative_path relative_prefix public_with_jwt invalid_method duplicate_route : Text → RouteError
  duplicate_middleware_name not_registered : Text → RouteError

unfoldable pub validate_prefix : Text → Result RouteError Unit
validate_prefix prefix =
    unless (not (is_empty prefix) && not (starts_with_slash prefix)) (relative_prefix prefix)

abbrev pub is_zero : Option ℕ → Bool
is_zero (some zero) = true
is_zero other = false

unfoldable pub validate_optional_limits : Option ℕ → Option ℕ → Result RouteError Unit
validate_optional_limits timeout_ms max_body_bytes =
    unless (is_zero timeout_ms) zero_timeout >>? λ u. unless (is_zero max_body_bytes) zero_max_body

abbrev pub is_blank_secret : Option Text → Bool
is_blank_secret none = false
is_blank_secret (some secret) = is_empty secret

-- `validate_jwt`, under the `if let` of its calls.
unfoldable pub validate_jwt : {C : Type 0} → Option (RouteJwtConfig C) → Result RouteError Unit
validate_jwt none = ok tt
validate_jwt (some jwt) = unless (is_empty jwt.secret) empty_secret >>? λ u.
    unless (is_blank_secret jwt.previous_secret) empty_previous_secret

abbrev pub previous_bytes : Option Text → List Text
previous_bytes none = []
previous_bytes (some previous) = previous ∷ []

unfoldable pub jwt_secrets : {C : Type 0} → RouteJwtConfig C → List Text
jwt_secrets jwt = jwt.secret ∷ previous_bytes jwt.previous_secret

-- `trim_end_matches('/')`
unfoldable pub trim_end_slashes : Text → Text
trim_end_slashes [] = []
trim_end_slashes (c ∷ text) =
    let rest = trim_end_slashes text in if is_empty rest && (c == slash) then [] else c ∷ rest

unfoldable pub join_route : Text → Text → Text
join_route prefix [] = prefix
join_route [] (c ∷ path) = c ∷ path
join_route (p ∷ prefix) (c ∷ path) =
    if is_empty prefix && (p == slash) then c ∷ path else trim_end_slashes (p ∷ prefix) ++ c ∷ path

-- Text equality, and the test that the trimmed text is empty.
module _ (t : Discrete Text) (is_blank : Text → Bool) where
  -- The loop of `validate_middleware_names`, with its set.
  unfoldable pub names_from : List Text → List Text → Result RouteError Unit
  names_from unique [] = ok tt
  names_from unique (name ∷ names) = unless (is_blank name) empty_middleware_name >>? λ u.
      unless (contains t name unique) (duplicate_middleware_name name) >>? λ u.
      names_from (name ∷ unique) names

  unfoldable pub validate_middleware_names : List Text → Result RouteError Unit
  validate_middleware_names names = names_from [] names

  unfoldable pub validate_group : {C : Type 0} → RouteGroupConfig C → Result RouteError Unit
  validate_group group = validate_prefix group.prefix >>? λ u.
      validate_optional_limits group.timeout_ms group.max_body_bytes >>? λ u.
      validate_middleware_names group.middleware >>? λ u. validate_jwt group.jwt
