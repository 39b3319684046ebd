-- ===== src/Route/Compile.antt =====
-- `RoutePolicies::compile`, `find` and `with_middleware` of rest/src/route.rs.
use rust_zero.Prelude.{
  ℕ, Bool, not, ◌&&◌, List, [], ◌∷◌, ◌++◌, Option, none, some, if◌then◌else◌, ite,
}
use rust_zero.Prelude.HashMap
use rust_zero.Prelude.Results.{Result, ok, err, ◌>>?◌, unless}
use rust_zero.Prelude.Sets.{contains}
use rust_zero.Route.{
  Text, RouteJwtConfig, RoutePolicyConfig, RouteGroupConfig, CompiledPolicy, RoutePolicies,
  RouteError, empty_path, relative_path, public_with_jwt, invalid_method, duplicate_route,
  not_registered, is_empty, starts_with_slash, or_else, unwrap_or, is_some,
  validate_optional_limits, validate_jwt, jwt_secrets, join_route, validate_group,
}

unfoldable pub jwt_of :
    {C : Type 0} → RouteGroupConfig C → RoutePolicyConfig C → Option (RouteJwtConfig C)
jwt_of group route = if route.public then none else or_else route.jwt group.jwt

-- `routes` is the vector of `compile`, and `unique` its set.
pub record Compiling (M C : Type 0) : Type 0 where
  pub routes : List (CompiledPolicy M C)
  pub unique : List (M × Text)

unfoldable pub validate_route :
    {C : Type 0} → RouteGroupConfig C → RoutePolicyConfig C → Result RouteError Unit
validate_route group route =
    unless (is_empty route.path && is_empty group.prefix) empty_path >>? λ u.
    unless (not (is_empty route.path) && not (starts_with_slash route.path))
      (relative_path route.path)
    >>? λ u. validate_optional_limits route.timeout_ms route.max_body_bytes >>? λ u.
        validate_jwt route.jwt >>? λ u.
        unless (route.public && is_some route.jwt) (public_with_jwt route.path)

abbrev pub method_of : {M : Type 0} → (Text → Option M) → Text → Result RouteError M
method_of from_bytes method = elim (from_bytes method) [
  | none ↦ err (invalid_method method)
  | some m ↦ ok m
]

-- `JwtClaimProjection::default`
module _ {C : Type 0} (default : C) where
  -- The three values of the `match jwt`.
  unfoldable pub settings : Option (RouteJwtConfig C) → Option (List Text) × ℕ × C
  settings none = (none, 0, default)
  settings (some jwt) = (some (jwt_secrets jwt), jwt.leeway_seconds, jwt.claim_projection)

  -- What `compile` pushes for a route.
  unfoldable pub policy_of :
      {M : Type 0} → RouteGroupConfig C → RoutePolicyConfig C → M → CompiledPolicy M C
  policy_of group route method =
      let (secrets, leeway, projection) = settings (jwt_of group route) in
      let sse = unwrap_or route.sse group.sse in
      record {
        method = method;
        pattern = join_route group.prefix route.path;
        jwt_secrets = secrets;
        jwt_leeway_seconds = leeway;
        jwt_claim_projection = projection;
        timeout = if sse then none else or_else route.timeout_ms group.timeout_ms;
        max_body_bytes = or_else route.max_body_bytes group.max_body_bytes;
        priority = unwrap_or route.priority group.priority;
        sse = sse;
        middleware = group.middleware;
      }

-- `Method::from_bytes`, and the equality of routes.
module _ {M C : Type 0} (from_bytes : Text → Option M) (default : C) (d : Discrete (M × Text)) where
  -- The body of the inner loop.
  unfoldable pub compile_route :
      RouteGroupConfig C → RoutePolicyConfig C → Compiling M C → Result RouteError (Compiling M C)
  compile_route group route s = validate_route group route >>? λ u.
      method_of from_bytes route.method >>? λ method.
      unless (contains d (method, join_route group.prefix route.path) s.unique)
        (duplicate_route (join_route group.prefix route.path))
      >>? λ u. ok (record {
        routes = s.routes ++ policy_of default group route method ∷ [];
        unique = (method, join_route group.prefix route.path) ∷ s.unique;
      })

  unfoldable pub compile_routes :
      RouteGroupConfig C
      → List (RoutePolicyConfig C)
      → Compiling M C
      → Result RouteError (Compiling M C)
  compile_routes group [] s = ok s
  compile_routes group (route ∷ routes) s =
      compile_route group route s >>? λ s'. compile_routes group routes s'

module _ {M C : Type 0} (d : Discrete (M × Text)) where
  unfoldable pub find : List (CompiledPolicy M C) → M → Text → Option (CompiledPolicy M C)
  find [] method pattern = none
  find (route ∷ routes) method pattern =
      ite (d (route.method, route.pattern) (method, pattern)) (some route)
        (find routes method pattern)

module _ {M C : Type 0} (from_bytes : Text → Option M) (default : C) (d : Discrete (M × Text))
    (t : Discrete Text) (is_blank : Text → Bool) where
  -- The outer loop of `compile`.
  unfoldable pub compile_groups :
      List (RouteGroupConfig C) → Compiling M C → Result RouteError (Compiling M C)
  compile_groups [] s = ok s
  compile_groups (group ∷ groups) s = validate_group t is_blank group >>? λ u.
      compile_routes from_bytes default d group group.routes s >>? λ s'. compile_groups groups s'

  unfoldable pub compile :
      {W : Type 0} → List (RouteGroupConfig C) → Result RouteError (RoutePolicies M C W)
  compile groups = compile_groups groups (record { routes = []; unique = [] }) >>? λ s.
      ok (record { routes = s.routes; middleware = [] })

module _ {W : Type 0} (t : Discrete Text) where
  unfoldable pub check_names : List (Text × W) → List Text → Result RouteError Unit
  check_names registry [] = ok tt
  check_names registry (name ∷ names) = elim (HashMap.get t name registry) [
    | none ↦ err (not_registered name)
    | some w ↦ check_names registry names
  ]

  unfoldable pub check_routes :
      {M C : Type 0} → List (Text × W) → List (CompiledPolicy M C) → Result RouteError Unit
  check_routes registry [] = ok tt
  check_routes registry (route ∷ routes) =
      check_names registry route.middleware >>? λ u. check_routes registry routes

  unfoldable pub with_middleware :
      {M C : Type 0}
      → RoutePolicies M C W
      → List (Text × W)
      → Result RouteError (RoutePolicies M C W)
  with_middleware policies registry =
      check_routes registry policies.routes >>? λ u. ok (record policies { middleware = registry })
