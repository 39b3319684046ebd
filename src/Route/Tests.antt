-- ===== src/Route/Tests.antt =====
-- Runs of the route policies, and the theorems about them at inputs that meet their hypotheses.
use rust_zero.Prelude.{
  ℕ, ◌+◌, ◌≡◌, refl, ap, arith, Bool, true, false, List, [], ◌∷◌, ◌++◌, Option, none, some, length,
  All, ℕ_discrete,
}
use rust_zero.Prelude.HashMap
use rust_zero.Prelude.Results.{ok, err}
use rust_zero.Route.{
  Text, RouteJwtConfig, RoutePolicyConfig, RouteGroupConfig, CompiledPolicy, RoutePolicies,
  duplicate_route,
}
use rust_zero.Route.Compile.{find, compile, with_middleware}
use rust_zero.Route.Compiled.{Served, total, compile-Served}
use rust_zero.Route.Sound.{IsSound, compile-IsSound}
use rust_zero.Prelude.Texts.{same_text}
use rust_zero.Jwt.{Crates, hs256}
use rust_zero.Route.Call.{Actix, Guarded, call, call-Guarded}
use rust_zero.Route.Chain.{Middleware, Resolved, chain, nested, with_middleware-chain}

cons_dec :
    {x y : ℕ} {xs ys : Text} → Dec (x ≡ y) → Dec (xs ≡ ys) → Dec (◌≡◌ {A = Text} (x ∷ xs) (y ∷ ys))
cons_dec (yes p) (yes q) = yes cc
cons_dec (yes p) (no n) = no (λ e. n cc)
cons_dec (no n) q = no (λ e. n cc)

texts : Discrete Text
unfolding ℕ_discrete
texts [] [] = yes refl
texts [] (y ∷ ys) = no (λ e. cc)
texts (x ∷ xs) [] = no (λ e. cc)
texts (x ∷ xs) (y ∷ ys) = cons_dec (ℕ_discrete x y) (texts xs ys)

pair_dec : {a b : Text × Text} → Dec (a.0 ≡ b.0) → Dec (a.1 ≡ b.1) → Dec (a ≡ b)
pair_dec (yes p) (yes q) = yes (λ i. (p i, q i))
pair_dec (yes p) (no n) = no (λ e. n (ap (λ k. k.1) e))
pair_dec (no n) q = no (λ e. n (ap (λ k. k.0) e))

routes : Discrete (Text × Text)
routes a b = pair_dec {a = a} {b = b} (texts a.0 b.0) (texts a.1 b.1)

abbrev get : Text
get = b'G' ∷ b'E' ∷ b'T' ∷ []

abbrev item : Text
item = b'/' ∷ b'i' ∷ []

-- The middleware `m`.
abbrev names : List Text
names = (b'm' ∷ []) ∷ []

abbrev jwt : RouteJwtConfig ℕ
jwt = record {
  secret = b's' ∷ [];
  previous_secret = none;
  leeway_seconds = 5;
  claim_projection = 1;
}

abbrev private_route : RoutePolicyConfig ℕ
private_route = record {
  method = get;
  path = item;
  public = false;
  jwt = none;
  timeout_ms = none;
  max_body_bytes = none;
  priority = none;
  sse = none;
}

abbrev public_route : RoutePolicyConfig ℕ
public_route = record {
  method = get;
  path = [];
  public = true;
  jwt = none;
  timeout_ms = some 9;
  max_body_bytes = none;
  priority = none;
  sse = some true;
}

abbrev group : List (RoutePolicyConfig ℕ) → RouteGroupConfig ℕ
group routes = record {
  prefix = b'/' ∷ b'a' ∷ b'/' ∷ [];
  jwt = some jwt;
  timeout_ms = some 50;
  max_body_bytes = none;
  priority = true;
  sse = false;
  middleware = names;
  routes = routes;
}

abbrev compiled : {W : Type 0} → RoutePolicies Text ℕ W
compiled = record {
  routes =
      record {
        method = get;
        pattern = b'/' ∷ b'a' ∷ b'/' ∷ b'i' ∷ [];
        jwt_secrets = some ((b's' ∷ []) ∷ []);
        jwt_leeway_seconds = 5;
        jwt_claim_projection = 1;
        timeout = some 50;
        max_body_bytes = none;
        priority = true;
        sse = false;
        middleware = names;
      }
      ∷ record {
        method = get;
        pattern = b'/' ∷ b'a' ∷ b'/' ∷ [];
        jwt_secrets = none;
        jwt_leeway_seconds = 0;
        jwt_claim_projection = 0;
        timeout = none;
        max_body_bytes = none;
        priority = true;
        sse = true;
        middleware = names;
      }
      ∷ [];
  middleware = [];
}

abbrev blank : Text → Bool
blank [] = true
blank (c ∷ text) = false

abbrev groups : List (RouteGroupConfig ℕ)
groups = group (private_route ∷ public_route ∷ []) ∷ []

compiles : {W : Type 0} → compile some 0 routes texts blank {W = W} groups ≡ ok compiled
unfolding compile rust_zero.Route.Compile.compile_groups rust_zero.Route.Compile.compile_routes
    rust_zero.Route.Compile.compile_route rust_zero.Route.Compile.validate_route
    rust_zero.Route.validate_group rust_zero.Route.validate_prefix
    rust_zero.Route.validate_optional_limits rust_zero.Route.validate_middleware_names
    rust_zero.Route.names_from rust_zero.Route.validate_jwt rust_zero.Route.jwt_secrets
    rust_zero.Route.join_route rust_zero.Route.trim_end_slashes rust_zero.Route.Compile.policy_of
    rust_zero.Route.Compile.settings rust_zero.Route.Compile.jwt_of rust_zero.Prelude.Sets.contains
    texts routes ℕ_discrete cons_dec pair_dec
compiles = refl

compile-Served_example :
    All (λ g. All (Served some 0 routes (compiled {W = Unit}).routes g) g.routes) groups
    × (length (compiled {W = Unit}).routes ≡ total groups)
compile-Served_example =
    compile-Served some 0 routes texts blank groups {policies = compiled {W = Unit}} compiles

compile-IsSound_example : All (IsSound texts blank) (compiled {W = Unit}).routes
compile-IsSound_example =
    compile-IsSound some 0 routes texts blank groups {policies = compiled {W = Unit}} compiles

-- A middleware that adds to the response.
abbrev registry : List (Text × Middleware ℕ ℕ)
registry = ((b'm' ∷ []), λ request next. next request + 1) ∷ []

registered :
    with_middleware texts compiled registry ≡ ok (record compiled { middleware = registry })
unfolding with_middleware rust_zero.Route.Compile.check_routes rust_zero.Route.Compile.check_names
    HashMap.get texts ℕ_discrete cons_dec
registered = refl

with_middleware-chain_example :
    (registry ≡ registry)
    × All
        (λ r.
          (ms : List (Middleware ℕ ℕ)) × Resolved texts registry r.middleware ms
          × (chain texts registry r.middleware (λ n. n + 10) ≡ some (nested ms (λ n. n + 10))))
        (compiled {W = Middleware ℕ ℕ}).routes
with_middleware-chain_example =
    with_middleware-chain texts compiled registry (λ n. n + 10) registered

-- A request is its method, its pattern and its header; the response is a number.
abbrev Request : Type 0
Request = Text × Text × Option Text

abbrev crates : Crates Text Text
crates = record {
  encode = λ text. text;
  decode = some;
  mac = λ secret input. some secret;
  verify_slice = same_text;
  parse = some;
  str_at = λ key v. some hs256;
  u64_at = λ key v. none;
  to_vec = some;
  from_slice = some;
}

abbrev actix : Actix Text ℕ Text Request ℕ
actix = record {
  method = λ q. q.0;
  pattern = λ q. q.1;
  authorization = λ q. q.2;
  insert_claims = λ q projection claims. q;
  insert_policy = λ q policy. q;
  unauthorized = λ q failure. 401;
  stream_headers = λ response. response;
}

abbrev counters : List (Text × Middleware Request ℕ)
counters = ((b'm' ∷ []), λ request next. next request + 1) ∷ []

served_by : with_middleware texts compiled counters ≡ ok (record compiled { middleware = counters })
unfolding with_middleware rust_zero.Route.Compile.check_routes rust_zero.Route.Compile.check_names
    HashMap.get texts ℕ_discrete cons_dec
served_by = refl

abbrev private_policy : CompiledPolicy Text ℕ
private_policy = record {
  method = get;
  pattern = b'/' ∷ b'a' ∷ b'/' ∷ b'i' ∷ [];
  jwt_secrets = some ((b's' ∷ []) ∷ []);
  jwt_leeway_seconds = 5;
  jwt_claim_projection = 1;
  timeout = some 50;
  max_body_bytes = none;
  priority = true;
  sse = false;
  middleware = names;
}

-- `Bearer a.b.s`
abbrev request : Request
request = (
  get,
  (b'/' ∷ b'a' ∷ b'/' ∷ b'i' ∷ []),
  some (b'B' ∷ b'e' ∷ b'a' ∷ b'r' ∷ b'e' ∷ b'r' ∷ b' ' ∷ b'a' ∷ b'.' ∷ b'b' ∷ b'.' ∷ b's' ∷ []),
)

found_private :
    find routes (compiled {W = Middleware Request ℕ}).routes get (b'/' ∷ b'a' ∷ b'/' ∷ b'i' ∷ [])
    ≡ some private_policy
unfolding find routes texts pair_dec cons_dec ℕ_discrete
found_private = refl

call-Guarded_example :
    Guarded crates actix routes texts
      (record compiled { middleware = counters })
      (λ q. 200)
      request
      9
      private_policy
      ((b's' ∷ []) ∷ [])
call-Guarded_example =
    call-Guarded crates actix routes texts compiled counters (λ q. 200) request 9 ((b's' ∷ []) ∷ [])
      {policy = private_policy} served_by found_private refl

-- The token is accepted, and the middleware adds to the response.
responds :
    call crates actix routes texts (record compiled { middleware = counters }) (λ q. 200) request 9
    ≡ some 201
unfolding call rust_zero.Route.Call.call_with find routes pair_dec texts cons_dec
    rust_zero.Route.Call.respond rust_zero.Route.Call.admitted rust_zero.Jwt.authorize
    rust_zero.Jwt.bearer_token rust_zero.Jwt.split_once rust_zero.Jwt.eq_ignore_ascii_case
    rust_zero.Jwt.trim_start rust_zero.Jwt.trim_end rust_zero.Jwt.decode_hs256
    rust_zero.Jwt.segments rust_zero.Prelude.Texts.split rust_zero.Jwt.checked_claims
    rust_zero.Jwt.is_early rust_zero.Jwt.is_expired ℕ_discrete HashMap.get chain
    rust_zero.Route.Chain.wrap
responds = refl

-- The same route twice.
duplicate :
    {W : Type 0}
    → compile some 0 routes texts blank {W = W} (group (private_route ∷ private_route ∷ []) ∷ [])
      ≡ err (duplicate_route (b'/' ∷ b'a' ∷ b'/' ∷ b'i' ∷ []))
unfolding compile rust_zero.Route.Compile.compile_groups rust_zero.Route.Compile.compile_routes
    rust_zero.Route.Compile.compile_route rust_zero.Route.Compile.validate_route
    rust_zero.Route.validate_group rust_zero.Route.validate_prefix
    rust_zero.Route.validate_optional_limits rust_zero.Route.validate_middleware_names
    rust_zero.Route.names_from rust_zero.Route.validate_jwt rust_zero.Route.jwt_secrets
    rust_zero.Route.join_route rust_zero.Route.trim_end_slashes rust_zero.Route.Compile.policy_of
    rust_zero.Route.Compile.settings rust_zero.Route.Compile.jwt_of rust_zero.Prelude.Sets.contains
    texts routes ℕ_discrete cons_dec pair_dec
duplicate = refl
