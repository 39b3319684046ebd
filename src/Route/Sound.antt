-- ===== src/Route/Sound.antt =====
-- What the checks of rest/src/route.rs give each policy that it compiles.
use rust_zero.Prelude.{
  ℕ, ◌≡◌, refl, ap, arith, Bool, true, false, not, ◌&&◌, List, [], ◌∷◌, ◌++◌, Option, none, some,
  if◌then◌else◌, All, All-append, subst,
}
use rust_zero.Prelude.Results.{ok, unless, >>?-eq-ok, unless-eq-ok, ok-injective}
use rust_zero.Prelude.Sets.{contains, Distinct}
use rust_zero.Route.{
  Text, RouteJwtConfig, RoutePolicyConfig, RouteGroupConfig, CompiledPolicy, RoutePolicies,
  RouteError, or_else, unwrap_or, is_empty, is_zero, is_blank_secret, starts_with_slash, join_route,
  trim_end_slashes, validate_group, validate_prefix, validate_optional_limits,
  validate_middleware_names, validate_jwt, names_from, jwt_secrets, previous_bytes, relative_prefix,
  relative_path, empty_path, zero_timeout, empty_secret, empty_middleware_name,
  duplicate_middleware_name,
}
use rust_zero.Route.Compile.{
  Compiling, validate_route, jwt_of, settings, policy_of, compile_route, compile_routes,
  compile_groups, compile,
}
use rust_zero.Route.Compiled.{compile_route-eq-ok}

-- Every secret that a policy may be given has a byte.
abbrev pub IsSealed : Option (List Text) → Type 0
IsSealed none = Unit
IsSealed (some secrets) = All (λ secret. is_empty secret ≡ false) secrets

module _ (t : Discrete Text) (is_blank : Text → Bool) where
  abbrev pub IsNamed : List Text → Type 0
  IsNamed names = Distinct t names × All (λ name. is_blank name ≡ false) names

  abbrev pub IsSound : {M C : Type 0} → CompiledPolicy M C → Type 0
  IsSound policy =
      (starts_with_slash policy.pattern ≡ true)
      × (is_zero policy.timeout ≡ false)
      × (is_zero policy.max_body_bytes ≡ false)
      × (policy.sse ≡ true → policy.timeout ≡ none)
      × IsSealed policy.jwt_secrets
      × IsNamed policy.middleware

  new_name :
      (name : Text) (unique names : List Text)
      → All (λ n. contains t n (name ∷ unique) ≡ false) names
      → (contains t name names ≡ false) × All (λ n. contains t n unique ≡ false) names
  unfolding contains
  new_name name unique [] h = (refl, tt)
  new_name name unique (n ∷ names) h =
      let rest = new_name name unique names h.1 in let first = h.0 in ground arith

  names_from-IsNamed :
      (unique names : List Text) {u : Unit}
      → names_from t is_blank unique names ≡ ok u
      → All (λ n. contains t n unique ≡ false) names × IsNamed names
  unfolding names_from
  names_from-IsNamed unique [] e = (tt, (tt, tt))
  names_from-IsNamed unique (name ∷ names) e =
      let (u, filled, e1) = >>?-eq-ok (unless (is_blank name) empty_middleware_name) _ e in
      let (v, fresh, e2) =
        >>?-eq-ok (unless (contains t name unique) (duplicate_middleware_name name)) _ e1 in
      let (all, (distinct, named)) = names_from-IsNamed (name ∷ unique) names e2 in
      let (other, others) = new_name name unique names all in
      (
        (unless-eq-ok (contains t name unique) _ fresh, others),
        ((other, distinct), (unless-eq-ok (is_blank name) _ filled, named)),
      )

  limits-eq-ok :
      (timeout max_body : Option ℕ) {u : Unit}
      → validate_optional_limits timeout max_body ≡ ok u
      → (is_zero timeout ≡ false) × (is_zero max_body ≡ false)
  unfolding validate_optional_limits
  limits-eq-ok timeout max_body e =
      let (u, first, second) = >>?-eq-ok (unless (is_zero timeout) zero_timeout) _ e in
      (unless-eq-ok (is_zero timeout) _ first, unless-eq-ok (is_zero max_body) _ second)

  or_else-is_zero :
      (a b : Option ℕ) → is_zero a ≡ false → is_zero b ≡ false → is_zero (or_else a b) ≡ false
  or_else-is_zero none b p q = q
  or_else-is_zero (some n) b p q = p

  trim_rooted :
      (text : Text)
      → starts_with_slash text ≡ true
      → (path : Text) → starts_with_slash path ≡ true
      → starts_with_slash (trim_end_slashes text ++ path) ≡ true
  unfolding trim_end_slashes
  trim_rooted [] h path p = p
  trim_rooted (c ∷ text) h path p = ground arith

  rooted :
      (b c : Bool) (e : RouteError) {u : Unit}
      → unless (not b && not c) e ≡ ok u
      → b ≡ false
      → c ≡ true
  rooted true c e h n = cc
  rooted false true e h n = refl
  rooted false false e h n = cc

  join_route_rooted :
      (prefix path : Text)
      → (is_empty prefix ≡ false → starts_with_slash prefix ≡ true)
      → (is_empty path ≡ false → starts_with_slash path ≡ true)
      → is_empty path && is_empty prefix ≡ false
      → starts_with_slash (join_route prefix path) ≡ true
  unfolding join_route
  join_route_rooted [] [] p q r = cc
  join_route_rooted (c ∷ prefix) [] p q r = p refl
  join_route_rooted [] (c ∷ path) p q r = q refl
  join_route_rooted (a ∷ prefix) (c ∷ path) p q r =
      let apart = trim_rooted (a ∷ prefix) (p refl) (c ∷ path) (q refl) in
      let whole = q refl in ground arith

  validate_jwt-IsSealed :
      {C : Type 0} (default : C) (jwt : Option (RouteJwtConfig C)) {u : Unit}
      → validate_jwt jwt ≡ ok u
      → IsSealed (settings default jwt).0
  unfolding validate_jwt settings jwt_secrets
  validate_jwt-IsSealed default none e = tt
  validate_jwt-IsSealed default (some jwt) e =
      let (u, first, second) = >>?-eq-ok (unless (is_empty jwt.secret) empty_secret) _ e in
      (
        unless-eq-ok (is_empty jwt.secret) _ first,
        previous jwt.previous_secret (unless-eq-ok (is_blank_secret jwt.previous_secret) _ second),
      )
    where
      previous :
          (o : Option Text)
          → is_blank_secret o ≡ false
          → All (λ secret. is_empty secret ≡ false) (previous_bytes o)
      previous none h = tt
      previous (some p) h = (h, tt)

  module _ {C : Type 0} (default : C) where
    either :
        (public : Bool) (a b : Option (RouteJwtConfig C))
        → IsSealed (settings default a).0
        → IsSealed (settings default b).0
        → IsSealed (settings default (if public then none else or_else a b)).0
    unfolding settings
    either true a b p q = tt
    either false none b p q = q
    either false (some a) b p q = p

    without_timeout :
        (sse : Bool) (a : Option ℕ)
        → is_zero a ≡ false
        → (is_zero (if sse then none else a) ≡ false)
          × (sse ≡ true → (if sse then none else a) ≡ none)
    without_timeout true a h = (refl, (λ e. refl))
    without_timeout false a h = (h, (λ e. cc))

    policy_of-IsSound :
        {M : Type 0} (group : RouteGroupConfig C) (route : RoutePolicyConfig C) (method : M)
        → validate_group t is_blank group ≡ ok tt
        → validate_route group route ≡ ok tt
        → IsSound (policy_of default group route method)
    unfolding validate_group validate_route validate_prefix validate_middleware_names policy_of
        jwt_of
    policy_of-IsSound group route method g r =
        let (u1, prefix, g1) = >>?-eq-ok (validate_prefix group.prefix) _ g in
        let (u2, limits, g2) =
          >>?-eq-ok (validate_optional_limits group.timeout_ms group.max_body_bytes) _ g1 in
        let (u3, names, sealed) =
          >>?-eq-ok (validate_middleware_names t is_blank group.middleware) _ g2 in
        let (v1, filled, r1) =
          >>?-eq-ok (unless (is_empty route.path && is_empty group.prefix) empty_path) _ r in
        let (v2, path, r2) =
          >>?-eq-ok
            (unless (not (is_empty route.path) && not (starts_with_slash route.path))
              (relative_path route.path))
            _ r1 in
        let (v3, limits', r3) =
          >>?-eq-ok (validate_optional_limits route.timeout_ms route.max_body_bytes) _ r2 in
        let (v4, sealed', r4) = >>?-eq-ok (validate_jwt route.jwt) _ r3 in
        let (timeout, max_body) = limits-eq-ok group.timeout_ms group.max_body_bytes limits in
        let (timeout', max_body') = limits-eq-ok route.timeout_ms route.max_body_bytes limits' in
        let (timed, streaming) =
          without_timeout (unwrap_or route.sse group.sse)
            (or_else route.timeout_ms group.timeout_ms)
            (or_else-is_zero route.timeout_ms group.timeout_ms timeout' timeout) in
        (
          join_route_rooted group.prefix route.path
              (rooted (is_empty group.prefix) (starts_with_slash group.prefix)
                (relative_prefix group.prefix) prefix)
              (rooted (is_empty route.path) (starts_with_slash route.path)
                (relative_path route.path) path)
              (unless-eq-ok (is_empty route.path && is_empty group.prefix) empty_path filled),
          timed,
          or_else-is_zero route.max_body_bytes group.max_body_bytes max_body' max_body,
          streaming,
          either route.public route.jwt group.jwt (validate_jwt-IsSealed default route.jwt sealed')
              (validate_jwt-IsSealed default group.jwt sealed),
          (names_from-IsNamed [] group.middleware names).1,
        )

    module _ {M : Type 0} (from_bytes : Text → Option M) (d : Discrete (M × Text)) where
      routes-IsSound :
          (group : RouteGroupConfig C) (routes : List (RoutePolicyConfig C)) (s : Compiling M C)
          {s' : Compiling M C}
          → validate_group t is_blank group ≡ ok tt
          → compile_routes from_bytes default d group routes s ≡ ok s'
          → All IsSound s.routes
          → All IsSound s'.routes
      unfolding compile_routes
      routes-IsSound group [] s g e h = subst (λ u. All IsSound u.routes) (ok-injective e) h
      routes-IsSound group (route ∷ routes) s g e h =
          let (s1, first, rest) =
            >>?-eq-ok (compile_route from_bytes default d group route s) _ e in
          let (method, valid, parsed, free, same) =
            compile_route-eq-ok from_bytes default d group route s first in
          let policy = policy_of default group route method in
          let kept =
            All-append IsSound s.routes (policy ∷ []) h
              (policy_of-IsSound group route method g valid, tt) in
          routes-IsSound group routes s1 g rest (subst (λ u. All IsSound u.routes) same kept)

      groups-IsSound :
          (groups : List (RouteGroupConfig C)) (s : Compiling M C) {s' : Compiling M C}
          → compile_groups from_bytes default d t is_blank groups s ≡ ok s'
          → All IsSound s.routes
          → All IsSound s'.routes
      unfolding compile_groups
      groups-IsSound [] s e h = subst (λ u. All IsSound u.routes) (ok-injective e) h
      groups-IsSound (group ∷ groups) s e h =
          let (u, valid, e1) = >>?-eq-ok (validate_group t is_blank group) _ e in
          let (s1, first, rest) =
            >>?-eq-ok (compile_routes from_bytes default d group group.routes s) _ e1 in
          groups-IsSound groups s1 rest (routes-IsSound group group.routes s valid first h)

-- Every policy that `compile` gives has a pattern from the root, no timeout and no limit of 0, no
-- timeout if it is of an event stream, no secret that is empty, and middleware with different names
-- of which none is blank.
pub compile-IsSound :
    {M C W : Type 0} (from_bytes : Text → Option M) (default : C) (d : Discrete (M × Text))
    (t : Discrete Text) (is_blank : Text → Bool) (groups : List (RouteGroupConfig C))
    {policies : RoutePolicies M C W}
    → compile from_bytes default d t is_blank groups ≡ ok policies
    → All (IsSound t is_blank) policies.routes
unfolding compile
compile-IsSound from_bytes default d t is_blank groups e =
    let (s, compiled, e1) =
      >>?-eq-ok
        (compile_groups from_bytes default d t is_blank groups
          (record { routes = []; unique = [] }))
        _ e in
    subst (All (IsSound t is_blank)) (ap (λ p. p.routes) (ok-injective e1)) (
      groups-IsSound t is_blank default from_bytes d groups (record { routes = []; unique = [] })
        compiled tt)
