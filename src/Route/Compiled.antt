-- ===== src/Route/Compiled.antt =====
-- What the policies that rest/src/route.rs compiles say of each configured route.
use rust_zero.Prelude.{
  ℕ, ◌+◌, ◌≡◌, refl, ap, ◌∙◌, arith, Bool, false, List, [], ◌∷◌, ◌++◌, length, length-append,
  Option, some, All, All-map_imp, subst,
}
use rust_zero.Prelude.Results.{ok, unless, >>?-eq-ok, unless-eq-ok, ok-injective}
use rust_zero.Prelude.Sets.{contains}
use rust_zero.Route.{
  Text, RoutePolicyConfig, RouteGroupConfig, CompiledPolicy, RoutePolicies, duplicate_route,
  or_else, is_some, join_route, validate_group,
}
use rust_zero.Route.Compile.{
  Compiling, validate_route, method_of, policy_of, compile_route, compile_routes, find,
  compile_groups, compile,
}

abbrev pub total : {C : Type 0} → List (RouteGroupConfig C) → ℕ
total [] = 0
total (group ∷ groups) = length group.routes + total groups

abbrev pub pushed : {M C : Type 0} → Compiling M C → CompiledPolicy M C → Compiling M C
pushed s policy = record {
  routes = s.routes ++ policy ∷ [];
  unique = (policy.method, policy.pattern) ∷ s.unique;
}

module _ {M C : Type 0} (d : Discrete (M × Text)) where
  find-append :
      (rs qs : List (CompiledPolicy M C)) (m : M) (p : Text)
      → find d (rs ++ qs) m p ≡ or_else (find d rs m p) (find d qs m p)
  unfolding find
  find-append [] qs m p = refl
  find-append (r ∷ rs) qs m p = ground (arith, find-append rs qs m p)

  -- The set has the routes of the vector.
  abbrev pub Agrees : Compiling M C → Type 0
  Agrees s = (m : M) (p : Text) → contains d (m, p) s.unique ≡ is_some (find d s.routes m p)

  abbrev pub Keeps : Compiling M C → Compiling M C → Type 0
  Keeps s s' =
      (m : M) (p : Text) (r : CompiledPolicy M C)
      → find d s.routes m p ≡ some r
      → find d s'.routes m p ≡ some r

  pushed-Agrees :
      (s : Compiling M C) (policy : CompiledPolicy M C) → Agrees s → Agrees (pushed s policy)
  unfolding contains find
  pushed-Agrees s policy agrees m p =
      ground (arith, find-append s.routes (policy ∷ []) m p, agrees m p)

  pushed-Keeps : (s : Compiling M C) (policy : CompiledPolicy M C) → Keeps s (pushed s policy)
  pushed-Keeps s policy m p r h =
      find-append s.routes (policy ∷ []) m p ∙ ap (λ o. or_else o (find d (policy ∷ []) m p)) h

  pushed_found :
      (s : Compiling M C) (policy : CompiledPolicy M C)
      → Agrees s
      → contains d (policy.method, policy.pattern) s.unique ≡ false
      → find d (pushed s policy).routes policy.method policy.pattern ≡ some policy
  unfolding find
  pushed_found s policy agrees h = ground (
    arith,
    find-append s.routes (policy ∷ []) policy.method policy.pattern,
    agrees policy.method policy.pattern,
  )

module _ {M C : Type 0} (from_bytes : Text → Option M) (default : C) (d : Discrete (M × Text)) where
  -- A route is found under its method and its pattern, with the policy that its configuration says.
  abbrev pub Served : List (CompiledPolicy M C) → RouteGroupConfig C → RoutePolicyConfig C → Type 0
  Served routes group route =
      (method : M) × (from_bytes route.method ≡ some method)
      × (find d routes method (join_route group.prefix route.path)
          ≡ some (policy_of default group route method))

  method_of-eq-ok :
      (text : Text) {m : M} → method_of from_bytes text ≡ ok m → from_bytes text ≡ some m
  method_of-eq-ok text e = ground arith

  -- What a route that is accepted has passed, and what it leaves.
  pub compile_route-eq-ok :
      (group : RouteGroupConfig C) (route : RoutePolicyConfig C) (s : Compiling M C)
      {s' : Compiling M C}
      → compile_route from_bytes default d group route s ≡ ok s'
      → (method : M) × (validate_route group route ≡ ok tt)
        × (from_bytes route.method ≡ some method)
        × (contains d (method, join_route group.prefix route.path) s.unique ≡ false)
        × (pushed s (policy_of default group route method) ≡ s')
  unfolding compile_route policy_of join_route
  compile_route-eq-ok group route s {s' = s'} e =
      let (u, valid, e1) = >>?-eq-ok (validate_route group route) _ e in
      let (method, parsed, e2) = >>?-eq-ok (method_of from_bytes route.method) _ e1 in
      let (v, free, e3) =
        >>?-eq-ok
          (unless (contains d (method, join_route group.prefix route.path) s.unique)
            (duplicate_route (join_route group.prefix route.path)))
          _ e2 in
      (
        method,
        valid,
        method_of-eq-ok route.method parsed,
        unless-eq-ok (contains d (method, join_route group.prefix route.path) s.unique)
            (duplicate_route (join_route group.prefix route.path)) free,
        ok-injective e3,
      )

  compile_route-Served :
      (group : RouteGroupConfig C) (route : RoutePolicyConfig C) (s : Compiling M C)
      {s' : Compiling M C}
      → Agrees d s
      → compile_route from_bytes default d group route s ≡ ok s'
      → Agrees d s'
        × Keeps d s s'
        × Served s'.routes group route
        × (length s'.routes ≡ length s.routes + 1)
  unfolding policy_of join_route
  compile_route-Served group route s {s' = s'} agrees e =
      let (method, valid, parsed, free, same) = compile_route-eq-ok group route s e in
      let policy = policy_of default group route method in
      subst
        (λ t.
          Agrees d t
          × Keeps d s t
          × Served t.routes group route
          × (length t.routes ≡ length s.routes + 1))
        same
        (
          pushed-Agrees d s policy agrees,
          pushed-Keeps d s policy,
          (method, parsed, pushed_found d s policy agrees free),
          length-append s.routes (policy ∷ []),
        )

  compile_routes-Served :
      (group : RouteGroupConfig C) (routes : List (RoutePolicyConfig C)) (s : Compiling M C)
      {s' : Compiling M C}
      → Agrees d s
      → compile_routes from_bytes default d group routes s ≡ ok s'
      → Agrees d s'
        × Keeps d s s'
        × All (Served s'.routes group) routes
        × (length s'.routes ≡ length s.routes + length routes)
  unfolding compile_routes
  compile_routes-Served group [] s agrees e =
      subst (λ t. Agrees d t × Keeps d s t × Unit × (length t.routes ≡ length s.routes + 0))
        (ok-injective e) (agrees, (λ m p r found. found), tt, omega arith)
  compile_routes-Served group (route ∷ routes) s agrees e =
      let (s1, first, rest) = >>?-eq-ok (compile_route from_bytes default d group route s) _ e in
      let (agrees1, keeps1, (method, parsed, found), count1) =
        compile_route-Served group route s agrees first in
      let (agrees2, keeps2, all, count2) = compile_routes-Served group routes s1 agrees1 rest in
      (
        agrees2,
        (λ m p r h. keeps2 m p r (keeps1 m p r h)),
        (
          (
            method,
            parsed,
            keeps2 method (join_route group.prefix route.path)
                (policy_of default group route method) found,
          ),
          all,
        ),
        omega (arith, count1, count2),
      )

  module _ (t : Discrete Text) (is_blank : Text → Bool) where
    compile_groups-Served :
        (groups : List (RouteGroupConfig C)) (s : Compiling M C) {s' : Compiling M C}
        → Agrees d s
        → compile_groups from_bytes default d t is_blank groups s ≡ ok s'
        → Keeps d s s'
          × All (λ group. All (Served s'.routes group) group.routes) groups
          × (length s'.routes ≡ length s.routes + total groups)
    unfolding compile_groups
    compile_groups-Served [] s agrees e =
        subst (λ t. Keeps d s t × Unit × (length t.routes ≡ length s.routes + 0)) (ok-injective e)
          ((λ m p r found. found), tt, omega arith)
    compile_groups-Served (group ∷ groups) s {s' = s'} agrees e =
        let (u, valid, e1) = >>?-eq-ok (validate_group t is_blank group) _ e in
        let (s1, first, rest) =
          >>?-eq-ok (compile_routes from_bytes default d group group.routes s) _ e1 in
        let (agrees1, keeps1, all1, count1) =
          compile_routes-Served group group.routes s agrees first in
        let (keeps2, all2, count2) = compile_groups-Served groups s1 agrees1 rest in
        (
          (λ m p r h. keeps2 m p r (keeps1 m p r h)),
          (
            All-map_imp
                (λ route served. (
                  served.0,
                  served.1,
                  keeps2 served.0 (join_route group.prefix route.path)
                      (policy_of default group route served.0) served.2,
                ))
                group.routes all1,
            all2,
          ),
          omega (arith, count1, count2),
        )

-- If the groups compile, each route of each group is found by its method and its pattern, and what is
-- found is its own policy; there are no more policies than routes.
pub compile-Served :
    {M C W : Type 0} (from_bytes : Text → Option M) (default : C) (d : Discrete (M × Text))
    (t : Discrete Text) (is_blank : Text → Bool) (groups : List (RouteGroupConfig C))
    {policies : RoutePolicies M C W}
    → compile from_bytes default d t is_blank groups ≡ ok policies
    → All (λ group. All (Served from_bytes default d policies.routes group) group.routes) groups
      × (length policies.routes ≡ total groups)
unfolding compile contains find
compile-Served from_bytes default d t is_blank groups e =
    let (s, compiled, e1) =
      >>?-eq-ok
        (compile_groups from_bytes default d t is_blank groups
          (record { routes = []; unique = [] }))
        _ e in
    let (keeps, all, count) =
      compile_groups-Served from_bytes default d t is_blank groups
        (record { routes = []; unique = [] }) (λ m p. refl) compiled in
    subst
      (λ rs.
        All (λ group. All (Served from_bytes default d rs group) group.routes) groups
        × (length rs ≡ total groups))
      (ap (λ p. p.routes) (ok-injective e1)) (all, omega (arith, count))
