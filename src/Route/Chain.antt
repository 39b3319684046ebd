-- ===== src/Route/Chain.antt =====
-- The middleware chain of rest/src/route.rs, and what becomes of a request.
use mathlib.Core.List.{foldl, reverse, reverse-cons}
use rust_zero.Prelude.{
  ◌≡◌, refl, ap, ◌∙◌, subst, List, [], ◌∷◌, ◌++◌, Option, none, some, ◌>>=◌, All, All-map_imp,
}
use rust_zero.Prelude.HashMap
use rust_zero.Prelude.Results.{Result, ok, err, >>?-eq-ok, ok-injective}
use rust_zero.Route.{Text, CompiledPolicy, RoutePolicies, RouteError, not_registered}
use rust_zero.Route.Compile.{check_names, check_routes, with_middleware}

-- `RouteMiddlewareNext` and `RouteMiddleware`, for requests and responses of any type.
abbrev pub Next : Type 0 → Type 0 → Type 0
Next Q A = Q → A

abbrev pub Middleware : Type 0 → Type 0 → Type 0
Middleware Q A = Q → Next Q A → A

module _ {Q A : Type 0} (t : Discrete Text) where
  -- A step of the fold: nothing where the `expect` panics.
  unfoldable pub wrap : List (Text × Middleware Q A) → Option (Next Q A) → Text → Option (Next Q A)
  wrap registry next name = next >>= λ next. HashMap.get t name registry >>= λ route_middleware.
      some (λ request. route_middleware request next)

  -- `middleware.iter().rev().fold(terminal, …)`
  unfoldable pub chain : List (Text × Middleware Q A) → List Text → Next Q A → Option (Next Q A)
  chain registry names terminal = foldl (wrap registry) (some terminal) (reverse names)

-- What the chain means: the first middleware is the outermost.
abbrev pub nested : {Q A : Type 0} → List (Middleware Q A) → Next Q A → Next Q A
nested [] terminal = terminal
nested (m ∷ ms) terminal = λ request. m request (nested ms terminal)

foldl-append_one :
    {A B : Type 0} (f : B → A → B) (b : B) (xs : List A) (x : A)
    → foldl f b (xs ++ x ∷ []) ≡ f (foldl f b xs) x
foldl-append_one f b [] x = refl
foldl-append_one f b (y ∷ xs) x = foldl-append_one f (f b y) xs x

module _ {Q A : Type 0} (t : Discrete Text) (registry : List (Text × Middleware Q A)) where
  -- The middleware of each name, in the order of the names.
  abbrev pub Resolved : List Text → List (Middleware Q A) → Type 0
  Resolved [] [] = Unit
  Resolved [] (m ∷ ms) = ⊥
  Resolved (name ∷ names) [] = ⊥
  Resolved (name ∷ names) (m ∷ ms) = (HashMap.get t name registry ≡ some m) × Resolved names ms

  chain-nested :
      (names : List Text) (ms : List (Middleware Q A)) (terminal : Next Q A)
      → Resolved names ms
      → chain t registry names terminal ≡ some (nested ms terminal)
  unfolding chain wrap
  chain-nested [] [] terminal h = refl
  chain-nested [] (m ∷ ms) terminal h = elim h [ ]
  chain-nested (name ∷ names) [] terminal h = elim h [ ]
  chain-nested (name ∷ names) (m ∷ ms) terminal h =
      ap (foldl (wrap t registry) (some terminal)) (reverse-cons name names)
      ∙ foldl-append_one (wrap t registry) (some terminal) (reverse names) name
      ∙ ap (λ o. wrap t registry o name) (chain-nested names ms terminal h.1)
      ∙ ap
          (λ (o : Option (Middleware Q A)).
            o >>= λ m. some (λ request. m request (nested ms terminal)))
          h.0

  check_names-Resolved :
      (names : List Text) {u : Unit}
      → check_names t registry names ≡ ok u
      → (ms : List (Middleware Q A)) × Resolved names ms
  unfolding check_names
  check_names-Resolved [] e = ([], tt)
  check_names-Resolved (name ∷ names) e =
      let (m, found, rest) = found_then (HashMap.get t name registry) e in
      let (ms, resolved) = check_names-Resolved names rest in (m ∷ ms, (found, resolved))
    where
      found_then :
          (o : Option (Middleware Q A)) {u : Unit}
          → ◌≡◌ {A = Result RouteError Unit}
              (elim o [ none ↦ err (not_registered name) | some w ↦ check_names t registry names ])
              (ok u)
          → (m : Middleware Q A) × (o ≡ some m) × (check_names t registry names ≡ ok u)
      found_then none e = cc
      found_then (some m) e = (m, refl, e)

  check_routes-Resolved :
      {M C : Type 0} (routes : List (CompiledPolicy M C)) {u : Unit}
      → check_routes t registry routes ≡ ok u
      → All (λ r. (ms : List (Middleware Q A)) × Resolved r.middleware ms) routes
  unfolding check_routes
  check_routes-Resolved [] e = tt
  check_routes-Resolved (route ∷ routes) e =
      let (u, first, rest) = >>?-eq-ok (check_names t registry route.middleware) _ e in
      (check_names-Resolved route.middleware first, check_routes-Resolved routes rest)

-- Once `with_middleware` has accepted a registry, the chain of each route is built without a panic,
-- and it runs the route's middleware in the order of their names, the first one outermost.
pub with_middleware-chain :
    {M C Q A : Type 0} (t : Discrete Text) (policies : RoutePolicies M C (Middleware Q A))
    (registry : List (Text × Middleware Q A)) (terminal : Next Q A)
    {policies' : RoutePolicies M C (Middleware Q A)}
    → with_middleware t policies registry ≡ ok policies'
    → (policies'.middleware ≡ registry)
      × All
          (λ r.
            (ms : List (Middleware Q A)) × Resolved t registry r.middleware ms
            × (chain t registry r.middleware terminal ≡ some (nested ms terminal)))
          policies'.routes
unfolding with_middleware
with_middleware-chain {Q = Q} {A = A} t policies registry terminal e =
    let (u, checked, e1) = >>?-eq-ok (check_routes t registry policies.routes) _ e in
    let all = check_routes-Resolved t registry policies.routes checked in
    let built =
      All-map_imp
        (λ r found.
          (found.0, found.1, chain-nested t registry r.middleware found.0 terminal found.1))
        policies.routes all in
    subst
      (λ p.
        (p.middleware ≡ registry)
        × All
            (λ r.
              (ms : List (Middleware Q A)) × Resolved t registry r.middleware ms
              × (chain t registry r.middleware terminal ≡ some (nested ms terminal)))
            p.routes)
      (ok-injective e1) (refl, built)
