-- ===== src/Transcode/Choice.antt =====
-- The order of the routes, which gateway/src/transcode.rs makes once, against the choice that it is for.
use rust_zero.Prelude.{
  ◌≡◌, refl, ◌∙◌, ap, arith, ◌≤◌, List, [], ◌∷◌, none, some, leb, if◌then◌else◌, All, All-map_imp,
  ℕ, ◌<◌, subst, Option, Bool-cases, inl, inr, leb→le,
}
use rust_zero.Prelude.Results.{ok, ok_or, >>?-eq-ok, ok-injective}
use rust_zero.Prelude.Texts.{Text}
use rust_zero.Transcode.{HttpBinding, no_route, verb_matches, match_template}
use rust_zero.Transcode.Routes.{
  Pool, Route, build_routes, build, weight, place, by_weight, Found, candidate, or_found,
  find_route, choose, with_captures,
}

module _ {M : Type 0} where
  -- The heavier of the two, and of equal ones the first.
  unfoldable pub prefer : Found M → Found M → Found M
  prefer none b = b
  prefer (some a) none = some a
  prefer (some (r, c)) (some (r', c')) =
      if leb (weight r') (weight r) then some (r, c) else some (r', c')

  -- The best of the routes that match, in the order of the bindings.
  unfoldable pub best : Text → Text → List (Route M) → Found M
  best method path [] = none
  best method path (route ∷ routes) = prefer (candidate method path route) (best method path routes)

  abbrev IsBelow : ℕ → Route M → Type 0
  IsBelow bound route = weight route ≤ bound

  abbrev IsSorted : List (Route M) → Type 0
  IsSorted [] = Unit
  IsSorted (route ∷ routes) = All (IsBelow (weight route)) routes × IsSorted routes

  place-All :
      (P : Route M → Type 0) (route : Route M) (routes : List (Route M))
      → P route
      → All P routes
      → All P (place route routes)
  unfolding place
  place-All P route [] p h = (p, tt)
  place-All P route (r ∷ routes) p h = elim (Bool-cases (leb (weight r) (weight route))) [
    | inl e ↦ rw e (p, h)
    | inr e ↦ rw e (h.0, place-All P route routes p h.1)
  ]

  place-IsSorted :
      (route : Route M) (routes : List (Route M)) → IsSorted routes → IsSorted (place route routes)
  unfolding place
  place-IsSorted route [] h = (tt, tt)
  place-IsSorted route (r ∷ routes) h = elim (Bool-cases (leb (weight r) (weight route))) [
    | inl e ↦
        let below = leb→le (weight r) (weight route) e in
        rw e ((below, All-map_imp (λ k q. omega arith) routes h.0), h)
    | inr e ↦ rw e (
      place-All (IsBelow (weight r)) route routes (ground arith) h.0,
      place-IsSorted route routes h.1,
    )
  ]

  by_weight-IsSorted : (routes : List (Route M)) → IsSorted (by_weight routes)
  unfolding by_weight
  by_weight-IsSorted [] = tt
  by_weight-IsSorted (route ∷ routes) =
      place-IsSorted route (by_weight routes) (by_weight-IsSorted routes)

  -- The routes of a candidate: the route itself, and routes that are not heavier.
  abbrev IsOf : Route M → Found M → Type 0
  IsOf route none = Unit
  IsOf route (some (r, captures)) = r ≡ route

  abbrev IsLight : ℕ → Found M → Type 0
  IsLight bound none = Unit
  IsLight bound (some (r, captures)) = weight r ≤ bound

  candidate-IsOf : (method path : Text) (route : Route M) → IsOf route (candidate method path route)
  unfolding candidate
  candidate-IsOf method path route = elim (Bool-cases (verb_matches route.binding.verb method)) [
    | inl e ↦ rw e (captured (match_template route.binding.path path))
    | inr e ↦ rw e tt
  ]
    where
      captured : (o : Option (List (Text × Text))) → IsOf route (with_captures route o)
      captured none = tt
      captured (some captures) = refl

  IsOf-IsLight :
      (route : Route M) (bound : ℕ) (found : Found M)
      → weight route ≤ bound
      → IsOf route found
      → IsLight bound found
  IsOf-IsLight route bound none h o = tt
  IsOf-IsLight route bound (some (r, captures)) h o = omega (arith, ap weight o)

  or_found-IsLight :
      (bound : ℕ) (a b : Found M) → IsLight bound a → IsLight bound b → IsLight bound (or_found a b)
  or_found-IsLight bound none b p q = q
  or_found-IsLight bound (some a) b p q = p

  find_route-IsLight :
      (method path : Text) (bound : ℕ) (routes : List (Route M))
      → All (IsBelow bound) routes
      → IsLight bound (find_route method path routes)
  unfolding find_route
  find_route-IsLight method path bound [] h = tt
  find_route-IsLight method path bound (route ∷ routes) h =
      or_found-IsLight bound (candidate method path route) (find_route method path routes)
        (IsOf-IsLight route bound (candidate method path route) h.0
          (candidate-IsOf method path route))
        (find_route-IsLight method path bound routes h.1)

  or_found-prefer :
      (route : Route M) (a b : Found M)
      → IsOf route a
      → IsLight (weight route) b
      → or_found a b ≡ prefer a b
  unfolding prefer
  or_found-prefer route none b o h = refl
  or_found-prefer route (some a) none o h = refl
  or_found-prefer route (some (r, c)) (some (r', c')) o h = let same = ap weight o in ground arith

  -- A lighter route does not displace what a heavier one finds.
  prefer_heavy :
      (route heavy : Route M) (a b rest : Found M)
      → IsOf route a
      → IsOf heavy b
      → weight route < weight heavy
      → or_found b (prefer a rest) ≡ prefer a (or_found b rest)
  unfolding prefer
  prefer_heavy route heavy a none rest o q h = refl
  prefer_heavy route heavy none (some b) rest o q h = refl
  prefer_heavy route heavy (some (r, c)) (some (r', c')) rest o q h =
      let same = ap weight o in let same' = ap weight q in ground arith

  find_route-place :
      (method path : Text) (route : Route M) (routes : List (Route M))
      → IsSorted routes
      → find_route method path (place route routes)
        ≡ prefer (candidate method path route) (find_route method path routes)
  unfolding find_route place
  find_route-place method path route [] h =
      or_found-prefer route (candidate method path route) none (candidate-IsOf method path route) tt
  find_route-place method path route (r ∷ routes) h =
      elim (Bool-cases (leb (weight r) (weight route))) [
        | inl e ↦
            let below = leb→le (weight r) (weight route) e in
            rw e (
              or_found-prefer route (candidate method path route)
                (or_found (candidate method path r) (find_route method path routes))
                (candidate-IsOf method path route)
                (find_route-IsLight method path (weight route) (r ∷ routes)
                  (below, All-map_imp (λ k q. omega arith) routes h.0)))
        | inr e ↦ rw e (
            ap (or_found (candidate method path r)) (find_route-place method path route routes h.1)
            ∙ prefer_heavy route r (candidate method path route) (candidate method path r)
                (find_route method path routes) (candidate-IsOf method path route)
                (candidate-IsOf method path r) (ground arith))
      ]

  find_route-by_weight :
      (method path : Text) (routes : List (Route M))
      → find_route method path (by_weight routes) ≡ best method path routes
  unfolding find_route by_weight best
  find_route-by_weight method path [] = refl
  find_route-by_weight method path (route ∷ routes) =
      find_route-place method path route (by_weight routes) (by_weight-IsSorted routes)
      ∙ ap (prefer (candidate method path route)) (find_route-by_weight method path routes)

  -- The routes that `build` orders are those of the bindings, and of a request they choose the best in
  -- the order of the bindings: of the routes that match its method and its path, the one whose template
  -- has the most literal bytes, and the first of those; with no such route, the answer is `NoRoute`.
  pub build-choose :
      (pool : Pool M) (bindings : List HttpBinding) (method path : Text) {routes : List (Route M)}
      → build pool bindings ≡ ok routes
      → (declared : List (Route M)) × (build_routes pool bindings ≡ ok declared)
        × (choose routes method path ≡ ok_or no_route (best method path declared))
  unfolding build choose
  build-choose pool bindings method path {routes} e =
      let (declared, built, e1) = >>?-eq-ok (build_routes pool bindings) _ e in
      (
        declared,
        built,
        subst
            (λ l.
              ok_or no_route (find_route method path l)
              ≡ ok_or no_route (best method path declared))
            (ok-injective e1) (ap (ok_or no_route) (find_route-by_weight method path declared)),
      )
