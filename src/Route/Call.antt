-- ===== src/Route/Call.antt =====
-- A request in `RoutePoliciesMiddleware::call` of rest/src/route.rs.
use rust_zero.Prelude.{
  ℕ, ◌≡◌, refl, sym, ap, ◌∙◌, subst, Bool, List, [], ◌∷◌, Option, none, some, ◌>>=◌, if◌then◌else◌,
  ite, All, ◌⊎◌, inl, inr,
}
use rust_zero.Prelude.Results.{Result, ok, err, ◌>>?◌}
use rust_zero.Route.{Text, CompiledPolicy, RoutePolicies}
use rust_zero.Route.Compile.{find, with_middleware}
use rust_zero.Route.Chain.{Middleware, Next, Resolved, chain, nested, with_middleware-chain}
use rust_zero.Jwt.{Crates, authorize}
use rust_zero.Jwt.Failure.{AuthFailure}

-- The calls of actix-web on a request and on the response, which may be an error.
pub record Actix (M C T Q A : Type 0) : Type 0 where
  pub method : Q → M
  -- `match_pattern`, or the path where there is none.
  pub pattern : Q → Text
  -- The `authorization` header, if `to_str` takes it.
  pub authorization : Q → Option Text
  -- The inserts of `ProjectedClaims` with `JwtClaims`, and of `RequestPolicy`.
  pub insert_claims : Q → C → T → Q
  pub insert_policy : Q → CompiledPolicy M C → Q
  pub unauthorized : Q → AuthFailure → A
  -- The headers of an event stream, put into a response that is no error.
  pub stream_headers : A → A

module _ {M C V T Q A : Type 0} (c : Crates V T) (actix : Actix M C T Q A) (d : Discrete (M × Text))
    (t : Discrete Text) where
  -- A request that may go on, with its extensions.
  unfoldable pub admitted : CompiledPolicy M C → Q → ℕ → Option (List Text) → Result AuthFailure Q
  admitted policy request now none = ok (actix.insert_policy request policy)
  admitted policy request now (some secrets) =
      authorize c (actix.authorization request) secrets policy.jwt_leeway_seconds now >>? λ claims.
      ok (
        actix.insert_policy (actix.insert_claims request policy.jwt_claim_projection claims) policy)

  abbrev pub finish : Bool → A → A
  finish sse response = if sse then actix.stream_headers response else response

  unfoldable pub respond :
      List (Text × Middleware Q A)
      → Next Q A
      → CompiledPolicy M C
      → Q
      → Result AuthFailure Q
      → Option A
  respond registry service policy request (err failure) = some (actix.unauthorized request failure)
  respond registry service policy request (ok request') =
      chain t registry policy.middleware service >>= λ next.
      some (finish policy.sse (next request'))

  unfoldable pub call_with :
      List (Text × Middleware Q A) → Next Q A → Q → ℕ → Option (CompiledPolicy M C) → Option A
  call_with registry service request now none =
      chain t registry [] service >>= λ next. some (next request)
  call_with registry service request now (some policy) =
      respond registry service policy request (admitted policy request now policy.jwt_secrets)

  -- Nothing where the chain panics.
  unfoldable pub call : RoutePolicies M C (Middleware Q A) → Next Q A → Q → ℕ → Option A
  call policies service request now =
      call_with policies.middleware service request now
        (find d policies.routes (actix.method request) (actix.pattern request))

  All-find :
      (P : CompiledPolicy M C → Type 0) (routes : List (CompiledPolicy M C)) (m : M) (p : Text)
      {policy : CompiledPolicy M C}
      → find d routes m p ≡ some policy
      → All P routes
      → P policy
  unfolding find
  All-find P [] m p e h = cc
  All-find P (r ∷ routes) m p {policy = policy} e h =
      elim (found (d (r.method, r.pattern) (m, p)) e) [
        | inl same ↦ subst P same h.0
        | inr later ↦ All-find P routes m p {policy = policy} later h.1
      ]
    where
      found :
          (o : Dec (◌≡◌ {A = M × Text} (r.method, r.pattern) (m, p)))
          → ite o (some r) (find d routes m p) ≡ some policy
          → (r ≡ policy) ⊎ (find d routes m p ≡ some policy)
      found (yes s) e = inl cc
      found (no n) e = inr e

  -- The two ways in which a request for a route with secrets ends.
  abbrev pub Guarded :
      RoutePolicies M C (Middleware Q A)
      → Next Q A
      → Q
      → ℕ
      → CompiledPolicy M C
      → List Text
      → Type 0
  Guarded policies service request now policy secrets =
      ((failure : AuthFailure) × (authorize c (actix.authorization request) secrets
            policy.jwt_leeway_seconds now
          ≡ err failure)
        × (call policies service request now ≡ some (actix.unauthorized request failure)))
      ⊎ ((claims : T) × (ms : List (Middleware Q A)) × (authorize c (actix.authorization request)
              secrets policy.jwt_leeway_seconds now
            ≡ ok claims)
          × Resolved t policies.middleware policy.middleware ms
          × (call policies service request now
              ≡ some (
                  finish policy.sse (
                    nested ms service (
                      actix.insert_policy
                        (actix.insert_claims request policy.jwt_claim_projection claims) policy)))))

  abbrev Built : Next Q A → List (Text × Middleware Q A) → CompiledPolicy M C → Type 0
  Built service registry policy =
      (ms : List (Middleware Q A)) × Resolved t registry policy.middleware ms
      × (chain t registry policy.middleware service ≡ some (nested ms service))

  called :
      (policies : RoutePolicies M C (Middleware Q A)) (service : Next Q A) (request : Q) (now : ℕ)
      (secrets : List Text) {policy : CompiledPolicy M C}
      → find d policies.routes (actix.method request) (actix.pattern request) ≡ some policy
      → policy.jwt_secrets ≡ some secrets
      → call policies service request now
        ≡ respond policies.middleware service policy request
            (admitted policy request now (some secrets))
  unfolding call call_with
  called policies service request now secrets {policy = policy} found guarded =
      ap (call_with policies.middleware service request now) found
      ∙ ap (λ o. respond policies.middleware service policy request (admitted policy request now o))
          guarded

  decided :
      (policies : RoutePolicies M C (Middleware Q A)) (service : Next Q A) (request : Q) (now : ℕ)
      (secrets : List Text) (policy : CompiledPolicy M C)
      → call policies service request now
        ≡ respond policies.middleware service policy request
            (admitted policy request now (some secrets))
      → Built service policies.middleware policy
      → (r : Result AuthFailure T)
      → authorize c (actix.authorization request) secrets policy.jwt_leeway_seconds now ≡ r
      → Guarded policies service request now policy secrets
  unfolding admitted respond
  decided policies service request now secrets policy same (ms, resolved, built) (err failure) e =
      inl (
        failure,
        e,
        same
            ∙ ap
                (λ r. respond policies.middleware service policy request (
                  r >>? λ claims. ok (
                    actix.insert_policy
                      (actix.insert_claims request policy.jwt_claim_projection claims) policy)))
                e,
      )
  decided policies service request now secrets policy same (ms, resolved, built) (ok claims) e =
      inr (
        claims,
        ms,
        e,
        resolved,
        same
            ∙ ap
                (λ r. respond policies.middleware service policy request (
                  r >>? λ claims. ok (
                    actix.insert_policy
                      (actix.insert_claims request policy.jwt_claim_projection claims) policy)))
                e
            ∙ ap
                (λ (o : Option (Next Q A)). o >>= λ next. some (
                  finish policy.sse (
                    next (
                      actix.insert_policy
                        (actix.insert_claims request policy.jwt_claim_projection claims) policy))))
                built,
      )

  -- Once `with_middleware` has accepted the registry, a request for a route with secrets never panics.
  -- Without a token that is accepted it ends with a refusal, whatever the middleware and the service
  -- are; with one it goes through all middleware of the route, in their order, to the service, and it
  -- carries the claims and the policy.
  pub call-Guarded :
      (policies : RoutePolicies M C (Middleware Q A)) (registry : List (Text × Middleware Q A))
      (service : Next Q A) (request : Q) (now : ℕ) (secrets : List Text)
      {policies' : RoutePolicies M C (Middleware Q A)} {policy : CompiledPolicy M C}
      → with_middleware t policies registry ≡ ok policies'
      → find d policies'.routes (actix.method request) (actix.pattern request) ≡ some policy
      → policy.jwt_secrets ≡ some secrets
      → Guarded policies' service request now policy secrets
  call-Guarded policies registry service request now secrets {policies' = policies'}
        {policy = policy} accepted found guarded =
      let (same, all) = with_middleware-chain t policies registry service accepted in
      let built =
        All-find (Built service policies'.middleware) policies'.routes (actix.method request)
          (actix.pattern request) found
          (subst (λ reg. All (Built service reg) policies'.routes) (sym same) all) in
      decided policies' service request now secrets policy
        (called policies' service request now secrets found guarded) built
        (authorize c (actix.authorization request) secrets policy.jwt_leeway_seconds now) refl
