-- ===== src/Transcode/Routes.antt =====
-- `TranscoderBuilder::build`, `find_method` and the choice of a route by `Transcoder::invoke` in
-- gateway/src/transcode.rs, for methods of the type `M`. The pool of descriptors is an argument.
use rust_zero.Prelude.{
  ℕ, Bool, List, [], ◌∷◌, Option, none, some, ◌>>=◌, leb, ◌==◌, if◌then◌else◌, map,
}
use rust_zero.Prelude.Results.{Result, ok, ◌>>?◌, unless, ok_or}
use rust_zero.Prelude.Texts.{Text, same_text, trim_start_matches}
use rust_zero.Transcode.{
  HttpBinding, TranscodeError, unknown_method, unsupported_client_streaming, no_route, slash,
  verb_matches, validate_template, literal_weight, match_template,
}

-- The calls of the `prost_reflect` crate.
pub record Pool (M : Type 0) : Type 0 where
  -- The methods of `get_service_by_name`.
  pub methods : Text → Option (List M)
  pub name : M → Text
  pub is_client_streaming : M → Bool

pub record Route (M : Type 0) : Type 0 where
  pub binding : HttpBinding
  pub method : M

-- `rsplit_once` at a byte.
unfoldable pub rsplit_once : ℕ → Text → Option (Text × Text)
rsplit_once d [] = none
rsplit_once d (c ∷ text) = elim (rsplit_once d text) [
  | some (before, after) ↦ some (c ∷ before, after)
  | none ↦ if c == d then some ([], text) else none
]

abbrev pub dotted : Text → Text
dotted = map (λ c. if c == slash then b'.' else c)

-- A route with the captures of the path.
abbrev pub Found : Type 0 → Type 0
Found M = Option (Route M × List (Text × Text))

module _ {M : Type 0} where
  unfoldable pub find_name : (M → Text) → Text → List M → Option M
  find_name name wanted [] = none
  find_name name wanted (m ∷ methods) =
      let rest = find_name name wanted methods in if same_text (name m) wanted then some m else rest

  unfoldable pub find_method : Pool M → Text → Option M
  find_method pool name =
      rsplit_once b'.' (dotted (trim_start_matches slash name)) >>= λ (service, method).
      pool.methods service >>= find_name pool.name method

  unfoldable pub build_route : Pool M → HttpBinding → Result TranscodeError (Route M)
  build_route pool binding = validate_template binding.path >>? λ u.
      ok_or (unknown_method binding.rpc) (find_method pool binding.rpc) >>? λ method.
      unless (pool.is_client_streaming method) (unsupported_client_streaming binding.rpc) >>? λ u.
      ok (record { binding = binding; method = method })

  unfoldable pub build_routes : Pool M → List HttpBinding → Result TranscodeError (List (Route M))
  build_routes pool [] = ok []
  build_routes pool (binding ∷ bindings) = build_route pool binding >>? λ route.
      build_routes pool bindings >>? λ routes. ok (route ∷ routes)

  abbrev pub weight : Route M → ℕ
  weight route = literal_weight route.binding.path

  -- `sort_by_key` with `Reverse` of the weight, a stable sort.
  unfoldable pub place : Route M → List (Route M) → List (Route M)
  place route [] = route ∷ []
  place route (r ∷ routes) =
      let rest = place route routes in
      if leb (weight r) (weight route) then route ∷ r ∷ routes else r ∷ rest

  unfoldable pub by_weight : List (Route M) → List (Route M)
  by_weight [] = []
  by_weight (route ∷ routes) = place route (by_weight routes)

  unfoldable pub build : Pool M → List HttpBinding → Result TranscodeError (List (Route M))
  build pool bindings = build_routes pool bindings >>? λ routes. ok (by_weight routes)

  abbrev pub with_captures : Route M → Option (List (Text × Text)) → Found M
  with_captures route none = none
  with_captures route (some captures) = some (route, captures)

  -- What a route makes of the method and the path of a request.
  unfoldable pub candidate : Text → Text → Route M → Found M
  candidate method path route =
      if verb_matches route.binding.verb method
      then with_captures route (match_template route.binding.path path)
      else none

  abbrev pub or_found : Found M → Found M → Found M
  or_found none rest = rest
  or_found (some found) rest = some found

  -- `filter` and `find_map` of `invoke`.
  unfoldable pub find_route : Text → Text → List (Route M) → Found M
  find_route method path [] = none
  find_route method path (route ∷ routes) =
      or_found (candidate method path route) (find_route method path routes)

  unfoldable pub choose :
      List (Route M) → Text → Text → Result TranscodeError (Route M × List (Text × Text))
  choose routes method path = ok_or no_route (find_route method path routes)
