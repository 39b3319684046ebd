-- ===== src/Transcode/Request.antt =====
-- `request_message`, `invoke` and `handle` of gateway/src/transcode.rs. The metadata that goes with a
-- message is left out, and a stream of responses is a response of the upstream.
use rust_zero.Prelude.{ℕ, true, false, not, List, [], ◌∷◌, Option, none, some, if◌then◌else◌}
use rust_zero.Prelude.Int.{pos}
use rust_zero.Prelude.Results.{Result, ok, err, ◌>>?◌, unless, ok_or}
use rust_zero.Prelude.Texts.{Text, is_empty, same_text, split, split_once_at}
use rust_zero.Prelude.Numerals.{parse_bool, parse_signed, parse_unsigned}
use rust_zero.Transcode.{
  not_object, unknown_field, not_boolean, not_integer, not_unsigned, Code, ok_code, cancelled,
  unknown, invalid_argument, deadline_exceeded, not_found, already_exists, permission_denied,
  resource_exhausted, failed_precondition, aborted, out_of_range, unimplemented, internal,
  unavailable, data_loss, unauthenticated, TranscodeError, no_route, unexpected_body, invalid_json,
  invalid_request, status, descriptor, reflection_descriptor, invalid_reflection_response,
  invalid_authorization, reflection, unknown_method, unsupported_client_streaming, invalid_template,
  first_part, percent_decode,
}
use rust_zero.Transcode.Routes.{Route, choose}
use rust_zero.Transcode.Json.{
  Value, boolean, integer, string, object, Fields, no_entries, as_object, insert_json_path,
}

-- Why a function does not return a value: by an error or by a panic.
pub data Halt : Type 0 where
  panics : Halt
  fails : TranscodeError → Halt

abbrev pub failing : {A : Type 0} → Result TranscodeError A → Result Halt A
failing (ok a) = ok a
failing (err e) = err (fails e)

pub data Kind : Type 0 where
  bool int32 sint32 sfixed32 uint32 fixed32 other_kind : Kind

-- The calls of the crates `prost_reflect` and `serde_json`, for methods of the type `M` and messages
-- of the type `D`.
pub record Codec (M D : Type 0) : Type 0 where
  -- `get_field_by_name` of the input of a method, and its fields with their `json_name`.
  pub field_by_name : M → Text → Option Kind
  pub field_by_json_name : M → Text → Option Kind
  pub from_slice : Text → Option Value
  pub to_vec : Value → Option Text
  pub deserialize : M → Text → Option D

abbrev pub or_else : {A : Type 0} → Option A → Option A → Option A
or_else none other = other
or_else (some a) other = some a

-- The value for a field of a kind.
unfoldable pub typed_value : Kind → Text → Text → Result TranscodeError Value
typed_value bool path raw =
    ok_or (invalid_request (not_boolean path)) (parse_bool raw) >>? λ b. ok (boolean b)
typed_value int32 path raw =
    ok_or (invalid_request (not_integer path)) (parse_signed 32 raw) >>? λ n. ok (integer n)
typed_value sint32 path raw =
    ok_or (invalid_request (not_integer path)) (parse_signed 32 raw) >>? λ n. ok (integer n)
typed_value sfixed32 path raw =
    ok_or (invalid_request (not_integer path)) (parse_signed 32 raw) >>? λ n. ok (integer n)
typed_value uint32 path raw =
    ok_or (invalid_request (not_unsigned path)) (parse_unsigned 32 raw) >>? λ n.
    ok (integer (pos n))
typed_value fixed32 path raw =
    ok_or (invalid_request (not_unsigned path)) (parse_unsigned 32 raw) >>? λ n.
    ok (integer (pos n))
typed_value other_kind path raw = ok (string raw)

abbrev pub pair_of : Text → Option (Text × Text) → Text × Text
pair_of pair none = (pair, [])
pair_of pair (some split) = split

module _ {M D : Type 0} (c : Codec M D) where
  unfoldable pub insert_typed_value : Fields → M → Text → Text → Result Halt Fields
  insert_typed_value fields method path raw =
      let top = first_part (split b'.' path) in
      let field = or_else (c.field_by_name method top) (c.field_by_json_name method top) in
      failing (ok_or (invalid_request (unknown_field path)) field) >>? λ kind.
      failing (typed_value kind path raw) >>? λ value.
      ok_or panics (insert_json_path fields path value)

  unfoldable pub insert_captures : M → List (Text × Text) → Fields → Result Halt Fields
  insert_captures method [] fields = ok fields
  insert_captures method ((name, raw) ∷ captures) fields =
      insert_typed_value fields method name raw >>? insert_captures method captures

  -- The loop over the pairs of the query; an empty pair is left out.
  unfoldable pub insert_query : M → List Text → Fields → Result Halt Fields
  insert_query method [] fields = ok fields
  insert_query method (pair ∷ pairs) fields = elim (is_empty pair) [
    | true ↦ insert_query method pairs fields
    | false ↦
        let (name, raw) = pair_of pair (split_once_at b'=' pair) in
        failing (percent_decode name) >>? λ name. failing (percent_decode raw) >>? λ raw.
        insert_typed_value fields method name raw >>? insert_query method pairs
  ]

  -- The JSON value of the body, before the field that the binding may name for it.
  unfoldable pub body_value : Text → Result TranscodeError Value
  body_value body =
      if is_empty body then ok (object no_entries) else ok_or invalid_json (c.from_slice body)

  unfoldable pub in_field : Option Text → Text → Value → Result Halt Value
  in_field none body value =
      failing (unless (not (is_empty body)) unexpected_body) >>? λ u. ok value
  in_field (some field) body value =
      if same_text field (b'*' ∷ [])
      then ok value
      else (ok_or panics (insert_json_path no_entries field value) >>? λ root. ok (object root))

  unfoldable pub request_message : Route M → Text → Text → List (Text × Text) → Result Halt D
  request_message route query body captures = failing (body_value body) >>? λ value.
      in_field route.binding.body body value >>? λ value.
      failing (ok_or (invalid_request not_object) (as_object value)) >>? λ fields.
      insert_captures route.method captures fields >>? λ fields.
      insert_query route.method (split b'&' query) fields >>? λ fields.
      failing (ok_or invalid_json (c.to_vec (object fields))) >>? λ serialized.
      failing (ok_or invalid_json (c.deserialize route.method serialized))

  -- The upstream answers with a response of the type `B` or with a status.
  unfoldable pub invoke :
      {B : Type 0}
      → (M → D → Result Code B)
      → List (Route M)
      → Text
      → Text
      → Text
      → Text
      → Result Halt B
  invoke call routes method path query body =
      failing (choose routes method path) >>? λ (route, captures).
      request_message route query body captures >>? λ input. upstream (call route.method input)
    where
      upstream : {B : Type 0} → Result Code B → Result Halt B
      upstream (ok response) = ok response
      upstream (err code) = err (fails (status code))

unfoldable pub grpc_status_to_http : Code → ℕ
grpc_status_to_http ok_code = 200
grpc_status_to_http cancelled = 499
grpc_status_to_http unknown = 500
grpc_status_to_http internal = 500
grpc_status_to_http data_loss = 500
grpc_status_to_http invalid_argument = 400
grpc_status_to_http failed_precondition = 400
grpc_status_to_http out_of_range = 400
grpc_status_to_http deadline_exceeded = 504
grpc_status_to_http not_found = 404
grpc_status_to_http already_exists = 409
grpc_status_to_http aborted = 409
grpc_status_to_http permission_denied = 403
grpc_status_to_http unauthenticated = 401
grpc_status_to_http resource_exhausted = 429
grpc_status_to_http unimplemented = 501
grpc_status_to_http unavailable = 503

-- The status of the answer and the code in its JSON.
unfoldable pub error_response : TranscodeError → ℕ × Code
error_response no_route = (404, not_found)
error_response invalid_json = (400, invalid_argument)
error_response (status code) = (grpc_status_to_http code, code)
error_response descriptor = (500, internal)
error_response reflection_descriptor = (500, internal)
error_response invalid_reflection_response = (500, internal)
error_response invalid_authorization = (500, internal)
error_response (reflection message) = (500, internal)
error_response (unknown_method rpc) = (500, internal)
error_response (unsupported_client_streaming rpc) = (500, internal)
error_response (invalid_template path) = (500, internal)
error_response unexpected_body = (500, internal)
error_response (invalid_request problem) = (500, internal)

unfoldable pub answer : {B : Type 0} → Result Halt B → Option (Result (ℕ × Code) B)
answer (ok response) = some (ok response)
answer (err panics) = none
answer (err (fails e)) = some (err (error_response e))

-- `Transcoder::handle`, with no answer where it panics.
unfoldable pub handle :
    {M D B : Type 0}
    → Codec M D
    → (M → D → Result Code B)
    → List (Route M)
    → Text
    → Text
    → Text
    → Text
    → Option (Result (ℕ × Code) B)
handle c call routes method path query body = answer (invoke c call routes method path query body)
