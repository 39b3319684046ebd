-- ===== src/Transcode/Tests.antt =====
-- Runs of the transcoder, and the theorems about it at inputs that meet their hypotheses.
use rust_zero.Prelude.{
  ℕ, arith, ◌≡◌, ◌↔◌, refl, Bool, true, false, List, [], ◌∷◌, ◌++◌, map, Option, none, some, leb,
  ◌==◌, not, ◌&&◌, ◌||◌, if◌then◌else◌,
}
use rust_zero.Prelude.Int.{pos}
use rust_zero.Prelude.Results.{ok, err, ok_or}
use rust_zero.Prelude.Texts.{Text, split}
use rust_zero.Transcode.{
  HttpBinding, get, slash, no_route, not_found, ok_code, Code, match_template, percent_decode,
}
use rust_zero.Transcode.Routes.{Pool, Route, build, build_routes, choose}
use rust_zero.Transcode.Choice.{best, build-choose}
use rust_zero.Transcode.Template.{
  literal, capture, shown, filled, rooted, recorded, match_template-recorded,
}
use rust_zero.Transcode.Json.{
  Value, integer, string, object, Fields, no_entries, next_entry, insert_json_path,
}
use rust_zero.Transcode.Request.{Codec, Kind, other_kind, handle}
use rust_zero.Transcode.Paths.{value_at, apart, insert_json_path-value_at}
use rust_zero.Transcode.Blocked.{IsBlocked, insert_json_path-IsBlocked}

-- The service `s` with the methods `g` and `l`; a method is its name.
abbrev pool : Pool Text
pool = record {
  methods = λ service. some ((b'g' ∷ []) ∷ (b'l' ∷ []) ∷ []);
  name = λ m. m;
  is_client_streaming = λ m. false;
}

-- `/v/{id}` and `/v/me`.
abbrev by_id : HttpBinding
by_id = record {
  verb = get;
  path = b'/' ∷ b'v' ∷ b'/' ∷ b'{' ∷ b'i' ∷ b'd' ∷ b'}' ∷ [];
  rpc = b's' ∷ b'/' ∷ b'g' ∷ [];
  body = none;
}

abbrev me : HttpBinding
me = record {
  verb = get;
  path = b'/' ∷ b'v' ∷ b'/' ∷ b'm' ∷ b'e' ∷ [];
  rpc = b's' ∷ b'.' ∷ b'l' ∷ [];
  body = none;
}

abbrev get_method : Text
get_method = b'G' ∷ b'E' ∷ b'T' ∷ []

abbrev routes : List (Route Text)
routes =
    record { binding = me; method = b'l' ∷ [] }
    ∷ record { binding = by_id; method = b'g' ∷ [] }
    ∷ []

-- `/v/me` comes first, as it has more literal bytes.
build_run : build pool (by_id ∷ me ∷ []) ≡ ok routes
unfolding build build_routes rust_zero.Transcode.Routes.build_route
    rust_zero.Transcode.validate_template split rust_zero.Transcode.Routes.find_method
    rust_zero.Transcode.Routes.rsplit_once rust_zero.Prelude.Texts.trim_start_matches
    rust_zero.Transcode.Routes.find_name rust_zero.Transcode.Routes.by_weight
    rust_zero.Transcode.Routes.place rust_zero.Transcode.literal_weight
    rust_zero.Transcode.weight_of
build_run = refl

build-choose_example :
    (declared : List (Route Text)) × (build_routes pool (by_id ∷ me ∷ []) ≡ ok declared)
    × (choose routes get_method me.path ≡ ok_or no_route (best get_method me.path declared))
build-choose_example = build-choose pool (by_id ∷ me ∷ []) get_method me.path build_run

abbrev unreserved : ℕ → Bool
unreserved c = (leb b'a' c && leb c b'z') || (leb b'0' c && leb c b'9')

-- `/v/{id}` with `a/%`.
abbrev value : Text
value = b'a' ∷ b'/' ∷ b'%' ∷ []

match_template-recorded_example :
    match_template
      (rooted (map shown (literal (b'v' ∷ []) ∷ capture (b'i' ∷ b'd' ∷ []) value ∷ [])))
      (rooted
        (map (filled unreserved) (literal (b'v' ∷ []) ∷ capture (b'i' ∷ b'd' ∷ []) value ∷ [])))
    ≡ some (recorded (literal (b'v' ∷ []) ∷ capture (b'i' ∷ b'd' ∷ []) value ∷ []) [])
unfolding rust_zero.Prelude.Utf8.is_utf8 rust_zero.Prelude.Utf8.valid_from
    rust_zero.Prelude.Utf8.following
match_template-recorded_example =
    match_template-recorded unreserved refl refl refl (literal (b'v' ∷ []))
      (capture (b'i' ∷ b'd' ∷ []) value ∷ [])
      (
        ((refl, tt), refl, refl),
        (
          (
            (refl, (refl, tt)),
            (refl, (refl, tt)),
            (omega arith, (omega arith, (omega arith, tt))),
            refl,
            refl,
          ),
          tt,
        ),
      )

-- The object with `a` and the path `b.c`.
abbrev fields : Fields
fields = next_entry (b'a' ∷ []) (integer (pos 1)) no_entries

abbrev inner_path : Text
inner_path = b'b' ∷ b'.' ∷ b'c' ∷ []

abbrev inserted : Fields
inserted =
    next_entry (b'a' ∷ []) (integer (pos 1))
      (next_entry (b'b' ∷ []) (object (next_entry (b'c' ∷ []) (string []) no_entries)) no_entries)

insert_run : insert_json_path fields inner_path (string []) ≡ some inserted
unfolding insert_json_path rust_zero.Transcode.Json.insert_parts split
    rust_zero.Transcode.Json.entry_object rust_zero.Transcode.Json.lookup
    rust_zero.Transcode.Json.put rust_zero.Transcode.less_text
insert_run = refl

insert_json_path-value_at_example :
    (value_at (split b'.' inner_path) (object inserted) ≡ some (string []))
    × (value_at (split b'.' (b'a' ∷ [])) (object inserted)
        ≡ value_at (split b'.' (b'a' ∷ [])) (object fields))
unfolding apart split
insert_json_path-value_at_example =
    insert_json_path-value_at fields inner_path (b'a' ∷ []) (string []) insert_run refl

-- The path `a.b` goes through a number.
abbrev through : Text
through = b'a' ∷ b'.' ∷ b'b' ∷ []

insert_json_path-IsBlocked_example :
    (insert_json_path fields through (string []) ≡ none) ↔ IsBlocked (split b'.' through) fields
insert_json_path-IsBlocked_example = insert_json_path-IsBlocked fields through (string [])

-- `a=1&a.b=2` in the query of a request panics.
abbrev codec : Codec Text Value
codec = record {
  field_by_name = λ m name. some other_kind;
  field_by_json_name = λ m name. none;
  from_slice = λ text. none;
  to_vec = λ v. some [];
  deserialize = λ m text. some (object no_entries);
}

handle_run :
    handle codec
      (λ m v. ok v)
      routes
      get_method
      me.path
      (b'a' ∷ b'=' ∷ b'1' ∷ b'&' ∷ b'a' ∷ b'.' ∷ b'b' ∷ b'=' ∷ b'2' ∷ [])
      []
    ≡ none
unfolding handle rust_zero.Transcode.Request.answer rust_zero.Transcode.Request.invoke choose
    rust_zero.Transcode.Routes.find_route rust_zero.Transcode.Routes.candidate
    rust_zero.Transcode.verb_matches match_template rust_zero.Transcode.match_parts split
    rust_zero.Prelude.Texts.trim_end_matches rust_zero.Prelude.Texts.trim_start_matches
    rust_zero.Transcode.match_part rust_zero.Transcode.capture_name
    rust_zero.Prelude.Texts.strip_prefix rust_zero.Transcode.Request.request_message
    rust_zero.Transcode.Request.body_value rust_zero.Transcode.Request.in_field
    rust_zero.Prelude.Numerals.digits_from rust_zero.Prelude.Numerals.parse_bool
    rust_zero.Prelude.Numerals.parse_digits rust_zero.Prelude.Numerals.parse_signed
    rust_zero.Prelude.Numerals.parse_unsigned rust_zero.Prelude.Texts.split_once_at
    rust_zero.Prelude.Texts.strip_suffix rust_zero.Prelude.Utf8.following
    rust_zero.Prelude.Utf8.is_utf8 rust_zero.Prelude.Utf8.valid_from
    rust_zero.Transcode.Json.as_object rust_zero.Transcode.Json.entry_object insert_json_path
    rust_zero.Transcode.Json.insert_parts rust_zero.Transcode.Json.lookup
    rust_zero.Transcode.Json.put rust_zero.Transcode.Request.error_response
    rust_zero.Transcode.Request.grpc_status_to_http rust_zero.Transcode.Request.insert_captures
    rust_zero.Transcode.Request.insert_query rust_zero.Transcode.Request.insert_typed_value
    rust_zero.Transcode.Request.typed_value rust_zero.Transcode.decode_from
    rust_zero.Transcode.hex_byte rust_zero.Transcode.insert rust_zero.Transcode.less_text
    percent_decode
handle_run = refl

handle_no_route :
    handle codec (λ m v. ok v) routes get_method (b'/' ∷ []) [] [] ≡ some (err (404, not_found))
unfolding handle rust_zero.Transcode.Request.answer rust_zero.Transcode.Request.invoke choose
    rust_zero.Transcode.Routes.find_route rust_zero.Transcode.Routes.candidate
    rust_zero.Transcode.verb_matches match_template rust_zero.Transcode.match_parts split
    rust_zero.Prelude.Texts.trim_end_matches rust_zero.Prelude.Texts.trim_start_matches
    rust_zero.Transcode.match_part rust_zero.Transcode.capture_name
    rust_zero.Prelude.Texts.strip_prefix rust_zero.Transcode.Request.error_response
handle_no_route = refl
