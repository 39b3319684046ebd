-- ===== src/Transcode/Json.antt =====
-- The JSON values of the requests in gateway/src/transcode.rs, and `insert_json_path`. A panic is `none`.
use rust_zero.Prelude.{ℕ, Bool, List, [], ◌∷◌, Option, none, some, ◌>>=◌, if◌then◌else◌}
use rust_zero.Prelude.Int.{ℤ}
use rust_zero.Prelude.Texts.{Text, same_text, split}
use rust_zero.Transcode.{less_text}

mutual
  -- `serde_json::Value`; a float is its 64 bits.
  pub data Value : Type 0 where
    null : Value
    boolean : Bool → Value
    integer : ℤ → Value
    float : ℕ → Value
    string : Text → Value
    array : Values → Value
    object : Fields → Value

  pub data Values : Type 0 where
    no_values : Values
    next_value : Value → Values → Values

  -- `serde_json::Map`, in the order of the keys.
  pub data Fields : Type 0 where
    no_entries : Fields
    next_entry : Text → Value → Fields → Fields

unfoldable pub lookup : Text → Fields → Option Value
lookup key no_entries = none
lookup key (next_entry k v fields) =
    let rest = lookup key fields in if same_text key k then some v else rest

-- `Map::insert`
unfoldable pub put : Text → Value → Fields → Fields
put key v no_entries = next_entry key v no_entries
put key v (next_entry k w fields) =
    let rest = put key v fields in
    if same_text key k
    then next_entry key v fields
    else if less_text key k
    then next_entry key v (next_entry k w fields)
    else next_entry k w rest

unfoldable pub as_object : Value → Option Fields
as_object null = none
as_object (boolean b) = none
as_object (integer n) = none
as_object (float bits) = none
as_object (string text) = none
as_object (array items) = none
as_object (object fields) = some fields

-- `entry`, `or_insert_with` an empty object, and `as_object_mut`.
unfoldable pub entry_object : Text → Fields → Option Fields
entry_object key fields = elim (lookup key fields) [ none ↦ some no_entries | some v ↦ as_object v ]

-- The loop of `insert_json_path`.
unfoldable pub insert_parts : List Text → Value → Fields → Option Fields
insert_parts [] v fields = some fields
insert_parts (part ∷ []) v fields = some (put part v fields)
insert_parts (part ∷ next ∷ parts) v fields = entry_object part fields >>= λ inner.
    insert_parts (next ∷ parts) v inner >>= λ inner. some (put part (object inner) fields)

unfoldable pub insert_json_path : Fields → Text → Value → Option Fields
insert_json_path fields path v = insert_parts (split b'.' path) v fields
