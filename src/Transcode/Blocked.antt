-- ===== src/Transcode/Blocked.antt =====
-- When `insert_json_path` of gateway/src/transcode.rs panics.
use rust_zero.Prelude.{
  ◌≡◌, refl, sym, ap, ◌∙◌, List, [], ◌∷◌, ◌++◌, Option, none, some, ◌>>=◌, >>=-eq-some,
  Option-cases, inl, inr, ◌↔◌,
}
use rust_zero.Prelude.Texts.{Text, split, split_first}
use rust_zero.Prelude.{some-injective}
use rust_zero.Transcode.Json.{
  Value, object, Fields, no_entries, lookup, put, as_object, entry_object, insert_parts,
  insert_json_path,
}
use rust_zero.Transcode.Paths.{value_at, entry_object-value_at}

-- What stands in the way of a path: a value that is no object, at a proper part of the path.
abbrev pub IsBlocked : List Text → Fields → Type 0
IsBlocked parts fields =
    (before : List Text) × (part : Text) × (after : List Text) × (w : Value) × (parts
      ≡ before ++ part ∷ after)
    × (value_at before (object fields) ≡ some w)
    × (as_object w ≡ none)

entry_none :
    (p : Text) (fields : Fields)
    → entry_object p fields ≡ none
    → (w : Value) × (lookup p fields ≡ some w) × (as_object w ≡ none)
unfolding entry_object
entry_none p fields e = go (lookup p fields) e refl
  where
    go :
        (o : Option Value)
        → (elim o [ none ↦ some no_entries | some v ↦ as_object v ]) ≡ none
        → lookup p fields ≡ o
        → (w : Value) × (lookup p fields ≡ some w) × (as_object w ≡ none)
    go none e same = cc
    go (some v) e same = (v, same, e)

entry_found :
    (p : Text) (fields : Fields) {w : Value}
    → lookup p fields ≡ some w
    → entry_object p fields ≡ as_object w
unfolding entry_object
entry_found p fields e = rw (entry_object, e) refl

insert_parts-IsBlocked :
    (p : Text) (ps : List Text) (v : Value) (fields : Fields)
    → insert_parts (p ∷ ps) v fields ≡ none
    → IsBlocked (p ∷ ps) fields
unfolding insert_parts value_at as_object
insert_parts-IsBlocked p [] v fields e = cc
insert_parts-IsBlocked p (q ∷ ps) v fields e = elim (Option-cases (entry_object p fields)) [
  | inl n ↦
      let (w, found, no_object) = entry_none p fields n in
      (p ∷ [], q, ps, w, refl, rw found refl, no_object)
  | inr (inner, i) ↦ elim (Option-cases (insert_parts (q ∷ ps) v inner)) [
    | inl n ↦ deeper inner i (insert_parts-IsBlocked q ps v inner n)
    | inr (inner', i') ↦
        let done : insert_parts (p ∷ q ∷ ps) v fields ≡ some (put p (object inner') fields) =
          rw (i, i') refl in
        cc
  ]
]
  where
    deeper :
        (inner : Fields)
        → entry_object p fields ≡ some inner
        → IsBlocked (q ∷ ps) inner
        → IsBlocked (p ∷ q ∷ ps) fields
    deeper inner i ([], part, after, w, same, found, no_object) =
        let s : object inner ≡ w = cc in
        let o : as_object (object inner) ≡ none = ap as_object s ∙ no_object in cc
    deeper inner i (b ∷ before, part, after, w, same, found, no_object) = (
      p ∷ b ∷ before,
      part,
      after,
      w,
      ap (λ k. p ∷ k) same,
      entry_object-value_at p fields b before i ∙ found,
      no_object,
    )

blocked_insert :
    (before : List Text) (part : Text) (after : List Text) (v w : Value) (fields : Fields)
    → value_at before (object fields) ≡ some w
    → as_object w ≡ none
    → insert_parts (before ++ part ∷ after) v fields ≡ none
unfolding insert_parts value_at as_object
blocked_insert [] part after v w fields e n =
    let o : as_object (object fields) ≡ none = ap as_object (some-injective e) ∙ n in cc
blocked_insert (p ∷ []) part after v w fields e n =
    let (x, found, rest) = >>=-eq-some (lookup p fields) _ e in
    let closed : entry_object p fields ≡ none =
      entry_found p fields found ∙ ap as_object (some-injective rest) ∙ n in
    rw closed refl
blocked_insert (p ∷ b ∷ before) part after v w fields e n =
    let (x, found, rest) = >>=-eq-some (lookup p fields) _ e in
    let (y, below, end) = >>=-eq-some (as_object x >>= lookup b) (value_at before) rest in
    let (inner, opened, there) = >>=-eq-some (as_object x) (lookup b) below in
    let deeper : value_at (b ∷ before) (object inner) ≡ some w =
      ap (λ o. o >>= value_at before) there ∙ end in
    rw
      (
        entry_found p fields found ∙ opened,
        blocked_insert (b ∷ before) part after v w inner deeper n,
      )
      refl

-- An insertion panics exactly when a proper part of its path leads to a value that is no object.
pub insert_json_path-IsBlocked :
    (fields : Fields) (path : Text) (v : Value)
    → (insert_json_path fields path v ≡ none) ↔ IsBlocked (split b'.' path) fields
unfolding insert_json_path
insert_json_path-IsBlocked fields path v =
    let (p, ps, s) = split_first b'.' path in
    (
      λ e.
          rw s
            (insert_parts-IsBlocked p ps v fields (ap (λ k. insert_parts k v fields) (sym s) ∙ e)),
      λ (before, part, after, w, same, found, no_object).
          ap (λ k. insert_parts k v fields) same
          ∙ blocked_insert before part after v w fields found no_object,
    )
