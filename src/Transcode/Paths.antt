-- ===== src/Transcode/Paths.antt =====
-- What `insert_json_path` of gateway/src/transcode.rs leaves in an object.
use rust_zero.Prelude.{
  ◌≡◌, refl, sym, ap, ◌∙◌, arith, Bool, true, false, List, [], ◌∷◌, Option, none, some, ◌>>=◌,
  >>=-eq-some, if◌then◌else◌, Bool-cases, inl, inr, subst,
}
use rust_zero.Prelude.Texts.{Text, same_text, same_text_refl, same_text→eq, split, split_first}
use rust_zero.Prelude.{some-injective}
use rust_zero.Transcode.Json.{
  Value, object, Fields, no_entries, next_entry, lookup, put, as_object, entry_object, insert_parts,
  insert_json_path,
}

-- The value at the end of a path.
unfoldable pub value_at : List Text → Value → Option Value
value_at [] v = some v
value_at (part ∷ parts) v = as_object v >>= lookup part >>= value_at parts

-- Neither path is a part of the other.
unfoldable pub apart : List Text → List Text → Bool
apart [] qs = false
apart (p ∷ ps) [] = false
apart (p ∷ ps) (q ∷ qs) = let rest = apart ps qs in if same_text q p then rest else true

lookup-put :
    (p q : Text) (v : Value) (fields : Fields)
    → lookup q (put p v fields) ≡ (if same_text q p then some v else lookup q fields)
unfolding lookup put
lookup-put p q v no_entries = refl
lookup-put p q v (next_entry k w fields) = elim (Bool-cases (same_text p k)) [
  | inl e ↦ let same = ap (same_text q) (same_text→eq p k e) in ground arith
  | inr e ↦ elim (Bool-cases (same_text q k)) [
    | inl d ↦
        let other : same_text q p ≡ false = elim (Bool-cases (same_text q p)) [
          | inl f ↦
              let s = same_text→eq q k d in
              let t = same_text→eq q p f in
              let r = same_text_refl p in let u = ap (same_text p) (sym t ∙ s) in cc
          | inr f ↦ f
        ] in
        ground (arith, lookup-put p q v fields)
    | inr d ↦ ground (arith, lookup-put p q v fields)
  ]
]

-- The entry of a part is what the paths below the part are read in.
pub entry_object-value_at :
    (p : Text) (fields : Fields) {inner : Fields} (q : Text) (qs : List Text)
    → entry_object p fields ≡ some inner
    → value_at (p ∷ q ∷ qs) (object fields) ≡ value_at (q ∷ qs) (object inner)
unfolding value_at as_object entry_object lookup
entry_object-value_at p fields {inner} q qs e = go (lookup p fields) e
  where
    go :
        (o : Option Value)
        → (elim o [ none ↦ some no_entries | some v ↦ as_object v ]) ≡ some inner
        → (o >>= value_at (q ∷ qs)) ≡ value_at (q ∷ qs) (object inner)
    go none e = let same : no_entries ≡ inner = cc in ap (λ f. value_at (q ∷ qs) (object f)) same
    go (some v) e = ap (λ o. o >>= lookup q >>= value_at qs) e

insert_parts-value_at :
    (p : Text) (ps : List Text) (v : Value) (fields : Fields) {fields' : Fields}
    → insert_parts (p ∷ ps) v fields ≡ some fields'
    → value_at (p ∷ ps) (object fields') ≡ some v
unfolding insert_parts value_at as_object
insert_parts-value_at p [] v fields {fields'} e =
    let same : put p v fields ≡ fields' = cc in
    subst (λ f. (lookup p f >>= value_at []) ≡ some v) same
      (rw (lookup-put p p v fields, same_text_refl p) refl)
insert_parts-value_at p (q ∷ ps) v fields {fields'} e =
    let (inner, e0, e1) = >>=-eq-some (entry_object p fields) _ e in
    let (inner', e2, e3) = >>=-eq-some (insert_parts (q ∷ ps) v inner) _ e1 in
    let same : put p (object inner') fields ≡ fields' = cc in
    subst (λ f. (lookup p f >>= value_at (q ∷ ps)) ≡ some v) same
      (rw (lookup-put p p (object inner') fields, same_text_refl p)
        (insert_parts-value_at q ps v inner e2))

-- A put elsewhere.
put_elsewhere :
    (p q : Text) (qs : List Text) (v : Value) (fields : Fields) {fields' : Fields}
    → same_text q p ≡ false
    → put p v fields ≡ fields'
    → value_at (q ∷ qs) (object fields') ≡ value_at (q ∷ qs) (object fields)
unfolding value_at as_object
put_elsewhere p q qs v fields d e =
    ap (λ o. o >>= value_at qs)
      (ap (lookup q) (sym e)
        ∙ lookup-put p q v fields
        ∙ ap (λ b. if b then some v else lookup q fields) d)

-- A put of an inner object, read below it.
put_below :
    (p q q' : Text) (qs : List Text) (fields inner' : Fields) {inner fields' : Fields}
    → entry_object p fields ≡ some inner
    → put p (object inner') fields ≡ fields'
    → q ≡ p
    → value_at (q' ∷ qs) (object inner') ≡ value_at (q' ∷ qs) (object inner)
    → value_at (q ∷ q' ∷ qs) (object fields') ≡ value_at (q ∷ q' ∷ qs) (object fields)
unfolding value_at as_object
put_below p q q' qs fields inner' {inner} {fields'} e0 e3 s h =
    ap (λ k. lookup k fields' >>= value_at (q' ∷ qs)) s
    ∙ ap (λ f. lookup p f >>= value_at (q' ∷ qs)) (sym e3)
    ∙ ap (λ o. o >>= value_at (q' ∷ qs))
        (lookup-put p p (object inner') fields
          ∙ ap (λ b. if b then some (object inner') else lookup p fields) (same_text_refl p))
    ∙ h
    ∙ sym (entry_object-value_at p fields q' qs e0)
    ∙ ap (λ k. lookup k fields >>= value_at (q' ∷ qs)) (sym s)

insert_parts-apart :
    (p : Text) (ps : List Text) (q : Text) (qs : List Text) (v : Value) (fields : Fields)
    {fields' : Fields}
    → insert_parts (p ∷ ps) v fields ≡ some fields'
    → apart (p ∷ ps) (q ∷ qs) ≡ true
    → value_at (q ∷ qs) (object fields') ≡ value_at (q ∷ qs) (object fields)
unfolding insert_parts apart value_at as_object
insert_parts-apart p [] q qs v fields e a = elim (Bool-cases (same_text q p)) [
  | inl d ↦ let never : (if same_text q p then false else true) ≡ false = rw d refl in cc
  | inr d ↦ put_elsewhere p q qs v fields d (some-injective e)
]
insert_parts-apart p (p' ∷ ps) q [] v fields {fields'} e a =
    let (inner, e0, e1) = >>=-eq-some (entry_object p fields) _ e in
    let (inner', e2, e3) = >>=-eq-some (insert_parts (p' ∷ ps) v inner) _ e1 in
    elim (Bool-cases (same_text q p)) [
      | inl d ↦ let never : (if same_text q p then false else true) ≡ false = rw d refl in cc
      | inr d ↦ put_elsewhere p q [] (object inner') fields d (some-injective e3)
    ]
insert_parts-apart p (p' ∷ ps) q (q' ∷ qs) v fields {fields'} e a =
    let (inner, e0, e1) = >>=-eq-some (entry_object p fields) _ e in
    let (inner', e2, e3) = >>=-eq-some (insert_parts (p' ∷ ps) v inner) _ e1 in
    elim (Bool-cases (same_text q p)) [
      | inl d ↦ put_below p q q' qs fields inner' e0 (some-injective e3) (same_text→eq q p d) (
          insert_parts-apart p' ps q' qs v inner e2
            (subst (λ b. (if b then apart (p' ∷ ps) (q' ∷ qs) else true) ≡ true) d a))
      | inr d ↦ put_elsewhere p q (q' ∷ qs) (object inner') fields d (some-injective e3)
    ]

-- After an insertion its path leads to the value, and a path of which neither is a part of the other
-- leads to what it led to before.
pub insert_json_path-value_at :
    (fields : Fields) (path other : Text) (v : Value) {fields' : Fields}
    → insert_json_path fields path v ≡ some fields'
    → apart (split b'.' path) (split b'.' other) ≡ true
    → (value_at (split b'.' path) (object fields') ≡ some v)
      × (value_at (split b'.' other) (object fields') ≡ value_at (split b'.' other) (object fields))
unfolding insert_json_path
insert_json_path-value_at fields path other v {fields'} e a =
    let (p, ps, s) = split_first b'.' path in
    let (q, qs, t) = split_first b'.' other in
    let inserted : insert_parts (p ∷ ps) v fields ≡ some fields' =
      ap (λ k. insert_parts k v fields) (sym s) ∙ e in
    let parted : apart (p ∷ ps) (q ∷ qs) ≡ true = cc in
    rw (s, t)
      (
        insert_parts-value_at p ps v fields inserted,
        insert_parts-apart p ps q qs v fields inserted parted,
      )
