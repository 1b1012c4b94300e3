-- ===== src/Reserved/Gate.antt =====
-- About validateAttrs of app/backend/src/bart/reserved.ts beside what the emitter refuses.
use bart_share.Prelude.{
  false, ◌≡◌, refl, List, [], ◌∷◌, ◌++◌, none, arith, ok, Option-cases, inl, inr, traverse, ap,
}
use bart_share.Text.{Str, codes, str_eq, join, is_digit}
use bart_share.Number.{number_text}
use bart_share.Attrs.{BartScalar, BartValue, scalar, collection, BartAttrs}
use bart_share.Emitter.Grammar.{is_name, is_name_part, is_keyword, user_id_attr}
use bart_share.Emitter.{
  emit_scalar, quote, policy_text, emit_value, emit_attr, emit_attrs, emit_policy, without,
  party_attrs_of,
}
use bart_share.Reserved.{
  Element, text, num, boolean, object, Unknown, one, many, Attrs, scalar_error, first_error,
  value_error, attr_error, validate_attrs, is_reserved, reserved_attr_names,
}

-- A typed value, seen as JSON.
widen_scalar : BartScalar → Element
widen_scalar (BartScalar.text s) = text s
widen_scalar (BartScalar.num n) = num n
widen_scalar (BartScalar.boolean b) = boolean b

widen_scalars : List BartScalar → List Element
unfolding widen_scalar
widen_scalars [] = []
widen_scalars (v ∷ vs) = widen_scalar v ∷ widen_scalars vs

unfoldable pub widen_value : BartValue → Unknown
unfolding widen_scalar widen_scalars
widen_value (scalar v) = one (widen_scalar v)
widen_value (collection vs) = many (widen_scalars vs)

unfoldable pub widen : BartAttrs → Attrs
unfolding widen_value
widen [] = []
widen ((k, v) ∷ r) = (k, widen_value v) ∷ widen r

-- The texts that the emitter makes of a collection and of an attribute.
abbrev braced : List Str → Str
braced ts = b'{' ∷ (join (b',' ∷ []) ts ++ (b'}' ∷ []))

abbrev pub attr_text : Str → Str → Str
attr_text key v = b'(' ∷ (key ++ (b':' ∷ (v ++ (b')' ∷ []))))

scalar_gate :
    (key where_ : Str) (v : Element)
    → scalar_error key v where_ ≡ none
    → (s : BartScalar) × (t : Str) × (widen_scalar s ≡ v) × (emit_scalar s ≡ ok t)
unfolding scalar_error widen_scalar emit_scalar
scalar_gate key where_ (text s) h = (BartScalar.text s, _, refl, refl)
scalar_gate key where_ (num n) h = (BartScalar.num n, number_text n, refl, ground arith)
scalar_gate key where_ (boolean b) h = (BartScalar.boolean b, _, refl, refl)
scalar_gate key where_ object h = cc

elements_gate :
    (key : Str) (vs : List Element)
    → first_error key vs ≡ none
    → (ss : List BartScalar) × (ts : List Str) × (widen_scalars ss ≡ vs)
      × (traverse emit_scalar ss ≡ ok ts)
unfolding first_error widen_scalars
elements_gate key [] h = ([], [], refl, refl)
elements_gate key (v ∷ vs) h = elim (Option-cases (scalar_error key v (codes "element"))) [
  | inr (e, bad) ↦ ground arith
  | inl fine ↦
      let (s, t, same, written) = scalar_gate key (codes "element") v fine in
      let (ss, ts, sames, all_written) = elements_gate key vs (ground arith) in
      (s ∷ ss, t ∷ ts, cc, rw (written, all_written))
]

pub value_gate :
    (key : Str) (v : Unknown)
    → value_error key v ≡ none
    → (b : BartValue) × (t : Str) × (widen_value b ≡ v) × (emit_value b ≡ ok t)
unfolding value_error widen_value emit_value
value_gate key (one v) h =
    let (s, t, same, written) = scalar_gate key (codes "value") v h in
    (scalar s, t, ap one same, written)
value_gate key (many vs) h =
    let (ss, ts, same, written) = elements_gate key vs h in
    (collection ss, braced ts, ap many same, rw written)

attr_gate :
    (key : Str) (v : Unknown)
    → attr_error key v ≡ none
    → (b : BartValue) × (t : Str) × (widen_value b ≡ v)
      × (emit_attr (key, b) ≡ ok t)
      × (is_reserved key ≡ false)
unfolding attr_error emit_attr
attr_gate key v h =
    let (b, t, same, written) = value_gate key v (ground arith) in
    (b, attr_text key t, same, ground (arith, written), ground arith)

-- All the entries together, each key free of the names that the system sets.
abbrev pub Unreserved : BartAttrs → Type 0
Unreserved [] = Unit {0}
Unreserved ((k, v) ∷ r) = (is_reserved k ≡ false) × Unreserved r

attrs_gate :
    (attrs : Attrs)
    → validate_attrs attrs ≡ []
    → (typed : BartAttrs) × (ts : List Str) × (widen typed ≡ attrs)
      × (traverse emit_attr typed ≡ ok ts)
      × Unreserved typed
unfolding validate_attrs widen
attrs_gate [] h = ([], [], refl, refl, tt)
attrs_gate ((key, value) ∷ attrs) h = elim (Option-cases (attr_error key value)) [
  | inr (e, bad) ↦ ground arith
  | inl fine ↦
      let (b, t, same, written, free) = attr_gate key value fine in
      let (typed, ts, sames, all_written, all_free) = attrs_gate attrs (ground arith) in
      ((key, b) ∷ typed, t ∷ ts, cc, rw (written, all_written), (free, all_free))
]

not_user_id : (k : Str) → is_reserved k ≡ false → str_eq k user_id_attr ≡ false
unfolding is_reserved reserved_attr_names
not_user_id k h = ground arith

without-Unreserved : (attrs : BartAttrs) → Unreserved attrs → without user_id_attr attrs ≡ attrs
unfolding without
without-Unreserved [] h = refl
without-Unreserved ((k, v) ∷ r) (free, rest) = rw (not_user_id k free, without-Unreserved r rest)

emit_user_id :
    (id : Str)
    → emit_attr (user_id_attr, scalar (BartScalar.text id)) ≡ ok (attr_text user_id_attr (quote id))
unfolding emit_attr emit_value emit_scalar is_name is_name_part is_digit is_keyword
emit_user_id id = refl

-- Whatever JSON object passes validateAttrs is a typed attribute object that the emitter writes
-- without throwing, alone and as the party of a policy with any id and rules; none of its keys is
-- reserved, so the policy's party has the user's own id under `userId` and then these attributes.
pub validate_attrs_gate :
    (attrs : Attrs) (id : Str) (rules : List Str)
    → validate_attrs attrs ≡ []
    → (typed : BartAttrs) × (emitted : Str) × (policy : Str) × (widen typed ≡ attrs)
      × (emit_attrs typed ≡ ok emitted)
      × (emit_policy (record { id = id; attrs = typed; rules = rules }) ≡ ok policy)
      × (party_attrs_of id typed ≡ (user_id_attr, scalar (BartScalar.text id)) ∷ typed)
unfolding emit_attrs emit_policy party_attrs_of
validate_attrs_gate attrs id rules h =
    let (typed, ts, same, written, free) = attrs_gate attrs h in
    let kept = without-Unreserved typed free in
    (
      typed,
      join [] ts,
      policy_text (join [] (attr_text user_id_attr (quote id) ∷ ts)) rules,
      same,
      rw written,
      rw (kept, emit_user_id id, written),
      rw kept,
    )
