-- ===== src/Frontend/Format/Agreement.antt =====
-- About app/frontend/src/lib/bart/types.ts and format.ts beside the backend's emitter and
-- validation.
use bart_share.Prelude.{
  ◌||◌, Bool, [], ◌∷◌, traverse-cons, ok_injective, >>=-eq-ok, sym, traverse-cons, ◌∷◌, >>=-eq-ok,
  ok_injective, arith, ◌⊎◌, refl, ok, ◌↔◌, Outcome, List, ◌≡◌, Bool-cases, none, some, inl, inr,
  true, false, traverse, ap,
}
use bart_share.Text.{Str, str_eq, codes, includes}
use bart_share.Attrs.{BartScalar, text, num, boolean, BartValue, scalar, collection, BartAttrs}
use bart_share.Emitter
use bart_share.Emitter.Grammar.{is_name, is_keyword, is_writable_number}
use bart_share.Reserved.{is_reserved}
use bart_share.Frontend.Format.{
  emit_unless, reserved, reserved_keys, editor_keywords, validate_attr_key, format_scalar,
  format_value, format_attr, emit_entry, emit_attrs,
}

reorder :
    (u c g y m d : Bool)
    → (u || (c || (g || (y || (m || (d || false))))))
      ≡ (u || (y || (m || (d || (c || (g || false))))))
reorder u c g y m d = ground arith

reserved_same : (key : Str) → includes key reserved_keys ≡ is_reserved key
unfolding is_reserved includes
reserved_same key =
    reorder (str_eq key (codes "userId")) (str_eq key (codes "connections"))
      (str_eq key (codes "groups")) (str_eq key (codes "date_year"))
      (str_eq key (codes "date_month")) (str_eq key (codes "date_day"))

keyword_same : (key : Str) → includes key editor_keywords ≡ is_keyword key
unfolding is_keyword
keyword_same key = refl

-- The editor finds no problem with a key exactly when the backend takes it: a name of the grammar
-- that is no keyword and that the system does not set itself, or that the endpoint allows.
pub validate_attr_key_iff :
    (key : Str) (allow : List Str)
    → (validate_attr_key key allow ≡ none) ↔ (
        (is_name key ≡ true)
        × (is_keyword key ≡ false)
        × ((is_reserved key ≡ false) ⊎ (includes key allow ≡ true)))
unfolding validate_attr_key
validate_attr_key_iff key allow = ground (arith, reserved_same key, keyword_same key)

format_scalar_agrees :
    (v : BartScalar) (s : Str) → Emitter.emit_scalar v ≡ ok s → format_scalar v ≡ ok s
unfolding format_scalar Emitter.emit_scalar is_writable_number
format_scalar_agrees (text t) s h = ap ok (ok_injective _ s h)
format_scalar_agrees (num n) s h = ground arith
format_scalar_agrees (boolean b) s h = ap ok (ok_injective _ s h)

traverse_agrees :
    {A B E F : Type 0} (f : A → Outcome E B) (g : A → Outcome F B) (xs : List A) (ys : List B)
    → ((x : A) (y : B) → f x ≡ ok y → g x ≡ ok y)
    → traverse f xs ≡ ok ys
    → traverse g xs ≡ ok ys
traverse_agrees f g [] ys h t = ap ok (ok_injective [] ys t)
traverse_agrees f g (x ∷ xs) ys h t =
    let (y, r, first, rest, same) = traverse-cons f x xs ys t in
    rw (h x y first, traverse_agrees f g xs r h rest) (ap ok (sym same))

format_value_agrees :
    (v : BartValue) (s : Str) → Emitter.emit_value v ≡ ok s → format_value v ≡ ok s
unfolding format_value Emitter.emit_value
format_value_agrees (scalar v) s h = format_scalar_agrees v s h
format_value_agrees (collection vs) s h =
    let (items, written, same) = >>=-eq-ok (traverse Emitter.emit_scalar vs) _ h in
    rw (traverse_agrees Emitter.emit_scalar format_scalar vs items format_scalar_agrees written)
      (ap ok (ok_injective _ s same))

writable_key :
    (key : Str)
    → is_name key ≡ true
    → is_keyword key ≡ false
    → (validate_attr_key key [] ≡ none) ⊎ (validate_attr_key key [] ≡ some reserved)
unfolding validate_attr_key
writable_key key name free = ground (arith, keyword_same key)

emit_entry_agrees :
    (e : Str × BartValue) (s : Str) → Emitter.emit_attr e ≡ ok s → emit_entry e ≡ ok s
unfolding emit_entry emit_unless Emitter.emit_attr format_attr
emit_entry_agrees (key, v) s h = elim (Bool-cases (is_name key)) [
  | inr bad ↦ absurd (ground arith)
  | inl name ↦ elim (Bool-cases (is_keyword key)) [
    | inl bad ↦ absurd (ground arith)
    | inr free ↦
        let (t, written, same) = >>=-eq-ok (Emitter.emit_value v) _ (rw (name, free) at h) in
        let f : format_attr key v ≡ ok s =
          rw (format_value_agrees v t written) (ap ok (ok_injective _ s same)) in
        elim (writable_key key name free) [ inl fine ↦ rw fine f | inr own_ ↦ rw own_ f ]
  ]
]

-- Whatever attributes the backend can write, the editor writes as the same text.
pub emit_attrs_agrees :
    (attrs : BartAttrs) (s : Str) → Emitter.emit_attrs attrs ≡ ok s → emit_attrs attrs ≡ ok s
unfolding emit_attrs Emitter.emit_attrs
emit_attrs_agrees attrs s h =
    let (parts, written, same) = >>=-eq-ok (traverse Emitter.emit_attr attrs) _ h in
    rw (traverse_agrees Emitter.emit_attr emit_entry attrs parts emit_entry_agrees written)
      (ap ok (ok_injective _ s same))
