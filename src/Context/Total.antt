-- ===== src/Context/Total.antt =====
-- About buildContextTuple of app/backend/src/bart/context/index.ts: writing each slot.
use bart_share.Text.{Str, str_eq, codes, join, is_digit}
use bart_share.Attrs.{BartScalar, scalar, collection}
use bart_share.Number.{number_of, number_text}
use bart_share.Emitter.Grammar.{
  is_writable_number, is_name, is_keyword, is_name_part, is_name_start,
}
use bart_share.Emitter.{emit_scalar, emit_value, emit_attr, emit_attrs, emit_attr_list, quote}
use bart_share.Context.Providers.{EvalContext, Queries}
use bart_share.Context.{contributions_of, slot_text, build_context_tuple}
use bart_share.Context.Merging.{bag, bag_merged}
use bart_share.Prelude.{
  traverse_total, ◌≡◌, In, ℕ, ◌+◌, List, [], ◌∷◌, ◌++◌, map, refl, ok, traverse, true, false,
  if◌then◌else◌,
}

-- The date's numbers can be written, as whole numbers up to 2^53 - 1 can.
pub record IsWritableDate (now : EvalContext) : Type 0 where
  pub year : is_writable_number (number_of now.year) ≡ true
  pub month : is_writable_number (number_of (now.month + 1)) ≡ true
  pub day : is_writable_number (number_of now.day) ≡ true

emit_texts : (ids : List Str) → traverse emit_scalar (map BartScalar.text ids) ≡ ok (map quote ids)
unfolding emit_scalar
emit_texts [] = refl
emit_texts (id ∷ ids) = rw (emit_texts ids)

-- The text of a collection, and of an attribute.
abbrev braced : List Str → Str
braced ts = b'{' ∷ (join (b',' ∷ []) ts ++ (b'}' ∷ []))

abbrev attr_text : Str → Str → Str
attr_text key v = b'(' ∷ (key ++ (b':' ∷ (v ++ (b')' ∷ []))))

emit_collection :
    (key : Str) (ids : List Str)
    → is_name key ≡ true
    → is_keyword key ≡ false
    → emit_attr (key, collection (map BartScalar.text ids))
      ≡ ok (attr_text key (braced (map quote ids)))
unfolding emit_attr emit_value
emit_collection key ids n k = rw (n, k, emit_texts ids)

emit_number :
    (key : Str) (n : ℕ)
    → is_name key ≡ true
    → is_keyword key ≡ false
    → is_writable_number (number_of n) ≡ true
    → emit_attr (key, scalar (BartScalar.num (number_of n)))
      ≡ ok (attr_text key (number_text (number_of n)))
unfolding emit_attr emit_value emit_scalar
emit_number key n h k w = rw (h, k, w)

-- The texts of the bag's attributes.
abbrev bag_parts : EvalContext → List Str → List Str → List Str
bag_parts now cs gs =
    attr_text (codes "date_year") (number_text (number_of now.year))
    ∷ attr_text (codes "date_month") (number_text (number_of (now.month + 1)))
    ∷ attr_text (codes "date_day") (number_text (number_of now.day))
    ∷ attr_text (codes "connections") (braced (map quote cs))
    ∷ attr_text (codes "groups") (braced (map quote gs))
    ∷ []

emit_bag :
    (now : EvalContext) (cs gs : List Str)
    → IsWritableDate now
    → (text : Str) × (emit_attr_list (bag now cs gs) ≡ ok text)
unfolding emit_attr_list emit_attrs is_name is_name_part is_name_start is_digit is_keyword
emit_bag now cs gs w = (
  (let emitted = join [] (bag_parts now cs gs) in
      if str_eq emitted [] then codes "()" else emitted),
  rw
      (
        emit_number (codes "date_year") now.year refl refl w.year,
        emit_number (codes "date_month") (now.month + 1) refl refl w.month,
        emit_number (codes "date_day") now.day refl refl w.day,
        emit_collection (codes "connections") cs refl refl,
        emit_collection (codes "groups") gs refl refl,
      )
      refl,
)

slot_total :
    (db : Queries) (ids : List Str) (now : EvalContext) (id : Str)
    → IsWritableDate now
    → In id ids
    → (text : Str) × (slot_text (contributions_of db ids now) id ≡ ok text)
unfolding slot_text
slot_total db ids now id w m =
    let (cs, gs, merged) = bag_merged db ids now id m in
    let (text, written) = emit_bag now cs gs w in (text, rw (merged, written))

-- The context tuple of any list of parties can be written, whatever the database answers, as long
-- as the date's numbers can.
pub build_context_tuple_total :
    (db : Queries) (ids : List Str) (now : EvalContext)
    → IsWritableDate now
    → (text : Str) × (build_context_tuple db ids now ≡ ok text)
unfolding build_context_tuple
build_context_tuple_total db ids now w =
    let (slots, each) =
      traverse_total (slot_text (contributions_of db ids now)) ids
        (λ id m. slot_total db ids now id w m) in
    (b'(' ∷ (join (b',' ∷ []) slots ++ (b')' ∷ [])), rw each)
