-- ===== src/Frontend/Parser/Entries.antt =====
-- About the attribute parsers of app/frontend/src/lib/bart/parse.ts: what they read of given tokens.
use mathlib.Core.List.{append_assoc, append-nil}
use bart_share.Prelude.{
  ℕ, zero, suc, true, false, List, [], ◌∷◌, ◌++◌, ◌≡◌, ◌<◌, ◌≤◌, ok, length, arith, refl, ap, ◌∙◌,
  length-append,
}
use bart_share.Text.{Str, codes, str_eq}
use bart_share.Attrs.{BartValue, scalar, collection, BartAttrs, is_in}
use bart_share.Frontend.Lexer.{name}
use bart_share.Frontend.Lexer.Words.{Piece}
use bart_share.Frontend.Lexer.Lexemes.{mark}
use bart_share.Frontend.Cursor.{Cursor, is_name_kind, next, is_token, fuel_of}
use bart_share.Frontend.Cursor.Moves.{left}
use bart_share.Frontend.Parser.{
  parse_braced, scalar_or_list, parse_value, parse_entry, parse_attribute, more_attributes,
  parse_attributes,
}
use bart_share.Frontend.Rule.Pieces.{
  scalar_piece, more_pieces, value_pieces, attr_pieces, attrs_pieces, HasReadable, HaveReadable,
}
use bart_share.Frontend.Parser.Standing.{
  Stands, Stands-append, Stands-left, is_word, is_token-piece, expect-Stands, atom-is_word,
  parse_atoms-Stands,
}

-- What `at` says of the first token.
pub here-Stands :
    (s : Str) (p : Piece) (ps : List Piece) (c d : Cursor)
    → Stands (p ∷ ps) c d
    → is_token s c.current ≡ is_word s p
here-Stands s p ps c d (k, w, _, _) = is_token-piece s p c.current k w

parse_value-Stands :
    (v : BartValue) (c d : Cursor)
    → Stands (value_pieces v) c d
    → HasReadable v
    → is_token (codes ",") d.current ≡ false
    → parse_value c ≡ ok (v, d)
unfolding parse_value parse_braced str_eq scalar_or_list
parse_value-Stands (scalar v) c d h r e =
    let open_ = here-Stands (codes "{") (scalar_piece v) [] c d h ∙ atom-is_word (codes "{") v in
    rw (open_, parse_value, parse_atoms-Stands v [] c d h r tt e) refl
parse_value-Stands (collection []) c d h r e =
    let open_ = here-Stands (codes "{") (mark b'{') (mark b'}' ∷ []) c d h in
    let close = here-Stands (codes "}") (mark b'}') [] (next c) d h.3 in
    rw (open_, parse_value, close, parse_braced) (ap (λ (x : Cursor). ok (collection [], x)) h.3.3)
parse_value-Stands (collection (v ∷ vs)) c d h (r, rs) e =
    let (x, atoms, end) =
      Stands-append (scalar_piece v ∷ more_pieces vs) (mark b'}' ∷ []) (next c) d h.3 in
    let open_ =
      here-Stands (codes "{") (mark b'{') (scalar_piece v ∷ (more_pieces vs ++ mark b'}' ∷ [])) c d
        h in
    let filled =
      here-Stands (codes "}") (scalar_piece v) (more_pieces vs) (next c) x atoms
      ∙ atom-is_word (codes "}") v in
    let no_comma = here-Stands (codes ",") (mark b'}') [] x d end in
    let closed = expect-Stands (codes "}") (mark b'}') [] x d refl end in
    rw
      (
        open_,
        parse_value,
        filled,
        parse_braced,
        parse_atoms-Stands v vs (next c) x atoms r rs no_comma,
        closed,
      )
      (ap (λ (y : Cursor). ok (collection (v ∷ vs), y)) end.3)

parse_attribute-Stands :
    (into : BartAttrs) (k : Str) (v : BartValue) (c d : Cursor)
    → Stands (attr_pieces (k, v)) c d
    → is_in k into ≡ false
    → HasReadable v
    → parse_attribute into c ≡ ok (into ++ (k, v) ∷ [], d)
unfolding parse_attribute parse_entry str_eq is_name_kind
parse_attribute-Stands into k v c d h new r =
    let (x, value, end) =
      Stands-append (value_pieces v) (mark b')' ∷ []) (next (next (next c))) d h.3.3.3 in
    let opened =
      expect-Stands (codes "(") (mark b'(')
        ((name, k) ∷ mark b':' ∷ (value_pieces v ++ mark b')' ∷ [])) c d refl h in
    let colon =
      expect-Stands (codes ":") (mark b':') (value_pieces v ++ mark b')' ∷ []) (next (next c)) d
        refl h.3.3 in
    let read =
      parse_value-Stands v (next (next (next c))) x value r
        (here-Stands (codes ",") (mark b')') [] x d end) in
    let closed = expect-Stands (codes ")") (mark b')') [] x d refl end in
    let named : is_name_kind (next c).current.kind ≡ true = ap is_name_kind h.3.0 in
    let fresh : is_in (next c).current.text into ≡ false = ap (λ t. is_in t into) h.3.1 ∙ new in
    rw (opened, named, fresh, colon, read, closed)
      (ap (λ (t : Str). ok (into ++ (t, v) ∷ [], next x)) h.3.1
        ∙ ap (λ (y : Cursor). ok (into ++ (k, v) ∷ [], y)) end.3)

-- No key of the list is in the object before it, as `in` sees.
abbrev pub AreNew : BartAttrs → BartAttrs → Type 0
AreNew into [] = Unit {0}
AreNew into ((k, v) ∷ attrs) = (is_in k into ≡ false) × AreNew (into ++ (k, v) ∷ []) attrs

more_attributes-Stands :
    (attrs : BartAttrs) (fuel : ℕ) (into : BartAttrs) (c d : Cursor)
    → Stands (attrs_pieces attrs) c d
    → HaveReadable attrs
    → AreNew into attrs
    → is_token (codes "(") d.current ≡ false
    → length attrs < fuel
    → more_attributes fuel into c ≡ ok (into ++ attrs, d)
unfolding more_attributes str_eq
more_attributes-Stands attrs zero into c d h r n e f = absurd (omega arith)
more_attributes-Stands [] (suc fuel) into c d h r n e f =
    let end : is_token (codes "(") c.current ≡ false =
      ap (λ (x : Cursor). is_token (codes "(") x.current) h ∙ e in
    rw (end, more_attributes, append-nil into) (ap (λ (x : Cursor). ok (into, x)) h)
more_attributes-Stands ((k, v) ∷ attrs) (suc fuel) into c d h (r, rs) (n, ns) e f =
    let (x, first, more) = Stands-append (attr_pieces (k, v)) (attrs_pieces attrs) c d h in
    let open_ =
      here-Stands (codes "(") (mark b'(')
        ((name, k) ∷ mark b':' ∷ (value_pieces v ++ mark b')' ∷ [])) c x first in
    let rest =
      more_attributes-Stands attrs fuel (into ++ (k, v) ∷ []) x d more rs ns e (omega arith) in
    rw
      (
        open_,
        more_attributes,
        parse_attribute-Stands into k v c x first n r,
        rest,
        append_assoc into ((k, v) ∷ []) attrs,
      )
      refl

length-attrs_pieces : (attrs : BartAttrs) → length attrs ≤ length (attrs_pieces attrs)
length-attrs_pieces [] = omega arith
length-attrs_pieces ((k, v) ∷ attrs) =
    omega
      (arith, length-attrs_pieces attrs, length-append (attr_pieces (k, v)) (attrs_pieces attrs))

all_attributes :
    (attrs : BartAttrs) (c d : Cursor)
    → Stands (attrs_pieces attrs) c d
    → HaveReadable attrs
    → AreNew [] attrs
    → is_token (codes "(") d.current ≡ false
    → more_attributes (fuel_of c) [] c ≡ ok (attrs, d)
unfolding fuel_of
all_attributes attrs c d h r n e =
    more_attributes-Stands attrs (suc (left c)) [] c d h r n e
      (omega (arith, Stands-left (attrs_pieces attrs) c d h, length-attrs_pieces attrs))

pub any_attributes-Stands :
    (attrs : BartAttrs) (c d : Cursor)
    → Stands (attrs_pieces attrs) c d
    → HaveReadable attrs
    → AreNew [] attrs
    → is_token (codes "(") d.current ≡ false
    → parse_attributes false c ≡ ok (attrs, d)
unfolding parse_attributes
any_attributes-Stands attrs c d h r n e = all_attributes attrs c d h r n e

pub pattern-Stands :
    (a : Str × BartValue) (attrs : BartAttrs) (c d : Cursor)
    → Stands (attrs_pieces (a ∷ attrs)) c d
    → HaveReadable (a ∷ attrs)
    → AreNew [] (a ∷ attrs)
    → is_token (codes "(") d.current ≡ false
    → parse_attributes true c ≡ ok (a ∷ attrs, d)
unfolding parse_attributes str_eq
pattern-Stands (k, v) attrs c d h r n e =
    let (x, first, more) = Stands-append (attr_pieces (k, v)) (attrs_pieces attrs) c d h in
    let open_ =
      here-Stands (codes "(") (mark b'(')
        ((name, k) ∷ mark b':' ∷ (value_pieces v ++ mark b')' ∷ [])) c x first in
    rw (open_, parse_attributes) (all_attributes ((k, v) ∷ attrs) c d h r n e)
