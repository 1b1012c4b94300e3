-- ===== src/Frontend/Rule/Entries.antt =====
-- About emitAttrs of app/frontend/src/lib/bart/format.ts: its text as tokens.
use mathlib.Core.List.{append_assoc, append-nil}
use mathlib.Core.Path.{subst}
use bart_share.Prelude.{
  ℕ, Bool, true, false, List, [], ◌∷◌, ◌++◌, ◌≡◌, ok, >>=-eq-ok, traverse, traverse-cons,
  ok_injective, arith, refl, ap, sym, ◌∙◌, inl, inr, Bool-cases,
}
use bart_share.Text.{Str, codes, str_eq, join, includes, is_digit}
use bart_share.Number.{number_text, is_finite}
use bart_share.Attrs.{BartScalar, text, num, boolean, BartValue, scalar, collection, BartAttrs}
use bart_share.Emitter.{quote, bool_text}
use bart_share.Emitter.Grammar.{is_name, is_name_start, is_name_part}
use bart_share.Frontend.Lexer.{TokenKind, string, number, bool, name, name_kind}
use bart_share.Frontend.Lexer.Words.{Piece, Lexes}
use bart_share.Frontend.Lexer.Lexemes.{
  IsBreak, Closed, Writes, Closed-append, Writes-append, mark, marks, IsBreak-marks, Closed-mark,
  Writes-word, Closed-string, Writes-number,
}
use bart_share.Frontend.Format.{
  FormatError, format_scalar, format_value, format_attr, emit_unless, emit_entry, emit_attrs,
  validate_attr_key, editor_keywords,
}
use bart_share.Frontend.Rule.Pieces.{
  scalar_piece, more_pieces, value_pieces, attr_pieces, attrs_pieces, IsReadable, AreReadable,
  HasReadable, HaveReadable,
}

pub Closed-Writes : (s : Str) (qs : List Piece) → Closed s qs → Writes s qs
Closed-Writes s qs h rest ps b more = h rest ps more

-- A text, and one behind it that has to be ended.
Writes-behind :
    (s : Str) (c : ℕ) (t : Str) (qs rs : List Piece)
    → Writes s qs
    → IsBreak c
    → Writes (c ∷ t) rs
    → Writes (s ++ c ∷ t) (qs ++ rs)
Writes-behind s c t qs rs h e k rest ps b more =
    subst (λ w. Lexes w ((qs ++ rs) ++ ps)) (sym (append_assoc s (c ∷ t) rest))
      (subst (Lexes (s ++ (c ∷ (t ++ rest)))) (sym (append_assoc qs rs ps))
        (h (c ∷ (t ++ rest)) (rs ++ ps) e (k rest ps b more)))

mark-Writes :
    (c : ℕ) (t : Str) (rs : List Piece)
    → Closed (c ∷ []) (mark c ∷ [])
    → Writes t rs
    → Writes (c ∷ t) (mark c ∷ rs)
mark-Writes c t rs h k rest ps b more = h (t ++ rest) (rs ++ ps) (k rest ps b more)

bool_text-Writes : (b : Bool) → Writes (bool_text b) ((bool, bool_text b) ∷ [])
unfolding is_name is_name_part is_name_start is_digit name_kind str_eq
bool_text-Writes true = Writes-word (codes "true") refl
bool_text-Writes false = Writes-word (codes "false") refl

format_scalar-Writes :
    (v : BartScalar) (s : Str)
    → format_scalar v ≡ ok s
    → IsReadable v
    → Writes s (scalar_piece v ∷ [])
unfolding format_scalar
format_scalar-Writes (text t) s h r =
    subst (λ w. Writes w ((string, quote t) ∷ [])) (ok_injective (quote t) s h)
      (Closed-Writes (quote t) ((string, quote t) ∷ []) (Closed-string t))
format_scalar-Writes (num n) s h (r, _) = elim (Bool-cases (is_finite n)) [
  | inl finite ↦
      subst (λ w. Writes w ((number, number_text n) ∷ []))
        (ok_injective {E = FormatError} (number_text n) s (ground arith))
        (Writes-number (number_text n) r)
  | inr not_ ↦ absurd (ground arith)
]
format_scalar-Writes (boolean b) s h r =
    subst (λ w. Writes w ((bool, bool_text b) ∷ [])) (ok_injective (bool_text b) s h)
      (bool_text-Writes b)

atoms-Writes :
    (v : BartScalar) (vs : List BartScalar) (items : List Str)
    → traverse format_scalar (v ∷ vs) ≡ ok items
    → IsReadable v
    → AreReadable vs
    → Writes (join (b',' ∷ []) items) (scalar_piece v ∷ more_pieces vs)
unfolding join
atoms-Writes v [] items h r rs =
    let (s, t, first, rest, same) = traverse-cons format_scalar v [] items h in
    let one : items ≡ s ∷ [] = same ∙ ap (◌∷◌ s) (sym (ok_injective [] t rest)) in
    subst (λ i. Writes (join (b',' ∷ []) i) (scalar_piece v ∷ [])) (sym one)
      (format_scalar-Writes v s first r)
atoms-Writes v (w ∷ vs) items h r rs =
    let (s, t, first, rest, same) = traverse-cons format_scalar v (w ∷ vs) items h in
    let (s2, t2, second, rest2, same2) = traverse-cons format_scalar w vs t rest in
    let tail =
      subst (λ i. Writes (join (b',' ∷ []) i) (scalar_piece w ∷ more_pieces vs)) same2
        (atoms-Writes w vs t rest rs.0 rs.1) in
    subst (λ i. Writes (join (b',' ∷ []) i) (scalar_piece v ∷ more_pieces (w ∷ vs)))
      (sym (same ∙ ap (◌∷◌ s) same2))
      (Writes-behind s b',' (join (b',' ∷ []) (s2 ∷ t2)) (scalar_piece v ∷ [])
        (more_pieces (w ∷ vs)) (format_scalar-Writes v s first r) IsBreak-marks.1
        (mark-Writes b',' (join (b',' ∷ []) (s2 ∷ t2)) (scalar_piece w ∷ more_pieces vs)
          (Closed-mark b',' marks.4) tail))

braced-Writes :
    (items : Str) (ps : List Piece)
    → Writes items ps
    → Writes (b'{' ∷ (items ++ b'}' ∷ [])) (mark b'{' ∷ (ps ++ mark b'}' ∷ []))
braced-Writes items ps w =
    mark-Writes b'{' (items ++ b'}' ∷ []) (ps ++ mark b'}' ∷ []) (Closed-mark b'{' marks.2) (
      Closed-Writes (items ++ b'}' ∷ []) (ps ++ mark b'}' ∷ []) (
        Writes-append items b'}' [] ps (mark b'}' ∷ []) w IsBreak-marks.3
          (Closed-mark b'}' marks.3)))

format_value-Writes :
    (v : BartValue) (s : Str) → format_value v ≡ ok s → HasReadable v → Writes s (value_pieces v)
unfolding format_value
format_value-Writes (scalar v) s h r = format_scalar-Writes v s h r
format_value-Writes (collection vs) s h r =
    let (items, read, same) = >>=-eq-ok (traverse format_scalar vs) _ h in
    subst (λ w. Writes w (value_pieces (collection vs)))
      (ok_injective (b'{' ∷ (join (b',' ∷ []) items ++ b'}' ∷ [])) s same)
      (all_Writes vs items read r)
  where
    all_Writes :
        (vs : List BartScalar) (items : List Str)
        → traverse format_scalar vs ≡ ok items
        → AreReadable vs
        → Writes (b'{' ∷ (join (b',' ∷ []) items ++ b'}' ∷ [])) (value_pieces (collection vs))
    all_Writes [] items h r =
        subst
          (λ i. Writes (b'{' ∷ (join (b',' ∷ []) i ++ b'}' ∷ [])) (value_pieces (collection [])))
          (ok_injective [] items h) (unfold join in braced-Writes [] [] (λ rest ps b more. more))
    all_Writes (v ∷ vs) items h (r, rs) =
        braced-Writes (join (b',' ∷ []) items) (scalar_piece v ∷ more_pieces vs)
          (atoms-Writes v vs items h r rs)

emit_entry-key :
    (k : Str) (v : BartValue) (s : Str)
    → emit_entry (k, v) ≡ ok s
    → (is_name k ≡ true) × (name_kind k ≡ name) × (format_attr k v ≡ ok s)
unfolding emit_entry validate_attr_key emit_unless name_kind includes
emit_entry-key k v s h = elim (Bool-cases (is_name k)) [
  | inr not_ ↦ absurd (ground arith)
  | inl named ↦ elim (Bool-cases (includes k editor_keywords)) [
    | inl word ↦ absurd (ground arith)
    | inr free ↦ (named, ground arith, ground arith)
  ]
]

pub emit_entry-Closed :
    (a : Str × BartValue) (s : Str)
    → emit_entry a ≡ ok s
    → HasReadable a.1
    → Closed s (attr_pieces a)
unfolding format_attr
emit_entry-Closed (k, v) s h r =
    let (named, free, written) = emit_entry-key k v s h in
    let (w, shown, same) = >>=-eq-ok (format_value v) _ written in
    let value =
      Writes-append w b')' [] (value_pieces v) (mark b')' ∷ []) (format_value-Writes v w shown r)
        IsBreak-marks.0 (Closed-mark b')' marks.1) in
    let behind =
      Closed-append (b':' ∷ []) (w ++ b')' ∷ []) (mark b':' ∷ []) (value_pieces v ++ mark b')' ∷ [])
        (Closed-mark b':' marks.5) value in
    let key = subst (λ (kind : TokenKind). Writes k ((kind, k) ∷ [])) free (Writes-word k named) in
    subst (λ t. Closed t (attr_pieces (k, v)))
      (ok_injective (b'(' ∷ (k ++ (b':' ∷ (w ++ b')' ∷ [])))) s same)
      (Closed-append (b'(' ∷ []) (k ++ (b':' ∷ (w ++ b')' ∷ []))) (mark b'(' ∷ [])
        ((name, k) ∷ mark b':' ∷ (value_pieces v ++ mark b')' ∷ [])) (Closed-mark b'(' marks.0)
        (Writes-append k b':' (w ++ b')' ∷ []) ((name, k) ∷ [])
          (mark b':' ∷ (value_pieces v ++ mark b')' ∷ [])) key IsBreak-marks.2 behind))

join_empty : (x : Str) (xs : List Str) → join [] (x ∷ xs) ≡ x ++ join [] xs
unfolding join
join_empty x [] = sym (append-nil x)
join_empty x (y ∷ xs) = refl

entries-Closed :
    (attrs : BartAttrs) (parts : List Str)
    → traverse emit_entry attrs ≡ ok parts
    → HaveReadable attrs
    → Closed (join [] parts) (attrs_pieces attrs)
entries-Closed [] parts h r =
    subst (λ i. Closed (join [] i) []) (ok_injective [] parts h)
      (unfold join in λ rest ps more. more)
entries-Closed ((k, v) ∷ attrs) parts h (r, rs) =
    let (s, t, first, rest, same) = traverse-cons emit_entry (k, v) attrs parts h in
    subst (λ i. Closed i (attrs_pieces ((k, v) ∷ attrs))) (sym (ap (join []) same ∙ join_empty s t))
      (Closed-append s (join [] t) (attr_pieces (k, v)) (attrs_pieces attrs)
        (emit_entry-Closed (k, v) s first r) (entries-Closed attrs t rest rs))

pub emit_attrs-Closed :
    (attrs : BartAttrs) (s : Str)
    → emit_attrs attrs ≡ ok s
    → HaveReadable attrs
    → Closed s (attrs_pieces attrs)
unfolding emit_attrs
emit_attrs-Closed attrs s h r =
    let (parts, read, same) = >>=-eq-ok (traverse emit_entry attrs) _ h in
    subst (λ w. Closed w (attrs_pieces attrs)) (ok_injective (join [] parts) s same)
      (entries-Closed attrs parts read r)
