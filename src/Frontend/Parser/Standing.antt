-- ===== src/Frontend/Parser/Standing.antt =====
-- About the value parsers of app/frontend/src/lib/bart/parse.ts: what they read of given tokens.
use mathlib.Core.Path.{subst}
use bart_share.Prelude.{
  ℕ, zero, suc, Bool, true, false, List, [], ◌∷◌, ◌++◌, ◌≡◌, ◌+◌, ◌-◌, ◌<◌, ◌≤◌, ◌==◌, ok, length,
  arith, refl, ap, sym, ◌∙◌, inl, inr, Bool-cases, length-append,
}
use bart_share.Text.{Str, codes, str_eq, str_eq_refl}
use bart_share.Number.{number_text}
use bart_share.Attrs.{BartScalar, text, num, boolean}
use bart_share.Emitter.{quote, escape_all, bool_text}
use bart_share.Frontend.Lexer.{TokenKind, string, number, bool, name, punct, eof, Token}
use bart_share.Frontend.Lexer.Words.{Piece, Shaped, take-length-append}
use bart_share.Frontend.Lexer.Lexemes.{mark}
use bart_share.Frontend.Cursor.{
  Cursor, is_eof, is_name_kind, is_punct_kind, move, next, is_token, expect, fuel_of,
}
use bart_share.Frontend.Cursor.Moves.{left}
use bart_share.Frontend.Parser.{
  is_line_end, unescape, inner, unquote, parse_atom, more_atoms, parse_atoms,
}
use bart_share.Frontend.Rule.Pieces.{scalar_piece, more_pieces, IsReadable, AreReadable}

-- These tokens stand from the first cursor to the second, and none is the end of input.
abbrev pub Stands : List Piece → Cursor → Cursor → Type 0
Stands [] c d = c ≡ d
Stands (p ∷ ps) c d =
    (c.current.kind ≡ p.0)
    × (c.current.text ≡ p.1)
    × (left (next c) < left c)
    × Stands ps (next c) d

pub Shaped-Stands :
    (ps : List Piece) (t : Token) (ts : List Token)
    → Shaped ps (t ∷ ts)
    → (d : Cursor) × Stands ps (record { current = t; later = ts }) d
      × (is_eof d.current.kind ≡ true)
unfolding is_eof next move
Shaped-Stands [] t [] h = (record { current = t; later = [] }, refl, ap is_eof h)
Shaped-Stands [] t (u ∷ ts) h = absurd h
Shaped-Stands (p ∷ []) t [] (k, w, o, h) = absurd h
Shaped-Stands (p ∷ q ∷ ps) t [] (k, w, o, h) = absurd h
Shaped-Stands (p ∷ ps) t (u ∷ ts) (k, w, o, h) =
    let (d, there, end) = Shaped-Stands ps u ts h in
    let c : Cursor = record { current = t; later = u ∷ ts } in
    let moved : next c ≡ record { current = u; later = ts } = rw (k, o, next) refl in
    (
      d,
      (
        k,
        w,
        subst (λ e. left e < left c) (sym moved) (omega arith),
        subst (λ e. Stands ps e d) (sym moved) there,
      ),
      end,
    )

pub Stands-append :
    (ps qs : List Piece) (c d : Cursor)
    → Stands (ps ++ qs) c d
    → (e : Cursor) × Stands ps c e × Stands qs e d
Stands-append [] qs c d h = (c, refl, h)
Stands-append (p ∷ ps) qs c d (k, w, l, h) =
    let (e, there, more) = Stands-append ps qs (next c) d h in (e, (k, w, l, there), more)

pub Stands-left : (ps : List Piece) (c d : Cursor) → Stands ps c d → left d + length ps ≤ left c
Stands-left [] c d h = ap_left c d h
  where
    ap_left : (c d : Cursor) → c ≡ d → left d + 0 ≤ left c
    ap_left c d h = let e = ap (λ x. left x) h in omega (arith, e)
Stands-left (p ∷ ps) c d (k, w, l, h) =
    let more = Stands-left ps (next c) d h in omega (arith, l, more)

-- A token of the grammar.
abbrev pub IsWordKind : TokenKind → Type 0
IsWordKind punct = Unit {0}
IsWordKind name = Unit {0}
IsWordKind string = ⊥
IsWordKind number = ⊥
IsWordKind bool = ⊥
IsWordKind eof = ⊥

-- Whether a piece is this word.
abbrev pub is_word : Str → Piece → Bool
is_word s (punct, w) = str_eq w s
is_word s (name, w) = str_eq w s
is_word s (string, w) = false
is_word s (number, w) = false
is_word s (bool, w) = false
is_word s (eof, w) = false

-- `at(text)`, by the token that stands there.
pub is_token-piece :
    (s : Str) (p : Piece) (t : Token) → t.kind ≡ p.0 → t.text ≡ p.1 → is_token s t ≡ is_word s p
unfolding is_token is_punct_kind is_name_kind
is_token-piece s (k, w) t h i = go k h
  where
    go : (k : TokenKind) → t.kind ≡ k → is_token s t ≡ is_word s (k, w)
    go punct e = rw (e, i, is_token) refl
    go name e = rw (e, i, is_token) refl
    go string e = rw (e, is_token) refl
    go number e = rw (e, is_token) refl
    go bool e = rw (e, is_token) refl
    go eof e = rw (e, is_token) refl

pub expect-Stands :
    (s : Str) (p : Piece) (ps : List Piece) (c d : Cursor)
    → is_word s p ≡ true
    → Stands (p ∷ ps) c d
    → expect s c ≡ ok (next c)
unfolding expect
expect-Stands s p ps c d h (k, w, _, _) =
    let here = is_token-piece s p c.current k w ∙ h in rw (here, expect) refl

unescape-plain : (c : ℕ) (s : Str) → (c == b'\\') ≡ false → unescape (c ∷ s) ≡ c ∷ unescape s
unfolding unescape
unescape-plain c [] h = refl
unescape-plain c (d ∷ s) h = rw (h, unescape) refl

unescape-escape : (s : Str) → unescape (escape_all b'"' (escape_all b'\\' s)) ≡ s
unfolding unescape escape_all is_line_end
unescape-escape [] = refl
unescape-escape (c ∷ s) = elim (Bool-cases (c == b'\\')) [
  | inl backslash ↦ ground (arith, unescape-escape s)
  | inr other ↦ elim (Bool-cases (c == b'"')) [
    | inl quote_ ↦ ground (arith, unescape-escape s)
    | inr plain ↦
        ground
          (arith, unescape-escape s, unescape-plain c (escape_all b'"' (escape_all b'\\' s)) other)
  ]
]

inner-quote : (s : Str) → inner (b'"' ∷ (s ++ b'"' ∷ [])) ≡ s
unfolding inner
inner-quote s =
    let size : suc (length (s ++ b'"' ∷ [])) - 2 ≡ length s =
      omega (arith, length-append s (b'"' ∷ [])) in
    rw size (take-length-append s (b'"' ∷ []))

-- The editor reads back every string that it writes.
pub unquote-quote : (s : Str) → unquote (quote s) ≡ s
unfolding unquote quote
unquote-quote s =
    ap unescape (inner-quote (escape_all b'"' (escape_all b'\\' s))) ∙ unescape-escape s

bool_text-true : (b : Bool) → str_eq (bool_text b) (codes "true") ≡ b
unfolding str_eq
bool_text-true true = refl
bool_text-true false = refl

parse_atom-Stands :
    (v : BartScalar) (ps : List Piece) (c d : Cursor)
    → Stands (scalar_piece v ∷ ps) c d
    → IsReadable v
    → parse_atom c ≡ ok (v, next c)
unfolding parse_atom
parse_atom-Stands (text s) ps c d (k, w, _, _) r = simp (k, w, unquote-quote s, parse_atom) refl
parse_atom-Stands (num n) ps c d (k, w, _, _) (_, r) =
    simp (k, w, r, str_eq_refl (number_text n), parse_atom) refl
parse_atom-Stands (boolean b) ps c d (k, w, _, _) r = simp (k, w, bool_text-true b, parse_atom) refl

more_pieces-length : (vs : List BartScalar) → length vs ≤ length (more_pieces vs)
more_pieces-length [] = omega arith
more_pieces-length (v ∷ vs) = omega (arith, more_pieces-length vs)

-- A scalar is no word of the grammar.
pub atom-is_word : (s : Str) (v : BartScalar) → is_word s (scalar_piece v) ≡ false
atom-is_word s (text t) = refl
atom-is_word s (num n) = refl
atom-is_word s (boolean b) = refl

more_atoms-Stands :
    (vs : List BartScalar) (fuel : ℕ) (c d : Cursor)
    → Stands (more_pieces vs) c d
    → AreReadable vs
    → is_token (codes ",") d.current ≡ false
    → length vs < fuel
    → more_atoms fuel c ≡ ok (vs, d)
unfolding more_atoms str_eq
more_atoms-Stands vs zero c d h r e f = absurd (omega arith)
more_atoms-Stands [] (suc fuel) c d h r e f =
    let here : is_token (codes ",") c.current ≡ false =
      ap (λ (x : Cursor). is_token (codes ",") x.current) h ∙ e in
    rw (here, more_atoms) (ap (λ x. ok ([], x)) h)
more_atoms-Stands (v ∷ vs) (suc fuel) c d (k, w, l, h) (r, rs) e f =
    let here : is_token (codes ",") c.current ≡ true =
      is_token-piece (codes ",") (mark b',') c.current k w in
    let rest = more_atoms-Stands vs fuel (next (next c)) d h.3 rs e (omega arith) in
    rw (here, more_atoms, parse_atom-Stands v (more_pieces vs) (next c) d h r, rest) refl

pub parse_atoms-Stands :
    (v : BartScalar) (vs : List BartScalar) (c d : Cursor)
    → Stands (scalar_piece v ∷ more_pieces vs) c d
    → IsReadable v
    → AreReadable vs
    → is_token (codes ",") d.current ≡ false
    → parse_atoms c ≡ ok (v ∷ vs, d)
unfolding parse_atoms fuel_of
parse_atoms-Stands v vs c d h r rs e =
    let enough = Stands-left (more_pieces vs) (next c) d h.3 in
    let rest =
      more_atoms-Stands vs (suc (left (next c))) (next c) d h.3 rs e
        (omega (arith, enough, more_pieces-length vs)) in
    rw (parse_atom-Stands v (more_pieces vs) c d h r, rest) refl
