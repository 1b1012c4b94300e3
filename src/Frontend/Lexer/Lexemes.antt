-- ===== src/Frontend/Lexer/Lexemes.antt =====
-- About app/frontend/src/lib/bart/lex.ts: the texts of single tokens, as the printers write them.
use mathlib.Core.List.{append_assoc}
use mathlib.Core.Path.{subst}
use bart_share.Prelude.{
  ℕ, suc, true, false, List, some, [], ◌∷◌, ◌++◌, ◌≡◌, ◌==◌, ◌||◌, length, take, arith, refl, ap,
  sym, ◌∙◌, length-append, inl, inr, Bool-cases,
}
use bart_share.Text.{Str, codes, is_digit, str_eq, starts_with}
use bart_share.Emitter.{quote, escape_all}
use bart_share.Emitter.Grammar.{
  is_name, is_name_start, is_name_part, is_number_text, is_number_tail, is_unsigned, is_fraction,
}
use bart_share.Frontend.Lexer.{
  string, number, punct, skip, token, classify, is_blank, span_length, string_length, string_round,
  fraction_length, number_length, starts_with_digit, punct_length, name_kind, punct_round,
}
use bart_share.Frontend.Cursor.{is_eof}
use bart_share.Frontend.Lexer.Runs.{span_length-all}
use bart_share.Frontend.Lexer.Words.{Piece, Lexes, Lexes-skip, Lexes-token, take-length-append}

-- A character that ends a name and a number.
abbrev pub IsBreak : ℕ → Type 0
IsBreak c = (is_name_part c ≡ false) × ((c == b'.') ≡ false)

abbrev pub Breaks : Str → Type 0
Breaks [] = ⊥
Breaks (c ∷ s) = IsBreak c

-- Before any text, or any text that ends a name and a number, it gives these tokens.
abbrev pub Closed : Str → List Piece → Type 0
Closed s qs = (rest : Str) (ps : List Piece) → Lexes rest ps → Lexes (s ++ rest) (qs ++ ps)

abbrev pub Writes : Str → List Piece → Type 0
Writes s qs =
    (rest : Str) (ps : List Piece) → Breaks rest → Lexes rest ps → Lexes (s ++ rest) (qs ++ ps)

pub Closed-append :
    (s t : Str) (qs rs : List Piece) → Closed s qs → Closed t rs → Closed (s ++ t) (qs ++ rs)
Closed-append s t qs rs h k rest ps more =
    subst (λ w. Lexes w ((qs ++ rs) ++ ps)) (sym (append_assoc s t rest))
      (subst (Lexes (s ++ (t ++ rest))) (sym (append_assoc qs rs ps))
        (h (t ++ rest) (rs ++ ps) (k rest ps more)))

-- A word, and what ends it.
pub Writes-append :
    (s : Str) (c : ℕ) (t : Str) (qs rs : List Piece)
    → Writes s qs
    → IsBreak c
    → Closed (c ∷ t) rs
    → Closed (s ++ c ∷ t) (qs ++ rs)
Writes-append s c t qs rs h b k rest ps more =
    subst (λ w. Lexes w ((qs ++ rs) ++ ps)) (sym (append_assoc s (c ∷ t) rest))
      (subst (Lexes (s ++ (c ∷ (t ++ rest)))) (sym (append_assoc qs rs ps))
        (h (c ∷ (t ++ rest)) (rs ++ ps) b (k rest ps more)))

open_kinds : (is_eof punct ≡ false) × (is_eof string ≡ false) × (is_eof number ≡ false)
unfolding is_eof
open_kinds = (refl, refl, refl)

name_kind-open : (w : Str) → is_eof (name_kind w) ≡ false
unfolding is_eof name_kind
name_kind-open w = elim (Bool-cases (str_eq w (codes "true") || str_eq w (codes "false"))) [
  | inl t ↦ rw (t, name_kind) refl
  | inr f ↦ rw (f, name_kind) refl
]

abbrev pub IsMark : ℕ → Type 0
IsMark c = (s : Str) → classify c s ≡ token punct 1

abbrev pub mark : ℕ → Piece
mark c = (punct, c ∷ [])

pub Closed-mark : (c : ℕ) → IsMark c → Closed (c ∷ []) (mark c ∷ [])
Closed-mark c m rest ps more = Lexes-token punct c [] rest ps (m rest) open_kinds.0 more

pub Closed-blank : (c : ℕ) → ((s : Str) → classify c s ≡ skip 1) → Closed (c ∷ []) []
Closed-blank c b rest ps more = Lexes-skip c rest ps (b rest) more

pub marks : IsMark b'(' × IsMark b')' × IsMark b'{' × IsMark b'}' × IsMark b',' × IsMark b':'
unfolding classify is_blank is_digit is_name_start punct_round punct_length starts_with
marks = ((λ s. refl), (λ s. refl), (λ s. refl), (λ s. refl), (λ s. refl), (λ s. refl))

pub blanks : ((s : Str) → classify b' ' s ≡ skip 1) × ((s : Str) → classify b'\n' s ≡ skip 1)
unfolding classify is_blank
blanks = ((λ s. refl), (λ s. refl))

classify-word :
    (c : ℕ) (w : Str) (d : ℕ) (rest : Str)
    → is_name (c ∷ w) ≡ true
    → is_name_part d ≡ false
    → classify c (w ++ d ∷ rest) ≡ token (name_kind (c ∷ w)) (suc (length w))
unfolding classify is_name is_blank is_name_start is_digit
classify-word c w d rest h k =
    let long : span_length is_name_part (w ++ d ∷ rest) ≡ length w =
      span_length-all is_name_part w d rest (ground arith) k in
    let same : take (length w) (w ++ d ∷ rest) ≡ w = take-length-append w (d ∷ rest) in
    ground (arith, long, same)

pub Writes-word : (w : Str) → is_name w ≡ true → Writes w ((name_kind w, w) ∷ [])
unfolding is_name
Writes-word [] h rest ps b more = cc
Writes-word (c ∷ w) h [] ps b more = absurd b
Writes-word (c ∷ w) h (d ∷ rest) ps (b, _) more =
    Lexes-token (name_kind (c ∷ w)) c w (d ∷ rest) ps (classify-word c w d rest h b)
      (name_kind-open (c ∷ w)) more

number_length-tail :
    (w : Str) (c : ℕ) (rest : Str)
    → is_number_tail w ≡ true
    → is_digit c ≡ false
    → (c == b'.') ≡ false
    → number_length (w ++ c ∷ rest) ≡ length w
unfolding number_length is_number_tail span_length fraction_length is_fraction
number_length-tail [] c [] t h k = ground arith
number_length-tail [] c (d ∷ rest) t h k = ground arith
number_length-tail (d ∷ w) c rest t h k = elim (Bool-cases (is_digit d)) [
  | inl digit ↦
      let more = number_length-tail w c rest (ground arith) h k in ground (arith, digit, more)
  | inr point ↦ point_tail d w point (ground arith) (ground arith)
]
  where
    point_tail :
        (d : ℕ) (w : Str)
        → is_digit d ≡ false
        → (d == b'.') ≡ true
        → is_fraction w ≡ true
        → number_length (d ∷ (w ++ c ∷ rest)) ≡ suc (length w)
    point_tail d [] n e f = cc
    point_tail d (x ∷ w) n e f = ground (arith, span_length-all is_digit (x ∷ w) c rest f h)

number_round :
    (c : ℕ) (w rest : Str)
    → is_number_text (c ∷ w) ≡ true
    → (classify c (w ++ rest) ≡ token number (suc (number_length (w ++ rest))))
      × (is_number_tail w ≡ true)
unfolding classify is_number_text is_blank is_digit is_unsigned is_number_tail starts_with_digit
number_round c [] rest h = ground arith
number_round c (d ∷ w) rest h = ground arith

-- `string_length` behind a character that no backslash takes.
string_length-escape :
    (s rest : Str)
    → let e = escape_all b'"' (escape_all b'\\' s) in
      string_length false (e ++ b'"' ∷ rest) ≡ some (suc (length e))
unfolding string_length escape_all
string_length-escape [] rest = ground arith
string_length-escape (c ∷ s) rest = elim (Bool-cases (c == b'\\')) [
  | inl backslash ↦ ground (arith, string_length-escape s rest)
  | inr other ↦ elim (Bool-cases (c == b'"')) [
    | inl quote_ ↦ ground (arith, string_length-escape s rest)
    | inr plain ↦ ground (arith, string_length-escape s rest)
  ]
]

classify-quoted :
    (e rest : Str)
    → string_length false (e ++ b'"' ∷ rest) ≡ some (suc (length e))
    → classify b'"' ((e ++ b'"' ∷ []) ++ rest) ≡ token string (suc (length (e ++ b'"' ∷ [])))
unfolding classify is_blank string_round
classify-quoted e rest h =
    let joined : (e ++ b'"' ∷ []) ++ rest ≡ e ++ b'"' ∷ rest = append_assoc e (b'"' ∷ []) rest in
    let size : length (e ++ b'"' ∷ []) ≡ suc (length e) =
      omega (arith, length-append e (b'"' ∷ [])) in
    rw (joined, h, size, string_round) refl

pub Closed-string : (s : Str) → Closed (quote s) ((string, quote s) ∷ [])
unfolding quote
Closed-string s rest ps more =
    let e = escape_all b'"' (escape_all b'\\' s) in
    Lexes-token string b'"' (e ++ b'"' ∷ []) rest ps
      (classify-quoted e rest (string_length-escape s rest)) open_kinds.1 more

pub Writes-number : (w : Str) → is_number_text w ≡ true → Writes w ((number, w) ∷ [])
unfolding is_number_text is_name_part
Writes-number [] h rest ps b more = cc
Writes-number (c ∷ w) h [] ps b more = absurd b
Writes-number (c ∷ w) h (d ∷ rest) ps (b, point) more =
    let (round, tail) = number_round c w (d ∷ rest) h in
    let size = number_length-tail w d rest tail (ground arith) point in
    Lexes-token number c w (d ∷ rest) ps (round ∙ ap (λ n. token number (suc n)) size) open_kinds.2
      more

pub IsBreak-marks :
    IsBreak b')' × IsBreak b',' × IsBreak b':' × IsBreak b'}' × IsBreak b' ' × IsBreak b'\n'
unfolding is_name_part is_name_start is_digit
IsBreak-marks = ((refl, refl), (refl, refl), (refl, refl), (refl, refl), (refl, refl), (refl, refl))

-- A word of the grammar and the colon behind it.
pub Closed-key :
    (w : Str) → is_name w ≡ true → Closed (w ++ b':' ∷ []) ((name_kind w, w) ∷ mark b':' ∷ [])
Closed-key w h =
    Writes-append w b':' [] ((name_kind w, w) ∷ []) (mark b':' ∷ []) (Writes-word w h)
      IsBreak-marks.2 (Closed-mark b':' marks.5)
