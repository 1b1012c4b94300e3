-- ===== src/Frontend/Lexer.antt =====
-- app/frontend/src/lib/bart/lex.ts: the tokenizer. `classify` says what a round of the main loop does
-- at the text that is left, and the loop does it; it takes fuel.
pub mod Bounds
pub mod Places
pub mod Runs
pub mod Words
pub mod Lexemes
use bart_share.Prelude.{
  ℕ, zero, suc, ◌+◌, Bool, true, false, not, ◌&&◌, ◌||◌, List, [], ◌∷◌, ◌++◌, ◌==◌, if◌then◌else◌,
  Option, none, some, length, take, drop,
}
use bart_share.Text.{Str, codes, str_eq, starts_with, is_digit}
use bart_share.Emitter.Grammar.{is_name_start, is_name_part}

pub data TokenKind : Type 0 where
  string number bool name punct eof : TokenKind

pub record Position : Type 0 where
  pub line : ℕ
  pub column : ℕ

pub record Token : Type 0 where
  pub kind : TokenKind
  pub text : Str
  pub start : ℕ
  pub end : ℕ
  pub line : ℕ
  pub column : ℕ

-- `out_of_fuel` is the model's alone.
pub data LexResult : Type 0 where
  lexed : List Token → LexResult
  failed : Str → Position → LexResult
  out_of_fuel : LexResult

-- PUNCTUATION
abbrev pub punctuation : List Str
punctuation =
    codes "!="
    ∷ codes "<="
    ∷ codes ">="
    ∷ codes "("
    ∷ codes ")"
    ∷ codes "{"
    ∷ codes "}"
    ∷ codes ","
    ∷ codes ":"
    ∷ codes "."
    ∷ codes "="
    ∷ codes "<"
    ∷ codes ">"
    ∷ []

-- `i`, `line` and `column`.
pub record Place : Type 0 where
  pub i : ℕ
  pub line : ℕ
  pub column : ℕ

unfoldable pub step_over : ℕ → Place → Place
step_over c p =
    if c == b'\n'
    then record { i = p.i + 1; line = p.line + 1; column = 1 }
    else record { i = p.i + 1; line = p.line; column = p.column + 1 }

-- `advance(n)`, over the text that is left.
unfoldable pub advance : ℕ → Place → Str → Place
advance zero p rest = p
advance (suc n) p [] = p
advance (suc n) p (c ∷ rest) = advance n (step_over c p) rest

-- How many characters at the front of a text pass a test, as `while (...) advance(1)` counts them.
unfoldable pub span_length : (ℕ → Bool) → Str → ℕ
span_length p [] = 0
span_length p (c ∷ s) = let more = span_length p s in if p c then suc more else 0

abbrev one_more : Option ℕ → Option ℕ
one_more none = none
one_more (some n) = some (suc n)

-- The characters from behind an opening quote up to the closing one, and with it; the flag says that
-- the character before was a backslash, which takes whatever follows it.
unfoldable pub string_length : Bool → Str → Option ℕ
string_length escaped [] = none
string_length true (c ∷ s) = one_more (string_length false s)
string_length false (c ∷ s) =
    let more = one_more (string_length (c == b'\\') s) in if c == b'"' then some 1 else more

-- The point and the digits behind it, if both are there.
unfoldable pub fraction_length : Str → ℕ
fraction_length (c ∷ d ∷ s) =
    if c == b'.' && is_digit d then suc (span_length is_digit (d ∷ s)) else 0
fraction_length _ = 0

-- The number's characters behind its first.
unfoldable pub number_length : Str → ℕ
unfolding span_length fraction_length
number_length s = let n = span_length is_digit s in n + fraction_length (drop n s)

unfoldable pub starts_with_digit : Str → Bool
starts_with_digit [] = false
starts_with_digit (c ∷ s) = is_digit c

-- `PUNCTUATION.find(p => source.startsWith(p, i))`, by its length.
unfoldable pub punct_length : List Str → Str → Option ℕ
punct_length [] rest = none
punct_length (p ∷ ps) rest =
    let later = punct_length ps rest in if starts_with rest p then some (length p) else later

unfoldable pub is_blank : ℕ → Bool
is_blank c = c == b' ' || c == b'\t' || c == b'\r' || c == b'\n'

unfoldable pub name_kind : Str → TokenKind
name_kind text = if str_eq text (codes "true") || str_eq text (codes "false") then bool else name

unfoldable pub unexpected_text : ℕ → Str
unexpected_text c = codes "unexpected character '" ++ (c ∷ codes "'")

unfoldable pub unterminated_text : Str
unterminated_text = codes "unterminated string"

-- What a round does: it passes over characters, makes a token of them, or gives up.
pub data Round : Type 0 where
  skip : ℕ → Round
  token : TokenKind → ℕ → Round
  give_up : Str → Round

unfoldable pub string_round : Option ℕ → Round
string_round none = give_up unterminated_text
string_round (some n) = token string (suc n)

unfoldable pub punct_round : ℕ → Option ℕ → Round
punct_round c none = give_up (unexpected_text c)
punct_round c (some n) = token punct n

unfoldable pub classify : ℕ → Str → Round
unfolding is_blank string_round punct_round
classify c s =
    if is_blank c
    then skip 1
    else if c == b'#'
    then skip (suc (span_length (λ d. not (d == b'\n')) s))
    else if c == b'"'
    then string_round (string_length false s)
    else if is_digit c || (c == b'-' && starts_with_digit s)
    then token number (suc (number_length s))
    else if is_name_start c
    then token (name_kind (c ∷ take (span_length is_name_part s) s))
        (suc (span_length is_name_part s))
    else punct_round c (punct_length punctuation (c ∷ s))

-- `push`, for a token of `n` characters at this place.
unfoldable pub token_at : TokenKind → ℕ → Place → Str → Token
token_at kind n p rest = record {
  kind = kind;
  text = take n rest;
  start = p.i;
  end = (advance n p rest).i;
  line = p.line;
  column = p.column;
}

unfoldable pub before : Token → LexResult → LexResult
before t (lexed ts) = lexed (t ∷ ts)
before t (failed reason at_) = failed reason at_
before t out_of_fuel = out_of_fuel

-- What a round gives, if `onward n` is the rest of the loop behind `n` characters.
unfoldable pub lex_round : Round → (ℕ → LexResult) → Place → Str → LexResult
lex_round (skip n) onward p rest = onward n
lex_round (token kind n) onward p rest = before (token_at kind n p rest) (onward n)
lex_round (give_up reason) onward p rest =
    failed reason (record { line = p.line; column = p.column })

abbrev pub eof_at : Place → Token
eof_at p = record {
  kind = eof;
  text = [];
  start = p.i;
  end = p.i;
  line = p.line;
  column = p.column;
}

-- The main loop, and the end of input behind it.
unfoldable pub lex_from : ℕ → Place → Str → LexResult
unfolding lex_round
lex_from fuel p [] = lexed (eof_at p ∷ [])
lex_from zero p (c ∷ s) = out_of_fuel
lex_from (suc fuel) p (c ∷ s) =
    lex_round (classify c s) (λ n. lex_from fuel (advance n p (c ∷ s)) (drop n (c ∷ s))) p (c ∷ s)

unfoldable pub lex : Str → LexResult
unfolding lex_from
lex source = lex_from (length source) (record { i = 0; line = 1; column = 1 }) source
