-- ===== src/Frontend/Cursor.antt =====
-- app/frontend/src/lib/bart/parse.ts: the cursor over the tokens, and what can go wrong.
pub mod Moves
use bart_share.Prelude.{
  [], ◌∷◌, true, false, ◌&&◌, false, suc, ok, throw, ◌++◌, ◌||◌, ◌∷◌, true, ℕ, if◌then◌else◌, Bool,
  Outcome, List, length,
}
use bart_share.Text.{Str, codes, str_eq}
use bart_share.Frontend.Lexer.{TokenKind, string, number, bool, name, punct, eof, Position, Token}

-- `SyntaxProblem` and `Unrepresentable`; `out_of_fuel` is the model's alone.
pub data Problem : Type 0 where
  syntax_problem : Str → Position → Problem
  unrepresentable : Str → Problem
  out_of_fuel : Problem

-- `tokens` from the index on: the token there, and those behind it.
pub record Cursor : Type 0 where
  pub current : Token
  pub later : List Token

-- What a function on the cursor gives: its value and where it has left the cursor.
abbrev pub Parsed : Type 0 → Type 0
Parsed A = Outcome Problem (A × Cursor)

unfoldable pub is_eof : TokenKind → Bool
is_eof eof = true
is_eof string = false
is_eof number = false
is_eof bool = false
is_eof name = false
is_eof punct = false

unfoldable pub is_name_kind : TokenKind → Bool
is_name_kind name = true
is_name_kind string = false
is_name_kind number = false
is_name_kind bool = false
is_name_kind eof = false
is_name_kind punct = false

unfoldable pub is_punct_kind : TokenKind → Bool
is_punct_kind punct = true
is_punct_kind string = false
is_punct_kind number = false
is_punct_kind bool = false
is_punct_kind eof = false
is_punct_kind name = false

unfoldable pub position_of : Token → Position
position_of t = record { line = t.line; column = t.column }

-- `peek(1)`: the last token stands for those behind it.
unfoldable pub peek_second : Cursor → Token
peek_second c = elim c.later [ [] ↦ c.current | t ∷ ts ↦ t ]

unfoldable pub move : Token → List Token → Cursor
move t [] = record { current = t; later = [] }
move t (u ∷ ts) = record { current = u; later = ts }

-- The cursor behind `next()`.
unfoldable pub next : Cursor → Cursor
unfolding is_eof move
next c = if is_eof c.current.kind then c else move c.current c.later

-- `at(text)` of a token.
unfoldable pub is_token : Str → Token → Bool
unfolding is_punct_kind is_name_kind
is_token text t = (is_punct_kind t.kind || is_name_kind t.kind) && str_eq t.text text

unfoldable pub found_text : Token → Str
unfolding is_eof
found_text t = if is_eof t.kind then codes "end of input" else codes "'" ++ (t.text ++ codes "'")

unfoldable pub fail : {A : Type 0} → Str → Cursor → Outcome Problem A
unfolding found_text position_of
fail detail c =
    throw (
      syntax_problem (detail ++ (codes ", found " ++ found_text c.current)) (position_of c.current))

-- `expect(text)`; no caller reads the token.
unfoldable pub expect : Str → Cursor → Outcome Problem Cursor
unfolding is_token next fail
expect text c =
    if is_token text c.current
    then ok (next c)
    else fail (codes "expected '" ++ (text ++ codes "'")) c

-- How many tokens are left, which bounds the rounds of a loop.
unfoldable pub fuel_of : Cursor → ℕ
fuel_of c = suc (length c.later)
