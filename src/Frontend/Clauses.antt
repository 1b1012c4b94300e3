-- ===== src/Frontend/Clauses.antt =====
-- app/frontend/src/lib/bart/parse.ts: a whole rule, its condition kept as the text that it is.
pub mod Spans
pub mod Ends
pub mod RoundTrip
use bart_share.Prelude.{
  ◌||◌, ◌-◌, not, ◌==◌, List, ◌&&◌, ◌++◌, Outcome, Option, ◌>>=◌, if◌then◌else◌, ℕ, Bool, zero, suc,
  [], ◌∷◌, none, some, length, take, drop, true, false, ok, throw,
}
use bart_share.Text.{Str, codes, str_eq, starts_with, trim, show_nat, is_digit}
use bart_share.Number.{ℤ, pos, negsuc}
use bart_share.Frontend.Lexer
use bart_share.Frontend.Lexer.{Token, Position, LexResult, lexed, failed, lex, span_length}
use bart_share.Frontend.Rule.{ExchangeNode, RuleTree}
use bart_share.Frontend.Cursor.{
  Problem, syntax_problem, unrepresentable, out_of_fuel, Cursor, Parsed, is_eof, is_punct_kind,
  position_of, next, is_token, fail, expect, fuel_of,
}
use bart_share.Frontend.Parser.{parse_attributes, expect_key, parse_or, inner}

-- A depth, which a `}` at the outside makes negative.
unfoldable pub deeper : ℤ → ℤ
deeper (pos n) = pos (suc n)
deeper (negsuc zero) = pos 0
deeper (negsuc (suc n)) = negsuc n

unfoldable pub shallower : ℤ → ℤ
shallower (pos zero) = negsuc 0
shallower (pos (suc n)) = pos n
shallower (negsuc n) = negsuc (suc n)

unfoldable pub is_outside : ℤ → Bool
is_outside (pos zero) = true
is_outside (pos (suc n)) = false
is_outside (negsuc n) = false

-- A punctuation token, whatever its place.
unfoldable pub is_punct : Str → Token → Bool
unfolding is_punct_kind
is_punct text t = is_punct_kind t.kind && str_eq t.text text

-- The loop over the tokens of a text in parentheses: whether the first of them closes before the end.
unfoldable pub closes_early : ℕ → ℤ → List Token → Bool
unfolding is_punct is_outside deeper shallower is_eof
closes_early size depth [] = false
closes_early size depth (t ∷ ts) =
    let after =
      if is_punct (codes "(") t
      then deeper depth
      else if is_punct (codes ")") t
      then shallower depth
      else depth in
    elim (is_eof t.kind) [
      | true ↦ false
      | false ↦
          (is_punct (codes ")") t && (is_outside after && not (t.end == size)))
          || closes_early size after ts
    ]

unfoldable pub ends_with_paren : Str → Bool
ends_with_paren [] = false
ends_with_paren (c ∷ []) = c == b')'
ends_with_paren (c ∷ d ∷ s) = ends_with_paren (d ∷ s)

unfoldable pub strip_outer_parens : Str → Str
unfolding closes_early ends_with_paren
strip_outer_parens text =
    if not (starts_with text (codes "(")) || not (ends_with_paren text)
    then text
    else elim (lex text) [
      | lexed tokens ↦ if closes_early (length text) (pos 0) tokens then text else trim (inner text)
      | failed reason at_ ↦ text
      | Lexer.out_of_fuel ↦ text
    ]

-- The loop of parseConditionSpan: where the span ends.
unfoldable pub span_end : ℕ → ℤ → ℕ → Cursor → Parsed ℕ
unfolding is_punct is_outside deeper shallower
span_end zero depth end c = throw out_of_fuel
span_end (suc fuel) depth end c =
    if is_eof c.current.kind
    then throw (syntax_problem (codes "unterminated condition") (position_of c.current))
    else elim (is_outside depth
        && (is_punct (codes ",") c.current || is_punct (codes ")") c.current)) [
          | true ↦ ok (end, c)
          | false ↦
              let opened =
                if is_punct (codes "(") c.current || is_punct (codes "{") c.current
                then deeper depth
                else depth in
              let closed =
                if is_punct (codes ")") c.current || is_punct (codes "}") c.current
                then shallower opened
                else opened in
              span_end fuel closed c.current.end (next c)
        ]

-- `source.slice(start, end)`, for a start that is not behind the end.
unfoldable pub slice : Str → ℕ → ℕ → Str
slice source start end = take (end - start) (drop start source)

unfoldable pub parse_condition_span : Str → Cursor → Parsed Str
unfolding span_end slice strip_outer_parens
parse_condition_span source c = span_end (fuel_of c) (pos 0) c.current.start c >>= λ (end, c1).
    let text = trim (slice source c.current.start end) in
    if str_eq text []
    then throw (syntax_problem (codes "condition is empty") (position_of c.current))
    else ok (strip_outer_parens text, c1)

-- `condition` and `exchange`, `none` where the source has undefined.
pub record ClausesFound : Type 0 where
  pub condition : Option Str
  pub exchange : Option ExchangeNode

unfoldable pub is_some : {A : Type 0} → Option A → Bool
is_some none = false
is_some (some a) = true

-- `condition`, with the cursor behind that word; the token is the word's.
unfoldable pub parse_condition : Str → Token → ClausesFound → Cursor → Parsed ClausesFound
unfolding is_some parse_condition_span
parse_condition source clause found c =
    if is_some found.condition
    then throw (syntax_problem (codes "repeated 'condition' clause") (position_of clause))
    else if is_some found.exchange
    then throw
        (syntax_problem (codes "'condition' must come before 'exchange'") (position_of clause))
    else expect (codes ":") c >>= λ c1. parse_condition_span source c1 >>= λ (text, c2).
        ok (record { condition = some text; exchange = found.exchange }, c2)

unfoldable pub parse_exchange : Token → ClausesFound → Cursor → Parsed ClausesFound
unfolding is_some
parse_exchange clause found c =
    if is_some found.exchange
    then throw (syntax_problem (codes "repeated 'exchange' clause") (position_of clause))
    else expect (codes ":") c >>= λ c1. parse_or c1 >>= λ (n, c2).
        ok (record { condition = found.condition; exchange = some n }, c2)

-- One round, behind the comma.
unfoldable pub parse_clause : Str → ClausesFound → Cursor → Parsed ClausesFound
unfolding parse_condition parse_exchange
parse_clause source found c =
    if is_token (codes "condition") c.current
    then parse_condition source c.current found (next c)
    else if is_token (codes "exchange") c.current
    then parse_exchange c.current found (next c)
    else fail (codes "expected 'condition' or 'exchange'") c

unfoldable pub more_clauses : ℕ → Str → ClausesFound → Cursor → Parsed ClausesFound
unfolding parse_clause
more_clauses zero source found c = throw out_of_fuel
more_clauses (suc fuel) source found c = elim (is_token (codes ",") c.current) [
  | false ↦ ok (found, c)
  | true ↦ parse_clause source found (next c) >>= λ (longer, c1). more_clauses fuel source longer c1
]

unfoldable pub end_of_rule : Cursor → Outcome Problem Cursor
end_of_rule c = if is_eof c.current.kind then ok c else fail (codes "expected end of rule") c

-- The `try` block of parseTreeCore.
unfoldable pub parse_rule_tokens : Str → Cursor → Outcome Problem RuleTree
unfolding more_clauses end_of_rule
parse_rule_tokens source c = expect (codes "(") c >>= λ c1.
    expect_key (codes "resource") c1 >>= λ c2. parse_attributes true c2 >>= λ (resource, c3).
    more_clauses (fuel_of c3) source (record { condition = none; exchange = none }) c3
    >>= λ (found, c4). expect (codes ")") c4 >>= λ c5. end_of_rule c5 >>= λ c6.
        ok (record { resource = resource; condition = found.condition; exchange = found.exchange })

-- `{ ok: false, reason, at? }`; `no_fuel` is the model's alone.
pub data Refusal : Type 0 where
  refused : Str → Option Position → Refusal
  no_fuel : Refusal

unfoldable pub format : Str → Position → Str
format detail at_ =
    codes "Line "
    ++ (show_nat at_.line ++ (codes ":" ++ (show_nat at_.column ++ (codes ": " ++ detail))))

-- `^\d+` and one character behind it: the text behind both.
unfoldable pub behind_number : ℕ → Str → Option Str
behind_number stop s =
    let n = span_length is_digit s in
    if n == 0
    then none
    else elim (drop n s) [ [] ↦ none | c ∷ rest ↦ if c == stop then some rest else none ]

unfoldable pub is_blank_next : Option Str → Bool
is_blank_next none = false
is_blank_next (some rest) = starts_with rest (codes " ")

unfoldable pub is_column_next : Option Str → Bool
unfolding behind_number is_blank_next
is_column_next none = false
is_column_next (some rest) = is_blank_next (behind_number b':' rest)

unfoldable pub is_syntax_reason : Str → Bool
unfolding is_column_next
is_syntax_reason reason =
    starts_with reason (codes "Line ") && is_column_next (behind_number b':' (drop 5 reason))

-- The `catch` block.
unfoldable pub refusal_of : Problem → Refusal
unfolding format
refusal_of (syntax_problem detail at_) = refused (format detail at_) (some at_)
refusal_of (unrepresentable reason) = refused reason none
refusal_of out_of_fuel = no_fuel

unfoldable pub caught_problem : {A : Type 0} → Outcome Problem A → Outcome Refusal A
unfolding refusal_of
caught_problem (ok a) = ok a
caught_problem (throw problem) = throw (refusal_of problem)

unfoldable pub parse_tree_core : Str → Outcome Refusal RuleTree
unfolding caught_problem parse_rule_tokens format
parse_tree_core source = elim (lex source) [
  | failed reason at_ ↦ throw (refused (format reason at_) (some at_))
  | Lexer.out_of_fuel ↦ throw no_fuel
  | lexed tokens ↦ elim tokens [
    | [] ↦ throw no_fuel
    | t ∷ ts ↦ caught_problem (parse_rule_tokens source (record { current = t; later = ts }))
  ]
]
