-- ===== src/Frontend/Clauses/Ends.antt =====
-- About parseTreeCore of app/frontend/src/lib/bart/parse.ts: how it ends, and what it returns.
use mathlib.Core.Path.{subst}
use bart_share.Prelude.{
  all, ◌++◌, true, false, some, arith, refl, ◌∙◌, ap, [], ◌∷◌, ok, throw, List, ℕ, ◌≡◌, ◌≢◌,
  Outcome,
}
use bart_share.Text.{Str, codes, is_digit, show_nat, starts_with}
use bart_share.Text.Decimals.{show_nat-digits, show_nat-cons}
use bart_share.Frontend.Lexer
use bart_share.Frontend.Lexer.{Token, Position, LexResult, lexed, failed, lex, TokenKind, eof}
use bart_share.Frontend.Lexer.Places.{Ordered, Good, lex_places}
use bart_share.Frontend.Rule.{RuleTree}
use bart_share.Frontend.Cursor.{Problem, syntax_problem, unrepresentable, out_of_fuel, is_eof}
use bart_share.Frontend.Cursor.Moves.{Ends, Ensures}
use bart_share.Frontend.Lexer.Runs.{span_length-all, drop-length-append}
use bart_share.Frontend.Parser.{not_representable_reason}
use bart_share.Frontend.Clauses.{
  behind_number, is_column_next, is_blank_next, is_syntax_reason, is_some, format, Refusal, refused,
  no_fuel, caught_problem, refusal_of, parse_rule_tokens, parse_tree_core,
}
use bart_share.Frontend.Clauses.Spans.{IsRule, parse_rule_tokens-IsRule}

Ordered-Ends :
    (source : Str) (from : ℕ) (t : Token) (ts : List Token)
    → Ordered source from (t ∷ ts)
    → Ends t ts
unfolding is_eof
Ordered-Ends source from t [] (e, _, _, _) = ap is_eof e
Ordered-Ends source from t (u ∷ ts) (_, _, _, more) = Ordered-Ends source t.end u ts more

behind_number-digits :
    (stop : ℕ) (ds rest : Str)
    → all is_digit ds ≡ true
    → ds ≢ []
    → is_digit stop ≡ false
    → behind_number stop (ds ++ stop ∷ rest) ≡ some rest
unfolding behind_number
behind_number-digits stop ds rest digits some_ open_ =
    ground (
      arith,
      span_length-all is_digit ds stop rest digits open_,
      drop-length-append ds (stop ∷ rest),
    )

number_then : (n : ℕ) (rest : Str) → behind_number b':' (show_nat n ++ b':' ∷ rest) ≡ some rest
unfolding is_digit
number_then n rest =
    let (c, s, shown) = show_nat-cons n in
    behind_number-digits b':' (show_nat n) rest (show_nat-digits n) (λ e. cc) refl

format-IsSyntax : (detail : Str) (at_ : Position) → is_syntax_reason (format detail at_) ≡ true
unfolding is_syntax_reason format starts_with is_column_next is_blank_next
format-IsSyntax detail at_ =
    let column = show_nat at_.column ++ (codes ": " ++ detail) in
    ap is_column_next (number_then at_.line column)
    ∙ ap is_blank_next (number_then at_.column (codes " " ++ detail))

not_representable_reason-syntax : is_syntax_reason not_representable_reason ≡ false
unfolding is_syntax_reason not_representable_reason starts_with
not_representable_reason-syntax = refl

-- What parsing gives, or a refusal with a reason, which is a syntax error's exactly if it has a position.
abbrev pub Answers : Outcome Refusal RuleTree → Type 0
Answers (ok tree) = IsRule tree
Answers (throw (refused reason at_)) = is_syntax_reason reason ≡ is_some at_
Answers (throw no_fuel) = ⊥

caught-Answers : (m : Outcome Problem RuleTree) → Ensures IsRule m → Answers (caught_problem m)
unfolding caught_problem refusal_of is_some
caught-Answers (ok tree) h = h
caught-Answers (throw (syntax_problem detail at_)) h = format-IsSyntax detail at_
caught-Answers (throw (unrepresentable reason)) h =
    ap is_syntax_reason h ∙ not_representable_reason-syntax
caught-Answers (throw out_of_fuel) h = absurd h

pub parse_tree_core-Answers : (source : Str) → Answers (parse_tree_core source)
unfolding parse_tree_core
parse_tree_core-Answers source = go (lex source) refl (lex_places source)
  where
    go : (r : LexResult) → lex source ≡ r → Good source 0 r → Answers (parse_tree_core source)
    go (failed reason at_) e g = rw (e, parse_tree_core) (format-IsSyntax reason at_)
    go Lexer.out_of_fuel e g = absurd g
    go (lexed []) e g = absurd g
    go (lexed (t ∷ ts)) e g =
        rw (e, parse_tree_core)
          (caught-Answers (parse_rule_tokens source (record { current = t; later = ts })) (
            parse_rule_tokens-IsRule source (record { current = t; later = ts })
              (Ordered-Ends source 0 t ts g)))

-- Every text is either parsed or refused with a reason: the loops and the recursion of the parser end
-- on every text, whatever its tokens.
pub parse_tree_core-ends : (source : Str) → parse_tree_core source ≢ throw no_fuel
parse_tree_core-ends source h = no_way (parse_tree_core source) h (parse_tree_core-Answers source)
  where
    no_way : (m : Outcome Refusal RuleTree) → m ≡ throw no_fuel → Answers m → ⊥
    no_way (ok tree) e a = cc
    no_way (throw (refused reason at_)) e a = cc
    no_way (throw no_fuel) e a = a

-- A tree that parses is a rule: its resource has an attribute and no key twice; its exchange, if it
-- has one, is tidy, in every term of it the `to` is never the requester and the `from` never `me`,
-- no attribute list there has a key twice, and the resource there has an attribute.
pub parse_tree_core-IsRule :
    (source : Str) (tree : RuleTree) → parse_tree_core source ≡ ok tree → IsRule tree
parse_tree_core-IsRule source tree h = subst Answers h (parse_tree_core-Answers source)
