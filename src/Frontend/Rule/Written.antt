-- ===== src/Frontend/Rule/Written.antt =====
-- About printTree of app/frontend/src/lib/bart/rule.ts: whole rules as tokens.
use mathlib.Core.List.{append-nil}
use mathlib.Core.Path.{subst}
use bart_share.Prelude.{
  ℕ, zero, suc, Bool, true, false, List, [], ◌∷◌, ◌++◌, ◌≡◌, Outcome, ok, >>=-eq-ok, ok_injective,
  leb, length, replicate, arith, ap, sym, ◌∙◌, inl, inr, Bool-cases, none, some, Option,
}
use bart_share.Text.{Str, codes, join}
use bart_share.Frontend.Lexer.Words.{Piece, Lexes, Lexes-eof}
use bart_share.Frontend.Lexer.Lexemes.{
  Closed, Closed-append, mark, marks, IsBreak-marks, blanks, Closed-blank, Closed-mark,
}
use bart_share.Frontend.Rule.{
  ExchangeNode, term, group, RuleTree, require_resource, term_indent, key_separator_of, between_of,
  exchange_to_bart, condition_clause, exchange_clause, rule_text, print_tree,
}
use bart_share.Frontend.Format.{FormatError}
use bart_share.Frontend.Rule.Pieces.{attrs_pieces, HaveReadable}
use bart_share.Frontend.Rule.Entries.{Closed-Writes, emit_attrs-Closed}
use bart_share.Frontend.Rule.Tokens.{
  key, node_pieces, exchange_pieces, rule_pieces, NodeReadable, ExchangeReadable, word_keys,
  behind_mark, before_close, require_resource-emit,
}
use bart_share.Frontend.Rule.Nodes.{node-Closed, IsBlankText}

spaces-Closed : (n : ℕ) → Closed (replicate n b' ') []
spaces-Closed zero rest ps more = more
spaces-Closed (suc n) rest ps more =
    Closed-blank b' ' blanks.0 (replicate n b' ' ++ rest) ps (spaces-Closed n rest ps more)

line-Closed : (s : Str) → Closed s [] → Closed (b'\n' ∷ s) []
line-Closed s h rest ps more = Closed-blank b'\n' blanks.1 (s ++ rest) ps (h rest ps more)

indent-Closed : Closed term_indent []
indent-Closed = spaces-Closed (length (codes " exchange:("))

separators_are_blank :
    (n : ExchangeNode) (broken : Bool)
    → Closed (key_separator_of n broken) [] × IsBlankText (between_of broken)
unfolding key_separator_of between_of
separators_are_blank n false =
    (Closed-blank b' ' blanks.0, (IsBreak-marks.4, Closed-blank b' ' blanks.0))
separators_are_blank (term t) true = (
  line-Closed term_indent indent-Closed,
  (IsBreak-marks.5, line-Closed term_indent indent-Closed),
)
separators_are_blank (group c ns) true = (
  line-Closed (term_indent ++ codes " ")
      (Closed-append term_indent (codes " ") [] [] indent-Closed (Closed-blank b' ' blanks.0)),
  (IsBreak-marks.5, line-Closed term_indent indent-Closed),
)

exchange-Closed :
    (n : ExchangeNode) (broken : Bool) (s : Str)
    → exchange_to_bart n broken ≡ ok s
    → NodeReadable n
    → Closed s (node_pieces n)
unfolding exchange_to_bart
exchange-Closed n broken s h r =
    let (blank, between) = separators_are_blank n broken in
    node-Closed (key_separator_of n broken) (between_of broken) blank between n s h r

clauses-Closed :
    (separator resource : Str) (ps : List Piece) (n : Option ExchangeNode) (broken : Bool)
    (clauses : List Str)
    → Closed separator (mark b',' ∷ [])
    → Closed resource ps
    → ExchangeReadable n
    → exchange_clause n broken ≡ ok clauses
    → Closed (join separator (resource ∷ clauses)) (ps ++ exchange_pieces n)
unfolding exchange_clause join
clauses-Closed separator resource ps none broken clauses sep res r h =
    subst (λ c. Closed (join separator (resource ∷ c)) (ps ++ [])) (ok_injective [] clauses h)
      (subst (Closed resource) (sym (append-nil ps)) res)
clauses-Closed separator resource ps (some n) broken clauses sep res r h =
    let (s, written, same) = >>=-eq-ok (exchange_to_bart n broken) _ h in
    subst (λ c. Closed (join separator (resource ∷ c)) (ps ++ exchange_pieces (some n)))
      (ok_injective ((codes "exchange:" ++ s) ∷ []) clauses same)
      (Closed-append resource (separator ++ (codes "exchange:" ++ s)) ps (exchange_pieces (some n))
        res
        (Closed-append separator (codes "exchange:" ++ s) (mark b',' ∷ [])
          (key (codes "exchange") ++ node_pieces n) sep
          (Closed-append (codes "exchange:") s (key (codes "exchange")) (node_pieces n) word_keys.5
            (exchange-Closed n broken s written r))))

rule_text-Closed :
    (separator resource : Str) (tree : RuleTree) (broken : Bool) (s : Str)
    → Closed separator (mark b',' ∷ [])
    → Closed resource (attrs_pieces tree.resource)
    → tree.condition ≡ none
    → ExchangeReadable tree.exchange
    → rule_text separator resource tree broken ≡ ok s
    → Closed s (rule_pieces tree)
unfolding rule_text condition_clause
rule_text-Closed separator resource tree broken s sep res bare r h =
    let (exchange, written, same) = >>=-eq-ok (exchange_clause tree.exchange broken) _ h in
    let resource_text : Str = codes "resource:" ++ resource in
    let ps : List Piece = attrs_pieces tree.resource ++ exchange_pieces tree.exchange in
    let joined : Str = join separator (resource_text ∷ exchange) in
    let is : ◌≡◌ {A = Outcome FormatError Str} (ok (b'(' ∷ (joined ++ b')' ∷ []))) (ok s) =
      ap
        (λ (c : Option Str).
          ok (
            b'('
            ∷ (join separator (resource_text ∷ (condition_clause c ++ exchange)) ++ b')' ∷ [])))
        (sym bare)
      ∙ same in
    let inside : Closed joined (key (codes "resource") ++ ps) =
      clauses-Closed separator resource_text (key (codes "resource") ++ attrs_pieces tree.resource)
        tree.exchange broken exchange sep
        (Closed-append (codes "resource:") resource (key (codes "resource"))
          (attrs_pieces tree.resource) word_keys.1 res)
        r written in
    subst (λ w. Closed w (rule_pieces tree)) (ok_injective (b'(' ∷ (joined ++ b')' ∷ [])) s is)
      (behind_mark b'(' (joined ++ b')' ∷ []) ((key (codes "resource") ++ ps) ++ mark b')' ∷ [])
        (Closed-mark b'(' marks.0)
        (before_close joined (key (codes "resource") ++ ps)
          (Closed-Writes joined (key (codes "resource") ++ ps) inside)))

Closed-Lexes : (s : Str) (ps : List Piece) → Closed s ps → Lexes s ps
Closed-Lexes s ps h =
    subst (λ w. Lexes w ps) (append-nil s)
      (subst (Lexes (s ++ [])) (append-nil ps) (h [] [] Lexes-eof))

-- A rule without a condition, on one line or broken, is written as the tokens of its parts.
pub print_tree-Lexes :
    (tree : RuleTree) (width : ℕ) (s : Str)
    → print_tree tree width ≡ ok s
    → tree.condition ≡ none
    → HaveReadable tree.resource
    → ExchangeReadable tree.exchange
    → Lexes s (rule_pieces tree)
unfolding print_tree
print_tree-Lexes tree width s h bare r_resource r =
    let (resource, is, h1) = >>=-eq-ok (require_resource tree.resource (codes "a rule")) _ h in
    let (line, written, h2) = >>=-eq-ok (rule_text (codes ", ") resource tree false) _ h1 in
    let res =
      emit_attrs-Closed tree.resource resource
        (require_resource-emit tree.resource (codes "a rule") resource is) r_resource in
    let comma = Closed-mark b',' marks.4 in
    Closed-Lexes s (rule_pieces tree) (elim (Bool-cases (leb (length line) width)) [
      | inl fits ↦
          subst (λ w. Closed w (rule_pieces tree))
            (ok_injective {E = FormatError} line s (ground arith))
            (rule_text-Closed (codes ", ") resource tree false line
              (Closed-append (codes ",") (codes " ") (mark b',' ∷ []) [] comma
                (Closed-blank b' ' blanks.0))
              res bare r written)
      | inr long ↦
          rule_text-Closed (codes ",\n ") resource tree true s
            (Closed-append (codes ",") (codes "\n ") (mark b',' ∷ []) [] comma
              (line-Closed (codes " ") (Closed-blank b' ' blanks.0)))
            res bare r (ground arith)
    ])
