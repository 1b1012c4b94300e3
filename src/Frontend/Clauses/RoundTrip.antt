-- ===== src/Frontend/Clauses/RoundTrip.antt =====
-- About printTree of app/frontend/src/lib/bart/rule.ts and parseTreeCore of parse.ts together.
use bart_share.Prelude.{
  ℕ, zero, suc, true, false, List, [], ◌∷◌, ◌++◌, ◌≡◌, ◌≤◌, ok, length, arith, refl, ap, sym, ◌∙◌,
  none, some, Option,
}
use bart_share.Text.{Str, codes, str_eq}
use bart_share.Attrs.{BartAttrs}
use bart_share.Frontend.Lexer.{Token, lex, lexed}
use bart_share.Frontend.Lexer.Words.{Piece, Shaped}
use bart_share.Frontend.Lexer.Lexemes.{mark}
use bart_share.Frontend.Rule.{
  Participant, me, requester, any_of, all_of, ExchangeNode, term, group, ExchangeNodes, node, end,
  RuleTree, print_tree,
}
use bart_share.Frontend.Rule.Shapes.{IsTidy}
use bart_share.Frontend.Rule.Pieces.{attrs_pieces, HaveReadable}
use bart_share.Frontend.Rule.Tokens.{
  word, key, node_pieces, exchange_pieces, rule_pieces, PartyReadable, NodeReadable, NodesReadable,
  ExchangeReadable,
}
use bart_share.Frontend.Rule.Written.{print_tree-Lexes}
use bart_share.Frontend.Cursor.{Cursor, is_eof, next, is_token, expect, fuel_of}
use bart_share.Frontend.Cursor.Moves.{left}
use bart_share.Frontend.Parser.{parse_or}
use bart_share.Frontend.Parser.Standing.{Stands, Stands-append, Shaped-Stands, expect-Stands}
use bart_share.Frontend.Parser.Entries.{here-Stands}
use bart_share.Frontend.Parser.Terms.{
  IsKeptPattern, IsKeptTo, IsKeptFrom, expect_key-Stands, kept_pattern-Stands,
}
use bart_share.Frontend.Parser.Primary.{KeptTerms, AllKept, parse_or-Stands}
use bart_share.Frontend.Clauses.{
  ClausesFound, is_some, parse_exchange, parse_clause, more_clauses, end_of_rule, parse_rule_tokens,
  caught_problem, parse_tree_core,
}

abbrev pub IsKeptExchange : Option ExchangeNode → Type 0
IsKeptExchange none = Unit {0}
IsKeptExchange (some n) = IsTidy n × KeptTerms n

-- A tree that the text of a rule can stand for: each list of attributes has no key twice and none that
-- every object inherits, its numbers have a text of the grammar that names them, the resources have an
-- attribute, the parties stand on their sides, and the exchange is tidy.
abbrev pub IsKept : RuleTree → Type 0
IsKept tree = IsKeptPattern tree.resource × IsKeptExchange tree.exchange

to_readable : (p : Participant) → IsKeptTo p → PartyReadable p
to_readable me h = tt
to_readable requester h = tt
to_readable (any_of attrs) h = h.0
to_readable (all_of attrs) h = h.0

from_readable : (p : Participant) → IsKeptFrom p → PartyReadable p
from_readable me h = tt
from_readable requester h = tt
from_readable (any_of attrs) h = h.0
from_readable (all_of attrs) h = h.0

pattern_readable : (attrs : BartAttrs) → IsKeptPattern attrs → HaveReadable attrs
pattern_readable [] h = tt
pattern_readable (a ∷ attrs) h = h.0

mutual
  node_readable : (n : ExchangeNode) → KeptTerms n → NodeReadable n
  node_readable (term t) (to, resource, from) =
      (to_readable t.to to, pattern_readable t.resource resource, from_readable t.from from)
  node_readable (group c ns) h = nodes_readable ns h

  nodes_readable : (ns : ExchangeNodes) → AllKept ns → NodesReadable ns
  nodes_readable end h = tt
  nodes_readable (node n ns) (h, hs) = (node_readable n h, nodes_readable ns hs)

exchange_readable : (n : Option ExchangeNode) → IsKeptExchange n → ExchangeReadable n
exchange_readable none h = tt
exchange_readable (some n) h = node_readable n h.1

abbrev nothing_found : ClausesFound
nothing_found = record { condition = none; exchange = none }

no_clause :
    (fuel : ℕ) (source : Str) (found : ClausesFound) (c : Cursor)
    → is_token (codes ",") c.current ≡ false
    → more_clauses (suc fuel) source found c ≡ ok (found, c)
unfolding more_clauses
no_clause fuel source found c e = rw (e, more_clauses) refl

exchange_clause-read :
    (n : ExchangeNode) (source : Str) (c d : Cursor)
    → is_token (codes "condition") c.current ≡ false
    → is_token (codes "exchange") c.current ≡ true
    → expect (codes ":") (next c) ≡ ok (next (next c))
    → parse_or (next (next c)) ≡ ok (n, d)
    → parse_clause source nothing_found c ≡ ok (record { condition = none; exchange = some n }, d)
unfolding parse_clause parse_exchange is_some
exchange_clause-read n source c d no_condition exchange colon read =
    rw (no_condition, exchange, parse_clause, colon, read) refl

clauses-Stands :
    (n : Option ExchangeNode) (source : Str) (c d e : Cursor)
    → IsKeptExchange n
    → Stands (exchange_pieces n) c d
    → Stands (mark b')' ∷ []) d e
    → more_clauses (fuel_of c) source nothing_found c
      ≡ ok (record { condition = none; exchange = n }, d)
unfolding fuel_of str_eq more_clauses
clauses-Stands none source c d e k h close =
    let stop : is_token (codes ",") c.current ≡ false =
      ap (λ (x : Cursor). is_token (codes ",") x.current) h
      ∙ here-Stands (codes ",") (mark b')') [] d e close in
    no_clause (left c) source nothing_found c stop ∙ ap (λ (x : Cursor). ok (nothing_found, x)) h
clauses-Stands (some n) source c d e (tidy, k) h close =
    let stop = here-Stands (codes ",") (mark b')') [] d e close in
    let no_and = here-Stands (codes "and") (mark b')') [] d e close in
    let no_or = here-Stands (codes "or") (mark b')') [] d e close in
    one_clause (left c) (omega (arith, h.2))
      (parse_or-Stands n (next (next (next c))) d tidy k h.3.3.3 no_and no_or) stop
  where
    one_clause :
        (fuel : ℕ)
        → 1 ≤ fuel
        → parse_or (next (next (next c))) ≡ ok (n, d)
        → is_token (codes ",") d.current ≡ false
        → more_clauses (suc fuel) source nothing_found c
          ≡ ok (record { condition = none; exchange = some n }, d)
    one_clause zero f read stop = absurd (omega arith)
    one_clause (suc fuel) f read stop =
        let ps : List Piece = key (codes "exchange") ++ node_pieces n in
        let comma = here-Stands (codes ",") (mark b',') ps c d h in
        let no_condition =
          here-Stands (codes "condition") (word (codes "exchange")) (mark b':' ∷ node_pieces n)
            (next c) d h.3 in
        let exchange =
          here-Stands (codes "exchange") (word (codes "exchange")) (mark b':' ∷ node_pieces n)
            (next c) d h.3 in
        let colon =
          expect-Stands (codes ":") (mark b':') (node_pieces n) (next (next c)) d refl h.3.3 in
        let clause = exchange_clause-read n source (next c) d no_condition exchange colon read in
        rw (comma, more_clauses, clause)
          (no_clause fuel source (record { condition = none; exchange = some n }) d stop)

exchange_follows :
    (n : Option ExchangeNode) (c d e : Cursor)
    → Stands (exchange_pieces n) c d
    → Stands (mark b')' ∷ []) d e
    → is_token (codes "(") c.current ≡ false
unfolding str_eq
exchange_follows none c d e h close =
    ap (λ (x : Cursor). is_token (codes "(") x.current) h
    ∙ here-Stands (codes "(") (mark b')') [] d e close
exchange_follows (some n) c d e h close =
    here-Stands (codes "(") (mark b',') (key (codes "exchange") ++ node_pieces n) c d h

parse_rule_tokens-Stands :
    (tree : RuleTree) (source : Str) (c e : Cursor)
    → tree.condition ≡ none
    → IsKept tree
    → Stands (rule_pieces tree) c e
    → is_eof e.current.kind ≡ true
    → parse_rule_tokens source c ≡ ok tree
unfolding parse_rule_tokens end_of_rule str_eq
parse_rule_tokens-Stands tree source c e bare (k, ks) h at_end =
    let inside : List Piece = attrs_pieces tree.resource ++ exchange_pieces tree.exchange in
    let opened =
      expect-Stands (codes "(") (mark b'(') (key (codes "resource") ++ (inside ++ mark b')' ∷ [])) c
        e refl h in
    let (resource_key, h1) =
      expect_key-Stands (codes "resource") (inside ++ mark b')' ∷ []) (next c) e refl h.3 in
    let (d, within, closing) = Stands-append inside (mark b')' ∷ []) (next (next (next c))) e h1 in
    let (x, attrs, exchange) =
      Stands-append (attrs_pieces tree.resource) (exchange_pieces tree.exchange)
        (next (next (next c))) d within in
    let follows = exchange_follows tree.exchange x d e exchange closing in
    let resource = kept_pattern-Stands tree.resource (next (next (next c))) x attrs k follows in
    let clauses = clauses-Stands tree.exchange source x d e ks exchange closing in
    let closed = expect-Stands (codes ")") (mark b')') [] d e refl closing in
    let ended : is_eof (next d).current.kind ≡ true =
      ap (λ (y : Cursor). is_eof y.current.kind) closing.3 ∙ at_end in
    rw (opened, resource_key, resource, clauses, closed, ended)
      (ap
        (λ (c : Option Str).
          ok (record { resource = tree.resource; condition = c; exchange = tree.exchange }))
        (sym bare))

-- What is printed is read back: where a tree without a condition is one that a rule's text can stand for,
-- the text that it is printed as, at any width, on one line or broken, is parsed to the very same tree.
pub print_tree-parse :
    (tree : RuleTree) (width : ℕ) (source : Str)
    → print_tree tree width ≡ ok source
    → tree.condition ≡ none
    → IsKept tree
    → parse_tree_core source ≡ ok tree
unfolding parse_tree_core lex caught_problem
print_tree-parse tree width source printed bare kept =
    let (ts, lexes, shaped) =
      print_tree-Lexes tree width source printed bare (pattern_readable tree.resource kept.0)
        (exchange_readable tree.exchange kept.1) (length source)
        (record { i = 0; line = 1; column = 1 }) (omega arith) in
    go ts lexes shaped
  where
    go :
        (ts : List Token)
        → lex source ≡ lexed ts
        → Shaped (rule_pieces tree) ts
        → parse_tree_core source ≡ ok tree
    go [] is shaped = absurd shaped
    go (t ∷ ts) is shaped =
        let (d, stands, at_end) = Shaped-Stands (rule_pieces tree) t ts shaped in
        let c : Cursor = record { current = t; later = ts } in
        rw (is, parse_tree_core, parse_rule_tokens-Stands tree source c d bare kept stands at_end)
          refl
