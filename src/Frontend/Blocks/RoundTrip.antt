-- ===== src/Frontend/Blocks/RoundTrip.antt =====
-- About printRule of app/frontend/src/lib/bart/rule.ts and parseRule of parse.ts together.
use mathlib.Core.Path.{subst}
use bart_share.Prelude.{
  true, List, [], ◌∷◌, ◌≡◌, arith, refl, ap, sym, ◌∙◌, none, some, Option, ok, ◌>>=◌, >>=-eq-ok,
  ok_injective,
}
use bart_share.Text.{Str, str_eq_refl}
use bart_share.Attrs.{BartAttrs}
use bart_share.Frontend.Format.{FormatError}
use bart_share.Frontend.Rule.{
  ExchangeTerm, Connector, and_, or_, is_and, ExchangeGroup, RuleAst, ExchangeNode, term, group,
  RuleTree, normalize_exchange, term_nodes, group_node, to_tree, print_tree, print_rule,
  try_print_tree, try_print_rule, caught,
}
use bart_share.Frontend.Rule.Shapes.{IsTidy, AreChildren}
use bart_share.Frontend.Parser.Terms.{IsKeptPattern, IsKeptTerm}
use bart_share.Frontend.Parser.Nodes.{group_node-one, group_node-children}
use bart_share.Frontend.Parser.Primary.{KeptTerms, AllKept}
use bart_share.Frontend.Clauses.{parse_tree_core}
use bart_share.Frontend.Clauses.RoundTrip.{IsKept, IsKeptExchange, print_tree-parse}
use bart_share.Frontend.Blocks.{
  same_terms, same_exchange, same_rule, condition_text, reparses_to, guard_tree, parse_syntax,
  terms_of, flatten_node, flatten_exchange, to_blocks_core, reprojects_to, guard_blocks, to_blocks,
  parse_rule,
}
use bart_share.Frontend.Blocks.Same.{
  same_pattern_self, same_term_self, same_connector_self, same_tree_self,
}

-- A block rule that the text of a rule can stand for, its exchange normalised.
abbrev pub AreKeptTerms : List ExchangeTerm → Type 0
AreKeptTerms [] = Unit {0}
AreKeptTerms (t ∷ ts) = IsKeptTerm t × AreKeptTerms ts

abbrev pub IsKeptGroup : Option ExchangeGroup → Type 0
IsKeptGroup none = Unit {0}
IsKeptGroup (some g) = AreKeptTerms g.terms × (normalize_exchange g ≡ g)

abbrev pub AreKeptBlocks : RuleAst → Type 0
AreKeptBlocks ast = IsKeptPattern ast.resource × IsKeptGroup ast.exchange

term_nodes-AreChildren : (c : Connector) (ts : List ExchangeTerm) → AreChildren c (term_nodes ts)
unfolding term_nodes
term_nodes-AreChildren c [] = tt
term_nodes-AreChildren c (t ∷ ts) = (tt, tt, term_nodes-AreChildren c ts)

term_nodes-AllKept : (ts : List ExchangeTerm) → AreKeptTerms ts → AllKept (term_nodes ts)
unfolding term_nodes
term_nodes-AllKept [] h = tt
term_nodes-AllKept (t ∷ ts) (h, hs) = (h, term_nodes-AllKept ts hs)

terms_of-term_nodes : (ts : List ExchangeTerm) → terms_of (term_nodes ts) ≡ ok ts
unfolding terms_of term_nodes
terms_of-term_nodes [] = refl
terms_of-term_nodes (t ∷ ts) = rw (terms_of-term_nodes ts) refl

-- What a group widens to has that group as its blocks.
abbrev Widens : ExchangeNode → ExchangeGroup → Type 0
Widens n g = IsTidy n × KeptTerms n × (flatten_node n ≡ ok g)

group_node-Widens :
    (c : Connector) (t : ExchangeTerm) (ts : List ExchangeTerm)
    → let g : ExchangeGroup = record { connector = c; terms = t ∷ ts } in
      AreKeptTerms (t ∷ ts)
      → normalize_exchange g ≡ g
      → Widens (group_node c (term_nodes (t ∷ ts))) g
unfolding term_nodes flatten_node terms_of normalize_exchange is_and
group_node-Widens and_ t [] k n =
    subst (λ m. Widens m (record { connector = and_; terms = t ∷ [] }))
      (sym (group_node-one and_ (term t) tt)) (tt, k.0, refl)
group_node-Widens or_ t [] k n = absurd (ground arith)
group_node-Widens c t (u ∷ ts) k n =
    let g : ExchangeGroup = record { connector = c; terms = t ∷ u ∷ ts } in
    let is =
      group_node-children c (term_nodes (t ∷ u ∷ ts)) tt (term_nodes-AreChildren c (t ∷ u ∷ ts)) in
    let flat : flatten_node (group c (term_nodes (t ∷ u ∷ ts))) ≡ ok g =
      ap (λ m. m >>= λ xs. ok (normalize_exchange (record { connector = c; terms = xs })))
        (terms_of-term_nodes (t ∷ u ∷ ts))
      ∙ ap ok n in
    subst (λ m. Widens m g) (sym is)
      ((tt, term_nodes-AreChildren c (t ∷ u ∷ ts)), term_nodes-AllKept (t ∷ u ∷ ts) k, flat)

-- What a block rule widens to.
abbrev IsTreeOf : RuleAst → RuleTree → Type 0
IsTreeOf ast tree =
    (tree.resource ≡ ast.resource)
    × (tree.condition ≡ ast.condition)
    × IsKeptExchange tree.exchange
    × (flatten_exchange tree.exchange ≡ ok ast.exchange)

to_tree-IsTreeOf :
    (resource : BartAttrs) (condition : Option Str) (exchange : Option ExchangeGroup)
    (tree : RuleTree)
    → let ast : RuleAst = record {
      resource = resource;
      condition = condition;
      exchange = exchange;
    } in
      to_tree ast ≡ ok tree → IsKeptGroup exchange → IsTreeOf ast tree
unfolding to_tree flatten_exchange
to_tree-IsTreeOf resource condition none tree h k =
    subst (IsTreeOf (record { resource = resource; condition = condition; exchange = none }))
      (ok_injective {E = FormatError}
        (record { resource = resource; condition = condition; exchange = none }) tree h)
      (refl, refl, tt, refl)
to_tree-IsTreeOf resource condition (some g) tree h (k, n) = go g.connector g.terms h k n
  where
    go :
        (c : Connector) (ts : List ExchangeTerm)
        → let g : ExchangeGroup = record { connector = c; terms = ts } in
          let ast : RuleAst = record {
            resource = resource;
            condition = condition;
            exchange = some g;
          } in
          to_tree ast ≡ ok tree → AreKeptTerms ts → normalize_exchange g ≡ g → IsTreeOf ast tree
    go c [] h k n = absurd (ground arith)
    go c (t ∷ ts) h k n =
        let g : ExchangeGroup = record { connector = c; terms = t ∷ ts } in
        let wide : RuleTree = record {
          resource = resource;
          condition = condition;
          exchange = some (group_node c (term_nodes (t ∷ ts)));
        } in
        let (tidy, kept, flat) = group_node-Widens c t ts k n in
        subst (IsTreeOf (record { resource = resource; condition = condition; exchange = some g }))
          (ok_injective {E = FormatError} wide tree (ground arith))
          (refl, refl, (tidy, kept), rw flat refl)

same_terms_self : (ts : List ExchangeTerm) → AreKeptTerms ts → same_terms ts ts ≡ true
unfolding same_terms
same_terms_self [] h = refl
same_terms_self (t ∷ ts) (h, hs) = rw (same_term_self t h) (same_terms_self ts hs)

same_rule_self : (ast : RuleAst) → AreKeptBlocks ast → same_rule ast ast ≡ true
unfolding same_rule same_exchange
same_rule_self ast (k, ks) =
    rw (same_pattern_self ast.resource k, str_eq_refl (condition_text ast.condition))
      (go ast.exchange ks)
  where
    go : (g : Option ExchangeGroup) → IsKeptGroup g → same_exchange g g ≡ true
    go none h = refl
    go (some g) (h, _) = rw (same_connector_self g.connector) (same_terms_self g.terms h)

guard_tree-kept :
    (tree : RuleTree) (source : Str)
    → print_tree tree 80 ≡ ok source
    → parse_tree_core source ≡ ok tree
    → IsKept tree
    → guard_tree tree ≡ ok tree
unfolding guard_tree reparses_to try_print_tree caught
guard_tree-kept tree source prints core kept =
    rw (prints, guard_tree, core, reparses_to, same_tree_self tree kept) refl

guard_blocks-kept :
    (ast : RuleAst) (tree : RuleTree) (source : Str)
    → print_rule ast 80 ≡ ok source
    → parse_tree_core source ≡ ok tree
    → to_blocks_core tree ≡ ok ast
    → AreKeptBlocks ast
    → guard_blocks ast ≡ ok ast
unfolding guard_blocks reprojects_to try_print_rule caught
guard_blocks-kept ast tree source prints core blocks kept =
    rw (prints, guard_blocks, core, blocks, reprojects_to, same_rule_self ast kept) refl

tree_blocks :
    (ast : RuleAst) (tree : RuleTree)
    → tree.resource ≡ ast.resource
    → tree.condition ≡ ast.condition
    → flatten_exchange tree.exchange ≡ ok ast.exchange
    → to_blocks_core tree ≡ ok ast
unfolding to_blocks_core
tree_blocks ast tree resource condition flat = rw flat (
    ap
      (λ (r : BartAttrs).
        ok (record { resource = r; condition = tree.condition; exchange = ast.exchange }))
      resource
    ∙ ap
        (λ (c : Option Str).
          ok (record { resource = ast.resource; condition = c; exchange = ast.exchange }))
        condition)

-- Format settles: a printed tree without a condition, one that a rule's text can stand for, passes the
-- first stage as that very tree, so that printing it again gives the same text.
pub print_tree-parse_syntax :
    (tree : RuleTree) (source : Str)
    → print_tree tree 80 ≡ ok source
    → tree.condition ≡ none
    → IsKept tree
    → parse_syntax source ≡ ok tree
unfolding parse_syntax
print_tree-parse_syntax tree source prints bare kept =
    let core = print_tree-parse tree 80 source prints bare kept in
    rw core (guard_tree-kept tree source prints core kept)

-- What the block editor saves it opens again: where blocks without a condition are ones that a rule's
-- text can stand for, their exchange normalised, the text that they are printed as opens as the very
-- same blocks.
pub print_rule-parse_rule :
    (ast : RuleAst) (source : Str)
    → print_rule ast 80 ≡ ok source
    → ast.condition ≡ none
    → AreKeptBlocks ast
    → parse_rule source ≡ ok ast
unfolding parse_rule print_rule to_blocks
print_rule-parse_rule ast source prints bare (k, ks) =
    let (tree, widens, printed_) = >>=-eq-ok (to_tree ast) _ prints in
    let (resource, condition, kept_exchange, flat) =
      to_tree-IsTreeOf ast.resource ast.condition ast.exchange tree widens ks in
    let kept : IsKept tree = (subst IsKeptPattern (sym resource) k, kept_exchange) in
    let core = print_tree-parse tree 80 source printed_ (condition ∙ bare) kept in
    let syntax = print_tree-parse_syntax tree source printed_ (condition ∙ bare) kept in
    let blocks = tree_blocks ast tree resource condition flat in
    rw (syntax, blocks, to_blocks) (guard_blocks-kept ast tree source prints core blocks (k, ks))
