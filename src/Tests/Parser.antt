-- ===== src/Tests/Parser.antt =====
-- The editor's rule parser, its guards and the rules of the policy page.
use bart_share.Prelude.{◌≡◌, ◌≢◌, ◌⊎◌, [], ◌∷◌, none, some, true, ok, throw, refl}
use bart_share.Text.{Str, codes}
use bart_share.Attrs.{boolean, scalar, collection, BartAttrs}
use bart_share.Frontend.Lexer.{Position}
use bart_share.Frontend.Rule.{
  me, requester, any_of, ExchangeTerm, and_, or_, ExchangeGroup, ExchangeNode, term, group,
  ExchangeNodes, node, end, RuleAst, RuleTree, printed, try_print_tree, try_print_rule, print_tree,
  print_rule,
}
use bart_share.Frontend.Clauses.{
  Refusal, refused, no_fuel, is_syntax_reason, is_some, parse_tree_core,
}
use bart_share.Frontend.Clauses.Spans.{IsRule}
use bart_share.Frontend.Clauses.Ends.{parse_tree_core-ends, parse_tree_core-IsRule}
use bart_share.Frontend.Blocks.{
  same_tree, same_rule, guard_tree, reparses_to, to_blocks_core, to_blocks, guard_blocks,
  reprojects_to, mixed_exchange_reason, parse_syntax, parse_rule, to_policy_rule,
}
use bart_share.Frontend.Blocks.Guards.{
  ReadsBack, AreBlocksOf, parse_syntax-ReadsBack, parse_rule-ReadsBack,
}
use bart_share.Frontend.Blocks.Policy.{parse_rule-syntax_reason, to_policy_rule-cases}

abbrev lent : Str
lent = codes "(resource:(k:true), exchange:(to:me, resource:(k:true), from:requester))"

abbrev keyed : BartAttrs
keyed = (codes "k", scalar (boolean true)) ∷ []

abbrev asked : ExchangeTerm
asked = record { to = me; resource = keyed; from = requester }

abbrev lent_tree : RuleTree
lent_tree = record { resource = keyed; condition = none; exchange = some (term asked) }

abbrev lent_ast : RuleAst
lent_ast = record {
  resource = keyed;
  condition = none;
  exchange = some (record { connector = and_; terms = asked ∷ [] });
}

lent_core : parse_tree_core lent ≡ ok lent_tree
unfolding bart_share.Frontend.Lexer.number_length bart_share.Frontend.Lexer.punct_length
    bart_share.Frontend.Lexer.name_kind bart_share.Frontend.Lexer.classify
    bart_share.Frontend.Lexer.token_at bart_share.Frontend.Lexer.before
    bart_share.Frontend.Lexer.lex bart_share.Text.starts_with
    bart_share.Emitter.Grammar.is_name_part bart_share.Frontend.Cursor.peek_second
    bart_share.Frontend.Cursor.expect bart_share.Frontend.Cursor.fuel_of
    bart_share.Frontend.Parser.parse_or bart_share.Frontend.Clauses.parse_tree_core
    bart_share.Attrs.inherited bart_share.Attrs.is_in bart_share.Frontend.Rule.group_node
    bart_share.Frontend.Rule.connector_text
lent_core = refl

lent_printed : try_print_tree lent_tree 80 ≡ printed lent
unfolding bart_share.Frontend.Rule.participant_to_bart bart_share.Frontend.Rule.require_resource
    bart_share.Frontend.Rule.nodes_to_bart bart_share.Frontend.Rule.exchange_to_bart
    bart_share.Frontend.Rule.exchange_clause bart_share.Frontend.Rule.rule_text
    bart_share.Frontend.Rule.print_tree bart_share.Frontend.Rule.try_print_tree
    bart_share.Frontend.Format.validate_attr_key bart_share.Frontend.Format.format_scalar
    bart_share.Frontend.Format.format_value bart_share.Frontend.Format.format_attr
    bart_share.Frontend.Format.emit_unless bart_share.Frontend.Format.emit_entry
    bart_share.Frontend.Format.emit_attrs bart_share.Emitter.Grammar.is_name
    bart_share.Text.includes bart_share.Text.join
lent_printed = refl

lent_printed_blocks : try_print_rule lent_ast 80 ≡ printed lent
unfolding bart_share.Frontend.Rule.group_node bart_share.Frontend.Rule.term_nodes
    bart_share.Frontend.Rule.participant_to_bart bart_share.Frontend.Rule.require_resource
    bart_share.Frontend.Rule.nodes_to_bart bart_share.Frontend.Rule.exchange_to_bart
    bart_share.Frontend.Rule.exchange_clause bart_share.Frontend.Rule.rule_text
    bart_share.Frontend.Rule.print_tree bart_share.Frontend.Rule.print_rule
    bart_share.Frontend.Rule.try_print_rule bart_share.Frontend.Format.validate_attr_key
    bart_share.Frontend.Format.format_scalar bart_share.Frontend.Format.format_value
    bart_share.Frontend.Format.format_attr bart_share.Frontend.Format.emit_unless
    bart_share.Frontend.Format.emit_entry bart_share.Frontend.Format.emit_attrs
    bart_share.Emitter.Grammar.is_name bart_share.Text.includes bart_share.Text.join
lent_printed_blocks = refl

lent_same : same_tree lent_tree lent_tree ≡ true
unfolding bart_share.Frontend.Blocks.parse_rule bart_share.Matcher.scalar_eq bart_share.Attrs.own
lent_same = refl

lent_blocks : to_blocks_core lent_tree ≡ ok lent_ast
unfolding bart_share.Frontend.Blocks.parse_rule
lent_blocks = refl

lent_same_blocks : same_rule lent_ast lent_ast ≡ true
unfolding bart_share.Frontend.Rule.group_node bart_share.Frontend.Blocks.parse_rule
    bart_share.Matcher.scalar_eq bart_share.Attrs.own
lent_same_blocks = refl

lent_guard : guard_tree lent_tree ≡ ok lent_tree
unfolding guard_tree reparses_to
lent_guard = rw (lent_printed, lent_core, lent_same, guard_tree, reparses_to) refl

lent_syntax : parse_syntax lent ≡ ok lent_tree
unfolding parse_syntax
lent_syntax = rw lent_core lent_guard

lent_guard_blocks : guard_blocks lent_ast ≡ ok lent_ast
unfolding guard_blocks reprojects_to
lent_guard_blocks =
    rw (lent_printed_blocks, lent_core, lent_blocks, lent_same_blocks, guard_blocks, reprojects_to)
      refl

lent_rule : parse_rule lent ≡ ok lent_ast
unfolding parse_rule to_blocks
lent_rule = rw (lent_syntax, lent_blocks, to_blocks) lent_guard_blocks

parse_tree_core-ends_example : parse_tree_core (codes "(resource:(a:") ≢ throw no_fuel
parse_tree_core-ends_example = parse_tree_core-ends (codes "(resource:(a:")

parse_tree_core-IsRule_example : IsRule lent_tree
parse_tree_core-IsRule_example = parse_tree_core-IsRule lent lent_tree lent_core

parse_syntax-ReadsBack_example :
    (parse_tree_core lent ≡ ok lent_tree)
    × ((text : Str) × (print_tree lent_tree 80 ≡ ok text) × ReadsBack text lent_tree)
parse_syntax-ReadsBack_example = parse_syntax-ReadsBack lent lent_tree lent_syntax

parse_rule-ReadsBack_example :
    (tree : RuleTree) × (parse_tree_core lent ≡ ok tree)
    × AreBlocksOf tree lent_ast
    × ((text : Str) × (print_rule lent_ast 80 ≡ ok text) × ReadsBack text tree)
parse_rule-ReadsBack_example = parse_rule-ReadsBack lent lent_ast lent_rule

-- A text that ends too soon.
abbrev cut_short : Str
cut_short = codes "("

abbrev cut_reason : Str
cut_reason = codes "Line 1:2: expected 'resource', found end of input"

cut_core :
    parse_tree_core cut_short ≡ throw (refused cut_reason (some (record { line = 1; column = 2 })))
unfolding bart_share.Frontend.Lexer.step_over bart_share.Frontend.Lexer.advance
    bart_share.Frontend.Lexer.punct_length bart_share.Frontend.Lexer.classify
    bart_share.Frontend.Lexer.token_at bart_share.Frontend.Lexer.before
    bart_share.Frontend.Lexer.lex bart_share.Text.str_eq bart_share.Text.starts_with
    bart_share.Text.is_digit bart_share.Emitter.Grammar.is_name_start
    bart_share.Frontend.Cursor.expect bart_share.Frontend.Parser.parse_or
    bart_share.Frontend.Clauses.parse_tree_core bart_share.Text.show_nat
cut_core = refl

cut_rule :
    parse_rule cut_short ≡ throw (refused cut_reason (some (record { line = 1; column = 2 })))
unfolding parse_rule parse_syntax
cut_rule = rw cut_core refl

parse_rule-syntax_reason_example :
    is_syntax_reason cut_reason ≡ is_some {A = Position} (some (record { line = 1; column = 2 }))
unfolding is_some
parse_rule-syntax_reason_example =
    parse_rule-syntax_reason cut_short cut_reason (some (record { line = 1; column = 2 })) cut_rule

to_policy_rule-cases_example :
    let rule = to_policy_rule (codes "r1") lent in
    (rule.id ≡ codes "r1")
    × (rule.source ≡ lent)
    × (((ast : RuleAst) × (rule.ast ≡ some ast)
          × (rule.pattern ≡ some ast.resource)
          × (rule.advanced_reason ≡ none))
        ⊎ ((reason : Str) × (rule.ast ≡ none) × (rule.advanced_reason ≡ some reason)))
to_policy_rule-cases_example = to_policy_rule-cases (codes "r1") lent
