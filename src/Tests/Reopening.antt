-- ===== src/Tests/Reopening.antt =====
-- The editor's rules, printed and opened again.
use bart_share.Prelude.{◌≡◌, [], ◌∷◌, none, some, true, false, ok, refl, ap, ◌∙◌, ◌>>=◌}
use bart_share.Text.{Str, codes, includes, str_eq, join, is_digit}
use bart_share.Attrs.{boolean, scalar, collection, BartScalar, BartAttrs, own, is_in, inherited}
use bart_share.Emitter.{quote, escape_all}
use bart_share.Emitter.Grammar.{is_name, is_name_start, is_name_part}
use bart_share.Frontend.Format.{
  validate_attr_key, format_scalar, format_value, format_attr, emit_unless, emit_entry, emit_attrs,
}
use bart_share.Frontend.Rule.{
  me, requester, any_of, ExchangeTerm, and_, or_, is_and, term, group, node, end, RuleAst, RuleTree,
  normalize_exchange, to_tree, group_node, flatten, bare_or_group, term_nodes, participant_to_bart,
  require_resource, term_to_bart, connector_text, in_parens, node_to_bart, nodes_to_bart,
  key_separator_of, between_of, exchange_to_bart, exchange_clause, condition_clause, rule_text,
  print_tree, print_rule,
}
use bart_share.Frontend.Parser.Terms.{IsKeptTerm, IsKeptPattern}
use bart_share.Frontend.Clauses.{parse_tree_core}
use bart_share.Frontend.Clauses.RoundTrip.{IsKept, print_tree-parse}
use bart_share.Frontend.Blocks.{parse_rule}
use bart_share.Frontend.Blocks.RoundTrip.{print_rule-parse_rule}

abbrev colours : BartAttrs
colours = (codes "k", collection (BartScalar.text (codes "a\"b") ∷ boolean false ∷ [])) ∷ []

abbrev mine : ExchangeTerm
mine = record { to = me; resource = colours; from = requester }

abbrev theirs : ExchangeTerm
theirs = record { to = any_of []; resource = colours; from = requester }

abbrev either : RuleTree
either = record {
  resource = colours;
  condition = none;
  exchange = some (group or_ (node (term mine) (node (term theirs) end)));
}

abbrev either_text : Str
either_text =
    codes
      "(resource:(k:{\"a\\\"b\",false}), exchange:((to:me, resource:(k:{\"a\\\"b\",false}), from:requester) or (to:(any:), resource:(k:{\"a\\\"b\",false}), from:requester)))"

either_printed : print_tree either 200 ≡ ok either_text
unfolding print_tree require_resource emit_attrs emit_entry emit_unless validate_attr_key is_name
    is_name_start is_name_part is_digit includes str_eq join format_attr format_value format_scalar
    quote escape_all rule_text condition_clause exchange_clause exchange_to_bart node_to_bart
    nodes_to_bart in_parens term_to_bart participant_to_bart connector_text key_separator_of
    between_of
either_printed = refl

colours_new : is_in (codes "k") [] ≡ false
unfolding is_in own inherited includes str_eq
colours_new = refl

kept_colours : IsKeptPattern colours
kept_colours = (((tt, (tt, tt)), tt), (colours_new, tt))

mine_kept : IsKeptTerm mine
mine_kept = (tt, kept_colours, tt)

theirs_kept : IsKeptTerm theirs
theirs_kept = ((tt, tt), kept_colours, tt)

either-IsKept : IsKept either
either-IsKept = (kept_colours, ((tt, (tt, tt, (tt, tt, tt))), (mine_kept, (theirs_kept, tt))))

print_tree-parse_example : parse_tree_core either_text ≡ ok either
print_tree-parse_example = print_tree-parse either 200 either_text either_printed refl either-IsKept

abbrev flag : BartAttrs
flag = (codes "k", scalar (boolean true)) ∷ []

abbrev swap : ExchangeTerm
swap = record { to = me; resource = flag; from = requester }

abbrev swap_text : Str
swap_text = codes "(resource:(k:true), exchange:(to:me, resource:(k:true), from:requester))"

abbrev swap_tree : RuleTree
swap_tree = record { resource = flag; condition = none; exchange = some (term swap) }

abbrev swap_blocks : RuleAst
swap_blocks = record {
  resource = flag;
  condition = none;
  exchange = some (record { connector = and_; terms = swap ∷ [] });
}

swap_widened : to_tree swap_blocks ≡ ok swap_tree
unfolding to_tree group_node flatten bare_or_group term_nodes
swap_widened = refl

swap_printed : print_tree swap_tree 80 ≡ ok swap_text
unfolding print_tree require_resource emit_attrs emit_entry emit_unless validate_attr_key is_name
    is_name_start is_name_part is_digit includes str_eq join format_attr format_value format_scalar
    rule_text condition_clause exchange_clause exchange_to_bart node_to_bart term_to_bart
    participant_to_bart key_separator_of
swap_printed = refl

swap_printed_blocks : print_rule swap_blocks 80 ≡ ok swap_text
unfolding print_rule
swap_printed_blocks = ap (λ m. m >>= λ tree. print_tree tree 80) swap_widened ∙ swap_printed

kept_flag : IsKeptPattern flag
kept_flag = ((tt, tt), (colours_new, tt))

swap_normal :
    normalize_exchange (record { connector = and_; terms = swap ∷ [] })
    ≡ record { connector = and_; terms = swap ∷ [] }
unfolding normalize_exchange is_and
swap_normal = refl

print_rule-parse_rule_example : parse_rule swap_text ≡ ok swap_blocks
print_rule-parse_rule_example =
    print_rule-parse_rule swap_blocks swap_text swap_printed_blocks refl
      (kept_flag, (((tt, kept_flag, tt), tt), swap_normal))
