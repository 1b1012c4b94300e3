-- ===== src/Tests/Editor.antt =====
-- The editor's tokenizer, keys, printer and names.
use bart_share.Prelude.{arith, List, ◌==◌, Bool, ◌≡◌, [], ◌∷◌, none, some, true, ok, refl, length}
use bart_share.Frontend.Naming.{PartyRef, has_lane}
use bart_share.Prelude.{In, inl, inr, ap}
use bart_share.Text.{codes, str_eq, includes, join, is_digit}
use bart_share.Attrs.{BartScalar, scalar, BartAttrs}
use bart_share.Emitter
use bart_share.Emitter.{quote, escape_all}
use bart_share.Emitter.Grammar.{is_name, is_keyword, is_name_part, is_name_start}
use bart_share.Matcher.{matches}
use bart_share.Frontend.Lexer.{lex}
use bart_share.Frontend.Lexer.Places.{Good, lex_places}
use bart_share.Frontend.Format.{emit_attrs}
use bart_share.Frontend.Format.Agreement.{emit_attrs_agrees}
use bart_share.Frontend.Cover.{covered_by}
use bart_share.Frontend.Cover.Same.{covered_by_same}
use bart_share.Frontend.Rule.{
  flatten, bare_or_group, Participant, ExchangeTerm, and_, or_, ExchangeGroup, ExchangeNode, term,
  group, ExchangeNodes, node, end, RuleTree, group_node, term_nodes, to_tree, print_tree,
}
use bart_share.Frontend.Rule.Groups.{means, means_all, fold_terms, group_node-means}
use bart_share.Frontend.Rule.Shapes.{IsTidy, group_node-IsTidy}
use bart_share.Frontend.Rule.Widening.{to_tree-means}
use bart_share.Frontend.Rule.Printing.{unspaced, viewed, print_tree-unspaced}

lex_places_example : Good (codes "(a:\"b\")\n # end") 0 (lex (codes "(a:\"b\")\n # end"))
lex_places_example = lex_places (codes "(a:\"b\")\n # end")

abbrev book : BartAttrs
book = (codes "type", scalar (BartScalar.text (codes "a\"b"))) ∷ []

backend_run : Emitter.emit_attrs book ≡ ok (codes "(type:\"a\\\"b\")")
unfolding Emitter.emit_attrs Emitter.emit_attr Emitter.emit_value Emitter.emit_scalar quote
    escape_all is_name is_name_part is_name_start is_digit is_keyword includes str_eq join
backend_run = refl

emit_attrs_agrees_example : emit_attrs book ≡ ok (codes "(type:\"a\\\"b\")")
emit_attrs_agrees_example = emit_attrs_agrees book (codes "(type:\"a\\\"b\")") backend_run

covered_by_same_example : covered_by book book ≡ matches book book
covered_by_same_example = covered_by_same book book

abbrev give : ExchangeTerm
give = record { to = Participant.me; resource = book; from = Participant.requester }

abbrev ask_all : ExchangeTerm
ask_all = record { to = Participant.me; resource = book; from = Participant.all_of [] }

abbrev nested : ExchangeNodes
nested = node (group and_ (term_nodes (give ∷ ask_all ∷ []))) (node (term give) end)

abbrev from_all : ExchangeTerm → Bool
from_all t = length t.resource == 1

group_node-means_example : means from_all (group_node and_ nested) ≡ means_all from_all and_ nested
group_node-means_example = group_node-means from_all and_ nested

group_node-IsTidy_example : IsTidy (group_node and_ nested)
unfolding term_nodes
group_node-IsTidy_example =
    group_node-IsTidy and_ nested ((tt, (tt, tt, (tt, tt, tt))), (tt, tt)) tt

abbrev two : RuleTree
two = record {
  resource = book;
  condition = none;
  exchange = some (group or_ (node (term give) (node (term ask_all) end)));
}

tree_run :
    to_tree (record {
      resource = book;
      condition = none;
      exchange = some (record { connector = or_; terms = give ∷ ask_all ∷ [] });
    })
    ≡ ok two
unfolding to_tree group_node term_nodes flatten bare_or_group
tree_run = refl

to_tree-means_example :
    (n : ExchangeNode) × (two.exchange ≡ some n)
    × IsTidy n
    × ((holds : ExchangeTerm → Bool) → means holds n ≡ fold_terms holds or_ (give ∷ ask_all ∷ []))
to_tree-means_example = to_tree-means book none or_ (give ∷ ask_all ∷ []) two tree_run

abbrev lone : ExchangeGroup
lone = record { connector = or_; terms = give ∷ [] }

print_tree-unspaced_example :
    viewed unspaced (print_tree two 80) ≡ viewed unspaced (print_tree two 20)
print_tree-unspaced_example = print_tree-unspaced two 80 20

abbrev parties : List PartyRef
parties = record { index = 1; lane = some 1 } ∷ record { index = 2; lane = none } ∷ []

caller_drawn : (p : PartyRef) → In p parties → p.index ≡ 1 → has_lane p ≡ true
unfolding has_lane
caller_drawn p (inl e) one = rw e refl
caller_drawn p (inr (inl e)) one =
    absurd (let two_ : p.index ≡ 2 = ap (λ (q : PartyRef). q.index) e in omega arith)
caller_drawn p (inr (inr f)) one = absurd f
