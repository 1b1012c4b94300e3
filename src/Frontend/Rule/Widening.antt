-- ===== src/Frontend/Rule/Widening.antt =====
-- About toTree of app/frontend/src/lib/bart/rule.ts: block rules as trees.
use bart_share.Prelude.{ok, Option, [], ◌∷◌, ◌∷◌, refl, ◌∙◌, ap, arith, List, ◌≡◌, Bool, some}
use bart_share.Text.{Str}
use bart_share.Attrs.{BartAttrs}
use bart_share.Prelude.{ap}
use bart_share.Frontend.Rule.{
  ExchangeTerm, Connector, and_, or_, ExchangeGroup, is_and, normalize_exchange, ExchangeNode,
  RuleTree, flatten, bare_or_group, group_node, term_nodes, to_tree,
}
use bart_share.Frontend.Rule.Groups.{means, means_all, fold_terms, combine, group_node-means}
use bart_share.Frontend.Rule.Shapes.{IsTidy, AreTidy, HasOne, group_node-IsTidy}

term_nodes-AreTidy : (ts : List ExchangeTerm) → AreTidy (term_nodes ts)
unfolding term_nodes
term_nodes-AreTidy [] = tt
term_nodes-AreTidy (t ∷ ts) = (tt, term_nodes-AreTidy ts)

pub means_all-term_nodes :
    (holds : ExchangeTerm → Bool) (c : Connector) (ts : List ExchangeTerm)
    → means_all holds c (term_nodes ts) ≡ fold_terms holds c ts
unfolding means means_all term_nodes
means_all-term_nodes holds c [] = refl
means_all-term_nodes holds c (t ∷ ts) = ap (combine c (holds t)) (means_all-term_nodes holds c ts)

tree_of :
    (resource : BartAttrs) (condition : Option Str) (c : Connector) (ts : List ExchangeTerm)
    (tree : RuleTree)
    → to_tree (record {
      resource = resource;
      condition = condition;
      exchange = some (record { connector = c; terms = ts });
    })
      ≡ ok tree
    → HasOne (term_nodes ts) × (tree.exchange ≡ some (group_node c (term_nodes ts)))
unfolding to_tree term_nodes
tree_of resource condition c [] tree h = cc
tree_of resource condition c (t ∷ ts) tree h = (tt, ground arith)

-- Widening a rule of the block editor with an exchange, where it succeeds, gives a tree whose exchange is
-- in the printer's one form and demands, whichever terms hold, what the flat group demands: all of its
-- terms, or one of them.
pub to_tree-means :
    (resource : BartAttrs) (condition : Option Str) (c : Connector) (ts : List ExchangeTerm)
    (tree : RuleTree)
    → to_tree (record {
      resource = resource;
      condition = condition;
      exchange = some (record { connector = c; terms = ts });
    })
      ≡ ok tree
    → (n : ExchangeNode) × (tree.exchange ≡ some n)
      × IsTidy n
      × ((holds : ExchangeTerm → Bool) → means holds n ≡ fold_terms holds c ts)
to_tree-means resource condition c ts tree h =
    let (one, there) = tree_of resource condition c ts tree h in
    (
      group_node c (term_nodes ts),
      there,
      group_node-IsTidy c (term_nodes ts) (term_nodes-AreTidy ts) one,
      λ holds. group_node-means holds c (term_nodes ts) ∙ means_all-term_nodes holds c ts,
    )

-- Normalising an exchange never changes the tree that its rule widens to, and done twice it is done
-- once.
pub normalize_exchange-to_tree :
    (resource : BartAttrs) (condition : Option Str) (c : Connector) (ts : List ExchangeTerm)
    → let g : ExchangeGroup = record { connector = c; terms = ts } in
      (to_tree (record {
        resource = resource;
        condition = condition;
        exchange = some (normalize_exchange g);
      })
        ≡ to_tree (record { resource = resource; condition = condition; exchange = some g }))
      × (normalize_exchange (normalize_exchange g) ≡ normalize_exchange g)
unfolding normalize_exchange is_and to_tree group_node flatten bare_or_group term_nodes
normalize_exchange-to_tree resource condition and_ [] = (refl, refl)
normalize_exchange-to_tree resource condition or_ [] = ground arith
normalize_exchange-to_tree resource condition and_ (t ∷ []) = ground arith
normalize_exchange-to_tree resource condition or_ (t ∷ []) = ground arith
normalize_exchange-to_tree resource condition and_ (t ∷ u ∷ ts) = ground arith
normalize_exchange-to_tree resource condition or_ (t ∷ u ∷ ts) = ground arith
