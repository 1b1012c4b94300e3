-- ===== src/Frontend/Rule/Groups.antt =====
-- About groupNode of app/frontend/src/lib/bart/rule.ts: what an exchange demands.
use bart_share.Prelude.{
  [], ◌∷◌, ◌∷◌, ◌||◌, refl, false, ◌∙◌, ap, sym, arith, List, ◌&&◌, true, ◌≡◌, Bool,
}
use bart_share.Prelude.{ap, sym}
use bart_share.Frontend.Rule.{
  ExchangeTerm, Connector, and_, or_, is_and, same_connector, ExchangeNode, term, group,
  ExchangeNodes, end, node, append_nodes, flatten, bare_or_group, group_node,
}

-- The truth of a group of no terms, and of one term with the rest of its group.
abbrev pub unit : Connector → Bool
unit and_ = true
unit or_ = false

abbrev pub combine : Connector → Bool → Bool → Bool
combine and_ a b = a && b
combine or_ a b = a || b

-- The truth of terms under one connector, for a truth of each term.
abbrev pub fold_terms : (ExchangeTerm → Bool) → Connector → List ExchangeTerm → Bool
fold_terms holds c [] = unit c
fold_terms holds c (t ∷ ts) = combine c (holds t) (fold_terms holds c ts)

module _ (holds : ExchangeTerm → Bool) where
  -- The truth of a node and of the children of a group.
  unfoldable mutual
    pub means : ExchangeNode → Bool
    means (term t) = holds t
    means (group c ns) = means_all c ns

    pub means_all : Connector → ExchangeNodes → Bool
    means_all c end = unit c
    means_all c (node n ns) = combine c (means n) (means_all c ns)

  combine_assoc :
      (c : Connector) (x y z : Bool) → combine c x (combine c y z) ≡ combine c (combine c x y) z
  combine_assoc and_ x y z = ground arith
  combine_assoc or_ x y z = ground arith

  combine-unit : (c : Connector) (x : Bool) → combine c x (unit c) ≡ x
  combine-unit and_ x = ground arith
  combine-unit or_ x = ground arith

  unit-combine : (c : Connector) (x : Bool) → combine c (unit c) x ≡ x
  unit-combine and_ x = refl
  unit-combine or_ x = refl

  means_all-append_nodes :
      (c : Connector) (ns ms : ExchangeNodes)
      → means_all c (append_nodes ns ms) ≡ combine c (means_all c ns) (means_all c ms)
  unfolding means_all append_nodes
  means_all-append_nodes c end ms = sym (unit-combine c (means_all c ms))
  means_all-append_nodes c (node n ns) ms =
      ap (combine c (means n)) (means_all-append_nodes c ns ms)
      ∙ combine_assoc c (means n) (means_all c ns) (means_all c ms)

  means_all-flatten :
      (c : Connector) (ns : ExchangeNodes) → means_all c (flatten c ns) ≡ means_all c ns
  unfolding means means_all flatten same_connector is_and
  means_all-flatten c end = refl
  means_all-flatten c (node (term t) ns) = ap (combine c (holds t)) (means_all-flatten c ns)
  means_all-flatten and_ (node (group and_ ms) ns) =
      means_all-append_nodes and_ ms (flatten and_ ns)
      ∙ ap (combine and_ (means_all and_ ms)) (means_all-flatten and_ ns)
  means_all-flatten or_ (node (group or_ ms) ns) =
      means_all-append_nodes or_ ms (flatten or_ ns)
      ∙ ap (combine or_ (means_all or_ ms)) (means_all-flatten or_ ns)
  means_all-flatten and_ (node (group or_ ms) ns) =
      ap (combine and_ (means_all or_ ms)) (means_all-flatten and_ ns)
  means_all-flatten or_ (node (group and_ ms) ns) =
      ap (combine or_ (means_all and_ ms)) (means_all-flatten or_ ns)

  means-bare_or_group :
      (c : Connector) (ns : ExchangeNodes) → means (bare_or_group c ns) ≡ means_all c ns
  unfolding means means_all bare_or_group
  means-bare_or_group c end = refl
  means-bare_or_group c (node n end) = sym (combine-unit c (means n))
  means-bare_or_group c (node n (node m ns)) = refl

  -- Collapsing a group keeps what it demands: whichever terms hold, the node that groupNode builds
  -- holds exactly when the children hold together under the connector.
  pub group_node-means :
      (c : Connector) (ns : ExchangeNodes) → means (group_node c ns) ≡ means_all c ns
  unfolding group_node
  group_node-means c ns = means-bare_or_group c (flatten c ns) ∙ means_all-flatten c ns
