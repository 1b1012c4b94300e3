-- ===== src/Frontend/Rule/Shapes.antt =====
-- About groupNode of app/frontend/src/lib/bart/rule.ts: the shape of the groups that it builds.
use bart_share.Prelude.{refl, false, ◌≡◌}
use bart_share.Frontend.Rule.{
  Connector, and_, or_, is_and, same_connector, ExchangeNode, term, group, ExchangeNodes, end, node,
  append_nodes, flatten, bare_or_group, group_node,
}

-- A node in the printer's one form: each group has at least two children, none of them a group with
-- the same connector.
abbrev pub Foreign : Connector → ExchangeNode → Type 0
Foreign c (term t) = Unit {0}
Foreign c (group d ns) = same_connector d c ≡ false

abbrev pub HasTwo : ExchangeNodes → Type 0
HasTwo (node n (node m ns)) = Unit {0}
HasTwo _ = ⊥

abbrev pub HasOne : ExchangeNodes → Type 0
HasOne (node n ns) = Unit {0}
HasOne end = ⊥

abbrev mutual
  pub IsTidy : ExchangeNode → Type 0
  IsTidy (term t) = Unit {0}
  IsTidy (group c ns) = HasTwo ns × AreChildren c ns

  pub AreChildren : Connector → ExchangeNodes → Type 0
  AreChildren c end = Unit {0}
  AreChildren c (node n ns) = IsTidy n × Foreign c n × AreChildren c ns

-- Every node of the list is tidy.
abbrev pub AreTidy : ExchangeNodes → Type 0
AreTidy end = Unit {0}
AreTidy (node n ns) = IsTidy n × AreTidy ns

append_nodes-AreChildren :
    (c : Connector) (ns ms : ExchangeNodes)
    → AreChildren c ns
    → AreChildren c ms
    → AreChildren c (append_nodes ns ms)
unfolding append_nodes
append_nodes-AreChildren c end ms a b = b
append_nodes-AreChildren c (node n ns) ms (t, f, a) b = (t, f, append_nodes-AreChildren c ns ms a b)

append_nodes-HasOne : (ns ms : ExchangeNodes) → HasTwo ns → HasOne (append_nodes ns ms)
unfolding append_nodes
append_nodes-HasOne (node n (node m ns)) ms h = tt
append_nodes-HasOne (node n end) ms h = absurd h
append_nodes-HasOne end ms h = absurd h

flatten-AreChildren :
    (c : Connector) (ns : ExchangeNodes) → AreTidy ns → AreChildren c (flatten c ns)
unfolding flatten same_connector is_and
flatten-AreChildren c end h = tt
flatten-AreChildren c (node (term t) ns) (_, h) = (tt, tt, flatten-AreChildren c ns h)
flatten-AreChildren and_ (node (group and_ ms) ns) ((two, m), h) =
    append_nodes-AreChildren and_ ms (flatten and_ ns) m (flatten-AreChildren and_ ns h)
flatten-AreChildren or_ (node (group or_ ms) ns) ((two, m), h) =
    append_nodes-AreChildren or_ ms (flatten or_ ns) m (flatten-AreChildren or_ ns h)
flatten-AreChildren and_ (node (group or_ ms) ns) (m, h) = (m, refl, flatten-AreChildren and_ ns h)
flatten-AreChildren or_ (node (group and_ ms) ns) (m, h) = (m, refl, flatten-AreChildren or_ ns h)

flatten-HasOne :
    (c : Connector) (ns : ExchangeNodes) → AreTidy ns → HasOne ns → HasOne (flatten c ns)
unfolding flatten same_connector is_and
flatten-HasOne c end h one = one
flatten-HasOne c (node (term t) ns) h one = tt
flatten-HasOne and_ (node (group and_ ms) ns) ((two, m), h) one =
    append_nodes-HasOne ms (flatten and_ ns) two
flatten-HasOne or_ (node (group or_ ms) ns) ((two, m), h) one =
    append_nodes-HasOne ms (flatten or_ ns) two
flatten-HasOne and_ (node (group or_ ms) ns) h one = tt
flatten-HasOne or_ (node (group and_ ms) ns) h one = tt

bare_or_group-IsTidy :
    (c : Connector) (ns : ExchangeNodes)
    → AreChildren c ns
    → HasOne ns
    → IsTidy (bare_or_group c ns)
unfolding bare_or_group
bare_or_group-IsTidy c end h one = absurd one
bare_or_group-IsTidy c (node n end) (t, _, _) one = t
bare_or_group-IsTidy c (node n (node m ns)) h one = (tt, h)

-- From children in the printer's one form, at least one, groupNode builds a node in that form: no
-- group has fewer than two children or a child with its own connector.
pub group_node-IsTidy :
    (c : Connector) (ns : ExchangeNodes) → AreTidy ns → HasOne ns → IsTidy (group_node c ns)
unfolding group_node
group_node-IsTidy c ns h one =
    bare_or_group-IsTidy c (flatten c ns) (flatten-AreChildren c ns h) (flatten-HasOne c ns h one)
