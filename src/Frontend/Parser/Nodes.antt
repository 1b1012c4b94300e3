-- ===== src/Frontend/Parser/Nodes.antt =====
-- About parseOr of app/frontend/src/lib/bart/parse.ts: what it reads of given tokens.
use mathlib.Core.Path.{subst}
use bart_share.Prelude.{
  ℕ, zero, suc, false, List, ◌∷◌, ◌++◌, ◌≡◌, ◌<◌, ok, arith, refl, ap, sym, ◌∙◌,
}
use bart_share.Text.{str_eq_refl}
use bart_share.Frontend.Lexer.Words.{Piece}
use bart_share.Frontend.Rule.{
  Connector, and_, or_, is_and, same_connector, ExchangeNode, term, group, ExchangeNodes, node, end,
  append_nodes, flatten, bare_or_group, group_node, connector_text,
}
use bart_share.Frontend.Rule.Shapes.{IsTidy, AreChildren, HasTwo}
use bart_share.Frontend.Rule.Tokens.{word, node_pieces, children_pieces}
use bart_share.Frontend.Cursor.{Cursor, Parsed, next, is_token, fuel_of}
use bart_share.Frontend.Cursor.Moves.{left}
use bart_share.Frontend.Parser.{more_children, parse_connected}
use bart_share.Frontend.Parser.Standing.{Stands, Stands-append, Stands-left}
use bart_share.Frontend.Parser.Entries.{here-Stands}

append_nodes-end : (ns : ExchangeNodes) → append_nodes ns end ≡ ns
unfolding append_nodes
append_nodes-end end = refl
append_nodes-end (node n ns) = ap (node n) (append_nodes-end ns)

bare_or_group-two :
    (c : Connector) (ns : ExchangeNodes) → HasTwo ns → bare_or_group c ns ≡ group c ns
unfolding bare_or_group
bare_or_group-two c (node n (node m ns)) h = refl
bare_or_group-two c (node n end) h = absurd h
bare_or_group-two c end h = absurd h

-- A tidy node alone is not wrapped.
pub group_node-one : (c : Connector) (n : ExchangeNode) → IsTidy n → group_node c (node n end) ≡ n
unfolding group_node flatten bare_or_group same_connector is_and
group_node-one c (term t) h = refl
group_node-one and_ (group or_ ms) h = refl
group_node-one or_ (group and_ ms) h = refl
group_node-one and_ (group and_ ms) (two, h) =
    ap (bare_or_group and_) (append_nodes-end ms) ∙ bare_or_group-two and_ ms two
group_node-one or_ (group or_ ms) (two, h) =
    ap (bare_or_group or_) (append_nodes-end ms) ∙ bare_or_group-two or_ ms two

flatten-children : (c : Connector) (ns : ExchangeNodes) → AreChildren c ns → flatten c ns ≡ ns
unfolding flatten
flatten-children c end h = refl
flatten-children c (node (term t) ns) (_, _, h) = ap (node (term t)) (flatten-children c ns h)
flatten-children c (node (group d ms) ns) (_, foreign, h) =
    rw (foreign, flatten) (ap (node (group d ms)) (flatten-children c ns h))

-- The children of a tidy group make the group.
pub group_node-children :
    (c : Connector) (ns : ExchangeNodes)
    → HasTwo ns
    → AreChildren c ns
    → group_node c ns ≡ group c ns
unfolding group_node
group_node-children c ns two h =
    ap (bare_or_group c) (flatten-children c ns h) ∙ bare_or_group-two c ns two

-- A parser of children, up to a bound on the tokens left and before what may follow a child.
abbrev pub Child : (Cursor → Parsed ExchangeNode) → ℕ → (Cursor → Type 0) → ExchangeNode → Type 0
Child child bound P n =
    (c d : Cursor) → Stands (node_pieces n) c d → left c < bound → P d → child c ≡ ok (n, d)

abbrev pub AllChild :
    (Cursor → Parsed ExchangeNode) → ℕ → (Cursor → Type 0) → ExchangeNodes → Type 0
AllChild child bound P end = Unit {0}
AllChild child bound P (node n ns) = Child child bound P n × AllChild child bound P ns

module _ (connector : Connector) (child : Cursor → Parsed ExchangeNode) (bound : ℕ)
    (P : Cursor → Type 0)
    (after : (ps : List Piece) (c d : Cursor)
      → Stands (word (connector_text connector) ∷ ps) c d
      → P c) where
  follows :
      (ns : ExchangeNodes) (c d : Cursor) → Stands (children_pieces connector ns) c d → P d → P c
  follows end c d h p = subst P (sym h) p
  follows (node n ns) c d h p = after (node_pieces n ++ children_pieces connector ns) c d h

  more_children-Stands :
      (ns : ExchangeNodes) (fuel : ℕ) (c d : Cursor)
      → Stands (children_pieces connector ns) c d
      → AllChild child bound P ns
      → left c < bound
      → left c < fuel
      → P d
      → is_token (connector_text connector) d.current ≡ false
      → more_children fuel (connector_text connector) child c ≡ ok (ns, d)
  unfolding more_children
  more_children-Stands ns zero c d h k b f p e = absurd (omega arith)
  more_children-Stands end (suc fuel) c d h k b f p e =
      let stop : is_token (connector_text connector) c.current ≡ false =
        ap (λ (x : Cursor). is_token (connector_text connector) x.current) h ∙ e in
      rw (stop, more_children) (ap (λ (x : Cursor). ok (end, x)) h)
  more_children-Stands (node n ns) (suc fuel) c d h (k, ks) b f p e =
      let go_on =
        here-Stands (connector_text connector) (word (connector_text connector))
          (node_pieces n ++ children_pieces connector ns) c d h
        ∙ str_eq_refl (connector_text connector) in
      let (x, first, more) =
        Stands-append (node_pieces n) (children_pieces connector ns) (next c) d h.3 in
      let moved = Stands-left (node_pieces n) (next c) x first in
      let one = k (next c) x first (omega (arith, h.2)) (follows ns x d more p) in
      let rest =
        more_children-Stands ns fuel x d more ks (omega (arith, moved, h.2))
          (omega (arith, moved, h.2)) p e in
      rw (go_on, more_children, one, rest) refl

  pub parse_connected-Stands :
      (n : ExchangeNode) (ns : ExchangeNodes) (c d : Cursor)
      → Stands (node_pieces n ++ children_pieces connector ns) c d
      → Child child bound P n
      → AllChild child bound P ns
      → left c < bound
      → P d
      → is_token (connector_text connector) d.current ≡ false
      → parse_connected connector child c ≡ ok (group_node connector (node n ns), d)
  unfolding parse_connected fuel_of
  parse_connected-Stands n ns c d h k ks b p e =
      let (x, first, more) = Stands-append (node_pieces n) (children_pieces connector ns) c d h in
      let moved = Stands-left (node_pieces n) c x first in
      let one = k c x first b (follows ns x d more p) in
      let rest =
        more_children-Stands ns (suc (left x)) x d more ks (omega (arith, moved)) (omega arith) p
          e in
      rw (one, rest) refl

  -- Where no word of the connector follows.
  pub parse_connected-one :
      (n : ExchangeNode) (c d : Cursor)
      → child c ≡ ok (n, d)
      → is_token (connector_text connector) d.current ≡ false
      → parse_connected connector child c ≡ ok (group_node connector (node n end), d)
  unfolding parse_connected more_children fuel_of
  parse_connected-one n c d one e = rw (one, e, more_children) refl
