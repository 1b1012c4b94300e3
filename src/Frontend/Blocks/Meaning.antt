-- ===== src/Frontend/Blocks/Meaning.antt =====
-- About flattenNode and the comparisons of app/frontend/src/lib/bart/parse.ts: what blocks demand.
use mathlib.Core.Path.{subst}
use bart_share.Prelude.{
  ◌⊎◌, refl, sym, ◌∙◌, ap, arith, [], ◌∷◌, true, none, some, ok, inl, inr, ok_injective, >>=-eq-ok,
  List, Option, Bool, ◌≡◌,
}
use bart_share.Frontend.Rule.{
  ExchangeTerm, Connector, and_, or_, ExchangeGroup, is_and, same_connector, normalize_exchange,
  ExchangeNode, term, group, ExchangeNodes, node, end, term_nodes,
}
use bart_share.Frontend.Rule.Groups.{fold_terms, means, means_all}
use bart_share.Frontend.Rule.Widening.{means_all-term_nodes}
use bart_share.Frontend.Blocks.{
  terms_of, flatten_node, flatten_exchange, same_term, same_terms, same_exchange, same_node,
  same_nodes, same_optional_node,
}

pub terms_of-term_nodes :
    (ns : ExchangeNodes) (ts : List ExchangeTerm) → terms_of ns ≡ ok ts → ns ≡ term_nodes ts
unfolding terms_of term_nodes
terms_of-term_nodes end [] h = refl
terms_of-term_nodes end (t ∷ ts) h = cc
terms_of-term_nodes (node (group c ms) ns) ts h = cc
terms_of-term_nodes (node (term t) ns) ts h =
    let (rest, read, same) = >>=-eq-ok (terms_of ns) _ h in
    ap (node (term t)) (terms_of-term_nodes ns rest read)
    ∙ ap term_nodes (ok_injective (t ∷ rest) ts same)

normalize_exchange-cases :
    (g : ExchangeGroup)
    → (normalize_exchange g ≡ g)
      ⊎ ((t : ExchangeTerm) × (g.connector ≡ or_)
          × (g.terms ≡ t ∷ [])
          × (normalize_exchange g ≡ record { connector = and_; terms = t ∷ [] }))
unfolding normalize_exchange is_and
normalize_exchange-cases g = go g.connector g.terms
  where
    go :
        (c : Connector) (ts : List ExchangeTerm)
        → let n : ExchangeGroup = record { connector = c; terms = ts } in
          (normalize_exchange n ≡ n)
          ⊎ ((t : ExchangeTerm) × (c ≡ or_)
              × (ts ≡ t ∷ [])
              × (normalize_exchange n ≡ record { connector = and_; terms = t ∷ [] }))
    go and_ ts = inl (ground arith)
    go or_ [] = inl (ground arith)
    go or_ (t ∷ []) = inr (t, refl, refl, ground arith)
    go or_ (t ∷ u ∷ ts) = inl (ground arith)

module _ (holds : ExchangeTerm → Bool) where
  -- The truth of a flat exchange.
  abbrev pub flat : ExchangeGroup → Bool
  flat g = fold_terms holds g.connector g.terms

  flat-normalize_exchange : (g : ExchangeGroup) → flat (normalize_exchange g) ≡ flat g
  flat-normalize_exchange g = elim (normalize_exchange-cases g) [
    | inl same ↦ ap flat same
    | inr (t, or_is, one, same) ↦ rw (same, or_is, one) (ground arith)
  ]

  -- Where a node has a block form, its terms under the connector hold exactly when the node does.
  pub flatten_node-means :
      (n : ExchangeNode) (g : ExchangeGroup) → flatten_node n ≡ ok g → means holds n ≡ flat g
  unfolding flatten_node means
  flatten_node-means (term t) g h =
      subst (λ d. holds t ≡ flat d) (ok_injective (record { connector = and_; terms = t ∷ [] }) g h)
        (ground arith)
  flatten_node-means (group c ns) g h =
      let (ts, read, same) = >>=-eq-ok (terms_of ns) _ h in
      ap (means_all holds c) (terms_of-term_nodes ns ts read)
      ∙ (means_all-term_nodes holds c ts
          ∙ (sym (flat-normalize_exchange (record { connector = c; terms = ts }))
              ∙ ap flat (
                  ok_injective (normalize_exchange (record { connector = c; terms = ts })) g same)))

  -- The truth of an exchange that may be missing.
  abbrev pub demanded : Option ExchangeNode → Bool
  demanded none = true
  demanded (some n) = means holds n

  abbrev pub demanded_flat : Option ExchangeGroup → Bool
  demanded_flat none = true
  demanded_flat (some g) = flat g

  pub flatten_exchange-demanded :
      (n : Option ExchangeNode) (g : Option ExchangeGroup)
      → flatten_exchange n ≡ ok g
      → demanded n ≡ demanded_flat g
  unfolding flatten_exchange
  flatten_exchange-demanded none none h = refl
  flatten_exchange-demanded none (some g) h = cc
  flatten_exchange-demanded (some n) g h =
      let (d, read, same) = >>=-eq-ok (flatten_node n) _ h in
      flatten_node-means n d read ∙ ap demanded_flat (ok_injective (some d) g same)

  -- A truth that does not tell terms apart which the comparison takes for the same.
  module _ (respects : (a b : ExchangeTerm) → same_term a b ≡ true → holds a ≡ holds b) where
    same_terms-fold :
        (c : Connector) (as_ bs : List ExchangeTerm)
        → same_terms as_ bs ≡ true
        → fold_terms holds c as_ ≡ fold_terms holds c bs
    unfolding same_terms
    same_terms-fold c [] [] h = refl
    same_terms-fold c [] (b ∷ bs) h = cc
    same_terms-fold c (a ∷ as_) [] h = cc
    same_terms-fold c (a ∷ as_) (b ∷ bs) h =
        cc (respects a b (ground arith), same_terms-fold c as_ bs (ground arith))

    same_connector-is : (c d : Connector) → same_connector c d ≡ true → c ≡ d
    unfolding same_connector is_and
    same_connector-is and_ and_ h = refl
    same_connector-is or_ or_ h = refl
    same_connector-is and_ or_ h = cc
    same_connector-is or_ and_ h = cc

    pub same_exchange-demanded :
        (g d : Option ExchangeGroup) → same_exchange g d ≡ true → demanded_flat g ≡ demanded_flat d
    unfolding same_exchange
    same_exchange-demanded none none h = refl
    same_exchange-demanded none (some d) h = cc
    same_exchange-demanded (some g) none h = cc
    same_exchange-demanded (some g) (some d) h =
        same_terms-fold g.connector g.terms d.terms (ground arith)
        ∙ ap (λ c. fold_terms holds c d.terms)
            (same_connector-is g.connector d.connector (ground arith))

    mutual
      unfolding same_node same_nodes means means_all

      same_node-means : (n m : ExchangeNode) → same_node n m ≡ true → means holds n ≡ means holds m
      same_node-means (term a) (term b) h = respects a b h
      same_node-means (term a) (group d ms) h = cc
      same_node-means (group c ns) (term b) h = cc
      same_node-means (group c ns) (group d ms) h =
          same_nodes-means c ns ms (ground arith)
          ∙ ap (λ e. means_all holds e ms) (same_connector-is c d (ground arith))

      same_nodes-means :
          (c : Connector) (ns ms : ExchangeNodes)
          → same_nodes ns ms ≡ true
          → means_all holds c ns ≡ means_all holds c ms
      same_nodes-means c end end h = refl
      same_nodes-means c end (node m ms) h = cc
      same_nodes-means c (node n ns) end h = cc
      same_nodes-means c (node n ns) (node m ms) h =
          cc (same_node-means n m (ground arith), same_nodes-means c ns ms (ground arith))

    pub same_optional_node-demanded :
        (n m : Option ExchangeNode) → same_optional_node n m ≡ true → demanded n ≡ demanded m
    unfolding same_optional_node
    same_optional_node-demanded none none h = refl
    same_optional_node-demanded none (some m) h = cc
    same_optional_node-demanded (some n) none h = cc
    same_optional_node-demanded (some n) (some m) h = same_node-means n m h
