-- ===== src/Frontend/Blocks/Same.antt =====
-- About sameTree and sameRule of app/frontend/src/lib/bart/parse.ts: rules compared with themselves.
use mathlib.Core.Path.{subst}
use mathlib.Core.List.{append_assoc}
use bart_share.Prelude.{
  true, false, List, [], ◌∷◌, ◌++◌, ◌≡◌, all, arith, refl, none, some, Option, inl, inr, Bool-cases,
}
use bart_share.Text.{Str, str_eq, str_eq_refl}
use bart_share.Number.{
  Number, nan, infinity, decimal, pos, negsuc, number_text, number_eq, bool_eq, digits_eq, point_eq,
}
use bart_share.Emitter.Grammar.{is_number_text, is_unsigned}
use bart_share.Attrs.{BartScalar, text, num, boolean, BartValue, scalar, collection, BartAttrs, own}
use bart_share.Matcher.{scalar_eq}
use bart_share.Frontend.Rule.{
  Participant, me, requester, any_of, all_of, ExchangeTerm, Connector, and_, or_, ExchangeNode,
  term, group, ExchangeNodes, node, end, RuleTree, same_connector, is_and,
}
use bart_share.Frontend.Rule.Pieces.{IsReadable, AreReadable, HasReadable, HaveReadable}
use bart_share.Frontend.Parser.Attributes.{not_in-own}
use bart_share.Frontend.Parser.Entries.{AreNew}
use bart_share.Frontend.Parser.Terms.{AreKept, IsKeptPattern, IsKeptTo, IsKeptFrom, IsKeptTerm}
use bart_share.Frontend.Parser.Primary.{KeptTerms, AllKept}
use bart_share.Frontend.Clauses.RoundTrip.{IsKept, IsKeptExchange}
use bart_share.Frontend.Blocks.{
  same_scalars, same_value, has_same, same_attrs, same_participant, same_term, same_node,
  same_nodes, same_optional_node, same_tree, condition_text,
}

number_eq_self : (n : Number) → is_number_text (number_text n) ≡ true → number_eq n n ≡ true
unfolding number_eq number_text is_number_text is_unsigned bool_eq digits_eq point_eq
number_eq_self nan h = cc
number_eq_self (infinity true) h = refl
number_eq_self (infinity false) h = refl
number_eq_self (decimal neg [] p) h = refl
number_eq_self (decimal true (d ∷ ds) (pos n)) h = ground (arith, str_eq_refl (d ∷ ds))
number_eq_self (decimal true (d ∷ ds) (negsuc n)) h = ground (arith, str_eq_refl (d ∷ ds))
number_eq_self (decimal false (d ∷ ds) (pos n)) h = ground (arith, str_eq_refl (d ∷ ds))
number_eq_self (decimal false (d ∷ ds) (negsuc n)) h = ground (arith, str_eq_refl (d ∷ ds))

scalar_eq_self : (v : BartScalar) → IsReadable v → scalar_eq v v ≡ true
unfolding scalar_eq bool_eq
scalar_eq_self (text s) r = str_eq_refl s
scalar_eq_self (num n) (r, _) = number_eq_self n r
scalar_eq_self (boolean true) r = refl
scalar_eq_self (boolean false) r = refl

same_scalars_self : (vs : List BartScalar) → AreReadable vs → same_scalars vs vs ≡ true
unfolding same_scalars
same_scalars_self [] r = refl
same_scalars_self (v ∷ vs) (r, rs) = rw (scalar_eq_self v r) (same_scalars_self vs rs)

same_value_self : (v : BartValue) → HasReadable v → same_value v v ≡ true
unfolding same_value
same_value_self (scalar v) r = scalar_eq_self v r
same_value_self (collection vs) r = same_scalars_self vs r

own-behind :
    (k : Str) (v : BartValue) (into rest : BartAttrs)
    → own k into ≡ none
    → own k (into ++ (k, v) ∷ rest) ≡ some v
unfolding own
own-behind k v [] rest h = rw (str_eq_refl k) refl
own-behind k v ((j, w) ∷ into) rest h = elim (Bool-cases (str_eq k j)) [
  | inl same ↦ absurd (ground arith)
  | inr other ↦ rw other (own-behind k v into rest (ground arith))
]

has_same-found :
    (a : BartAttrs) (k : Str) (v : BartValue)
    → own k a ≡ some v
    → HasReadable v
    → has_same a (k, v) ≡ true
unfolding has_same
has_same-found a k v found r = rw (found, has_same) (same_value_self v r)

has_same-rest :
    (into attrs : BartAttrs)
    → HaveReadable attrs
    → AreNew into attrs
    → all (has_same (into ++ attrs)) attrs ≡ true
has_same-rest into [] r n = refl
has_same-rest into ((k, v) ∷ attrs) (r, rs) (n, ns) =
    let found = own-behind k v into attrs (not_in-own k into n) in
    let rest =
      subst (λ a. all (has_same a) attrs ≡ true) (append_assoc into ((k, v) ∷ []) attrs)
        (has_same-rest (into ++ (k, v) ∷ []) attrs rs ns) in
    rw (has_same-found (into ++ (k, v) ∷ attrs) k v found r) rest

pub same_attrs_self : (attrs : BartAttrs) → AreKept attrs → same_attrs attrs attrs ≡ true
unfolding same_attrs
same_attrs_self attrs (r, n) = let rest = has_same-rest [] attrs r n in ground (arith, rest)

pub same_pattern_self : (attrs : BartAttrs) → IsKeptPattern attrs → same_attrs attrs attrs ≡ true
unfolding same_attrs
same_pattern_self [] h = absurd h
same_pattern_self (a ∷ attrs) h = same_attrs_self (a ∷ attrs) h

same_to_self : (p : Participant) → IsKeptTo p → same_participant p p ≡ true
unfolding same_participant
same_to_self me h = refl
same_to_self requester h = refl
same_to_self (any_of attrs) h = same_attrs_self attrs h
same_to_self (all_of attrs) h = same_attrs_self attrs h

same_from_self : (p : Participant) → IsKeptFrom p → same_participant p p ≡ true
unfolding same_participant
same_from_self me h = refl
same_from_self requester h = refl
same_from_self (any_of attrs) h = same_attrs_self attrs h
same_from_self (all_of attrs) h = same_attrs_self attrs h

pub same_term_self : (t : ExchangeTerm) → IsKeptTerm t → same_term t t ≡ true
unfolding same_term
same_term_self t (to, resource, from) =
    rw (same_to_self t.to to, same_from_self t.from from) (same_pattern_self t.resource resource)

pub same_connector_self : (c : Connector) → same_connector c c ≡ true
unfolding same_connector is_and
same_connector_self and_ = refl
same_connector_self or_ = refl

mutual
  unfolding same_node same_nodes

  same_node_self : (n : ExchangeNode) → KeptTerms n → same_node n n ≡ true
  same_node_self (term t) h = same_term_self t h
  same_node_self (group c ns) h = rw (same_connector_self c) (same_nodes_self ns h)

  same_nodes_self : (ns : ExchangeNodes) → AllKept ns → same_nodes ns ns ≡ true
  same_nodes_self end h = refl
  same_nodes_self (node n ns) (h, hs) = rw (same_node_self n h) (same_nodes_self ns hs)

same_optional_node_self :
    (n : Option ExchangeNode) → IsKeptExchange n → same_optional_node n n ≡ true
unfolding same_optional_node
same_optional_node_self none h = refl
same_optional_node_self (some n) (_, h) = same_node_self n h

pub same_tree_self : (tree : RuleTree) → IsKept tree → same_tree tree tree ≡ true
unfolding same_tree
same_tree_self tree (k, ks) =
    rw (same_pattern_self tree.resource k, str_eq_refl (condition_text tree.condition))
      (same_optional_node_self tree.exchange ks)
