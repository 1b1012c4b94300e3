-- ===== src/Frontend/Blocks.antt =====
-- app/frontend/src/lib/bart/parse.ts: the fixed-point guards and the projection onto blocks.
pub mod Meaning
pub mod RoundTrip
pub mod Same
pub mod Policy
pub mod Guards
use bart_share.Prelude.{
  if◌then◌else◌, ◌==◌, ◌&&◌, ◌>>=◌, Outcome, Option, Bool, List, [], ◌∷◌, none, some, length, all,
  true, false, ok, throw,
}
use bart_share.Text.{Str, codes, str_eq}
use bart_share.Attrs.{BartScalar, BartValue, scalar, collection, BartAttrs, own}
use bart_share.Matcher.{scalar_eq}
use bart_share.Frontend.Rule.{
  Participant, me, requester, any_of, all_of, ExchangeTerm, and_, ExchangeGroup, RuleAst,
  same_connector, normalize_exchange, ExchangeNode, term, group, ExchangeNodes, node, end, RuleTree,
  printed, not_printed, try_print_rule, try_print_tree,
}
use bart_share.Frontend.Parser.{not_representable_reason}
use bart_share.Frontend.Clauses.{Refusal, refused, no_fuel, parse_tree_core}

unfoldable pub mixed_exchange_reason : Str
mixed_exchange_reason =
    codes
      "This rule mixes \"and\" and \"or\" in its exchange, which the block editor cannot show. Edit it here in Advanced."

-- `a.every((v, i) => v === b[i])` with equal lengths.
unfoldable pub same_scalars : List BartScalar → List BartScalar → Bool
same_scalars [] [] = true
same_scalars (v ∷ vs) (w ∷ ws) = scalar_eq v w && same_scalars vs ws
same_scalars _ _ = false

unfoldable pub same_value : BartValue → BartValue → Bool
unfolding same_scalars
same_value (collection vs) (collection ws) = same_scalars vs ws
same_value (scalar v) (scalar w) = scalar_eq v w
same_value _ _ = false

-- A name that `b` only inherits passes the source's `in`, and its value equals no Bart value.
unfoldable pub has_same : BartAttrs → Str × BartValue → Bool
unfolding same_value
has_same b (k, v) = elim (own k b) [ none ↦ false | some w ↦ same_value v w ]

unfoldable pub same_attrs : BartAttrs → BartAttrs → Bool
unfolding has_same
same_attrs a b = length a == length b && all (has_same b) a

unfoldable pub same_participant : Participant → Participant → Bool
unfolding same_attrs
same_participant me me = true
same_participant requester requester = true
same_participant (any_of a) (any_of b) = same_attrs a b
same_participant (all_of a) (all_of b) = same_attrs a b
same_participant _ _ = false

unfoldable pub same_term : ExchangeTerm → ExchangeTerm → Bool
unfolding same_participant
same_term a b =
    same_participant a.to b.to
    && (same_participant a.from b.from && same_attrs a.resource b.resource)

unfoldable pub same_terms : List ExchangeTerm → List ExchangeTerm → Bool
unfolding same_term
same_terms [] [] = true
same_terms (a ∷ as_) (b ∷ bs) = same_term a b && same_terms as_ bs
same_terms _ _ = false

unfoldable pub same_exchange : Option ExchangeGroup → Option ExchangeGroup → Bool
unfolding same_terms
same_exchange none none = true
same_exchange (some a) (some b) =
    same_connector a.connector b.connector && same_terms a.terms b.terms
same_exchange _ _ = false

-- `a ?? ''`
unfoldable pub condition_text : Option Str → Str
condition_text none = []
condition_text (some s) = s

unfoldable pub same_rule : RuleAst → RuleAst → Bool
unfolding same_exchange condition_text
same_rule a b =
    same_attrs a.resource b.resource
    && (str_eq (condition_text a.condition) (condition_text b.condition)
        && same_exchange a.exchange b.exchange)

unfoldable mutual
  unfolding same_term

  pub same_node : ExchangeNode → ExchangeNode → Bool
  same_node (term a) (term b) = same_term a b
  same_node (group c ns) (group d ms) = same_connector c d && same_nodes ns ms
  same_node _ _ = false

  pub same_nodes : ExchangeNodes → ExchangeNodes → Bool
  same_nodes end end = true
  same_nodes (node n ns) (node m ms) = same_node n m && same_nodes ns ms
  same_nodes _ _ = false

unfoldable pub same_optional_node : Option ExchangeNode → Option ExchangeNode → Bool
unfolding same_node
same_optional_node none none = true
same_optional_node (some a) (some b) = same_node a b
same_optional_node _ _ = false

unfoldable pub same_tree : RuleTree → RuleTree → Bool
unfolding same_optional_node condition_text
same_tree a b =
    same_attrs a.resource b.resource
    && (str_eq (condition_text a.condition) (condition_text b.condition)
        && same_optional_node a.exchange b.exchange)

abbrev pub not_representable : Refusal
not_representable = refused not_representable_reason none

-- Whether the text parses to the same tree.
unfoldable pub reparses_to : RuleTree → Str → Bool
unfolding same_tree
reparses_to tree text = elim (parse_tree_core text) [
  | ok again ↦ same_tree again tree
  | throw e ↦ false
]

unfoldable pub guard_tree : RuleTree → Outcome Refusal RuleTree
unfolding reparses_to
guard_tree tree = elim (try_print_tree tree 80) [
  | not_printed message ↦ throw not_representable
  | printed text ↦ if reparses_to tree text then ok tree else throw not_representable
]

unfoldable pub parse_syntax : Str → Outcome Refusal RuleTree
unfolding guard_tree
parse_syntax source = parse_tree_core source >>= λ tree. guard_tree tree

-- The children of a group as terms.
unfoldable pub terms_of : ExchangeNodes → Outcome Refusal (List ExchangeTerm)
terms_of end = ok []
terms_of (node (term t) ns) = terms_of ns >>= λ ts. ok (t ∷ ts)
terms_of (node (group c ms) ns) = throw (refused mixed_exchange_reason none)

unfoldable pub flatten_node : ExchangeNode → Outcome Refusal ExchangeGroup
unfolding terms_of
flatten_node (term t) = ok (record { connector = and_; terms = t ∷ [] })
flatten_node (group c ns) =
    terms_of ns >>= λ ts. ok (normalize_exchange (record { connector = c; terms = ts }))

unfoldable pub flatten_exchange : Option ExchangeNode → Outcome Refusal (Option ExchangeGroup)
unfolding flatten_node
flatten_exchange none = ok none
flatten_exchange (some n) = flatten_node n >>= λ g. ok (some g)

unfoldable pub to_blocks_core : RuleTree → Outcome Refusal RuleAst
unfolding flatten_exchange
to_blocks_core tree = flatten_exchange tree.exchange >>= λ exchange.
    ok (record { resource = tree.resource; condition = tree.condition; exchange = exchange })

-- Whether the text parses to a tree with the same blocks.
unfoldable pub reprojects_to : RuleAst → Str → Bool
unfolding to_blocks_core same_rule
reprojects_to ast text = elim (parse_tree_core text >>= λ tree. to_blocks_core tree) [
  | ok again ↦ same_rule again ast
  | throw e ↦ false
]

unfoldable pub guard_blocks : RuleAst → Outcome Refusal RuleAst
unfolding reprojects_to
guard_blocks ast = elim (try_print_rule ast 80) [
  | not_printed message ↦ throw not_representable
  | printed text ↦ if reprojects_to ast text then ok ast else throw not_representable
]

unfoldable pub to_blocks : RuleTree → Outcome Refusal RuleAst
unfolding guard_blocks
to_blocks tree = to_blocks_core tree >>= λ ast. guard_blocks ast

unfoldable pub parse_rule : Str → Outcome Refusal RuleAst
unfolding parse_syntax to_blocks
parse_rule source = parse_syntax source >>= λ tree. to_blocks tree

pub record PolicyRule : Type 0 where
  pub id : Str
  pub source : Str
  pub ast : Option RuleAst
  pub pattern : Option BartAttrs
  pub advanced_reason : Option Str

unfoldable pub value_of : {A : Type 0} → Outcome Refusal A → Option A
value_of (ok a) = some a
value_of (throw e) = none

-- `reason`; the model alone has a refusal without one.
unfoldable pub reason_of : {A : Type 0} → Outcome Refusal A → Option Str
reason_of (ok a) = none
reason_of (throw (refused reason at_)) = some reason
reason_of (throw no_fuel) = none

unfoldable pub to_policy_rule : Str → Str → PolicyRule
unfolding value_of reason_of
to_policy_rule id source =
    let syntax = parse_syntax source in
    let blocks = syntax >>= λ tree. to_blocks tree in
    record {
      id = id;
      source = source;
      ast = value_of blocks;
      pattern = value_of (syntax >>= λ tree. ok tree.resource);
      advanced_reason = reason_of blocks;
    }
