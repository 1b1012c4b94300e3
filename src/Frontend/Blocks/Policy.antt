-- ===== src/Frontend/Blocks/Policy.antt =====
-- About toPolicyRule of app/frontend/src/lib/bart/parse.ts: the rules of the policy page.
use mathlib.Core.Path.{subst}
use bart_share.Prelude.{
  ap, sym, ◌∙◌, ok_injective, >>=-eq-ok, refl, true, false, none, some, ok, throw, inl, inr, Option,
  Bool, ◌≡◌, ◌>>=◌, ◌⊎◌, Outcome, if◌then◌else◌,
}
use bart_share.Text.{Str, starts_with}
use bart_share.Frontend.Lexer.{Position}
use bart_share.Frontend.Parser.{not_representable_reason}
use bart_share.Frontend.Rule.{
  term, group, ExchangeNode, ExchangeNodes, end, node, RuleAst, RuleTree, try_print_tree,
  try_print_rule,
}
use bart_share.Frontend.Clauses.{
  is_syntax_reason, is_some, Refusal, refused, no_fuel, parse_tree_core,
}
use bart_share.Frontend.Clauses.Ends.{Answers, parse_tree_core-Answers}
use bart_share.Frontend.Blocks.{
  mixed_exchange_reason, reparses_to, guard_tree, parse_syntax, terms_of, flatten_node,
  flatten_exchange, to_blocks_core, reprojects_to, guard_blocks, to_blocks, parse_rule, value_of,
  reason_of, to_policy_rule,
}
use bart_share.Frontend.Blocks.Guards.{
  PrintedRule-cases, parse_syntax-ReadsBack, parse_rule-ReadsBack,
}

-- A refusal has its reason, a syntax error's exactly if it has a position.
abbrev pub HasReason : {A : Type 0} → Outcome Refusal A → Type 0
HasReason (ok a) = Unit {0}
HasReason (throw (refused reason at_)) = is_syntax_reason reason ≡ is_some at_
HasReason (throw no_fuel) = ⊥

HasReason->>= :
    {A B : Type 0} (m : Outcome Refusal A) (f : A → Outcome Refusal B)
    → HasReason m
    → ((a : A) → HasReason (f a))
    → HasReason (m >>= f)
HasReason->>= (ok a) f h k = k a
HasReason->>= (throw (refused reason at_)) f h k = h
HasReason->>= (throw no_fuel) f h k = h

HasReason-if :
    {A : Type 0} (b : Bool) (m n : Outcome Refusal A)
    → HasReason m
    → HasReason n
    → HasReason (if b then m else n)
HasReason-if true m n h k = h
HasReason-if false m n h k = k

parse_tree_core-HasReason : (source : Str) → HasReason (parse_tree_core source)
parse_tree_core-HasReason source = go (parse_tree_core source) (parse_tree_core-Answers source)
  where
    go : (m : Outcome Refusal RuleTree) → Answers m → HasReason m
    go (ok tree) h = tt
    go (throw (refused reason at_)) h = h
    go (throw no_fuel) h = h

fixed_reasons :
    (is_syntax_reason not_representable_reason ≡ is_some {A = Position} none)
    × (is_syntax_reason mixed_exchange_reason ≡ is_some {A = Position} none)
unfolding is_syntax_reason is_some not_representable_reason mixed_exchange_reason starts_with
fixed_reasons = (refl, refl)

guard_tree-HasReason : (tree : RuleTree) → HasReason (guard_tree tree)
unfolding guard_tree
guard_tree-HasReason tree = elim (PrintedRule-cases (try_print_tree tree 80)) [
  | inr (e, fails) ↦ rw (fails, guard_tree) fixed_reasons.0
  | inl (text, written) ↦
      rw (written, guard_tree) (HasReason-if (reparses_to tree text) _ _ tt fixed_reasons.0)
]

guard_blocks-HasReason : (ast : RuleAst) → HasReason (guard_blocks ast)
unfolding guard_blocks
guard_blocks-HasReason ast = elim (PrintedRule-cases (try_print_rule ast 80)) [
  | inr (e, fails) ↦ rw (fails, guard_blocks) fixed_reasons.0
  | inl (text, written) ↦
      rw (written, guard_blocks) (HasReason-if (reprojects_to ast text) _ _ tt fixed_reasons.0)
]

terms_of-HasReason : (ns : ExchangeNodes) → HasReason (terms_of ns)
unfolding terms_of
terms_of-HasReason end = tt
terms_of-HasReason (node (term t) ns) =
    HasReason->>= (terms_of ns) _ (terms_of-HasReason ns) (λ ts. tt)
terms_of-HasReason (node (group c ms) ns) = fixed_reasons.1

flatten_exchange-HasReason : (n : Option ExchangeNode) → HasReason (flatten_exchange n)
unfolding flatten_exchange flatten_node
flatten_exchange-HasReason none = tt
flatten_exchange-HasReason (some (term t)) = tt
flatten_exchange-HasReason (some (group c ns)) =
    HasReason->>= (terms_of ns >>= _) _
      (HasReason->>= (terms_of ns) _ (terms_of-HasReason ns) (λ ts. tt)) (λ g. tt)

parse_syntax-HasReason : (source : Str) → HasReason (parse_syntax source)
unfolding parse_syntax
parse_syntax-HasReason source =
    HasReason->>= (parse_tree_core source) guard_tree (parse_tree_core-HasReason source)
      guard_tree-HasReason

parse_rule-HasReason : (source : Str) → HasReason (parse_rule source)
unfolding parse_rule to_blocks to_blocks_core
parse_rule-HasReason source =
    HasReason->>= (parse_syntax source) to_blocks (parse_syntax-HasReason source) (λ tree.
      HasReason->>= (to_blocks_core tree) guard_blocks
        (HasReason->>= (flatten_exchange tree.exchange) _ (flatten_exchange-HasReason tree.exchange)
          (λ g. tt))
        guard_blocks-HasReason)

-- The string alone tells a syntax error from a rule that the blocks cannot show: the reason for which a
-- text does not open as blocks has the form of a syntax error's exactly if it comes with a position.
pub parse_rule-syntax_reason :
    (source reason : Str) (at_ : Option Position)
    → parse_rule source ≡ throw (refused reason at_)
    → is_syntax_reason reason ≡ is_some at_
parse_rule-syntax_reason source reason at_ h = subst HasReason h (parse_rule-HasReason source)

HasReason-cases :
    {A : Type 0} (m : Outcome Refusal A)
    → HasReason m
    → ((a : A) × (m ≡ ok a)) ⊎ ((reason : Str) × (reason_of m ≡ some reason) × (value_of m ≡ none))
unfolding value_of reason_of
HasReason-cases (ok a) h = inl (a, refl)
HasReason-cases (throw (refused reason at_)) h = inr (reason, refl, refl)
HasReason-cases (throw no_fuel) h = absurd h

blocks-pattern :
    (source : Str) (ast : RuleAst)
    → parse_rule source ≡ ok ast
    → value_of (parse_syntax source >>= λ tree. ok tree.resource) ≡ some ast.resource
unfolding parse_rule value_of
blocks-pattern source ast h =
    let (tree, syntax, _) = >>=-eq-ok (parse_syntax source) to_blocks h in
    let (core, _) = parse_syntax-ReadsBack source tree syntax in
    let (other, read, (resource, _, _), _) = parse_rule-ReadsBack source ast h in
    let same : tree ≡ other = ok_injective tree other (sym core ∙ read) in
    rw syntax (ap some (ap RuleTree.resource same ∙ sym resource))

-- Every rule of the policy page either has blocks, then also the pattern, which is their resource, and no
-- reason; or has no blocks, and a reason for that. Its text and its id are kept in both cases.
pub to_policy_rule-cases :
    (id source : Str)
    → let rule = to_policy_rule id source in
      (rule.id ≡ id)
      × (rule.source ≡ source)
      × (((ast : RuleAst) × (rule.ast ≡ some ast)
            × (rule.pattern ≡ some ast.resource)
            × (rule.advanced_reason ≡ none))
          ⊎ ((reason : Str) × (rule.ast ≡ none) × (rule.advanced_reason ≡ some reason)))
unfolding to_policy_rule parse_rule value_of reason_of
to_policy_rule-cases id source = (
  refl,
  refl,
  elim (HasReason-cases (parse_rule source) (parse_rule-HasReason source)) [
    | inl (ast, is) ↦ inl (ast, ap value_of is, blocks-pattern source ast is, ap reason_of is)
    | inr (reason, why, nothing) ↦ inr (reason, nothing, why)
  ],
)
