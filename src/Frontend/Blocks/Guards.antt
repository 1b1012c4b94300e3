-- ===== src/Frontend/Blocks/Guards.antt =====
-- About parseSyntax, toBlocks and toPolicyRule of app/frontend/src/lib/bart/parse.ts: what the guards
-- let through.
use mathlib.Core.Path.{subst}
use bart_share.Prelude.{
  refl, sym, ◌∙◌, ap, arith, true, ok, throw, inl, inr, Bool-cases, ok_injective, >>=-eq-ok,
  Outcome-cases, Bool, ◌≡◌, ◌⊎◌, Outcome,
}
use bart_share.Text.{Str, str_eq_iff}
use bart_share.Frontend.Rule.{
  ExchangeTerm, RuleAst, RuleTree, print_tree, print_rule, printed, not_printed, PrintedRule,
  caught, try_print_tree, try_print_rule,
}
use bart_share.Frontend.Clauses.{parse_tree_core}
use bart_share.Frontend.Blocks.{
  same_attrs, same_term, same_rule, same_tree, condition_text, reparses_to, guard_tree,
  parse_syntax, flatten_exchange, to_blocks_core, reprojects_to, guard_blocks, to_blocks,
  parse_rule,
}
use bart_share.Frontend.Blocks.Meaning.{
  demanded, demanded_flat, flatten_exchange-demanded, same_exchange-demanded,
  same_optional_node-demanded,
}

-- The text is read as a tree with attributes of the same keys and values, the same condition, and an
-- exchange that demands the same, whichever terms hold; a term may be read as one that the comparison
-- takes for the same.
abbrev pub ReadsBack : Str → RuleTree → Type 0
ReadsBack text tree =
    (again : RuleTree) × (parse_tree_core text ≡ ok again)
    × (same_attrs again.resource tree.resource ≡ true)
    × (condition_text again.condition ≡ condition_text tree.condition)
    × ((holds : ExchangeTerm → Bool)
        → ((a b : ExchangeTerm) → same_term a b ≡ true → holds a ≡ holds b)
        → demanded holds again.exchange ≡ demanded holds tree.exchange)

same_tree-ReadsBack :
    (text : Str) (again tree : RuleTree)
    → parse_tree_core text ≡ ok again
    → same_tree again tree ≡ true
    → ReadsBack text tree
unfolding same_tree
same_tree-ReadsBack text again tree read same = (
  again,
  read,
  ground arith,
  (str_eq_iff (condition_text again.condition) (condition_text tree.condition)).0 (ground arith),
  λ holds respects.
      same_optional_node-demanded holds respects again.exchange tree.exchange (ground arith),
)

printed_text : (m : Outcome Str Str) (text : Str) → caught m ≡ printed text → m ≡ ok text
unfolding caught
printed_text (ok s) text h = cc
printed_text (throw e) text h = cc

pub PrintedRule-cases :
    (p : PrintedRule) → ((text : Str) × (p ≡ printed text)) ⊎ ((e : Str) × (p ≡ not_printed e))
PrintedRule-cases (printed text) = inl (text, refl)
PrintedRule-cases (not_printed e) = inr (e, refl)

reparses_to-ReadsBack :
    (tree : RuleTree) (text : Str) → reparses_to tree text ≡ true → ReadsBack text tree
unfolding reparses_to
reparses_to-ReadsBack tree text h = elim (Outcome-cases (parse_tree_core text)) [
  | inr (e, fails) ↦ absurd (ground arith)
  | inl (again, read) ↦ same_tree-ReadsBack text again tree read (ground arith)
]

guard_tree-ok :
    (tree out : RuleTree)
    → guard_tree tree ≡ ok out
    → (out ≡ tree) × ((text : Str) × (print_tree tree 80 ≡ ok text) × ReadsBack text tree)
unfolding guard_tree try_print_tree
guard_tree-ok tree out h = elim (PrintedRule-cases (try_print_tree tree 80)) [
  | inr (e, fails) ↦ absurd (ground arith)
  | inl (text, written) ↦ elim (Bool-cases (reparses_to tree text)) [
    | inr no_ ↦ absurd (ground arith)
    | inl yes_ ↦ (
      ground arith,
      (text, printed_text (print_tree tree 80) text written, reparses_to-ReadsBack tree text yes_),
    )
  ]
]

-- What Format relies on: where the first stage accepts a text, its tree is printed, and the printed text
-- is read as a tree with the same attributes, the same condition and an exchange that demands the same.
pub parse_syntax-ReadsBack :
    (source : Str) (tree : RuleTree)
    → parse_syntax source ≡ ok tree
    → (parse_tree_core source ≡ ok tree)
      × ((text : Str) × (print_tree tree 80 ≡ ok text) × ReadsBack text tree)
unfolding parse_syntax
parse_syntax-ReadsBack source tree h =
    let (parsed, read, guarded) = >>=-eq-ok (parse_tree_core source) guard_tree h in
    let (same, back) = guard_tree-ok parsed tree guarded in
    (
      read ∙ ap ok (sym same),
      subst (λ t. (text : Str) × (print_tree t 80 ≡ ok text) × ReadsBack text t) (sym same) back,
    )

-- The blocks are those of the tree: the same attributes, the same condition, and an exchange that
-- demands the same.
abbrev pub AreBlocksOf : RuleTree → RuleAst → Type 0
AreBlocksOf tree ast =
    (ast.resource ≡ tree.resource)
    × (ast.condition ≡ tree.condition)
    × ((holds : ExchangeTerm → Bool)
        → demanded_flat holds ast.exchange ≡ demanded holds tree.exchange)

to_blocks_core-AreBlocksOf :
    (tree : RuleTree) (ast : RuleAst) → to_blocks_core tree ≡ ok ast → AreBlocksOf tree ast
unfolding to_blocks_core
to_blocks_core-AreBlocksOf tree ast h =
    let (exchange, flat, same) = >>=-eq-ok (flatten_exchange tree.exchange) _ h in
    let is =
      ok_injective
        (record { resource = tree.resource; condition = tree.condition; exchange = exchange }) ast
        same in
    subst (AreBlocksOf tree) is
      (refl, refl, λ holds. sym (flatten_exchange-demanded holds tree.exchange exchange flat))

same_rule-ReadsBack :
    (text : Str) (tree again : RuleTree) (ast reread : RuleAst)
    → AreBlocksOf tree ast
    → parse_tree_core text ≡ ok again
    → AreBlocksOf again reread
    → same_rule reread ast ≡ true
    → ReadsBack text tree
unfolding same_rule
same_rule-ReadsBack text tree again ast reread (r, c, d) read (r1, c1, d1) same =
    let attrs : same_attrs reread.resource ast.resource ≡ true = ground arith in
    let condition : condition_text reread.condition ≡ condition_text ast.condition =
      (str_eq_iff (condition_text reread.condition) (condition_text ast.condition)).0
        (ground arith) in
    (
      again,
      read,
      cc (attrs, r, r1),
      cc (condition, c, c1),
      λ holds respects.
          sym (d1 holds)
          ∙ (same_exchange-demanded holds respects reread.exchange ast.exchange (ground arith)
              ∙ d holds),
    )

reprojects_to-ReadsBack :
    (tree : RuleTree) (ast : RuleAst) (text : Str)
    → AreBlocksOf tree ast
    → reprojects_to ast text ≡ true
    → ReadsBack text tree
unfolding reprojects_to
reprojects_to-ReadsBack tree ast text of h = elim (Outcome-cases (parse_tree_core text)) [
  | inr (e, fails) ↦ absurd (ground arith)
  | inl (again, read) ↦ elim (Outcome-cases (to_blocks_core again)) [
    | inr (e, fails) ↦ absurd (ground arith)
    | inl (reread, projected) ↦
        same_rule-ReadsBack text tree again ast reread of read
          (to_blocks_core-AreBlocksOf again reread projected) (ground arith)
  ]
]

guard_blocks-ok :
    (ast out : RuleAst)
    → guard_blocks ast ≡ ok out
    → (out ≡ ast) × ((text : Str) × (print_rule ast 80 ≡ ok text) × (reprojects_to ast text ≡ true))
unfolding guard_blocks try_print_rule
guard_blocks-ok ast out h = elim (PrintedRule-cases (try_print_rule ast 80)) [
  | inr (e, fails) ↦ absurd (ground arith)
  | inl (text, written) ↦ elim (Bool-cases (reprojects_to ast text)) [
    | inr no_ ↦ absurd (ground arith)
    | inl yes_ ↦ (ground arith, (text, printed_text (print_rule ast 80) text written, yes_))
  ]
]

-- Saving what the block editor opened keeps the rule: where a text opens as blocks, they are the blocks
-- of the tree that it is read as, and the text that they are saved as is read as a tree with the same
-- attributes, the same condition and an exchange that demands the same, whichever terms hold.
pub parse_rule-ReadsBack :
    (source : Str) (ast : RuleAst)
    → parse_rule source ≡ ok ast
    → (tree : RuleTree) × (parse_tree_core source ≡ ok tree)
      × AreBlocksOf tree ast
      × ((text : Str) × (print_rule ast 80 ≡ ok text) × ReadsBack text tree)
unfolding parse_rule to_blocks
parse_rule-ReadsBack source ast h =
    let (tree, read, blocks) = >>=-eq-ok (parse_syntax source) to_blocks h in
    let (core, _) = parse_syntax-ReadsBack source tree read in
    let (projected, projects, guarded) = >>=-eq-ok (to_blocks_core tree) guard_blocks blocks in
    let (same, (text, written, back)) = guard_blocks-ok projected ast guarded in
    let of = to_blocks_core-AreBlocksOf tree projected projects in
    (
      tree,
      core,
      subst (AreBlocksOf tree) (sym same) of,
      (
        text,
        ap (λ a. print_rule a 80) same ∙ written,
        reprojects_to-ReadsBack tree projected text of back,
      ),
    )
