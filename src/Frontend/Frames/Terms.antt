-- ===== src/Frontend/Frames/Terms.antt =====
-- About terms of app/frontend/src/lib/bart/frames.ts: the operands of a frame.
use bart_share.Prelude.{◌≡◌, refl, sym, ap, ◌∙◌, List, [], ◌∷◌}
use bart_share.Frontend.Frames.{
  FrameOperator, drawn, frame, separator, DiagramNodes, no_nodes, first_node, push_node, blocks_of,
  without_empty, terms,
}
use bart_share.Frontend.Frames.Markers.{joined, joined-push, joined-nothing}

abbrev pub HasNoSeparator : DiagramNodes → Type 0
HasNoSeparator no_nodes = Unit {0}
HasNoSeparator (first_node (separator operator) ns) = ⊥
HasNoSeparator (first_node (drawn s) ns) = HasNoSeparator ns
HasNoSeparator (first_node (frame head outcome children) ns) = HasNoSeparator ns

-- Operands: none empty, no separator among their nodes.
abbrev pub AreOperands : List DiagramNodes → Type 0
AreOperands [] = Unit {0}
AreOperands (no_nodes ∷ blocks) = ⊥
AreOperands (first_node n ns ∷ blocks) = HasNoSeparator (first_node n ns) × AreOperands blocks

-- The operands with a separator between each two.
abbrev pub separated : FrameOperator → List DiagramNodes → DiagramNodes
separated operator [] = no_nodes
separated operator (block ∷ []) = block
separated operator (block ∷ next ∷ blocks) =
    joined block (first_node (separator operator) (separated operator (next ∷ blocks)))

blocks_of-operand :
    (block ns : DiagramNodes) → HasNoSeparator ns → blocks_of block ns ≡ joined block ns ∷ []
unfolding blocks_of
blocks_of-operand block no_nodes h = ap (λ x. x ∷ []) (sym (joined-nothing block))
blocks_of-operand block (first_node (separator operator) ns) h = absurd h
blocks_of-operand block (first_node (drawn s) ns) h =
    blocks_of-operand (push_node (drawn s) block) ns h
    ∙ ap (λ x. x ∷ []) (joined-push (drawn s) block ns)
blocks_of-operand block (first_node (frame head outcome children) ns) h =
    blocks_of-operand (push_node (frame head outcome children) block) ns h
    ∙ ap (λ x. x ∷ []) (joined-push (frame head outcome children) block ns)

blocks_of-separator :
    (block ns rest : DiagramNodes) (operator : FrameOperator)
    → HasNoSeparator ns
    → blocks_of block (joined ns (first_node (separator operator) rest))
      ≡ joined block ns ∷ blocks_of no_nodes rest
unfolding blocks_of
blocks_of-separator block no_nodes rest operator h =
    ap (λ x. x ∷ blocks_of no_nodes rest) (sym (joined-nothing block))
blocks_of-separator block (first_node (separator other) ns) rest operator h = absurd h
blocks_of-separator block (first_node (drawn s) ns) rest operator h =
    blocks_of-separator (push_node (drawn s) block) ns rest operator h
    ∙ ap (λ x. x ∷ blocks_of no_nodes rest) (joined-push (drawn s) block ns)
blocks_of-separator block (first_node (frame head outcome children) ns) rest operator h =
    blocks_of-separator (push_node (frame head outcome children) block) ns rest operator h
    ∙ ap (λ x. x ∷ blocks_of no_nodes rest) (joined-push (frame head outcome children) block ns)

-- A frame's operands are found again: where none of them is empty or has a separator among its nodes,
-- splitting the nodes that they make with a separator between each two gives the same operands.
pub terms-separated :
    (operator : FrameOperator) (blocks : List DiagramNodes)
    → AreOperands blocks
    → terms (separated operator blocks) ≡ blocks
unfolding terms blocks_of without_empty
terms-separated operator [] h = refl
terms-separated operator (no_nodes ∷ blocks) h = absurd h
terms-separated operator (first_node n ns ∷ []) (h, hs) =
    ap without_empty (blocks_of-operand no_nodes (first_node n ns) h)
terms-separated operator (first_node n ns ∷ next ∷ blocks) (h, hs) =
    ap without_empty (
      blocks_of-separator no_nodes (first_node n ns) (separated operator (next ∷ blocks)) operator
        h)
    ∙ ap (◌∷◌ (first_node n ns)) (terms-separated operator (next ∷ blocks) hs)
