-- ===== src/Frontend/Frames.antt =====
-- app/frontend/src/lib/bart/frames.ts: the diagram's steps as the tree that is drawn; the steps are
-- those of diagram.ts.
pub mod Markers
pub mod Terms
use bart_share.Prelude.{ℕ, Bool, List, [], ◌∷◌, Option, none, some}
use bart_share.Text.{Str}
use bart_share.Attrs.{BartAttrs}
use bart_share.Frontend.Causes.{Cause}

pub data FrameOperator : Type 0 where
  and_ or_ single : FrameOperator

pub data Quantifier : Type 0 where
  any_ all_ : Quantifier

-- The steps that are no markers.
pub data DrawnStep : Type 0 where
  request :
      (level source target : ℕ)
      → (resource : BartAttrs) → (outcome : Option Bool) → (cause : Option Cause)
      → (granted_by : Option Str) → DrawnStep
  candidates :
      (level source : ℕ)
      → (quantifier : Quantifier) → (pattern_ : BartAttrs) → (matched : List ℕ) → DrawnStep
  cycle : (level source target : ℕ) → (resource : BartAttrs) → DrawnStep

pub record FrameHead : Type 0 where
  pub policy : ℕ
  pub operator : FrameOperator
  pub rule : Str

pub data DiagramStep : Type 0 where
  step : DrawnStep → DiagramStep
  frame_open : FrameHead → DiagramStep
  frame_separator : DiagramStep
  frame_close : Option Bool → DiagramStep

-- `DiagramNode` and `DiagramNode[]`.
mutual
  pub data DiagramNode : Type 0 where
    drawn : DrawnStep → DiagramNode
    frame : FrameHead → Option Bool → DiagramNodes → DiagramNode
    separator : FrameOperator → DiagramNode

  pub data DiagramNodes : Type 0 where
    no_nodes : DiagramNodes
    first_node : DiagramNode → DiagramNodes → DiagramNodes

-- `nodes.push(node)`
unfoldable pub push_node : DiagramNode → DiagramNodes → DiagramNodes
push_node n no_nodes = first_node n no_nodes
push_node n (first_node m ms) = first_node m (push_node n ms)

-- A frame on the stack. It is the last child of the one below it, which gets no other child while
-- this one is open; so it is kept here, and put there once it is closed.
pub record OpenFrame : Type 0 where
  pub head : FrameHead
  pub children : DiagramNodes

-- `roots` and `stack`, the top of the stack first.
pub record Nesting : Type 0 where
  pub roots : DiagramNodes
  pub stack : List OpenFrame

unfoldable pub put_into : DiagramNode → OpenFrame → OpenFrame
unfolding push_node
put_into n f = record { head = f.head; children = push_node n f.children }

-- `target().push(node)`
unfoldable pub put_node : DiagramNode → DiagramNodes → List OpenFrame → Nesting
unfolding push_node put_into
put_node n roots [] = record { roots = push_node n roots; stack = [] }
put_node n roots (f ∷ fs) = record { roots = roots; stack = put_into n f ∷ fs }

unfoldable pub closed_frame : Option Bool → OpenFrame → DiagramNode
closed_frame outcome f = frame f.head outcome f.children

-- The body of the loop. A close without an open frame is dropped, a separator too.
unfoldable pub take_step : DiagramStep → DiagramNodes → List OpenFrame → Nesting
unfolding put_node closed_frame
take_step (step s) roots stack = put_node (drawn s) roots stack
take_step (frame_open head) roots stack = record {
  roots = roots;
  stack = record { head = head; children = no_nodes } ∷ stack;
}
take_step frame_separator roots [] = record { roots = roots; stack = [] }
take_step frame_separator roots (f ∷ fs) = put_node (separator f.head.operator) roots (f ∷ fs)
take_step (frame_close outcome) roots [] = record { roots = roots; stack = [] }
take_step (frame_close outcome) roots (f ∷ fs) = put_node (closed_frame outcome f) roots fs

unfoldable pub take_steps : List DiagramStep → Nesting → Nesting
unfolding take_step
take_steps [] p = p
take_steps (s ∷ steps) p = take_steps steps (take_step s p.roots p.stack)

-- What is still open has no outcome.
unfoldable pub close_below : DiagramNode → DiagramNodes → List OpenFrame → DiagramNodes
unfolding push_node put_into closed_frame
close_below n roots [] = push_node n roots
close_below n roots (f ∷ fs) = close_below (closed_frame none (put_into n f)) roots fs

unfoldable pub close_all : DiagramNodes → List OpenFrame → DiagramNodes
unfolding close_below closed_frame
close_all roots [] = roots
close_all roots (f ∷ fs) = close_below (closed_frame none f) roots fs

unfoldable pub nest : List DiagramStep → DiagramNodes
unfolding take_steps close_all
nest steps =
    let last = take_steps steps (record { roots = no_nodes; stack = [] }) in
    close_all last.roots last.stack

-- The loop of `terms`: the blocks behind the last one, which is the first argument.
unfoldable pub blocks_of : DiagramNodes → DiagramNodes → List DiagramNodes
unfolding push_node
blocks_of block no_nodes = block ∷ []
blocks_of block (first_node (separator operator) ns) = block ∷ blocks_of no_nodes ns
blocks_of block (first_node (drawn s) ns) = blocks_of (push_node (drawn s) block) ns
blocks_of block (first_node (frame head outcome children) ns) =
    blocks_of (push_node (frame head outcome children) block) ns

unfoldable pub without_empty : List DiagramNodes → List DiagramNodes
without_empty [] = []
without_empty (no_nodes ∷ blocks) = without_empty blocks
without_empty (first_node n ns ∷ blocks) = first_node n ns ∷ without_empty blocks

unfoldable pub terms : DiagramNodes → List DiagramNodes
unfolding blocks_of without_empty
terms children = without_empty (blocks_of no_nodes children)
