-- ===== src/Frontend/Frames/Markers.antt =====
-- About nest of app/frontend/src/lib/bart/frames.ts: the tree and its markers.
use bart_share.Prelude.{Bool, ◌≡◌, refl, sym, ap, ◌∙◌, List, [], ◌∷◌, Option, none, some}
use bart_share.Frontend.Frames.{
  FrameOperator, DiagramStep, step, frame_open, frame_separator, frame_close, DiagramNode, drawn,
  frame, separator, DiagramNodes, no_nodes, first_node, push_node, OpenFrame, Nesting, put_into,
  put_node, closed_frame, take_step, take_steps, close_below, close_all, nest, DrawnStep,
}

-- The steps of a tree, in front of others.
abbrev mutual
  pub steps_of : DiagramNode → List DiagramStep → List DiagramStep
  steps_of (drawn s) rest = step s ∷ rest
  steps_of (separator operator) rest = frame_separator ∷ rest
  steps_of (frame head outcome children) rest =
      frame_open head ∷ steps_of_all children (frame_close outcome ∷ rest)

  pub steps_of_all : DiagramNodes → List DiagramStep → List DiagramStep
  steps_of_all no_nodes rest = rest
  steps_of_all (first_node n ns) rest = steps_of n (steps_of_all ns rest)

-- A separator stands in a frame and names its operator.
abbrev mutual
  pub Fits : Option FrameOperator → DiagramNode → Type 0
  Fits around (drawn s) = Unit {0}
  Fits none (separator operator) = ⊥
  Fits (some outer) (separator operator) = operator ≡ outer
  Fits around (frame head outcome children) = AllFit (some head.operator) children

  pub AllFit : Option FrameOperator → DiagramNodes → Type 0
  AllFit around no_nodes = Unit {0}
  AllFit around (first_node n ns) = Fits around n × AllFit around ns

abbrev pub joined : DiagramNodes → DiagramNodes → DiagramNodes
joined no_nodes ns = ns
joined (first_node m ms) ns = first_node m (joined ms ns)

pub joined-push :
    (n : DiagramNode) (ms ns : DiagramNodes)
    → joined (push_node n ms) ns ≡ joined ms (first_node n ns)
unfolding push_node
joined-push n no_nodes ns = refl
joined-push n (first_node m ms) ns = ap (first_node m) (joined-push n ms ns)

pub joined-nothing : (ms : DiagramNodes) → joined ms no_nodes ≡ ms
joined-nothing no_nodes = refl
joined-nothing (first_node m ms) = ap (first_node m) (joined-nothing ms)

-- The operator of the innermost open frame.
abbrev around : List OpenFrame → Option FrameOperator
around [] = none
around (f ∷ fs) = some f.head.operator

-- All of the nodes put where the next one goes.
abbrev put_all : DiagramNodes → DiagramNodes → List OpenFrame → Nesting
put_all ns roots [] = record { roots = joined roots ns; stack = [] }
put_all ns roots (f ∷ fs) = record {
  roots = roots;
  stack = record { head = f.head; children = joined f.children ns } ∷ fs;
}

put_all-nothing :
    (roots : DiagramNodes) (stack : List OpenFrame)
    → put_all no_nodes roots stack ≡ record { roots = roots; stack = stack }
put_all-nothing roots [] = rw (joined-nothing roots) refl
put_all-nothing roots (f ∷ fs) = rw (joined-nothing f.children) refl

mutual
  unfolding put_node put_into closed_frame take_step take_steps

  take_steps-node :
      (n : DiagramNode) (rest : List DiagramStep) (roots : DiagramNodes) (stack : List OpenFrame)
      → Fits (around stack) n
      → take_steps (steps_of n rest) (record { roots = roots; stack = stack })
        ≡ take_steps rest (put_node n roots stack)
  take_steps-node (drawn s) rest roots stack h = refl
  take_steps-node (separator operator) rest roots [] h = absurd h
  take_steps-node (separator operator) rest roots (f ∷ fs) h = rw h refl
  take_steps-node (frame head outcome children) rest roots stack h =
      take_steps-nodes children (frame_close outcome ∷ rest) roots
        (record { head = head; children = no_nodes } ∷ stack) h

  take_steps-nodes :
      (ns : DiagramNodes) (rest : List DiagramStep) (roots : DiagramNodes) (stack : List OpenFrame)
      → AllFit (around stack) ns
      → take_steps (steps_of_all ns rest) (record { roots = roots; stack = stack })
        ≡ take_steps rest (put_all ns roots stack)
  take_steps-nodes no_nodes rest roots stack h =
      ap (take_steps rest) (sym (put_all-nothing roots stack))
  take_steps-nodes (first_node n ns) rest roots [] (h, hs) =
      take_steps-node n (steps_of_all ns rest) roots [] h
      ∙ (take_steps-nodes ns rest (push_node n roots) [] hs
          ∙ ap (λ x. take_steps rest (record { roots = x; stack = [] })) (joined-push n roots ns))
  take_steps-nodes (first_node n ns) rest roots (f ∷ fs) (h, hs) =
      take_steps-node n (steps_of_all ns rest) roots (f ∷ fs) h
      ∙ (take_steps-nodes ns rest roots (put_into n f ∷ fs) hs
          ∙ ap
              (λ x.
                take_steps rest
                  (record { roots = roots; stack = record { head = f.head; children = x } ∷ fs }))
              (joined-push n f.children ns))

-- A tree is drawn from its own steps: where each separator stands in a frame and names the frame's
-- operator, nesting the steps that the tree is written as gives the very same tree.
pub nest-steps_of : (ns : DiagramNodes) → AllFit none ns → nest (steps_of_all ns []) ≡ ns
unfolding nest take_steps close_all
nest-steps_of ns h =
    ap (λ (p : Nesting). close_all p.roots p.stack) (take_steps-nodes ns [] no_nodes [] h)

AllFit-push :
    (o : Option FrameOperator) (n : DiagramNode) (ms : DiagramNodes)
    → Fits o n
    → AllFit o ms
    → AllFit o (push_node n ms)
unfolding push_node
AllFit-push o n no_nodes h hs = (h, tt)
AllFit-push o n (first_node m ms) h (k, ks) = (k, AllFit-push o n ms h ks)

abbrev StackFits : List OpenFrame → Type 0
StackFits [] = Unit {0}
StackFits (f ∷ fs) = AllFit (some f.head.operator) f.children × StackFits fs

abbrev IsNested : Nesting → Type 0
IsNested p = AllFit none p.roots × StackFits p.stack

put_node-IsNested :
    (n : DiagramNode) (roots : DiagramNodes) (stack : List OpenFrame)
    → Fits (around stack) n
    → AllFit none roots
    → StackFits stack
    → IsNested (put_node n roots stack)
unfolding put_node put_into
put_node-IsNested n roots [] h r s = (AllFit-push none n roots h r, tt)
put_node-IsNested n roots (f ∷ fs) h r (s, ss) =
    (r, (AllFit-push (some f.head.operator) n f.children h s, ss))

Fits-closed_frame :
    (stack : List OpenFrame) (outcome : Option Bool) (f : OpenFrame)
    → AllFit (some f.head.operator) f.children
    → Fits (around stack) (closed_frame outcome f)
unfolding closed_frame
Fits-closed_frame [] outcome f h = h
Fits-closed_frame (_ ∷ _) outcome f h = h

Fits-drawn : (stack : List OpenFrame) (s : DrawnStep) → Fits (around stack) (drawn s)
Fits-drawn [] s = tt
Fits-drawn (_ ∷ _) s = tt

take_step-IsNested :
    (s : DiagramStep) (roots : DiagramNodes) (stack : List OpenFrame)
    → AllFit none roots
    → StackFits stack
    → IsNested (take_step s roots stack)
unfolding take_step
take_step-IsNested (step s) roots stack r h =
    put_node-IsNested (drawn s) roots stack (Fits-drawn stack s) r h
take_step-IsNested (frame_open head) roots stack r h = (r, (tt, h))
take_step-IsNested frame_separator roots [] r h = (r, h)
take_step-IsNested frame_separator roots (f ∷ fs) r h =
    put_node-IsNested (separator f.head.operator) roots (f ∷ fs) refl r h
take_step-IsNested (frame_close outcome) roots [] r h = (r, h)
take_step-IsNested (frame_close outcome) roots (f ∷ fs) r (h, hs) =
    put_node-IsNested (closed_frame outcome f) roots fs (Fits-closed_frame fs outcome f h) r hs

take_steps-IsNested :
    (steps : List DiagramStep) (p : Nesting) → IsNested p → IsNested (take_steps steps p)
unfolding take_steps
take_steps-IsNested [] p h = h
take_steps-IsNested (s ∷ steps) p (r, h) =
    take_steps-IsNested steps (take_step s p.roots p.stack)
      (take_step-IsNested s p.roots p.stack r h)

close_below-AllFit :
    (n : DiagramNode) (roots : DiagramNodes) (stack : List OpenFrame)
    → Fits (around stack) n
    → AllFit none roots
    → StackFits stack
    → AllFit none (close_below n roots stack)
unfolding close_below put_into
close_below-AllFit n roots [] h r s = AllFit-push none n roots h r
close_below-AllFit n roots (f ∷ fs) h r (s, ss) =
    close_below-AllFit (closed_frame none (put_into n f)) roots fs
      (Fits-closed_frame fs none (put_into n f)
        (AllFit-push (some f.head.operator) n f.children h s))
      r ss

close_all-AllFit :
    (roots : DiagramNodes) (stack : List OpenFrame)
    → AllFit none roots
    → StackFits stack
    → AllFit none (close_all roots stack)
unfolding close_all
close_all-AllFit roots [] r s = r
close_all-AllFit roots (f ∷ fs) r (s, ss) =
    close_below-AllFit (closed_frame none f) roots fs (Fits-closed_frame fs none f s) r ss

nest-AllFit : (steps : List DiagramStep) → AllFit none (nest steps)
unfolding nest
nest-AllFit steps =
    let start : Nesting = record { roots = no_nodes; stack = [] } in
    let (r, s) = take_steps-IsNested steps start (tt, tt) in
    close_all-AllFit (take_steps steps start).roots (take_steps steps start).stack r s

-- Nesting is total: any steps, balanced or not, give a tree whose separators stand in frames and name
-- their operators, and nesting the steps of that tree again changes nothing.
pub nest-again :
    (steps : List DiagramStep)
    → AllFit none (nest steps) × (nest (steps_of_all (nest steps) []) ≡ nest steps)
nest-again steps = (nest-AllFit steps, nest-steps_of (nest steps) (nest-AllFit steps))
