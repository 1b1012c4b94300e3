-- ===== src/Tests/Frames.antt =====
-- The diagram's frames on short streams of steps.
use bart_share.Prelude.{List, ℕ, ◌≡◌, refl, some, none, [], ◌∷◌, true}
use bart_share.Text.{codes}
use bart_share.Frontend.Frames.{
  DrawnStep, FrameHead, cycle, and_, step, frame_open, frame_separator, frame_close, DiagramNodes,
  drawn, frame, separator, no_nodes, first_node, nest, terms,
}
use bart_share.Frontend.Frames.Terms.{separated, terms-separated}
use bart_share.Frontend.Frames.Markers.{steps_of_all, nest-steps_of, AllFit, nest-again}

abbrev arrow : ℕ → DrawnStep
arrow n = cycle 0 n 1 []

abbrev head : FrameHead
head = record { policy = 2; operator = and_; rule = codes "2.1" }

abbrev tree : DiagramNodes
tree = first_node (drawn (arrow 1)) (
    first_node
      (frame head (some true) (
        first_node (drawn (arrow 2))
          (first_node (separator and_) (first_node (drawn (arrow 3)) no_nodes))))
      no_nodes)

nest-steps_of_example : nest (steps_of_all tree []) ≡ tree
nest-steps_of_example = nest-steps_of tree (tt, ((tt, (refl, (tt, tt))), tt))

-- A close that is not opened is dropped, as is a divider; an open frame has no outcome.
unbalanced :
    nest (frame_close (some true) ∷ frame_separator ∷ frame_open head ∷ step (arrow 1) ∷ [])
    ≡ first_node (frame head none (first_node (drawn (arrow 1)) no_nodes)) no_nodes
unfolding nest
unbalanced = refl

two_terms :
    terms (
      first_node (separator and_) (
        first_node
          (drawn (arrow 2))
          (first_node (separator and_) (first_node (drawn (arrow 3)) no_nodes))))
    ≡ first_node (drawn (arrow 2)) no_nodes ∷ first_node (drawn (arrow 3)) no_nodes ∷ []
unfolding terms
two_terms = refl

nest-again_example :
    AllFit none (nest (frame_separator ∷ frame_open head ∷ frame_separator ∷ []))
    × (nest (steps_of_all (nest (frame_separator ∷ frame_open head ∷ frame_separator ∷ [])) [])
        ≡ nest (frame_separator ∷ frame_open head ∷ frame_separator ∷ []))
nest-again_example = nest-again (frame_separator ∷ frame_open head ∷ frame_separator ∷ [])

abbrev operands : List DiagramNodes
operands = first_node (drawn (arrow 2)) no_nodes ∷ tree ∷ []

terms-separated_example : terms (separated and_ operands) ≡ operands
terms-separated_example = terms-separated and_ operands (tt, (tt, tt))
