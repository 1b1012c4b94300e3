-- ===== src/Frontend/Causes/Evidence.antt =====
-- About causeOf of app/frontend/src/lib/bart/causes.ts: which lines speak for an arrow.
use mathlib.Core.Path.{◌≡◌, refl, sym, ap, ◌∙◌}
use bart_share.Prelude.{if◌then◌else◌, Bool-cases, inl, inr, ◌∷◌}
use bart_share.Frontend.Trace.{
  TraceNode, trace_node, TraceNodes, no_nodes, first_node, flatten_line, flatten_trace,
}
use bart_share.Frontend.Causes.{is_sub_request, below, below_all, evidence, cause_of}

-- A tree without what stands below its generated sub-requests.
abbrev mutual
  pub pruned : TraceNode → TraceNode
  pruned (trace_node line children) =
      let kept = pruned_all children in
      trace_node line (if is_sub_request line.text then no_nodes else kept)

  pub pruned_all : TraceNodes → TraceNodes
  pruned_all no_nodes = no_nodes
  pruned_all (first_node n ns) = first_node (pruned n) (pruned_all ns)

-- The same for the nodes of an arrow, which are kept with what stands below them.
abbrev pub own_nodes : TraceNodes → TraceNodes
own_nodes no_nodes = no_nodes
own_nodes (first_node (trace_node line children) ns) =
    first_node (trace_node line (pruned_all children)) (own_nodes ns)

mutual
  unfolding below below_all flatten_line flatten_trace

  below-pruned : (n : TraceNode) → below n ≡ flatten_line (pruned n)
  below-pruned (trace_node line children) = elim (Bool-cases (is_sub_request line.text)) [
    | inl sub ↦ rw sub refl
    | inr other ↦ rw other (ap (◌∷◌ line) (below_all-pruned children))
  ]

  below_all-pruned : (ns : TraceNodes) → below_all ns ≡ flatten_trace (pruned_all ns)
  below_all-pruned no_nodes = refl
  below_all-pruned (first_node n ns) = rw (below-pruned n, below_all-pruned ns) refl

mutual
  pruned-again : (n : TraceNode) → pruned (pruned n) ≡ pruned n
  pruned-again (trace_node line children) = elim (Bool-cases (is_sub_request line.text)) [
    | inl sub ↦ rw sub refl
    | inr other ↦ rw other (ap (trace_node line) (pruned_all-again children))
  ]

  pruned_all-again : (ns : TraceNodes) → pruned_all (pruned_all ns) ≡ pruned_all ns
  pruned_all-again no_nodes = refl
  pruned_all-again (first_node n ns) = rw (pruned-again n, pruned_all-again ns) refl

own_nodes-again : (ns : TraceNodes) → own_nodes (own_nodes ns) ≡ own_nodes ns
own_nodes-again no_nodes = refl
own_nodes-again (first_node (trace_node line children) ns) =
    rw (pruned_all-again children, own_nodes-again ns) refl

evidence-flatten : (ns : TraceNodes) → evidence ns ≡ flatten_trace (own_nodes ns)
unfolding evidence flatten_trace flatten_line
evidence-flatten no_nodes = refl
evidence-flatten (first_node (trace_node line children) ns) =
    rw (below_all-pruned children, evidence-flatten ns) refl

-- The lines that speak for an arrow are those of its tree without what stands below a generated
-- sub-request, in the order printed; so nothing below one changes the cause that is given.
pub cause_of-own_nodes :
    (ns : TraceNodes)
    → (evidence ns ≡ flatten_trace (own_nodes ns)) × (cause_of (own_nodes ns) ≡ cause_of ns)
unfolding cause_of
cause_of-own_nodes ns =
    let same : evidence (own_nodes ns) ≡ evidence ns =
      evidence-flatten (own_nodes ns)
      ∙ (ap flatten_trace (own_nodes-again ns) ∙ sym (evidence-flatten ns)) in
    (evidence-flatten ns, rw same refl)
