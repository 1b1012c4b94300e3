-- ===== src/Tests/Traces.antt =====
-- The evaluator's trace as the editor reads it.
use bart_share.Prelude.{◌++◌, false, ◌≡◌, refl, some, [], ◌∷◌}
use bart_share.Text.{Str, codes, join, str_eq, trim, starts_with}
use bart_share.Attrs.{scalar, text}
use bart_share.Frontend.Clauses.{behind_number}
use bart_share.Frontend.Lexer.{span_length}
use bart_share.Frontend.Trace.{
  boolean_outcome, TraceNodes, flatten_trace, parse_trace, split_lines, trace_verdict,
}
use bart_share.Frontend.Trace.Preorder.{numbered, parse_trace-flatten}
use bart_share.Frontend.AttrList.{parse_attr_list}
use bart_share.Frontend.Causes.{cause_of, deny, warn, evidence}
use bart_share.Frontend.Causes.Evidence.{own_nodes, cause_of-own_nodes}

-- The second line jumps two levels, and the last goes back to the first.
abbrev sample : Str
sample =
    codes
      "evaluating Request[1]\n    rule 1.1: condition a ->\n  policy 1: evaluating\n\nresult: false"

parse_trace-flatten_example : flatten_trace (parse_trace sample) ≡ numbered 0 (split_lines sample)
parse_trace-flatten_example = parse_trace-flatten sample

sample_verdict : trace_verdict sample ≡ some false
unfolding trace_verdict str_eq trim starts_with boolean_outcome
sample_verdict = refl

-- A condition that is false behind a sub-request, whose own condition failed.
abbrev nested : Str
nested = join (codes "\n") (
    codes "policy 1: evaluating Request[resource=[(a : b)]]"
    ∷ codes
        "  rule 1.1: resource match([(type : book), (title : notes (2024))], [(type : pen)]) -> false"
    ∷ codes "  rule 1.1: evaluating Exchange"
    ∷ codes "    evaluating Request[2]"
    ∷ codes "      rule 2.1: condition x ->"
    ∷ [])

abbrev nested_nodes : TraceNodes
unfolding parse_trace
nested_nodes = parse_trace nested

cause_of-own_nodes_example :
    (evidence nested_nodes ≡ flatten_trace (own_nodes nested_nodes))
    × (cause_of (own_nodes nested_nodes) ≡ cause_of nested_nodes)
cause_of-own_nodes_example = cause_of-own_nodes nested_nodes

nested_cause : ◌≡◌ (cause_of (parse_trace nested)) (
    some (record {
      text = codes "no rule offers book" ++ (32 ∷ 183 ∷ 32 ∷ codes "notes (2024)");
      tone = deny;
    }))
unfolding cause_of parse_trace trim behind_number span_length
nested_cause = refl

failed_cause : ◌≡◌ (cause_of (parse_trace (codes "rule 2.1: condition x -> Boom"))) (
    some
      (record { text = codes "condition errored" ++ (32 ∷ 183 ∷ 32 ∷ codes "Boom"); tone = deny }))
unfolding cause_of parse_trace trim behind_number span_length
failed_cause = refl

false_cause : ◌≡◌ (cause_of (parse_trace (codes "rule 2.1: condition x > 1 -> false"))) (
    some
      (record { text = codes "condition false" ++ (32 ∷ 183 ∷ 32 ∷ codes "x > 1"); tone = deny }))
unfolding cause_of parse_trace trim behind_number span_length
false_cause = refl

vacuous_grant :
    ◌≡◌
      (cause_of (parse_trace (codes "rule 2.1: satisfied: no one to exchange")))
      (some (record { text = codes "nobody to exchange with"; tone = warn }))
unfolding cause_of parse_trace trim behind_number span_length
vacuous_grant = refl

-- A number among the keys comes first, and what is no pair is left out.
listed :
    parse_attr_list (codes "(b : 1), (7 : x), (nothing), (b : 2)")
    ≡ (codes "7", scalar (text (codes "x"))) ∷ (codes "b", scalar (text (codes "2"))) ∷ []
unfolding parse_attr_list trim
listed = refl
