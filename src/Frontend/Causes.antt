-- ===== src/Frontend/Causes.antt =====
-- app/frontend/src/lib/bart/causes.ts: why one arrow of the diagram was refused.
pub mod Evidence
use bart_share.Prelude.{
  ℕ, zero, suc, ◌-◌, Bool, true, false, not, ◌&&◌, ◌==◌, ltb, leb, List, [], ◌∷◌, ◌++◌, length,
  take, drop, all, any, map, Option, none, some, if◌then◌else◌,
}
use bart_share.Text.{Str, codes, str_eq, starts_with}
use bart_share.Frontend.Parser.{is_line_end}
use bart_share.Frontend.Trace.{
  TraceLine, TraceNode, trace_node, TraceNodes, no_nodes, first_node, behind_rule, errored, stated,
  not_stated,
}
use bart_share.Frontend.AttrList.{dot, strip_end, parse_attr_list, resource_label}

pub data Tone : Type 0 where
  deny warn : Tone

pub record Cause : Type 0 where
  pub text : Str
  pub tone : Tone

unfoldable pub is_sub_request : Str → Bool
is_sub_request text = starts_with text (codes "evaluating Request[")

-- The function `below`, and its `flatMap` over the children.
unfoldable mutual
  unfolding is_sub_request

  pub below : TraceNode → List TraceLine
  below (trace_node line children) =
      let lines = below_all children in if is_sub_request line.text then line ∷ [] else line ∷ lines

  pub below_all : TraceNodes → List TraceLine
  below_all no_nodes = []
  below_all (first_node n ns) = below n ++ below_all ns

unfoldable pub evidence : TraceNodes → List TraceLine
unfolding below_all
evidence no_nodes = []
evidence (first_node (trace_node line children) ns) = (line ∷ below_all children) ++ evidence ns

-- `.*` reaches over the whole text.
unfoldable pub in_one_line : Str → Bool
unfolding is_line_end
in_one_line s = all (λ c. not (is_line_end c)) s

-- What stands before ` -> true` or ` -> false`, and which of them.
unfoldable pub before_verdict : Str → Str → Option (Str × Bool)
unfolding strip_end
before_verdict close s = elim (strip_end (close ++ codes " -> true") s) [
  | some said ↦ some (said, true)
  | none ↦ elim (strip_end (close ++ codes " -> false") s) [
    | some said ↦ some (said, false)
    | none ↦ none
  ]
]

unfoldable pub condition_body : Str → Option Str
unfolding before_verdict in_one_line
condition_body rest =
    if starts_with rest (codes " condition ")
    then elim (before_verdict [] (drop 11 rest)) [
      | some (said, _) ↦ if in_one_line said then some said else none
      | none ↦ none
    ]
    else none

-- CONDITION_RE: the description.
unfoldable pub condition_said : Str → Option Str
unfolding behind_rule condition_body
condition_said text = elim (behind_rule text) [ none ↦ none | some rest ↦ condition_body rest ]

-- What stands before the last `separator`.
unfoldable pub before_last : Str → Str → Option Str
unfolding starts_with
before_last separator [] = none
before_last separator (c ∷ s) = elim (before_last separator s) [
  | some front ↦ some (c ∷ front)
  | none ↦ if starts_with (c ∷ s) separator then some [] else none
]

unfoldable pub resource_body : Str → Option (Str × Bool)
unfolding before_verdict in_one_line before_last
resource_body rest =
    if starts_with rest (codes " resource match([")
    then elim (before_verdict (codes "])") (drop 17 rest)) [
      | none ↦ none
      | some (said, verdict) ↦ elim (before_last (codes "], [") said) [
        | none ↦ none
        | some resource ↦ if in_one_line said then some (resource, verdict) else none
      ]
    ]
    else none

-- RESOURCE_RE: the resource's attributes and the verdict.
unfoldable pub resource_match : Str → Option (Str × Bool)
unfolding behind_rule resource_body
resource_match text = elim (behind_rule text) [ none ↦ none | some rest ↦ resource_body rest ]

-- A rule's line that says just this.
unfoldable pub says : Str → Str → Bool
unfolding behind_rule
says words text = elim (behind_rule text) [ none ↦ false | some rest ↦ str_eq rest words ]

-- The first result of a loop over lines that returns from within.
unfoldable pub first_of : (TraceLine → Option Cause) → List TraceLine → Option Cause
first_of f [] = none
first_of f (line ∷ lines) =
    let later = first_of f lines in elim (f line) [ some cause ↦ some cause | none ↦ later ]

unfoldable pub errored_cause : TraceLine → Option Cause
errored_cause line = elim line.outcome [
  | errored message ↦
      some (record { text = codes "condition errored" ++ (dot ++ message); tone = deny })
  | stated b ↦ none
  | not_stated ↦ none
]

unfoldable pub condition_cause : TraceLine → Option Cause
unfolding condition_said
condition_cause line = elim line.outcome [
  | stated true ↦ none
  | stated false ↦ elim (condition_said line.text) [
    | some said ↦ some (record { text = codes "condition false" ++ (dot ++ said); tone = deny })
    | none ↦ none
  ]
  | errored message ↦ none
  | not_stated ↦ none
]

unfoldable pub resource_matches : List TraceLine → List (Str × Bool)
unfolding resource_match
resource_matches [] = []
resource_matches (line ∷ lines) =
    let later = resource_matches lines in
    elim (resource_match line.text) [ some found ↦ found ∷ later | none ↦ later ]

unfoldable pub resource_cause : List (Str × Bool) → Option Cause
unfolding parse_attr_list resource_label
resource_cause [] = none
resource_cause (found ∷ matches) =
    if all (λ m. not m.1) (found ∷ matches)
    then some (record {
      text = codes "no rule offers " ++ resource_label (parse_attr_list found.0);
      tone = deny;
    })
    else none

unfoldable pub vacuous_cause : List TraceLine → Option Cause
unfolding says
vacuous_cause lines =
    if any (λ l. says (codes " not satisfied: no one from exchange") l.text) lines
    then some (record { text = codes "no party matched"; tone = deny })
    else if any (λ l. says (codes " satisfied: no one to exchange") l.text) lines
    then some (record { text = codes "nobody to exchange with"; tone = warn })
    else none

unfoldable pub or_later : Option Cause → Option Cause → Option Cause
or_later (some cause) later = some cause
or_later none later = later

-- The ranking, once the lines are found.
unfoldable pub rank : List TraceLine → Option Cause
unfolding first_of errored_cause condition_cause resource_matches resource_cause vacuous_cause
    or_later
rank lines = or_later (first_of errored_cause lines) (
    or_later (first_of condition_cause lines)
      (or_later (resource_cause (resource_matches lines)) (vacuous_cause lines)))

unfoldable pub cause_of : TraceNodes → Option Cause
unfolding evidence rank
cause_of nodes = rank (evidence nodes)
