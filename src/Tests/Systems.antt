-- ===== src/Tests/Systems.antt =====
-- The assembly and the decisions, at a system of two parties.
use bart_share.Text.{
  Str, codes, str_eq, includes, sort, insert_sorted, str_le, join, trim, show_nat, is_digit,
}
use bart_share.Number.{number_of, number_text, is_finite, is_integer, is_safe_integer}
use bart_share.Attrs.{BartScalar, scalar, own, inherited, is_in}
use bart_share.Emitter.Grammar.{
  is_name, is_name_part, is_name_start, is_keyword, is_writable_number, is_number_text,
}
use bart_share.Emitter.Comments.{strip_comments}
use bart_share.Emitter.{
  emit_scalar, emit_value, emit_attr, emit_attrs, emit_attr_list, emit_policy, policy_text,
  cleaned_rules, rules_text, party_attrs_of, quote, PolicyUser, emit_request, RequestTarget, any_of,
}
use bart_share.Context.Providers.{Queries, EvalContext, contribute}
use bart_share.Context.{
  build_context_tuple, contributions_of, slot_text, merge_contributions, merge_onto, copy_into,
}
use bart_share.Matcher.{matches}
use bart_share.Closure.{
  PartyPattern, PartyIndex, party_closure, loop, round, frontier_of, add_all, scan_results,
  scan_patterns, scan_index,
}
use bart_share.Evaluator.{Thrown, EvaluationResult}
use bart_share.Assembly.{
  Rows, AssembledSystem, AssemblyError, assemble_policy_system, closure_of, policies_of,
  analyze_with_blame, owners_of, policy_text_of, lift_closure, lift_context,
}
use bart_share.Assembly.Parties.{IsAssembled, assemble_policy_system-IsAssembled}
use bart_share.Access.{
  AccessDecision, ResourceRow, decide_access, decide_with, to_decision, emitted, owner_target,
  decided_request, targets_of,
}
use bart_share.Evaluator.{evaluator, rejected}
use bart_share.Prelude.{throw}
use bart_share.Access.Answers.{IsAnswered}
use bart_share.Access.Decisions.{decide_access_lem, decide_custom_access_lem}
use bart_share.Matcher.{has_equal, values_equal, scalar_eq}
use bart_share.Evaluator.{EvaluateBody}
use bart_share.Assembly.{evaluate_assembled, call_blaming}
use bart_share.Access.{decide_custom_access, party_at}
use bart_share.Attrs.{BartAttrs, keys}
use bart_share.Prelude.{◌++◌}
use bart_share.Prelude.{
  if◌then◌else◌, In, Exists, List, [], ◌∷◌, map, Outcome, ok, refl, some, none, true, ◌≡◌, ◌⊎◌, ◌↔◌,
}

abbrev alice : PolicyUser
alice = record { id = codes "alice"; attrs = []; rules = codes "(resource:(a:1)) # mine" ∷ [] }

abbrev pub rows : Rows
rows = record {
  all_users = (codes "alice", []) ∷ (codes "bob", []) ∷ [];
  by_pk = λ id. if str_eq id (codes "alice") then some alice else none;
  where_ids = λ ids. alice ∷ [];
}

abbrev pub queries : Queries
queries = record {
  connection_rows = λ ids. (codes "alice", codes "zoe" ∷ codes "bob" ∷ []) ∷ [];
  group_rows = λ ids. [];
}

abbrev pub today : EvalContext
today = record { year = 2026; month = 2; day = 10 }

abbrev pub no_patterns : List Str → Outcome (Thrown AssemblyError) (List (List PartyPattern))
no_patterns texts = ok (map (λ t. []) texts)

abbrev alice_policy : Str
alice_policy = codes "(party:(userId:\"alice\"), rules:(resource:(a:1)) )"

abbrev bob_policy : Str
bob_policy = codes "(party:(userId:\"bob\"), rules:())"

abbrev pub system : AssembledSystem
system = record {
  parties = codes "alice" ∷ codes "bob" ∷ [];
  policies = alice_policy ∷ bob_policy ∷ [];
  context =
      codes
        "((date_year:2026)(date_month:3)(date_day:10)(connections:{\"bob\",\"zoe\"})(groups:{}),(date_year:2026)(date_month:3)(date_day:10)(connections:{})(groups:{}))";
  text_owners = (bob_policy, codes "bob") ∷ (alice_policy, codes "alice") ∷ [];
}

seed_run :
    assemble_policy_system no_patterns rows queries today (codes "alice" ∷ codes "bob" ∷ []) none
    ≡ ok system
unfolding assemble_policy_system closure_of policies_of analyze_with_blame owners_of policy_text_of
    lift_closure lift_context party_closure loop round frontier_of add_all scan_results
    scan_patterns scan_index includes str_eq own sort insert_sorted str_le emit_policy policy_text
    cleaned_rules rules_text party_attrs_of emit_attrs emit_attr emit_value emit_scalar quote
    is_name is_name_part is_name_start is_digit is_keyword is_writable_number is_number_text
    is_finite is_integer is_safe_integer number_text number_of show_nat strip_comments trim join
    build_context_tuple contributions_of slot_text merge_contributions merge_onto copy_into is_in
    inherited contribute emit_attr_list
seed_run = refl

assemble_policy_system-IsAssembled_example :
    IsAssembled rows (codes "alice" ∷ codes "bob" ∷ []) system
assemble_policy_system-IsAssembled_example =
    assemble_policy_system-IsAssembled no_patterns rows queries today
      (codes "alice" ∷ codes "bob" ∷ []) none system seed_run

-- The evaluator rejects the second policy.
abbrev rejecting : List Str → Outcome (Thrown AssemblyError) (List (List PartyPattern))
rejecting texts =
    throw (evaluator (rejected (codes "syntax") (codes "line 1") (some (codes "policy 2"))))

abbrev pub book : ResourceRow
book = record {
  id = codes "r1";
  attrs = (codes "type", scalar (BartScalar.text (codes "book"))) ∷ [];
  user_id = codes "bob";
}

abbrev granted : EvaluationResult
granted = record {
  permitted = true;
  requests = record { requester = 1; from = 2; resource = book.attrs } ∷ [];
  trace = codes "t";
  scenario = codes "s";
}

abbrev pub evaluate : AssembledSystem → Str → Outcome (Thrown AssemblyError) EvaluationResult
evaluate s line = ok granted

abbrev answer : EvaluateBody → Outcome (Thrown AssemblyError) EvaluationResult
answer body = ok granted

abbrev decision : AccessDecision
decision = record {
  permitted = true;
  evaluation = some (record {
    parties = system.parties;
    requests =
        record {
          requester = some (codes "alice");
          from = some (codes "bob");
          resource = book.attrs;
        }
        ∷ [];
    trace = codes "t";
    scenario = codes "s";
  });
}

decision_run :
    decide_access
      (assemble_policy_system no_patterns rows queries today)
      (evaluate_assembled answer)
      (codes "alice")
      book
    ≡ ok decision
unfolding decide_access decide_with emitted emit_request emit_attrs emit_attr emit_value emit_scalar
    quote is_name is_name_part is_name_start is_digit is_keyword includes str_eq owner_target
    to_decision decided_request evaluate_assembled call_blaming
decision_run = rw seed_run refl

decide_access_lem_example :
    ((book.user_id ≡ codes "alice") × (decision ≡ record { permitted = true; evaluation = none }))
    ⊎ ((¬ (book.user_id ≡ codes "alice"))
        × (s : AssembledSystem) × IsAssembled rows (codes "alice" ∷ book.user_id ∷ []) s
        × (party_at s.parties 1 ≡ some (codes "alice"))
        × (party_at s.parties 2 ≡ some book.user_id)
        × IsAnswered answer s book.attrs
            (codes "any:(userId:" ++ (quote book.user_id ++ codes ")"))
            decision
        × ((id : Str) (attrs : BartAttrs)
            → (matches (owner_target book.user_id).attrs (party_attrs_of id attrs) ≡ true)
              ↔ (id ≡ book.user_id)))
decide_access_lem_example =
    decide_access_lem no_patterns rows queries today answer (codes "alice") book decision
      decision_run

abbrev department : BartAttrs
department = (codes "dept", scalar (BartScalar.text (codes "cs"))) ∷ []

abbrev colleagues : RequestTarget
colleagues = record { quantifier = any_of; attrs = department }

abbrev both_users : PartyIndex
both_users = (codes "alice", department) ∷ (codes "bob", department) ∷ []

custom_seed_run :
    assemble_policy_system no_patterns rows queries today
      (codes "alice" ∷ codes "bob" ∷ [])
      (some both_users)
    ≡ ok system
unfolding assemble_policy_system closure_of policies_of analyze_with_blame owners_of policy_text_of
    lift_closure lift_context party_closure loop round frontier_of add_all scan_results
    scan_patterns scan_index includes str_eq own sort insert_sorted str_le emit_policy policy_text
    cleaned_rules rules_text party_attrs_of emit_attrs emit_attr emit_value emit_scalar quote
    is_name is_name_part is_name_start is_digit is_keyword is_writable_number is_number_text
    is_finite is_integer is_safe_integer number_text number_of show_nat strip_comments trim join
    build_context_tuple contributions_of slot_text merge_contributions merge_onto copy_into is_in
    inherited contribute emit_attr_list
custom_seed_run = refl

-- The caller matches the pattern too, and is not asked.
custom_run :
    decide_custom_access
      (assemble_policy_system no_patterns rows queries today)
      (evaluate_assembled answer)
      both_users
      (codes "alice")
      book.attrs
      colleagues
    ≡ ok decision
unfolding decide_custom_access targets_of matches has_equal own values_equal scalar_eq keys
    decide_with emitted emit_request emit_attrs emit_attr emit_value emit_scalar quote is_name
    is_name_part is_name_start is_digit is_keyword includes str_eq to_decision decided_request
    evaluate_assembled call_blaming
custom_run = rw custom_seed_run refl

decide_custom_access_lem_example :
    (s : AssembledSystem) × (found : List Str) × (wanted : Str) × (s.parties
      ≡ codes "alice" ∷ (targets_of (codes "alice") department both_users ++ found))
    × ((id : Str)
        → In id (targets_of (codes "alice") department both_users)
          ↔ (¬ (id ≡ codes "alice"))
            × Exists (λ e. (id ≡ e.0) × (matches department e.1 ≡ true)) both_users)
    × IsAssembled rows (codes "alice" ∷ targets_of (codes "alice") department both_users) s
    × (emit_attrs department ≡ ok wanted)
    × IsAnswered answer s book.attrs (codes "any" ++ (codes ":" ++ wanted)) decision
decide_custom_access_lem_example =
    decide_custom_access_lem no_patterns rows queries today answer both_users (codes "alice")
      book.attrs colleagues decision custom_run
