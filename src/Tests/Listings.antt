-- ===== src/Tests/Listings.antt =====
-- What is shared with a caller, and the check of rules.
use bart_share.Prelude.{
  Option, ◌≡◌, [], List, Bool, ◌∷◌, none, true, ok, throw, refl, keep, In, inl, inr, ◌↔◌, Outcome,
}
use bart_share.Text.{
  Str, codes, includes, join, sort, insert_sorted, str_eq, str_le, trim, is_digit, show_nat,
}
use bart_share.Number.{number_of, number_text, is_finite, is_integer, is_safe_integer}
use bart_share.Attrs.{own, is_in, inherited}
use bart_share.Emitter.Grammar.{
  is_name, is_name_part, is_name_start, is_keyword, is_writable_number, is_number_text,
}
use bart_share.Emitter.Comments.{strip_comments}
use bart_share.Emitter.{
  PolicyUser, BartEmitError, emit_policy, policy_text, cleaned_rules, rules_text, party_attrs_of,
  emit_attrs, emit_attr, emit_value, emit_scalar, quote, emit_attr_list, emit_request,
}
use bart_share.Closure.{
  PartyIndex, party_closure, loop, round, frontier_of, add_all, scan_results, scan_patterns,
  scan_index,
}
use bart_share.Context.{
  build_context_tuple, contributions_of, slot_text, merge_contributions, merge_onto, copy_into,
}
use bart_share.Context.Providers.{contribute}
use bart_share.Evaluator.{Thrown, evaluator, unavailable, ValidationOutcome}
use bart_share.Assembly.{
  AssembledSystem, AssemblyError, assemble_policy_system, closure_of, policies_of,
  analyze_with_blame, owners_of, policy_text_of, lift_closure, lift_context, load_party_index,
}
use bart_share.Access.{ResourceRow, AccessDecision, decide_access, emitted, owner_target}
use bart_share.Shared.{
  SharedScan, decide_shared_with, verdicts_of, system_for, verdict_of, ask, skip_rejected, pick,
}
use bart_share.Shared.Listing.{IsRejected, decide_shared_with-throw}
use bart_share.Shared.Agreement.{decide_shared_with_lem}
use bart_share.Rules.{validate_user_rules, policy_text_for, messages_of}
use bart_share.Tests.Systems.{rows, queries, today, no_patterns, book, evaluate}

abbrev listed : SharedScan
listed = record { resources = book ∷ []; considered = 1; total = 3; truncated = true }

shared_run :
    decide_shared_with
      (assemble_policy_system no_patterns rows queries today)
      evaluate
      (load_party_index rows.all_users)
      (codes "alice")
      (book ∷ [])
      3
    ≡ ok listed
unfolding decide_shared_with verdicts_of system_for verdict_of ask skip_rejected pick emitted
    owner_target emit_request assemble_policy_system closure_of policies_of analyze_with_blame
    owners_of policy_text_of lift_closure lift_context party_closure loop round frontier_of add_all
    scan_results scan_patterns scan_index includes str_eq own sort insert_sorted str_le emit_policy
    policy_text cleaned_rules rules_text party_attrs_of emit_attrs emit_attr emit_value emit_scalar
    quote is_name is_name_part is_name_start is_digit is_keyword is_writable_number is_number_text
    is_finite is_integer is_safe_integer number_text number_of show_nat strip_comments trim join
    build_context_tuple contributions_of slot_text merge_contributions merge_onto copy_into is_in
    inherited contribute emit_attr_list load_party_index
shared_run = refl

not_alice : (r : ResourceRow) → In r (book ∷ []) → ¬ (r.user_id ≡ codes "alice")
not_alice r (inl e) h = cc
not_alice r (inr f) h = absurd f

decide_shared_with_lem_example :
    ((p : ResourceRow → Bool) × (listed.resources ≡ keep p (book ∷ [])))
    × ((r : ResourceRow)
        → In r listed.resources ↔ (
            In r (book ∷ [])
            × ((d : AccessDecision) × (decide_access
                    (assemble_policy_system no_patterns rows queries today)
                    evaluate
                    (codes "alice")
                    r
                  ≡ ok d)
                × (d.permitted ≡ true))))
decide_shared_with_lem_example =
    decide_shared_with_lem no_patterns rows queries today evaluate (codes "alice") (book ∷ []) 3
      listed not_alice shared_run

abbrev down : List Str → Option PartyIndex → Outcome (Thrown AssemblyError) AssembledSystem
down seed given = throw (evaluator (unavailable (codes "down")))

down_run :
    decide_shared_with down evaluate [] (codes "alice") (book ∷ []) 1
    ≡ throw (evaluator (unavailable (codes "down")))
unfolding decide_shared_with verdicts_of system_for verdict_of skip_rejected own
down_run = refl

decide_shared_with-throw_example : ¬ IsRejected (evaluator (unavailable (codes "down")))
decide_shared_with-throw_example =
    decide_shared_with-throw down evaluate [] (codes "alice") (book ∷ []) 1
      (evaluator (unavailable (codes "down"))) down_run

abbrev bob : PolicyUser
bob = record { id = codes "bob"; attrs = []; rules = [] }

abbrev fine : ValidationOutcome
fine = record { valid = true; error = none }

abbrev validate : Str → Outcome (Thrown BartEmitError) ValidationOutcome
validate text = ok fine

rules_run : validate_user_rules validate bob ≡ ok []
unfolding validate_user_rules policy_text_for messages_of emit_policy policy_text cleaned_rules
    rules_text party_attrs_of emit_attrs emit_attr emit_value emit_scalar quote is_name is_name_part
    is_name_start is_digit is_keyword includes str_eq join emit_attr_list
rules_run = refl
