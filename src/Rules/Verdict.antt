-- ===== src/Rules/Verdict.antt =====
-- About app/backend/src/bart/rules.validation.ts: what an empty list of messages says.
use bart_share.Prelude.{
  arith, ◌∙◌, refl, List, Outcome, ◌≡◌, ok, [], Outcome-cases, Option-cases, Bool-cases, inl, inr,
  >>=-eq-ok, ok_injective, sym, true, ◌↔◌, ap,
}
use bart_share.Text.{Str}
use bart_share.Emitter.{PolicyUser, emit_policy, BartEmitError}
use bart_share.Evaluator.{Thrown, ValidationOutcome}
use bart_share.Rules.{policy_text_for, messages_of, validate_user_rules}

messages_of-nil_iff :
    (outcome : ValidationOutcome) → (messages_of outcome ≡ []) ↔ (outcome.valid ≡ true)
unfolding messages_of
messages_of-nil_iff outcome = elim (Bool-cases outcome.valid) [
  | inl valid ↦ (λ h. valid, λ h. rw (valid, messages_of) refl)
  | inr invalid ↦ elim (Option-cases outcome.error) [
    | inl none_ ↦ (λ h. absurd (ground arith), λ h. absurd (ground arith))
    | inr (error, is) ↦ (λ h. absurd (ground arith), λ h. absurd (ground arith))
  ]
]

policy_text_for-ok :
    (user : PolicyUser) (text : Str) → policy_text_for user ≡ ok text → emit_policy user ≡ ok text
unfolding policy_text_for
policy_text_for-ok user text h = elim (Outcome-cases (emit_policy user)) [
  | inl (t, is) ↦ is ∙ ap ok (ok_injective t text (rw (is, policy_text_for) at h))
  | inr (e, is) ↦ absurd (ground arith)
]

-- Where the check of a user's rules returns, the user's whole policy could be written, the evaluator has
-- answered on its text, and there are no messages exactly when it called the policy valid.
pub validate_user_rules_lem :
    (validate : Str → Outcome (Thrown BartEmitError) ValidationOutcome) (user : PolicyUser)
    (errors : List Str)
    → validate_user_rules validate user ≡ ok errors
    → (text : Str) × (outcome : ValidationOutcome) × (emit_policy user ≡ ok text)
      × (validate text ≡ ok outcome)
      × ((errors ≡ []) ↔ (outcome.valid ≡ true))
unfolding validate_user_rules
validate_user_rules_lem validate user errors h =
    let (text, written, later) = >>=-eq-ok (policy_text_for user) _ h in
    let (outcome, answered, same) = >>=-eq-ok (validate text) _ later in
    let (there, back) = messages_of-nil_iff outcome in
    let is : messages_of outcome ≡ errors = ok_injective _ errors same in
    (
      text,
      outcome,
      policy_text_for-ok user text written,
      answered,
      (λ e. there (is ∙ e), λ v. sym is ∙ back v),
    )
