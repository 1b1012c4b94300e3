-- ===== src/Rules.antt =====
-- app/backend/src/bart/rules.validation.ts: a user's rules are checked by the policy they become.
pub mod Verdict
use bart_share.Prelude.{◌>>=◌, if◌then◌else◌, List, ◌++◌, Outcome, none, some, throw, ok, [], ◌∷◌}
use bart_share.Text.{Str, codes, show_nat}
use bart_share.Emitter.{PolicyUser, emit_policy, BartEmitError}
use bart_share.Evaluator.{Thrown, other, ValidationError, ValidationOutcome}

-- An emitter error, where an evaluator error may be thrown too.
unfoldable pub policy_text_for : PolicyUser → Outcome (Thrown BartEmitError) Str
policy_text_for user = elim (emit_policy user) [ ok text ↦ ok text | throw e ↦ throw (other e) ]

unfoldable pub position_text : ValidationError → Str
position_text error = elim error.line [
  | none ↦ []
  | some line ↦ elim error.column [
    | none ↦ []
    | some column ↦
        codes "line " ++ (show_nat line ++ (codes ":" ++ (show_nat column ++ codes " ")))
  ]
]

-- The messages of an answer of the evaluator.
unfoldable pub messages_of : ValidationOutcome → List Str
unfolding position_text
messages_of outcome = if outcome.valid then [] else elim outcome.error [
  | none ↦ codes "rules: the assembled policy is not valid" ∷ []
  | some error ↦ (codes "rules: " ++ (position_text error ++ error.message)) ∷ []
]

-- `validate` is `validatePolicy`.
unfoldable pub validate_user_rules :
    (Str → Outcome (Thrown BartEmitError) ValidationOutcome)
    → PolicyUser
    → Outcome (Thrown BartEmitError) (List Str)
unfolding policy_text_for messages_of
validate_user_rules validate user =
    policy_text_for user >>= λ text. validate text >>= λ outcome. ok (messages_of outcome)
