-- ===== src/Evaluator.antt =====
-- app/backend/src/bart/evaluator.client.ts: the client of the policy evaluator. `fetch` and the
-- service behind it are a parameter: what they answer.
pub mod Classes
use bart_share.Prelude.{
  ℕ, Bool, true, false, ◌&&◌, List, [], ◌∷◌, ◌++◌, map, leb, ltb, if◌then◌else◌, Option, none, some,
  Outcome, ok, throw, ◌>>=◌,
}
use bart_share.Text.{Str, codes, show_nat}
use bart_share.Attrs.{BartAttrs}
use bart_share.Closure.{PartyPattern}

-- EvaluatorUnavailableError by its message; EvaluatorRejectedError by slug, detail and location.
pub data EvaluatorError : Type 0 where
  unavailable : Str → EvaluatorError
  rejected : Str → Str → Option Str → EvaluatorError

-- What may be thrown where an evaluator error may: that, or any other error.
pub data Thrown (O : Type 0) : Type 0 where
  evaluator : EvaluatorError → Thrown O
  other : O → Thrown O

pub record MappedEvaluatorError : Type 0 where
  pub status : ℕ
  pub errors : List Str

unfoldable pub unavailable_text : Str
unavailable_text = codes "Evaluator service unavailable"

unfoldable pub stored_policy_text : Str → Str → Str
stored_policy_text slug detail =
    codes "Invalid stored policy (" ++ (slug ++ (codes "): " ++ detail))

unfoldable pub map_evaluator_error : {O : Type 0} → Thrown O → Option MappedEvaluatorError
map_evaluator_error (evaluator (unavailable message)) =
    some (record { status = 503; errors = unavailable_text ∷ [] })
map_evaluator_error (evaluator (rejected slug detail location)) =
    some (record { status = 500; errors = stored_policy_text slug detail ∷ [] })
map_evaluator_error (other e) = none

-- An error body: not JSON, or JSON with no `detail`, or the fields of an object that has one; a
-- field is `none` where it is absent or `null`.
pub data ErrorBody : Type 0 where
  not_json no_detail : ErrorBody
  api_error : Option Str → Option Str → Option Str → ErrorBody

abbrev or_else : Option Str → Str → Str
or_else none d = d
or_else (some s) d = s

unfoldable pub returned_text : ℕ → Str
returned_text status = codes "evaluator returned " ++ show_nat status

unfoldable pub rejection : ℕ → ErrorBody → EvaluatorError
rejection status (api_error error detail location) =
    rejected (or_else error (codes "unknown")) (or_else detail []) location
rejection status not_json = rejected (codes "unknown") (returned_text status) none
rejection status no_detail = rejected (codes "unknown") (returned_text status) none

-- What `fetch` gives: it throws, or answers with a status and a body, read as JSON or as the error
-- of reading it, and as an error body.
pub data Fetched (A : Type 0) : Type 0 where
  unreachable : Str → Fetched A
  answered : ℕ → Outcome Str A → ErrorBody → Fetched A

unfoldable pub unreachable_text : Str → Str → Str
unreachable_text url error =
    codes "could not reach the evaluator at " ++ (url ++ (codes ": " ++ error))

unfoldable pub failed_text : Str → ℕ → Str
failed_text url status =
    codes "evaluator at " ++ (url ++ (codes " failed with status " ++ show_nat status))

unfoldable pub unreadable_text : Str → Str → Str
unreadable_text url error =
    codes "evaluator response from " ++ (url ++ (codes " could not be read: " ++ error))

unfoldable pub read_body : {A : Type 0} → Str → Outcome Str A → Outcome EvaluatorError A
read_body url (ok value) = ok value
read_body url (throw error) = throw (unavailable (unreadable_text url error))

-- `call`, for the URL of its path; `response.ok` is a status from 200 to 299.
unfoldable pub call : {A : Type 0} → Str → Fetched A → Outcome EvaluatorError A
unfolding read_body
call url (unreachable error) = throw (unavailable (unreachable_text url error))
call url (answered status value body) =
    if leb 200 status && leb status 299
    then read_body url value
    else if leb 500 status
    then throw (unavailable (failed_text url status))
    else throw (rejection status body)

-- One policy's entry of the answer of `/analyze/policies`.
pub record QuantifiedPattern : Type 0 where
  pub role : Str
  pub quant : Str
  pub attrs : BartAttrs

pub record PolicyEntry : Type 0 where
  pub quantified : List QuantifiedPattern
  pub condition_parties : List BartAttrs

unfoldable pub patterns_of_entry : PolicyEntry → List PartyPattern
patterns_of_entry entry =
    map (λ (q : QuantifiedPattern). record { attrs = q.attrs }) entry.quantified
    ++ map (λ (a : BartAttrs). record { attrs = a }) entry.condition_parties

unfoldable pub analyze_policies :
    Str
    → (List Str → Fetched (List PolicyEntry))
    → List Str
    → Outcome EvaluatorError (List (List PartyPattern))
analyze_policies url fetch policy_texts =
    call url (fetch policy_texts) >>= λ entries. ok (map patterns_of_entry entries)

pub record SatisfiedRequest : Type 0 where
  pub requester : ℕ
  pub from : ℕ
  pub resource : BartAttrs

pub record EvaluationResult : Type 0 where
  pub permitted : Bool
  pub requests : List SatisfiedRequest
  pub trace : Str
  pub scenario : Str

-- The body of an evaluation request.
pub record EvaluateBody : Type 0 where
  pub policies : List Str
  pub context : Str
  pub request : Str

unfoldable pub evaluate :
    Str
    → (EvaluateBody → Fetched EvaluationResult)
    → EvaluateBody
    → Outcome EvaluatorError EvaluationResult
evaluate url fetch body = call url (fetch body)

pub record ValidationError : Type 0 where
  pub line : Option ℕ
  pub column : Option ℕ
  pub message : Str

pub record ValidationOutcome : Type 0 where
  pub valid : Bool
  pub error : Option ValidationError

unfoldable pub validate_policy :
    Str → (Str → Fetched ValidationOutcome) → Str → Outcome EvaluatorError ValidationOutcome
validate_policy url fetch policy_text = call url (fetch policy_text)
