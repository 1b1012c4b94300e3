-- ===== src/Evaluator/Classes.antt =====
-- About app/backend/src/bart/evaluator.client.ts: how a failed call is classed.
use mathlib.Core.Path.{subst}
use bart_share.Text.{Str}
use bart_share.Evaluator.{
  read_body, EvaluatorError, unavailable, rejected, evaluator, MappedEvaluatorError,
  map_evaluator_error, unavailable_text, ErrorBody, Fetched, unreachable, answered, call, rejection,
  not_json, no_detail, api_error,
}
use bart_share.Prelude.{◌≢◌, ◌↔◌, ◌≡◌, ok, throw, arith, some, [], ◌∷◌, ℕ, ◌<◌, ◌⊎◌, inl, inr}

-- The evaluator read the input and said that it was bad: a status that is no success and below 500.
abbrev pub Refuses : {A : Type 0} → Fetched A → Type 0
Refuses (unreachable error) = ⊥
Refuses (answered status value body) = ((status < 200) ⊎ (299 < status)) × (status < 500)

abbrev pub IsRejection : EvaluatorError → Type 0
IsRejection (unavailable message) = ⊥
IsRejection (rejected slug detail location) = Unit {0}

rejection-IsRejection : (status : ℕ) (body : ErrorBody) → IsRejection (rejection status body)
unfolding rejection
rejection-IsRejection status not_json = tt
rejection-IsRejection status no_detail = tt
rejection-IsRejection status (api_error e d l) = tt

rejection-ne-unavailable :
    (status : ℕ) (body : ErrorBody) (m : Str) → rejection status body ≢ unavailable m
rejection-ne-unavailable status body m h = subst IsRejection h (rejection-IsRejection status body)

-- What call throws is a rejection exactly when the evaluator answered with a status that is no
-- success and below 500. So no network error, unreadable success or failing service passes for a
-- bad policy.
pub call_classifies :
    {A : Type 0} (url : Str) (fetched : Fetched A) (e : EvaluatorError)
    → call url fetched ≡ throw e
    → IsRejection e ↔ Refuses fetched
unfolding call read_body
call_classifies url (unreachable error) (unavailable m) h = (λ r. r, λ r. r)
call_classifies url (unreachable error) (rejected s d l) h = cc
call_classifies url (answered status (ok v) body) (unavailable m) h =
    ground (arith, rejection-ne-unavailable status body m)
call_classifies url (answered status (ok v) body) (rejected s d l) h = ground arith
call_classifies url (answered status (throw r) body) (unavailable m) h =
    ground (arith, rejection-ne-unavailable status body m)
call_classifies url (answered status (throw r) body) (rejected s d l) h = ground arith

-- An outage is answered 503 with one fixed text, in which neither the message nor the URL stands,
-- and a rejection 500.
pub call-status :
    {A : Type 0} (O : Type 0) (url : Str) (fetched : Fetched A) (e : EvaluatorError)
    (m : MappedEvaluatorError)
    → call url fetched ≡ throw e
    → map_evaluator_error {O = O} (evaluator e) ≡ some m
    → ((m.status ≡ 500) × Refuses fetched) ⊎ ((m.status ≡ 503) × (m.errors ≡ unavailable_text ∷ []))
unfolding map_evaluator_error
call-status O url fetched (unavailable t) m h k = inr (ground arith, ground arith)
call-status O url fetched (rejected s d l) m h k =
    inl (ground arith, (call_classifies url fetched (rejected s d l) h).0 tt)
