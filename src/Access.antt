-- ===== src/Access.antt =====
-- app/backend/src/bart/access.service.ts: the decisions, over an assembled system.
pub mod Answers
pub mod Decisions
use bart_share.Prelude.{
  ℕ, zero, suc, Bool, true, false, not, ◌&&◌, List, [], ◌∷◌, map, keep, if◌then◌else◌, Option, none,
  some, Outcome, ok, throw, ◌>>=◌, get_elem?,
}
use bart_share.Text.{Str, str_eq}
use bart_share.Attrs.{BartScalar, BartValue, scalar, BartAttrs, keys}
use bart_share.Emitter.Grammar.{user_id_attr}
use bart_share.Emitter.{BartEmitError, emit_request, RequestTarget, any_of}
use bart_share.Matcher.{matches}
use bart_share.Closure.{PartyIndex}
use bart_share.Evaluator.{Thrown, other, EvaluationResult, SatisfiedRequest}
use bart_share.Assembly.{AssembledSystem, AssemblyError, not_emitted}

-- A satisfied request with its parties by id; `none` is an index out of the list.
pub record DecidedRequest : Type 0 where
  pub requester : Option Str
  pub from : Option Str
  pub resource : BartAttrs

pub record Evaluation : Type 0 where
  pub parties : List Str
  pub requests : List DecidedRequest
  pub trace : Str
  pub scenario : Str

pub record AccessDecision : Type 0 where
  pub permitted : Bool
  pub evaluation : Option Evaluation

-- `parties[n - 1]`
unfoldable pub party_at : List Str → ℕ → Option Str
party_at parties zero = none
party_at parties (suc i) = get_elem? parties i

unfoldable pub decided_request : List Str → SatisfiedRequest → DecidedRequest
unfolding party_at
decided_request parties satisfied = record {
  requester = party_at parties satisfied.requester;
  from = party_at parties satisfied.from;
  resource = satisfied.resource;
}

unfoldable pub to_decision : List Str → EvaluationResult → AccessDecision
to_decision parties result = record {
  permitted = result.permitted;
  evaluation = some (record {
    parties = parties;
    requests = map (decided_request parties) result.requests;
    trace = result.trace;
    scenario = result.scenario;
  });
}

pub record ResourceRow : Type 0 where
  pub id : Str
  pub attrs : BartAttrs
  pub user_id : Str

unfoldable pub emitted : Outcome BartEmitError Str → Outcome (Thrown AssemblyError) Str
emitted (ok text) = ok text
emitted (throw e) = throw (other (not_emitted e))

-- `{ quantifier: 'any', attrs: { userId: owner } }`
unfoldable pub owner_target : Str → RequestTarget
owner_target owner = record {
  quantifier = any_of;
  attrs = (user_id_attr, scalar (BartScalar.text owner)) ∷ [];
}

-- The parties but the caller whose attributes match the pattern, in the order of the index.
unfoldable pub targets_of : Str → BartAttrs → PartyIndex → List Str
unfolding keys
targets_of caller pattern_ index =
    keys (keep (λ e. matches pattern_ e.1) (keep (λ e. not (str_eq e.0 caller)) index))

-- `assemble` is `assemblePolicySystem`, and `evaluate` is `evaluateAssembled`.
module _ (assemble : List Str → Option PartyIndex → Outcome (Thrown AssemblyError) AssembledSystem)
    (evaluate : AssembledSystem → Str → Outcome (Thrown AssemblyError) EvaluationResult) where
  unfoldable pub decide_with :
      AssembledSystem → BartAttrs → RequestTarget → Outcome (Thrown AssemblyError) AccessDecision
  decide_with system resource target = emitted (emit_request 1 resource target) >>= λ line.
      evaluate system line >>= λ result. ok (to_decision system.parties result)

  unfoldable pub decide_access : Str → ResourceRow → Outcome (Thrown AssemblyError) AccessDecision
  decide_access caller resource =
      let rest = assemble (caller ∷ resource.user_id ∷ []) none >>= λ system.
      decide_with system resource.attrs (owner_target resource.user_id) in
      if str_eq resource.user_id caller
      then ok (record { permitted = true; evaluation = none })
      else rest

  unfoldable pub decide_custom_access :
      PartyIndex → Str → BartAttrs → RequestTarget → Outcome (Thrown AssemblyError) AccessDecision
  decide_custom_access index caller resource from =
      assemble (caller ∷ targets_of caller from.attrs index) (some index) >>= λ system.
      decide_with system resource from
