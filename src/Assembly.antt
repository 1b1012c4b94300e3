-- ===== src/Assembly.antt =====
-- app/backend/src/bart/assembly.ts: the policy system of a request. What the database answers is a
-- parameter: `Rows` holds the answers of its three queries, each of them a moment of its own.
pub mod Blame
pub mod Parties
use bart_share.Prelude.{
  ℕ, zero, suc, ◌+◌, ◌-◌, ◌*◌, Bool, true, false, ◌&&◌, List, [], ◌∷◌, ◌++◌, map, if◌then◌else◌,
  Option, none, some, Outcome, ok, throw, ◌>>=◌, traverse, all, drop, get_elem?,
}
use bart_share.Text.{Str, codes, str_eq, is_digit, starts_with}
use bart_share.Text.Decimals.{digits_number}
use bart_share.Attrs.{BartAttrs, own}
use bart_share.Emitter.{BartEmitError, emit_policy, party_attrs_of, PolicyUser}
use bart_share.Context.Providers.{Queries, EvalContext}
use bart_share.Context.{ContextError, build_context_tuple}
use bart_share.Closure.{PartyPattern, PartyIndex, Stop, failed, out_of_fuel, party_closure}
use bart_share.Evaluator.{
  EvaluatorError, unavailable, rejected, Thrown, evaluator, other, EvaluationResult, EvaluateBody,
}

-- `Map<string, string>`, the last `set` of a key in front.
abbrev pub TextOwners : Type 0
TextOwners = List (Str × Str)

-- `(\d+)$`
unfoldable pub digits_only : Str → Option Str
digits_only [] = none
digits_only (c ∷ s) = if all is_digit (c ∷ s) then some (c ∷ s) else none

-- LOCATION_RE.exec(location)?.[1]
unfoldable pub location_digits : Str → Option Str
location_digits location =
    if starts_with location (codes "policy ") then digits_only (drop 7 location) else none

-- `texts[n - 1]`
unfoldable pub text_at : List Str → ℕ → Option Str
text_at texts zero = none
text_at texts (suc i) = get_elem? texts i

unfoldable pub user_for_location : Option Str → List Str → TextOwners → Option Str
user_for_location none texts owners = none
user_for_location (some location) texts owners = elim (location_digits location) [
  | none ↦ none
  | some digits ↦ elim (text_at texts (digits_number 0 digits)) [
    | none ↦ none
    | some text ↦ own text owners
  ]
]

unfoldable pub blamed_text : Str → Str → Str
blamed_text detail user = detail ++ (codes " (user " ++ (user ++ codes ")"))

-- The `catch` of `callBlaming`.
unfoldable pub blame : {O : Type 0} → List Str → TextOwners → Thrown O → Thrown O
blame texts owners (evaluator (rejected slug detail location)) =
    elim (user_for_location location texts owners) [
      | none ↦ evaluator (rejected slug detail location)
      | some user ↦ evaluator (rejected slug (blamed_text detail user) location)
    ]
blame texts owners (evaluator (unavailable message)) = evaluator (unavailable message)
blame texts owners (other e) = other e

-- `callBlaming`, on what its call gave.
unfoldable pub call_blaming :
    {O A : Type 0} → Outcome (Thrown O) A → List Str → TextOwners → Outcome (Thrown O) A
unfolding blame
call_blaming (ok value) texts owners = ok value
call_blaming (throw e) texts owners = throw (blame texts owners e)

-- The other errors that assembling may throw.
pub data AssemblyError : Type 0 where
  not_emitted : BartEmitError → AssemblyError
  no_context : ContextError → AssemblyError
  no_fuel : AssemblyError

-- What the queries give: the attributes of all users, a row by its id, and rows for a list of ids.
pub record Rows : Type 0 where
  pub all_users : List (Str × BartAttrs)
  pub by_pk : Str → Option PolicyUser
  pub where_ids : List Str → List PolicyUser

pub record AssembledSystem : Type 0 where
  pub parties : List Str
  pub policies : List Str
  pub context : Str
  pub text_owners : TextOwners

-- `new Map(allUsers.map(...))`, for rows of distinct ids.
unfoldable pub load_party_index : List (Str × BartAttrs) → PartyIndex
unfolding party_attrs_of
load_party_index [] = []
load_party_index ((id, attrs) ∷ users) = (id, party_attrs_of id attrs) ∷ load_party_index users

-- The policy of a row, or that of a party that has none.
unfoldable pub policy_of : Str → Option PolicyUser → Outcome BartEmitError Str
policy_of id none = emit_policy (record { id = id; attrs = []; rules = [] })
policy_of id (some user) = emit_policy user

unfoldable pub as_thrown : Outcome BartEmitError Str → Outcome (Thrown AssemblyError) Str
as_thrown (ok text) = ok text
as_thrown (throw e) = throw (other (not_emitted e))

unfoldable pub policy_text_of : Rows → Str → Outcome (Thrown AssemblyError) Str
unfolding as_thrown policy_of
policy_text_of db id = as_thrown (policy_of id (db.by_pk id))

-- `textOwners` once the texts of these ids have been made, in this order.
unfoldable pub owners_of : Rows → List Str → TextOwners → TextOwners
owners_of db [] owners = owners
owners_of db (id ∷ ids) owners =
    owners_of db ids
      (elim (policy_text_of db id) [ ok text ↦ (text, id) ∷ owners | throw e ↦ owners ])

-- `new Map(rows.map(row => [row.id, row])).get(id)`: the last row of an id.
unfoldable pub row_of : Str → List PolicyUser → Option PolicyUser
row_of id [] = none
row_of id (row ∷ rows) = elim (row_of id rows) [
  | some later ↦ some later
  | none ↦ if str_eq id row.id then some row else none
]

unfoldable pub lift_closure :
    Outcome (Stop (Thrown AssemblyError)) (List Str) → Outcome (Thrown AssemblyError) (List Str)
lift_closure (ok parties) = ok parties
lift_closure (throw (failed e)) = throw e
lift_closure (throw out_of_fuel) = throw (other no_fuel)

unfoldable pub lift_context : Outcome ContextError Str → Outcome (Thrown AssemblyError) Str
lift_context (ok text) = ok text
lift_context (throw e) = throw (other (no_context e))

-- `index ?? (await loadPartyIndex())`
unfoldable pub index_or : Rows → Option PartyIndex → PartyIndex
unfolding load_party_index
index_or db none = load_party_index db.all_users
index_or db (some index) = index

module _ (analyze : List Str → Outcome (Thrown AssemblyError) (List (List PartyPattern)))
    (db : Rows) (queries : Queries) (now : EvalContext) where
  unfoldable pub analyze_with_blame :
      List Str → List Str → Outcome (Thrown AssemblyError) (List (List PartyPattern))
  unfolding call_blaming owners_of
  analyze_with_blame asked texts = call_blaming (analyze texts) texts (owners_of db asked [])

  unfoldable pub closure_of : List Str → PartyIndex → Outcome (Thrown AssemblyError) (List Str)
  unfolding lift_closure
  closure_of seed index =
      lift_closure (party_closure analyze_with_blame (policy_text_of db) index seed)

  unfoldable pub policies_of : List Str → Outcome (Thrown AssemblyError) (List Str)
  unfolding as_thrown policy_of row_of
  policies_of parties =
      let rows = db.where_ids parties in
      traverse (λ id. as_thrown (policy_of id (row_of id rows))) parties

  -- The closure has asked for the text of each of its parties once. A text holds its party's id, so
  -- no two parties set one key of `textOwners`, and the order of the sets does not matter.
  unfoldable pub assemble_policy_system :
      List Str → Option PartyIndex → Outcome (Thrown AssemblyError) AssembledSystem
  unfolding index_or closure_of policies_of lift_context
  assemble_policy_system seed given = closure_of seed (index_or db given) >>= λ parties.
      policies_of parties >>= λ policies.
      lift_context (build_context_tuple queries parties now) >>= λ context. ok (record {
        parties = parties;
        policies = policies;
        context = context;
        text_owners = owners_of db parties [];
      })

-- `evaluateAssembled`, with the evaluator's answer for a body as a parameter.
unfoldable pub evaluate_assembled :
    {O : Type 0}
    → (EvaluateBody → Outcome (Thrown O) EvaluationResult)
    → AssembledSystem
    → Str
    → Outcome (Thrown O) EvaluationResult
unfolding call_blaming
evaluate_assembled evaluate system request_line =
    call_blaming
      (evaluate
        (record { policies = system.policies; context = system.context; request = request_line }))
      system.policies system.text_owners
