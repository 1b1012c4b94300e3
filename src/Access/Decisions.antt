-- ===== src/Access/Decisions.antt =====
-- About app/backend/src/bart/access.service.ts: who is granted what, and which parties are asked.
use mathlib.Core.Path.{subst}
use bart_share.Text.{Str, codes, str_eq, str_eq_iff, includes, is_digit, join, sort}
use bart_share.Attrs.{BartAttrs, keys, own}
use bart_share.Matcher.{matches, has_equal, values_equal, scalar_eq}
use bart_share.Closure.{PartyIndex, PartyPattern}
use bart_share.Emitter.Grammar.{is_name, is_name_part, is_name_start, is_keyword}
use bart_share.Emitter.{
  RequestTarget, quantifier_text, emit_attrs, emit_attr, emit_value, emit_scalar, quote,
  party_attrs_of,
}
use bart_share.Context.Providers.{Queries, EvalContext}
use bart_share.Evaluator.{Thrown, EvaluationResult, EvaluateBody}
use bart_share.Assembly.{
  AssembledSystem, AssemblyError, Rows, assemble_policy_system, evaluate_assembled,
}
use bart_share.Access.Answers.{IsAnswered, decide_with-IsAnswered}
use bart_share.Assembly.Parties.{IsAssembled, assemble_policy_system-IsAssembled}
use bart_share.Access.{
  AccessDecision, party_at, ResourceRow, owner_target, targets_of, decide_access,
  decide_custom_access,
}
use bart_share.Prelude.{
  ◌⊎◌, sym, ap, ◌≡◌, refl, In, Exists, Exists-cons, List, [], ◌∷◌, ◌++◌, none, some, Option, arith,
  Outcome, ok, >>=-eq-ok, ok_injective, true, Bool-cases, inl, inr, ◌↔◌,
}

targets_of_iff :
    (caller : Str) (pattern_ : BartAttrs) (index : PartyIndex) (id : Str)
    → In id (targets_of caller pattern_ index)
      ↔ (¬ (id ≡ caller)) × Exists (λ e. (id ≡ e.0) × (matches pattern_ e.1 ≡ true)) index
unfolding targets_of keys
targets_of_iff caller pattern_ [] id = (λ h. absurd h, λ h. absurd h.1.1.0)
targets_of_iff caller pattern_ ((j, w) ∷ index) id =
    let cons = Exists-cons (λ e. (id ≡ e.0) × (matches pattern_ e.1 ≡ true)) (j, w) index in
    ground (arith, targets_of_iff caller pattern_ index id, cons, str_eq_iff j caller)

-- The request for an owner's resource selects that one party.
owner_target-selects :
    (owner id : Str) (attrs : BartAttrs)
    → (matches (owner_target owner).attrs (party_attrs_of id attrs) ≡ true) ↔ (id ≡ owner)
unfolding owner_target party_attrs_of matches has_equal own values_equal scalar_eq str_eq
owner_target-selects owner id attrs = ground (arith, str_eq_iff owner id)

owner_target-text :
    (owner wanted : Str)
    → emit_attrs (owner_target owner).attrs ≡ ok wanted
    → quantifier_text (owner_target owner).quantifier ++ (codes ":" ++ wanted)
      ≡ codes "any:(userId:" ++ (quote owner ++ codes ")")
unfolding owner_target emit_attrs emit_attr emit_value emit_scalar is_name is_name_part
    is_name_start is_digit is_keyword includes str_eq join
owner_target-text owner wanted h = ap (λ x. codes "any:" ++ x) (sym (ok_injective _ wanted h))

module _ (analyze : List Str → Outcome (Thrown AssemblyError) (List (List PartyPattern)))
    (db : Rows) (queries : Queries) (now : EvalContext)
    (answer : EvaluateBody → Outcome (Thrown AssemblyError) EvaluationResult) where
  abbrev assemble : List Str → Option PartyIndex → Outcome (Thrown AssemblyError) AssembledSystem
  assemble = assemble_policy_system analyze db queries now

  -- A decision on a resource is made without the engine exactly for the owner, who is permitted. For
  -- anyone else the engine is asked, in a system whose party 1 is the caller and party 2 the owner,
  -- for the resource from any party with the owner's `userId`, which the owner's attributes match and
  -- no other party's; and the decision is its answer, told with the parties' ids.
  pub decide_access_lem :
      (caller : Str) (resource : ResourceRow) (d : AccessDecision)
      → decide_access assemble (evaluate_assembled answer) caller resource ≡ ok d
      → ((resource.user_id ≡ caller) × (d ≡ record { permitted = true; evaluation = none }))
        ⊎ ((¬ (resource.user_id ≡ caller))
            × (system : AssembledSystem) × IsAssembled db (caller ∷ resource.user_id ∷ []) system
            × (party_at system.parties 1 ≡ some caller)
            × (party_at system.parties 2 ≡ some resource.user_id)
            × IsAnswered answer system resource.attrs
                (codes "any:(userId:" ++ (quote resource.user_id ++ codes ")"))
                d
            × ((id : Str) (attrs : BartAttrs)
                → (matches (owner_target resource.user_id).attrs (party_attrs_of id attrs) ≡ true)
                  ↔ (id ≡ resource.user_id)))
  unfolding decide_access party_at
  decide_access_lem caller resource d h = elim (Bool-cases (str_eq resource.user_id caller)) [
    | inl own_ ↦
        inl ((str_eq_iff resource.user_id caller).0 own_, sym (ok_injective _ _ (rw own_ at h)))
    | inr foreign ↦
        let (system, ready, h1) =
          >>=-eq-ok (assemble (caller ∷ resource.user_id ∷ []) none) _ (rw foreign at h) in
        let (wanted, text, answered) =
          decide_with-IsAnswered assemble answer system resource.attrs
            (owner_target resource.user_id) d h1 in
        let over =
          assemble_policy_system-IsAssembled analyze db queries now (caller ∷ resource.user_id ∷ [])
            none system ready in
        inr (
          λ e. let same = (str_eq_iff resource.user_id caller).1 e in cc (same, foreign),
          system,
          over,
          rw over.seed_first refl,
          rw over.seed_first refl,
          subst (λ x. IsAnswered answer system resource.attrs x d)
              (owner_target-text resource.user_id wanted text) answered,
          owner_target-selects resource.user_id,
        )
  ]

  -- A custom request is decided in a system whose party 1 is the caller and whose next parties are
  -- exactly those of the index, other than the caller, whose attributes the pattern matches; the
  -- engine is asked for the resource from any or all parties of the pattern, as the request says, and
  -- the decision is its answer, told with the parties' ids.
  pub decide_custom_access_lem :
      (index : PartyIndex) (caller : Str) (resource : BartAttrs) (from : RequestTarget)
      (d : AccessDecision)
      → decide_custom_access assemble (evaluate_assembled answer) index caller resource from ≡ ok d
      → (system : AssembledSystem) × (found : List Str) × (wanted : Str) × (system.parties
          ≡ caller ∷ (targets_of caller from.attrs index ++ found))
        × ((id : Str)
            → In id (targets_of caller from.attrs index)
              ↔ (¬ (id ≡ caller))
                × Exists (λ e. (id ≡ e.0) × (matches from.attrs e.1 ≡ true)) index)
        × IsAssembled db (caller ∷ targets_of caller from.attrs index) system
        × (emit_attrs from.attrs ≡ ok wanted)
        × IsAnswered answer system resource
            (quantifier_text from.quantifier ++ (codes ":" ++ wanted))
            d
  unfolding decide_custom_access
  decide_custom_access_lem index caller resource from d h =
      let seed = caller ∷ targets_of caller from.attrs index in
      let (system, ready, h1) = >>=-eq-ok (assemble seed (some index)) _ h in
      let (wanted, text, answered) =
        decide_with-IsAnswered assemble answer system resource from d h1 in
      let over =
        assemble_policy_system-IsAssembled analyze db queries now seed (some index) system ready in
      (
        system,
        sort over.found,
        wanted,
        over.seed_first,
        targets_of_iff caller from.attrs index,
        over,
        text,
        answered,
      )
