-- ===== src/Shared/Agreement.antt =====
-- About app/backend/src/bart/shared.service.ts beside the single decisions of access.service.ts.
use bart_share.Prelude.{
  ◌∙◌, Bool, ℕ, ◌≡◌, Outcome, Option, List, keep-true, none, some, In, keep, In-keep, In-of_keep,
  Bool-cases, inl, inr, refl, sym, ap, >>=-eq-ok, ok_injective, ◌↔◌, true, ok, ◌>>=◌, [], ◌∷◌,
}
use bart_share.Text.{Str, str_eq, str_eq_iff}
use bart_share.Closure.{PartyIndex, PartyPattern}
use bart_share.Context.Providers.{Queries, EvalContext}
use bart_share.Evaluator.{Thrown, EvaluationResult}
use bart_share.Assembly.{
  AssembledSystem, AssemblyError, Rows, load_party_index, assemble_policy_system, index_or,
}
use bart_share.Access.{ResourceRow, AccessDecision, owner_target, decide_with, decide_access}
use bart_share.Shared.{SharedScan, verdicts_of, decide_shared_with}
use bart_share.Shared.Listing.{
  is_granted, fresh, empty-IsMemo, verdicts_of-fresh, pick-keep, decision_iff,
}
use mathlib.Core.Path.{subst}

foreign_decision :
    (assemble : List Str → Option PartyIndex → Outcome (Thrown AssemblyError) AssembledSystem)
    (evaluate : AssembledSystem → Str → Outcome (Thrown AssemblyError) EvaluationResult)
    (caller : Str) (r : ResourceRow)
    → ¬ (r.user_id ≡ caller)
    → decide_access assemble evaluate caller r ≡ (
        assemble (caller ∷ r.user_id ∷ []) none >>= λ system.
        decide_with assemble evaluate system r.attrs (owner_target r.user_id))
unfolding decide_access
foreign_decision assemble evaluate caller r foreign = elim (Bool-cases (str_eq r.user_id caller)) [
  | inl own_ ↦ absurd (foreign ((str_eq_iff r.user_id caller).0 own_))
  | inr other_ ↦ rw other_ refl
]

module _ (analyze : List Str → Outcome (Thrown AssemblyError) (List (List PartyPattern)))
    (db : Rows) (queries : Queries) (now : EvalContext)
    (evaluate : AssembledSystem → Str → Outcome (Thrown AssemblyError) EvaluationResult)
    (caller : Str) where
  one_index :
      (seed : List Str)
      → assemble_policy_system analyze db queries now seed none
        ≡ assemble_policy_system analyze db queries now seed (some (load_party_index db.all_users))
  unfolding assemble_policy_system index_or
  one_index seed = refl

  -- The listing has, in the order of the candidates, exactly those for which a single decision on the
  -- resource, at the same moment, would permit the caller. So neither the memo of assembled systems nor
  -- a skipped rejection changes what is shown. The candidates are resources that the caller does not own.
  pub decide_shared_with_lem :
      (candidates : List ResourceRow) (total : ℕ) (scan : SharedScan)
      → ((r : ResourceRow) → In r candidates → ¬ (r.user_id ≡ caller))
      → decide_shared_with
          (assemble_policy_system analyze db queries now)
          evaluate
          (load_party_index db.all_users)
          caller
          candidates
          total
        ≡ ok scan
      → ((p : ResourceRow → Bool) × (scan.resources ≡ keep p candidates))
        × ((r : ResourceRow)
            → In r scan.resources ↔ (
                In r candidates
                × ((d : AccessDecision) × (decide_access
                        (assemble_policy_system analyze db queries now)
                        evaluate
                        caller
                        r
                      ≡ ok d)
                    × (d.permitted ≡ true))))
  unfolding decide_shared_with
  decide_shared_with_lem candidates total scan foreign h =
      let assemble = assemble_policy_system analyze db queries now in
      let index = load_party_index db.all_users in
      let p = λ (r : ResourceRow). is_granted (fresh assemble evaluate index caller r) in
      let plain =
        verdicts_of-fresh assemble evaluate index caller candidates []
          (empty-IsMemo assemble evaluate index caller) in
      let (vs, decided, same) =
        >>=-eq-ok (verdicts_of assemble evaluate index caller candidates []) _ h in
      let listed : scan.resources ≡ keep p candidates =
        ap (λ (s : SharedScan). s.resources) (sym (ok_injective _ scan same))
        ∙ pick-keep assemble evaluate index caller candidates vs (sym plain ∙ decided) in
      let single = λ (r : ResourceRow) (m : In r candidates).
        foreign_decision assemble evaluate caller r (foreign r m)
        ∙ ap
            (λ a.
              a >>= λ system. decide_with assemble evaluate system r.attrs (owner_target r.user_id))
            (one_index (caller ∷ r.user_id ∷ [])) in
      let verdict_is = λ (r : ResourceRow).
        decision_iff assemble evaluate index caller
          (assemble (caller ∷ r.user_id ∷ []) (some index)) r in
      (
        (p, listed),
        λ r. (
          λ m.
              let off = subst (λ (rs : List ResourceRow). In r rs) listed m in
              let there = In-of_keep p r candidates off in
              let (d, decision, permits) = (verdict_is r).0 (keep-true p r candidates off) in
              (there, (d, single r there ∙ decision, permits)),
          λ m.
              let (there, (d, decision, permits)) = m in
              subst (λ (rs : List ResourceRow). In r rs) (sym listed)
                (In-keep p r candidates there
                  ((verdict_is r).1 (d, sym (single r there) ∙ decision, permits))),
        ),
      )
