-- ===== src/Shared/Listing.antt =====
-- About app/backend/src/bart/shared.service.ts: the memo of systems, and the errors that are
-- skipped.
use bart_share.Prelude.{
  ℕ, ◌∙◌, throw_injective, Outcome, ◌≡◌, Option, Bool, List, Outcome, some, keep, Outcome-cases,
  Option-cases, Bool-cases, inl, inr, arith, refl, sym, ap, traverse, traverse-cons, ok_injective,
  throw-ne-ok, ◌↔◌, true, false, ok, throw, ◌>>=◌, [], ◌∷◌,
}
use mathlib.Core.Path.{subst}
use bart_share.Text.{Str, str_eq, str_eq_iff}
use bart_share.Attrs.{own}
use bart_share.Closure.{PartyIndex}
use bart_share.Emitter.{emit_request}
use bart_share.Evaluator.{Thrown, evaluator, other, unavailable, rejected, EvaluationResult}
use bart_share.Evaluator.Classes.{IsRejection}
use bart_share.Assembly.{AssembledSystem, AssemblyError}
use bart_share.Access.{ResourceRow, AccessDecision, emitted, owner_target, decide_with, to_decision}
use bart_share.Shared.{
  Systems, skip_rejected, pick, system_for, ask, verdict_of, verdicts_of, decide_shared_with,
}

abbrev pub is_granted : Outcome (Thrown AssemblyError) Bool → Bool
is_granted (ok permitted) = permitted
is_granted (throw e) = false

abbrev pub IsRejected : Thrown AssemblyError → Type 0
IsRejected (evaluator e) = IsRejection e
IsRejected (other e) = ⊥

skip_rejected-throw :
    (m : Outcome (Thrown AssemblyError) Bool) (e : Thrown AssemblyError)
    → skip_rejected m ≡ throw e
    → ¬ IsRejected e
unfolding skip_rejected
skip_rejected-throw (ok permitted) e h r = cc
skip_rejected-throw (throw (evaluator (rejected s d l))) e h r = cc
skip_rejected-throw (throw (evaluator (unavailable m))) e h r =
    subst IsRejected (sym (throw_injective _ e h)) r
skip_rejected-throw (throw (other o)) e h r = subst IsRejected (sym (throw_injective _ e h)) r

answer_iff :
    (parties : List Str) (m : Outcome (Thrown AssemblyError) EvaluationResult)
    → (is_granted (skip_rejected (m >>= λ result. ok result.permitted)) ≡ true) ↔ (
        (d : AccessDecision) × ((m >>= λ result. ok (to_decision parties result)) ≡ ok d)
        × (d.permitted ≡ true))
unfolding skip_rejected to_decision
answer_iff parties (ok result) = (
  λ h. (to_decision parties result, refl, h),
  λ h. let (d, e, p) = h in ap (λ (x : AccessDecision). x.permitted) (ok_injective _ d e) ∙ p,
)
answer_iff parties (throw (other o)) = (λ h. cc, λ h. let (d, e, p) = h in absurd cc)
answer_iff parties (throw (evaluator (unavailable m))) =
    (λ h. cc, λ h. let (d, e, p) = h in absurd cc)
answer_iff parties (throw (evaluator (rejected s t l))) =
    (λ h. cc, λ h. let (d, e, p) = h in absurd cc)

module _ (assemble : List Str → Option PartyIndex → Outcome (Thrown AssemblyError) AssembledSystem)
    (evaluate : AssembledSystem → Str → Outcome (Thrown AssemblyError) EvaluationResult)
    (index : PartyIndex) (caller : Str) where
  -- The verdict on a candidate whose owner's system is assembled anew.
  abbrev pub fresh : ResourceRow → Outcome (Thrown AssemblyError) Bool
  fresh r =
      verdict_of assemble evaluate index caller (assemble (caller ∷ r.user_id ∷ []) (some index)) r

  -- Each remembered promise is that of the owner's assembly.
  abbrev pub IsMemo : Systems → Type 0
  IsMemo systems =
      (owner : Str) (pending : Outcome (Thrown AssemblyError) AssembledSystem)
      → own owner systems ≡ some pending
      → pending ≡ assemble (caller ∷ owner ∷ []) (some index)

  pub empty-IsMemo : IsMemo []
  unfolding own
  empty-IsMemo o pending found = cc

  extended-IsMemo :
      (owner : Str) (systems : Systems)
      → IsMemo systems
      → IsMemo ((owner, assemble (caller ∷ owner ∷ []) (some index)) ∷ systems)
  unfolding own
  extended-IsMemo owner systems h o pending found = elim (Bool-cases (str_eq o owner)) [
    | inl same ↦ let e = (str_eq_iff o owner).0 same in ground arith
    | inr other_ ↦ h o pending (rw other_ at found)
  ]

  system_for-IsMemo :
      (owner : Str) (systems : Systems)
      → IsMemo systems
      → ((system_for assemble evaluate index caller owner systems).0
          ≡ assemble (caller ∷ owner ∷ []) (some index))
        × IsMemo (system_for assemble evaluate index caller owner systems).1
  unfolding system_for
  system_for-IsMemo owner systems h = elim (Option-cases (own owner systems)) [
    | inr (pending, found) ↦ rw (found, system_for) (h owner pending found, h)
    | inl missing ↦ rw (missing, system_for) (refl, extended-IsMemo owner systems h)
  ]

  pub verdicts_of-fresh :
      (rs : List ResourceRow) (systems : Systems)
      → IsMemo systems
      → verdicts_of assemble evaluate index caller rs systems ≡ traverse fresh rs
  unfolding verdicts_of
  verdicts_of-fresh [] systems h = refl
  verdicts_of-fresh (r ∷ rs) systems h =
      let (same, memo) = system_for-IsMemo r.user_id systems h in
      rw
        (
          same,
          verdicts_of-fresh rs (system_for assemble evaluate index caller r.user_id systems).1 memo,
        )
        refl

  pub pick-keep :
      (rs : List ResourceRow) (vs : List Bool)
      → traverse fresh rs ≡ ok vs
      → pick rs vs ≡ keep (λ r. is_granted (fresh r)) rs
  unfolding pick
  pick-keep [] vs h = refl
  pick-keep (r ∷ rs) vs h =
      let (v, rest, first, later, same) = traverse-cons fresh r rs vs h in
      rw (same, first, pick-keep rs rest later) refl

  verdict_of-throw :
      (pending : Outcome (Thrown AssemblyError) AssembledSystem) (r : ResourceRow)
      (e : Thrown AssemblyError)
      → verdict_of assemble evaluate index caller pending r ≡ throw e
      → ¬ IsRejected e
  unfolding verdict_of ask
  verdict_of-throw (throw o) r e h = skip_rejected-throw (throw o) e h
  verdict_of-throw (ok system) r e h =
      elim (Outcome-cases (emit_request 1 r.attrs (owner_target r.user_id))) [
        | inr (o, fails) ↦
            λ rejected_. subst IsRejected (sym (throw_injective _ e (rw fails at h))) rejected_
        | inl (line, is) ↦ skip_rejected-throw _ e (rw is at h)
      ]

  verdicts-throw :
      (rs : List ResourceRow) (e : Thrown AssemblyError)
      → traverse fresh rs ≡ throw e
      → ¬ IsRejected e
  verdicts-throw [] e h = λ r. cc
  verdicts-throw (r ∷ rs) e h = elim (Outcome-cases (fresh r)) [
    | inr (o, fails) ↦
        verdict_of-throw (assemble (caller ∷ r.user_id ∷ []) (some index)) r e
          (fails ∙ ap throw (throw_injective o e (rw fails at h)))
    | inl (v, is) ↦ elim (Outcome-cases (traverse fresh rs)) [
      | inr (o, later) ↦
          verdicts-throw rs e (later ∙ ap throw (throw_injective o e (rw (is, later) at h)))
      | inl (vs, later) ↦ absurd (throw-ne-ok e (v ∷ vs) (sym (rw (is, later) at h)))
    ]
  ]

  -- A rejection, which one user's bad policy may cause, never fails the whole listing: what it throws is
  -- an outage or another error.
  pub decide_shared_with-throw :
      (candidates : List ResourceRow) (total : ℕ) (e : Thrown AssemblyError)
      → decide_shared_with assemble evaluate index caller candidates total ≡ throw e
      → ¬ IsRejected e
  unfolding decide_shared_with
  decide_shared_with-throw candidates total e h =
      let plain = verdicts_of-fresh candidates [] empty-IsMemo in
      elim (Outcome-cases (traverse fresh candidates)) [
        | inr (o, fails) ↦
            verdicts-throw candidates e
              (fails ∙ ap throw (throw_injective o e (rw (plain, fails) at h)))
        | inl (vs, is) ↦ absurd (throw-ne-ok e _ (sym (rw (plain, is) at h)))
      ]

  -- What a single decision on the resource would say, if it is made against the same index.
  pub decision_iff :
      (a : Outcome (Thrown AssemblyError) AssembledSystem) (r : ResourceRow)
      → (is_granted (verdict_of assemble evaluate index caller a r) ≡ true) ↔ (
          (d : AccessDecision) × ((a >>= λ system.
          decide_with assemble evaluate system r.attrs (owner_target r.user_id))
            ≡ ok d)
          × (d.permitted ≡ true))
  unfolding verdict_of skip_rejected ask decide_with to_decision
  decision_iff (throw (other o)) r = (λ h. cc, λ h. let (d, e, p) = h in absurd cc)
  decision_iff (throw (evaluator (unavailable m))) r =
      (λ h. cc, λ h. let (d, e, p) = h in absurd cc)
  decision_iff (throw (evaluator (rejected s t l))) r =
      (λ h. cc, λ h. let (d, e, p) = h in absurd cc)
  decision_iff (ok system) r =
      elim (Outcome-cases (emitted (emit_request 1 r.attrs (owner_target r.user_id)))) [
        | inr (o, fails) ↦ rw fails (λ h. cc, λ h. let (d, e, p) = h in absurd cc)
        | inl (line, is) ↦ rw is (answer_iff system.parties (evaluate system line))
      ]
