-- ===== src/Shared.antt =====
-- app/backend/src/bart/shared.service.ts: what others share with the caller. The candidates, in the
-- query's order and cut at its limit, and their total are the database's answers. The candidates are
-- asked one after another; the log lines are left out.
pub mod Listing
pub mod Agreement
use bart_share.Prelude.{
  false, if◌then◌else◌, throw, [], ◌>>=◌, ◌∷◌, ok, Option, Bool, ℕ, Outcome, List, length, none,
  some, ltb,
}
use bart_share.Text.{Str}
use bart_share.Attrs.{own}
use bart_share.Closure.{PartyIndex}
use bart_share.Emitter.{emit_request}
use bart_share.Evaluator.{Thrown, evaluator, other, unavailable, rejected, EvaluationResult}
use bart_share.Assembly.{AssembledSystem, AssemblyError}
use bart_share.Access.{ResourceRow, emitted, owner_target}

pub record SharedScan : Type 0 where
  pub resources : List ResourceRow
  pub considered : ℕ
  pub total : ℕ
  pub truncated : Bool

-- `systems`, the memo: for an owner the promise of the assembly, which may have been rejected.
abbrev pub Systems : Type 0
Systems = List (Str × Outcome (Thrown AssemblyError) AssembledSystem)

-- `if (error instanceof EvaluatorRejectedError) return false; throw error;`
unfoldable pub skip_rejected :
    Outcome (Thrown AssemblyError) Bool → Outcome (Thrown AssemblyError) Bool
skip_rejected (ok permitted) = ok permitted
skip_rejected (throw (evaluator (rejected slug detail location))) = ok false
skip_rejected (throw (evaluator (unavailable message))) = throw (evaluator (unavailable message))
skip_rejected (throw (other e)) = throw (other e)

-- `candidates.filter((_, i) => verdicts[i])`
unfoldable pub pick : List ResourceRow → List Bool → List ResourceRow
pick [] verdicts = []
pick (r ∷ rs) [] = []
pick (r ∷ rs) (v ∷ verdicts) = let rest = pick rs verdicts in if v then r ∷ rest else rest

module _ (assemble : List Str → Option PartyIndex → Outcome (Thrown AssemblyError) AssembledSystem)
    (evaluate : AssembledSystem → Str → Outcome (Thrown AssemblyError) EvaluationResult)
    (index : PartyIndex) (caller : Str) where
  unfoldable pub system_for :
      Str → Systems → Outcome (Thrown AssemblyError) AssembledSystem × Systems
  unfolding own
  system_for owner systems = elim (own owner systems) [
    | some pending ↦ (pending, systems)
    | none ↦
        let made = assemble (caller ∷ owner ∷ []) (some index) in (made, (owner, made) ∷ systems)
  ]

  -- The two `try` blocks: the request's own text is not inside them.
  unfoldable pub ask : AssembledSystem → ResourceRow → Outcome (Thrown AssemblyError) Bool
  unfolding skip_rejected emitted owner_target
  ask system r = emitted (emit_request 1 r.attrs (owner_target r.user_id)) >>= λ line.
      skip_rejected (evaluate system line >>= λ result. ok result.permitted)

  unfoldable pub verdict_of :
      Outcome (Thrown AssemblyError) AssembledSystem
      → ResourceRow
      → Outcome (Thrown AssemblyError) Bool
  unfolding skip_rejected
  verdict_of (ok system) r = ask system r
  verdict_of (throw e) r = skip_rejected (throw e)

  unfoldable pub verdicts_of :
      List ResourceRow → Systems → Outcome (Thrown AssemblyError) (List Bool)
  unfolding system_for verdict_of
  verdicts_of [] systems = ok []
  verdicts_of (r ∷ rs) systems =
      let (pending, kept) = system_for r.user_id systems in
      verdict_of pending r >>= λ v. verdicts_of rs kept >>= λ vs. ok (v ∷ vs)

  unfoldable pub decide_shared_with :
      List ResourceRow → ℕ → Outcome (Thrown AssemblyError) SharedScan
  unfolding verdicts_of pick
  decide_shared_with candidates total = verdicts_of candidates [] >>= λ verdicts. ok (record {
    resources = pick candidates verdicts;
    considered = length candidates;
    total = total;
    truncated = ltb (length candidates) total;
  })
