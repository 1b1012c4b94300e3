-- ===== src/Coverage.antt =====
-- app/backend/src/bart/coverage.ts: the uncovered resource that a pattern came closest to.
pub mod Ranking
pub mod Nearest
use bart_share.Prelude.{
  ℕ, ◌+◌, Bool, true, false, not, List, [], ◌∷◌, ltb, ◌==◌, if◌then◌else◌, Option, none, some,
  length, suc,
}
use bart_share.Text.{Str, str_lt}
use bart_share.Attrs.{BartValue, BartAttrs, own, inherited, is_in}
use bart_share.Matcher.{matches}

pub record CoverageResource : Type 0 where
  pub id : Str
  pub name : Str
  pub attrs : BartAttrs

pub record CoverageGap : Type 0 where
  pub name : Str
  pub missing : List Str
  pub conflicting : List Str

pub record Gap : Type 0 where
  pub missing : List Str
  pub conflicting : List Str
  pub agreeing : ℕ

-- One key of the resource, in front of what the later keys give.
unfoldable pub gap_key : BartAttrs → Str → BartValue → Gap → Gap
gap_key pattern_ key value g =
    if not (is_in key pattern_)
    then record g { missing = key ∷ g.missing }
    else if not (matches ((key, value) ∷ []) pattern_)
    then record g { conflicting = key ∷ g.conflicting }
    else record g { agreeing = suc g.agreeing }

-- The loop of `gapAgainst` over the entries of `resource.attrs`.
unfoldable pub gap_against : BartAttrs → BartAttrs → Gap
gap_against [] pattern_ = record { missing = []; conflicting = []; agreeing = 0 }
gap_against ((key, value) ∷ attrs) pattern_ =
    gap_key pattern_ key value (gap_against attrs pattern_)

pub record Candidate : Type 0 where
  pub gap : CoverageGap
  pub overlap : ℕ
  pub agreeing : ℕ
  pub blocking : ℕ
  pub id : Str

unfoldable pub candidate_of : CoverageResource → BartAttrs → Candidate
candidate_of resource pattern_ =
    let g = gap_against resource.attrs pattern_ in
    record {
      gap = record { name = resource.name; missing = g.missing; conflicting = g.conflicting };
      overlap = g.agreeing + length g.conflicting;
      agreeing = g.agreeing;
      blocking = length g.missing + length g.conflicting;
      id = resource.id;
    }

-- The nested conditional behind `best === null ||`.
unfoldable pub ranks_before : Candidate → Candidate → Bool
ranks_before candidate best =
    if not (candidate.overlap == best.overlap)
    then ltb best.overlap candidate.overlap
    else if not (candidate.agreeing == best.agreeing)
    then ltb best.agreeing candidate.agreeing
    else if not (candidate.blocking == best.blocking)
    then ltb candidate.blocking best.blocking
    else str_lt candidate.id best.id

unfoldable pub better : Candidate → Option Candidate → Option Candidate
better candidate none = some candidate
better candidate (some best) = if ranks_before candidate best then some candidate else some best

-- One resource; a covered one is skipped.
unfoldable pub consider : BartAttrs → CoverageResource → Option Candidate → Option Candidate
consider pattern_ resource best =
    let candidate = candidate_of resource pattern_ in
    if candidate.blocking == 0 then best else better candidate best

unfoldable pub nearest_from :
    BartAttrs → List CoverageResource → Option Candidate → Option Candidate
nearest_from pattern_ [] best = best
nearest_from pattern_ (r ∷ rs) best = nearest_from pattern_ rs (consider pattern_ r best)

unfoldable pub nearest_gap : List CoverageResource → BartAttrs → Option CoverageGap
nearest_gap resources pattern_ = elim (nearest_from pattern_ resources none) [
  | none ↦ none
  | some best ↦ some best.gap
]
