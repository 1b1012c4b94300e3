-- ===== src/Coverage/Nearest.antt =====
-- About app/backend/src/bart/coverage.ts: the loop over the resources, by what it has seen.
use mathlib.Core.Path.{subst}
use bart_share.Text.{Str}
use bart_share.Attrs.{BartValue, BartAttrs, is_in}
use bart_share.Matcher.{matches, has_equal}
use bart_share.Coverage.{
  CoverageGap, nearest_gap, nearest_from, CoverageResource, Gap, gap_key, gap_against, Candidate,
  candidate_of, ranks_before, better, consider,
}
use bart_share.Coverage.Ranking.{ranks_before_trans, ranks_before_irrefl}
use bart_share.Prelude.{
  Option-cases, ◌⊎◌, ap, ◌∙◌, ◌↔◌, ◌+◌, List, ◌==◌, ◌≡◌, ℕ, In, true, false, arith, length,
  Bool-cases, none, some, [], ◌∷◌, inl, inr, refl, Exists, Option,
}

abbrev blocking : Gap → ℕ
blocking g = length g.missing + length g.conflicting

not_in-has_equal :
    (pattern_ : BartAttrs) (key : Str) (value : BartValue)
    → is_in key pattern_ ≡ false
    → has_equal pattern_ (key, value) ≡ false
unfolding is_in has_equal
not_in-has_equal pattern_ key value h = ground arith

-- Nothing blocks exactly when the pattern covers the resource.
pub gap_against-matches :
    (attrs pattern_ : BartAttrs)
    → (blocking (gap_against attrs pattern_) ≡ 0) ↔ (matches attrs pattern_ ≡ true)
unfolding gap_against gap_key matches
gap_against-matches [] pattern_ = (λ _. refl, λ _. refl)
gap_against-matches ((key, value) ∷ attrs) pattern_ =
    ground (arith, gap_against-matches attrs pattern_, not_in-has_equal pattern_ key value)

uncovered :
    (pattern_ : BartAttrs) (r : CoverageResource)
    → ((candidate_of r pattern_).blocking == 0) ≡ matches r.attrs pattern_
unfolding candidate_of
uncovered pattern_ r = ground (arith, gap_against-matches r.attrs pattern_)

-- The candidate of an uncovered resource, before which no uncovered resource of the list ranks.
record IsNearest (pattern_ : BartAttrs) (rs : List CoverageResource) (best : Candidate)
    : Type 0 where
  from : Exists (λ r. (matches r.attrs pattern_ ≡ false) × (best ≡ candidate_of r pattern_)) rs
  first :
      (r : CoverageResource)
      → In r rs
      → matches r.attrs pattern_ ≡ false
      → ranks_before (candidate_of r pattern_) best ≡ false

-- What the loop holds in `best` behind a part of the list; `none` as long as all was covered.
abbrev State : BartAttrs → List CoverageResource → Option Candidate → Type 0
State pattern_ rs none = (r : CoverageResource) → In r rs → matches r.attrs pattern_ ≡ true
State pattern_ rs (some best) = IsNearest pattern_ rs best

-- One more resource in front; the list of those seen grows at its head.
consider-State :
    (pattern_ : BartAttrs) (seen : List CoverageResource) (r : CoverageResource)
    (best : Option Candidate)
    → State pattern_ seen best
    → State pattern_ (r ∷ seen) (consider pattern_ r best)
unfolding consider better
consider-State pattern_ seen r none h = elim (Bool-cases (matches r.attrs pattern_)) [
  | inl covered ↦
      rw (uncovered pattern_ r ∙ covered) (λ x m. elim m [ inl e ↦ rw e covered | inr n ↦ h x n ])
  | inr open_ ↦ rw (uncovered pattern_ r ∙ open_) (record {
    from = (r, (inl refl, (open_, refl)));
    first = λ x m off. elim m [
      | inl e ↦ rw e (ranks_before_irrefl (candidate_of r pattern_))
      | inr n ↦ absurd (ground (arith, h x n))
    ];
  })
]
consider-State pattern_ seen r (some best) h = elim (Bool-cases (matches r.attrs pattern_)) [
  | inl covered ↦ rw (uncovered pattern_ r ∙ covered) (record {
    from = (h.from.0, (inr h.from.1.0, h.from.1.1));
    first = λ x m off. elim m [
      | inl e ↦ absurd (ground (arith, ap (λ (y : CoverageResource). matches y.attrs pattern_) e))
      | inr n ↦ h.first x n off
    ];
  })
  | inr open_ ↦
      rw (uncovered pattern_ r ∙ open_)
        (elim (Bool-cases (ranks_before (candidate_of r pattern_) best)) [
          | inr stays ↦ rw stays (record {
            from = (h.from.0, (inr h.from.1.0, h.from.1.1));
            first = λ x m off. elim m [ inl e ↦ rw e stays | inr n ↦ h.first x n off ];
          })
          | inl wins ↦ rw wins (record {
            from = (r, (inl refl, (open_, refl)));
            first = λ x m off. elim m [
              | inl e ↦ rw e (ranks_before_irrefl (candidate_of r pattern_))
              | inr n ↦
                  elim (Bool-cases
                    (ranks_before (candidate_of x pattern_) (candidate_of r pattern_))) [
                      | inr no_ ↦ no_
                      | inl over ↦ absurd (
                          ground (
                            arith,
                            ranks_before_trans (candidate_of x pattern_) (candidate_of r pattern_)
                                best,
                            h.first x n,
                          ))
                    ]
            ];
          })
        ])
]

abbrev onto : List CoverageResource → List CoverageResource → List CoverageResource
onto [] seen = seen
onto (r ∷ rs) seen = onto rs (r ∷ seen)

In-onto :
    (x : CoverageResource) (rs seen : List CoverageResource)
    → In x (onto rs seen) ↔ (In x rs ⊎ In x seen)
In-onto x [] seen = (inr, elim [ inl m ↦ absurd m | inr m ↦ m ])
In-onto x (r ∷ rs) seen = ground (arith, In-onto x rs (r ∷ seen))

nearest_from-State :
    (pattern_ : BartAttrs) (rs seen : List CoverageResource) (best : Option Candidate)
    → State pattern_ seen best
    → State pattern_ (onto rs seen) (nearest_from pattern_ rs best)
unfolding nearest_from
nearest_from-State pattern_ [] seen best h = h
nearest_from-State pattern_ (r ∷ rs) seen best h =
    nearest_from-State pattern_ rs (r ∷ seen) (consider pattern_ r best)
      (consider-State pattern_ seen r best h)

final :
    (pattern_ : BartAttrs) (rs : List CoverageResource)
    → State pattern_ (onto rs []) (nearest_from pattern_ rs none)
final pattern_ rs = nearest_from-State pattern_ rs [] none (λ r m. absurd m)

In-all : (x : CoverageResource) (rs : List CoverageResource) → In x rs → In x (onto rs [])
In-all x rs m = (In-onto x rs []).1 (inl m)

In-of_all : (x : CoverageResource) (rs : List CoverageResource) → In x (onto rs []) → In x rs
In-of_all x rs m = elim ((In-onto x rs []).0 m) [ inl n ↦ n | inr n ↦ absurd n ]

-- There is no gap to tell exactly when the pattern covers every resource.
pub nearest_gap-none_iff :
    (rs : List CoverageResource) (pattern_ : BartAttrs)
    → (nearest_gap rs pattern_ ≡ none)
      ↔ ((r : CoverageResource) → In r rs → matches r.attrs pattern_ ≡ true)
unfolding nearest_gap
nearest_gap-none_iff rs pattern_ = elim (Option-cases (nearest_from pattern_ rs none)) [
  | inl nothing ↦
      let all_covered = subst (State pattern_ (onto rs [])) nothing (final pattern_ rs) in
      (λ e r m. all_covered r (In-all r rs m), λ h. rw (nothing, nearest_gap))
  | inr (best, found) ↦
      let near = subst (State pattern_ (onto rs [])) found (final pattern_ rs) in
      (
        λ e. absurd (ground arith),
        λ h. absurd (
            ground
              (arith, h near.from.0 (In-of_all near.from.0 rs near.from.1.0), near.from.1.1.0)),
      )
]

-- The gap told is that of an uncovered resource of the list, and no uncovered resource ranks before
-- it by overlap, then agreement, then fewest blocking keys, then id.
pub nearest_gap-first :
    (rs : List CoverageResource) (pattern_ : BartAttrs) (gap : CoverageGap)
    → nearest_gap rs pattern_ ≡ some gap
    → (r : CoverageResource) × In r rs
      × (matches r.attrs pattern_ ≡ false)
      × (gap ≡ (candidate_of r pattern_).gap)
      × ((x : CoverageResource)
          → In x rs
          → matches x.attrs pattern_ ≡ false
          → ranks_before (candidate_of x pattern_) (candidate_of r pattern_) ≡ false)
unfolding nearest_gap
nearest_gap-first rs pattern_ gap h = elim (Option-cases (nearest_from pattern_ rs none)) [
  | inl nothing ↦ absurd (ground arith)
  | inr (best, found) ↦
      let near = subst (State pattern_ (onto rs [])) found (final pattern_ rs) in
      let r = near.from.0 in
      let is : best ≡ candidate_of r pattern_ = near.from.1.1.1 in
      (
        r,
        In-of_all r rs near.from.1.0,
        near.from.1.1.0,
        ground (arith, ap (λ (c : Candidate). c.gap) is),
        λ x m off.
            subst (λ c. ranks_before (candidate_of x pattern_) c ≡ false) is
              (near.first x (In-all x rs m) off),
      )
]
