-- ===== src/Frontend/Cover/Same.antt =====
-- About app/frontend/src/lib/bart/match.ts beside app/backend/src/bart/matcher.ts.
use mathlib.Core.List.{Perm}
use mathlib.Core.List.Perm
use bart_share.Prelude.{
  [], ◌∷◌, ap, ◌==◌, sym, arith, if◌then◌else◌, refl, ◌∙◌, ◌↔◌, ◌∷◌, List, ◌≡◌, ℕ, Option-cases,
  Bool-cases, length, length-map, map, inl, inr, true,
}
use bart_share.Text.{Str, sort}
use bart_share.Text.Order.{sort_eq_iff, length-sort}
use bart_share.Attrs.{BartScalar, text, num, boolean, BartValue, scalar, collection, BartAttrs, own}
use bart_share.Matcher
use bart_share.Matcher.{matches, has_equal}
use bart_share.Matcher.Bags.{bags_equal_iff, every_equal_iff}
use bart_share.Frontend.Cover.{sort_key, bags_equal, values_equal, is_covered, covered_by}

-- Puts one character for the first occurrence of another.
swap_first : ℕ → ℕ → Str → Str
swap_first a b [] = []
swap_first a b (c ∷ s) = let rest = swap_first a b s in if c == a then b ∷ s else c ∷ rest

to_bar : (v : BartScalar) → sort_key v ≡ swap_first 0 b'|' (Matcher.sort_key v)
unfolding sort_key Matcher.sort_key swap_first
to_bar (text s) = refl
to_bar (num n) = refl
to_bar (boolean b) = refl

of_bar : (v : BartScalar) → Matcher.sort_key v ≡ swap_first b'|' 0 (sort_key v)
unfolding sort_key Matcher.sort_key swap_first
of_bar (text s) = refl
of_bar (num n) = refl
of_bar (boolean b) = refl

-- A list of values under one key, by way of the other.
map_factor :
    {k m : BartScalar → Str} (f : Str → Str) (vs : List BartScalar)
    → ((v : BartScalar) → k v ≡ f (m v))
    → map k vs ≡ map f (map m vs)
map_factor f [] h = refl
map_factor {k} {m} f (v ∷ vs) h = cc (h v, map_factor {k = k} {m = m} f vs h)

keys_perm :
    (l r : List BartScalar)
    → Perm (map sort_key l) (map sort_key r)
      ↔ Perm (map Matcher.sort_key l) (map Matcher.sort_key r)
keys_perm l r = (
  λ p.
      rw
        (
          map_factor {k = Matcher.sort_key} {m = sort_key} (swap_first b'|' 0) l of_bar,
          map_factor {k = Matcher.sort_key} {m = sort_key} (swap_first b'|' 0) r of_bar,
        )
        (Perm.map (swap_first b'|' 0) p),
  λ p.
      rw
        (
          map_factor {k = sort_key} {m = Matcher.sort_key} (swap_first 0 b'|') l to_bar,
          map_factor {k = sort_key} {m = Matcher.sort_key} (swap_first 0 b'|') r to_bar,
        )
        (Perm.map (swap_first 0 b'|') p),
)

bags_equal_iff_perm :
    (l r : List BartScalar) → (bags_equal l r ≡ true) ↔ Perm (map sort_key l) (map sort_key r)
unfolding bags_equal
bags_equal_iff_perm l r =
    let a = sort (map sort_key l) in
    let b = sort (map sort_key r) in
    let la = length-sort (map sort_key l) ∙ length-map sort_key l in
    let lb = length-sort (map sort_key r) ∙ length-map sort_key r in
    let (to_perm, of_perm) = sort_eq_iff (map sort_key l) (map sort_key r) in
    (
      λ h. to_perm (ground (arith, every_equal_iff a b)),
      λ p.
          let e = of_perm p in
          let same : length a ≡ length b = ap length e in ground (arith, every_equal_iff a b),
    )

bags_equal_same : (l r : List BartScalar) → bags_equal l r ≡ Matcher.bags_equal l r
bags_equal_same l r =
    let (there, back) = keys_perm l r in
    let (a, b) = bags_equal_iff_perm l r in
    let (c, d) = bags_equal_iff l r in
    elim (Bool-cases (bags_equal l r)) [
      | inl t ↦ t ∙ sym (d (there (a t)))
      | inr f ↦ elim (Bool-cases (Matcher.bags_equal l r)) [
        | inl t ↦ let yes = b (back (c t)) in ground arith
        | inr g ↦ f ∙ sym g
      ]
    ]

values_equal_same : (v w : BartValue) → values_equal v w ≡ Matcher.values_equal v w
unfolding values_equal Matcher.values_equal
values_equal_same (scalar v) (scalar w) = refl
values_equal_same (scalar v) (collection ws) = refl
values_equal_same (collection vs) (scalar w) = refl
values_equal_same (collection vs) (collection ws) = bags_equal_same vs ws

-- The editor counts a resource as covered exactly when the backend's matcher says that its attributes
-- match the pattern, although the two sort the elements of a collection by different keys.
pub covered_by_same :
    (resource_attrs pattern_ : BartAttrs)
    → covered_by resource_attrs pattern_ ≡ matches resource_attrs pattern_
unfolding covered_by matches is_covered has_equal
covered_by_same [] pattern_ = refl
covered_by_same ((key, v) ∷ r) pattern_ = elim (Option-cases (own key pattern_)) [
  | inl missing ↦ ground (arith, covered_by_same r pattern_)
  | inr (w, found) ↦ ground (arith, values_equal_same v w, covered_by_same r pattern_)
]
