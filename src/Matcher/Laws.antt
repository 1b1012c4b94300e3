-- ===== src/Matcher/Laws.antt =====
-- About matches of app/backend/src/bart/matcher.ts, as a relation on attribute objects.
use bart_share.Text.{Str, str_eq, str_eq_iff}
use bart_share.Number.{
  Number, nan, infinity, decimal, number_eq, bool_eq, digits_eq, point_eq, pos, negsuc, ℤ,
}
use bart_share.Attrs.{BartScalar, text, num, boolean, BartValue, scalar, collection, BartAttrs, own}
use bart_share.Matcher.{scalar_eq, values_equal, has_equal, matches}
use bart_share.Matcher.Bags.{bags_equal_iff}
use mathlib.Core.List.Perm
use bart_share.Prelude.{refl, [], ◌∷◌, inl, inr, some, Bool-cases, Option-cases, true}
use bart_share.Prelude.{arith, ◌↔◌, some, true, Bool, ◌≡◌}

point_eq_iff : (p q : ℤ) → (point_eq p q ≡ true) ↔ (p ≡ q)
unfolding point_eq
point_eq_iff (pos a) (pos b) = ground arith
point_eq_iff (negsuc a) (negsuc b) = ground arith
point_eq_iff _ _ = ground arith

bool_eq_iff : (a b : Bool) → (bool_eq a b ≡ true) ↔ (a ≡ b)
unfolding bool_eq
bool_eq_iff a b = ground arith

pub number_eq_trans :
    (a b c : Number) → number_eq a b ≡ true → number_eq b c ≡ true → number_eq a c ≡ true
unfolding number_eq digits_eq
number_eq_trans nan b c h k = ground arith
number_eq_trans (infinity a) nan c h k = ground arith
number_eq_trans (infinity a) (infinity b) (infinity c) h k =
    ground (arith, bool_eq_iff a b, bool_eq_iff b c, bool_eq_iff a c)
number_eq_trans (decimal a [] p) (decimal b [] q) (decimal c [] r) h k = refl
number_eq_trans (decimal a (d ∷ ds) p) (decimal b (e ∷ es) q) (decimal c (f ∷ fs) r) h k = ground (
  arith,
  bool_eq_iff a b,
  bool_eq_iff b c,
  bool_eq_iff a c,
  str_eq_iff (d ∷ ds) (e ∷ es),
  str_eq_iff (e ∷ es) (f ∷ fs),
  str_eq_iff (d ∷ ds) (f ∷ fs),
  point_eq_iff p q,
  point_eq_iff q r,
  point_eq_iff p r,
)
number_eq_trans _ _ _ h k = ground arith

scalar_eq_trans :
    (a b c : BartScalar) → scalar_eq a b ≡ true → scalar_eq b c ≡ true → scalar_eq a c ≡ true
unfolding scalar_eq
scalar_eq_trans (text a) (text b) (text c) h k =
    ground (arith, str_eq_iff a b, str_eq_iff b c, str_eq_iff a c)
scalar_eq_trans (num a) (num b) (num c) h k = number_eq_trans a b c h k
scalar_eq_trans (boolean a) (boolean b) (boolean c) h k =
    ground (arith, bool_eq_iff a b, bool_eq_iff b c, bool_eq_iff a c)
scalar_eq_trans _ _ _ h k = ground arith

values_equal_trans :
    (a b c : BartValue)
    → values_equal a b ≡ true
    → values_equal b c ≡ true
    → values_equal a c ≡ true
unfolding values_equal
values_equal_trans (scalar a) (scalar b) (scalar c) h k = scalar_eq_trans a b c h k
values_equal_trans (collection a) (collection b) (collection c) h k =
    (bags_equal_iff a c).1 (Perm.trans ((bags_equal_iff a b).0 h) ((bags_equal_iff b c).0 k))
values_equal_trans _ _ _ h k = ground arith

-- What a match says of a key that the pattern has.
pub matches-own :
    (q attrs : BartAttrs) (key : Str) (w : BartValue)
    → own key q ≡ some w
    → matches q attrs ≡ true
    → (u : BartValue) × (own key attrs ≡ some u) × (values_equal w u ≡ true)
unfolding own matches has_equal
matches-own [] attrs key w o m = cc
matches-own ((j, v) ∷ q) attrs key w o m = elim (Bool-cases (str_eq key j)) [
  | inr other ↦ matches-own q attrs key w (ground arith) (ground arith)
  | inl same ↦ elim (Option-cases (own j attrs)) [
    | inl missing ↦ absurd (ground arith)
    | inr (u, found) ↦ (u, ground (arith, str_eq_iff key j), ground arith)
  ]
]

-- Matching composes: attributes that a pattern matches are matched by every pattern that matches
-- that pattern as attributes.
pub matches_trans :
    (p q attrs : BartAttrs) → matches p q ≡ true → matches q attrs ≡ true → matches p attrs ≡ true
unfolding matches has_equal
matches_trans [] q attrs pq qa = refl
matches_trans ((key, v) ∷ p) q attrs pq qa = elim (Option-cases (own key q)) [
  | inl missing ↦ absurd (ground arith)
  | inr (w, found) ↦
      let (u, there, equal) = matches-own q attrs key w found qa in
      ground (arith, values_equal_trans v w u, matches_trans p q attrs)
]
