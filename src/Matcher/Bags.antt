-- ===== src/Matcher/Bags.antt =====
-- About bagsEqual of app/backend/src/bart/matcher.ts: sort keys, sorted lists and permutations.
use mathlib.Core.List.{Perm}
use bart_share.Prelude.{
  ℕ, true, false, List, [], ◌∷◌, map, ◌≡◌, ◌≢◌, refl, ◌↔◌, ◌∙◌, ap, arith, length, length-map,
}
use bart_share.Text.{Str, sort, str_eq_iff}
use bart_share.Text.Order.{sort_eq_iff, length-sort}
use bart_share.Number.{number_text}
use bart_share.Attrs.{BartScalar, text, num, boolean}
use bart_share.Matcher.{sort_key, every_equal, bags_equal}

pub every_equal_iff :
    (xs ys : List Str) → length xs ≡ length ys → (every_equal xs ys ≡ true) ↔ (xs ≡ ys)
unfolding every_equal
every_equal_iff [] [] h = (λ _. refl, λ _. refl)
every_equal_iff [] (y ∷ ys) h = absurd (omega arith)
every_equal_iff (x ∷ xs) [] h = absurd (omega arith)
every_equal_iff (x ∷ xs) (y ∷ ys) h = ground (arith, every_equal_iff xs ys, str_eq_iff x y)

bags_equal-sort :
    (left right : List BartScalar)
    → (bags_equal left right ≡ true) ↔ (sort (map sort_key left) ≡ sort (map sort_key right))
unfolding bags_equal
bags_equal-sort left right =
    let a = sort (map sort_key left) in
    let b = sort (map sort_key right) in
    let la = length-sort (map sort_key left) ∙ length-map sort_key left in
    let lb = length-sort (map sort_key right) ∙ length-map sort_key right in
    (
      λ h. ground (arith, every_equal_iff a b),
      λ e. let same : length a ≡ length b = ap length e in ground (arith, every_equal_iff a b),
    )

-- Two collections compare equal exactly when the sort keys of one are a permutation of those of the
-- other, so neither the order of the elements matters nor may an element stand more often.
pub bags_equal_iff :
    (left right : List BartScalar)
    → (bags_equal left right ≡ true) ↔ Perm (map sort_key left) (map sort_key right)
bags_equal_iff left right =
    let (to_sorted, of_sorted) = bags_equal-sort left right in
    let (to_perm, of_perm) = sort_eq_iff (map sort_key left) (map sort_key right) in
    (λ h. to_perm (to_sorted h), λ p. of_sorted (of_perm p))

-- Texts that begin with different letters.
apart : (c d : ℕ) {s t : Str} → c ≢ d → ◌≡◌ {A = Str} (c ∷ s) (d ∷ t) ↔ ⊥
apart c d n = (λ h. n (ap first h), λ h. absurd h)
  where
    first : Str → ℕ
    first [] = 0
    first (x ∷ r) = x

-- The same type, and the same string, Boolean, or printed text of a number.
abbrev pub SameScalar : BartScalar → BartScalar → Type 0
SameScalar (text a) (text b) = a ≡ b
SameScalar (num a) (num b) = number_text a ≡ number_text b
SameScalar (boolean a) (boolean b) = a ≡ b
SameScalar _ _ = ⊥

-- Two sort keys are equal exactly when the elements have one type and are the same string, the same
-- Boolean, or numbers with the same printed text. So a string "1" never collides with the number 1.
pub sort_key-SameScalar : (a b : BartScalar) → (sort_key a ≡ sort_key b) ↔ SameScalar a b
unfolding sort_key
sort_key-SameScalar (text a) (text b) = (λ h. cc, λ h. cc)
sort_key-SameScalar (num a) (num b) = (λ h. cc, λ h. cc)
sort_key-SameScalar (boolean true) (boolean false) = (λ h. cc, λ h. cc)
sort_key-SameScalar (boolean false) (boolean true) = (λ h. cc, λ h. cc)
sort_key-SameScalar (boolean true) (boolean true) = (λ h. refl, λ h. refl)
sort_key-SameScalar (boolean false) (boolean false) = (λ h. refl, λ h. refl)
sort_key-SameScalar (text a) (num b) = apart b's' b'n' (omega arith)
sort_key-SameScalar (text a) (boolean b) = apart b's' b'b' (omega arith)
sort_key-SameScalar (num a) (text b) = apart b'n' b's' (omega arith)
sort_key-SameScalar (num a) (boolean b) = apart b'n' b'b' (omega arith)
sort_key-SameScalar (boolean a) (text b) = apart b'b' b's' (omega arith)
sort_key-SameScalar (boolean a) (num b) = apart b'b' b'n' (omega arith)
