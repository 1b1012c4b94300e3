-- ===== src/Matcher.antt =====
-- app/backend/src/bart/matcher.ts: the attribute matcher.
pub mod Bags
pub mod Laws
use bart_share.Prelude.{
  ℕ, Bool, true, false, not, ◌&&◌, List, [], ◌∷◌, ◌++◌, map, ◌==◌, if◌then◌else◌, Option, none,
  some, length, all,
}
use bart_share.Text.{Str, codes, str_eq, sort}
use bart_share.Number.{Number, number_text, number_eq, bool_eq}
use bart_share.Attrs.{BartScalar, text, num, boolean, BartValue, scalar, collection, BartAttrs, own}
use bart_share.Emitter.{bool_text}

-- `${typeof value}\u0000${String(value)}`
unfoldable pub sort_key : BartScalar → Str
unfolding number_text
sort_key (text s) = codes "string" ++ (0 ∷ s)
sort_key (num n) = codes "number" ++ (0 ∷ number_text n)
sort_key (boolean b) = codes "boolean" ++ (0 ∷ bool_text b)

-- `a.every((value, i) => value === b[i])`
unfoldable pub every_equal : List Str → List Str → Bool
unfolding str_eq
every_equal [] ys = true
every_equal (x ∷ xs) [] = false
every_equal (x ∷ xs) (y ∷ ys) = str_eq x y && every_equal xs ys

unfoldable pub bags_equal : List BartScalar → List BartScalar → Bool
bags_equal left right =
    if not (length left == length right)
    then false
    else every_equal (sort (map sort_key left)) (sort (map sort_key right))

-- `left === right` on scalars.
unfoldable pub scalar_eq : BartScalar → BartScalar → Bool
unfolding bool_eq
scalar_eq (text a) (text b) = str_eq a b
scalar_eq (num a) (num b) = number_eq a b
scalar_eq (boolean a) (boolean b) = bool_eq a b
scalar_eq _ _ = false

unfoldable pub values_equal : BartValue → BartValue → Bool
values_equal (collection left) (collection right) = bags_equal left right
values_equal (scalar left) (scalar right) = scalar_eq left right
values_equal _ _ = false

-- One key of the pattern. A name that the attributes only inherit from `Object.prototype` passes
-- the source's `in`, and its value is a function or an object, which equals no Bart value.
unfoldable pub has_equal : BartAttrs → Str × BartValue → Bool
unfolding own
has_equal party_attrs (key, value) = elim (own key party_attrs) [
  | none ↦ false
  | some found ↦ values_equal value found
]

unfoldable pub matches : BartAttrs → BartAttrs → Bool
matches pattern_ party_attrs = all (has_equal party_attrs) pattern_
