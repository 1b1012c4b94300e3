-- ===== src/Frontend/Cover.antt =====
-- app/frontend/src/lib/bart/match.ts: whether a pattern of the editor covers a resource.
pub mod Same
use bart_share.Prelude.{none, some, all}
use bart_share.Text.{Str, codes, sort}
use bart_share.Number.{number_text}
use bart_share.Attrs.{BartScalar, text, num, boolean, BartValue, scalar, collection, BartAttrs, own}
use bart_share.Emitter.{bool_text}
use bart_share.Matcher.{every_equal, scalar_eq}
use bart_share.Prelude.{map, ◌==◌, length, not, all, false, if◌then◌else◌, Bool, List, ◌++◌}

-- `${typeof value}|${String(value)}`
unfoldable pub sort_key : BartScalar → Str
unfolding number_text
sort_key (text s) = codes "string|" ++ s
sort_key (num n) = codes "number|" ++ number_text n
sort_key (boolean b) = codes "boolean|" ++ bool_text b

unfoldable pub bags_equal : List BartScalar → List BartScalar → Bool
bags_equal left right =
    if not (length left == length right)
    then false
    else every_equal (sort (map sort_key left)) (sort (map sort_key right))

unfoldable pub values_equal : BartValue → BartValue → Bool
values_equal (collection left) (collection right) = bags_equal left right
values_equal (scalar left) (scalar right) = scalar_eq left right
values_equal _ _ = false

-- One entry of the resource. A name that the pattern only inherits passes the source's `in`, and its
-- value equals no Bart value.
unfoldable pub is_covered : BartAttrs → Str × BartValue → Bool
unfolding own
is_covered pattern_ (key, value) = elim (own key pattern_) [
  | none ↦ false
  | some found ↦ values_equal value found
]

unfoldable pub covered_by : BartAttrs → BartAttrs → Bool
covered_by resource_attrs pattern_ = all (is_covered pattern_) resource_attrs
