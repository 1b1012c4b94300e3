-- ===== src/Emitter/Grammar.antt =====
-- app/backend/src/bart/emitter.ts: the words of the grammar that the emitter must respect.
use bart_share.Prelude.{
  ℕ, Bool, true, false, not, ◌&&◌, ◌||◌, List, [], ◌∷◌, leb, ◌==◌, if◌then◌else◌, all,
}
use bart_share.Text.{Str, codes, includes, is_digit}
use bart_share.Number.{Number, is_finite, is_integer, is_safe_integer, number_text}

-- USER_ID_ATTR
abbrev pub user_id_attr : Str
user_id_attr = codes "userId"

unfoldable pub is_name_start : ℕ → Bool
is_name_start c = (leb b'a' c && leb c b'z') || (leb b'A' c && leb c b'Z') || c == b'_'

unfoldable pub is_name_part : ℕ → Bool
unfolding is_name_start is_digit
is_name_part c = is_name_start c || is_digit c

-- NAME_RE
unfoldable pub is_name : Str → Bool
unfolding is_name_part
is_name [] = false
is_name (c ∷ s) = is_name_start c && all is_name_part s

-- NUMBER_RE, from its end to its start: the digits behind the point, those before it, the sign.
unfoldable pub is_fraction : Str → Bool
unfolding is_digit
is_fraction [] = false
is_fraction (c ∷ s) = is_digit c && all is_digit s

unfoldable pub is_number_tail : Str → Bool
unfolding is_fraction
is_number_tail [] = true
is_number_tail (c ∷ s) =
    let rest = is_number_tail s in if is_digit c then rest else c == b'.' && is_fraction s

unfoldable pub is_unsigned : Str → Bool
unfolding is_number_tail
is_unsigned [] = false
is_unsigned (c ∷ s) = is_digit c && is_number_tail s

unfoldable pub is_number_text : Str → Bool
unfolding is_unsigned
is_number_text [] = false
is_number_text (c ∷ s) = if c == b'-' then is_unsigned s else is_unsigned (c ∷ s)

unfoldable pub is_writable_number : Number → Bool
unfolding is_number_text is_finite is_integer is_safe_integer number_text
is_writable_number value =
    if not (is_finite value)
    then false
    else if is_integer value && not (is_safe_integer value)
    then false
    else is_number_text (number_text value)

abbrev pub bart_keywords : List Str
bart_keywords =
    codes "to"
    ∷ codes "and"
    ∷ codes "or"
    ∷ codes "not"
    ∷ codes "in"
    ∷ codes "me"
    ∷ codes "requester"
    ∷ codes "any"
    ∷ codes "all"
    ∷ codes "from"
    ∷ codes "party"
    ∷ codes "rules"
    ∷ codes "resource"
    ∷ codes "condition"
    ∷ codes "exchange"
    ∷ codes "true"
    ∷ codes "false"
    ∷ []

-- `BART_KEYWORDS.has`
unfoldable pub is_keyword : Str → Bool
unfolding includes
is_keyword k = includes k bart_keywords
