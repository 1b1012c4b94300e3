-- ===== src/Frontend/AttrList.antt =====
-- app/frontend/src/lib/bart/attrs.ts: the attributes that the engine prints between brackets.
use bart_share.Prelude.{
  ℕ, zero, suc, ◌-◌, Bool, true, false, ◌&&◌, ltb, leb, List, [], ◌∷◌, ◌++◌, length, drop, all, map,
  Option, none, some, if◌then◌else◌,
}
use bart_share.Text.{Str, codes, str_eq, join, starts_with, trim, is_digit, show_nat}
use bart_share.Number.{digits_value, text_digits}
use bart_share.Attrs.{BartAttrs, BartValue, scalar, collection, text}
use bart_share.Frontend.Naming.{element_text}
use bart_share.Frontend.Trace.{begin}

-- `text.split(separator)` of a separator that is not empty; so many characters are still its own.
unfoldable pub split_behind : Str → ℕ → Str → List Str
unfolding begin starts_with
split_behind separator skip [] = [] ∷ []
split_behind separator (suc skip) (c ∷ s) = split_behind separator skip s
split_behind separator zero (c ∷ s) =
    let chunks = split_behind separator zero s in
    let behind = split_behind separator (length separator - 1) s in
    if starts_with (c ∷ s) separator then [] ∷ behind else begin c chunks

-- `text.replace(/word$/, '')`, if the word is there.
unfoldable pub strip_end : Str → Str → Option Str
unfolding str_eq
strip_end word [] = if str_eq [] word then some [] else none
strip_end word (c ∷ s) =
    let rest = strip_end word s in
    if str_eq (c ∷ s) word
    then some []
    else elim rest [ none ↦ none | some front ↦ some (c ∷ front) ]

-- What stands before and behind the first `separator`.
unfoldable pub split_first : Str → Str → Option (Str × Str)
unfolding starts_with
split_first separator [] = none
split_first separator (c ∷ s) =
    let rest = split_first separator s in
    if starts_with (c ∷ s) separator
    then some ([], drop (length separator) (c ∷ s))
    else elim rest [ none ↦ none | some (front, behind) ↦ some (c ∷ front, behind) ]

-- The number of an own key that objects keep in ascending order before all others.
unfoldable pub index_of_key : Str → Option ℕ
unfolding is_digit digits_value text_digits show_nat str_eq
index_of_key k =
    let n = digits_value 0 (text_digits k) in
    if all is_digit k && str_eq k (show_nat n) && leb n 4294967294 then some n else none

unfoldable pub comes_before : Str → Str → Bool
unfolding index_of_key
comes_before k j = elim (index_of_key k) [
  | none ↦ false
  | some n ↦ elim (index_of_key j) [ none ↦ true | some m ↦ ltb n m ]
]

unfoldable pub put_text : Str → Str → BartAttrs → BartAttrs
unfolding comes_before str_eq
put_text k v [] = (k, scalar (text v)) ∷ []
put_text k v ((j, w) ∷ attrs) =
    let rest = put_text k v attrs in
    if str_eq k j
    then (j, scalar (text v)) ∷ attrs
    else if comes_before k j
    then (k, scalar (text v)) ∷ (j, w) ∷ attrs
    else (j, w) ∷ rest

-- `attrs[key] = value`; a string does not become the prototype.
unfoldable pub set_text : Str → Str → BartAttrs → BartAttrs
unfolding put_text
set_text k v attrs = if str_eq k (codes "__proto__") then attrs else put_text k v attrs

unfoldable pub add_chunk : Str → BartAttrs → BartAttrs
unfolding split_first set_text
add_chunk chunk attrs = elim (split_first (codes " : ") chunk) [
  | none ↦ attrs
  | some (key, value) ↦ set_text (trim key) (trim value) attrs
]

unfoldable pub add_chunks : List Str → BartAttrs → BartAttrs
unfolding add_chunk
add_chunks [] attrs = attrs
add_chunks (chunk ∷ chunks) attrs = add_chunks chunks (add_chunk chunk attrs)

-- Without the outer parentheses, each where it stands.
unfoldable pub unwrap : Str → Str
unfolding strip_end starts_with
unwrap s =
    let opened = if starts_with s (codes "(") then drop 1 s else s in
    elim (strip_end (codes ")") opened) [ some rest ↦ rest | none ↦ opened ]

unfoldable pub parse_attr_list : Str → BartAttrs
unfolding add_chunks unwrap split_behind
parse_attr_list s =
    if str_eq (trim s) []
    then []
    else add_chunks (split_behind (codes "), (") 0 (unwrap (trim s))) []

-- `String(value)`, of a list too.
unfoldable pub string_of : BartValue → Str
unfolding element_text
string_of (scalar v) = element_text v
string_of (collection vs) = join (codes ",") (map element_text vs)

-- The label's separator, a middle dot between spaces.
abbrev pub dot : Str
dot = b' ' ∷ 183 ∷ b' ' ∷ []

unfoldable pub resource_label : BartAttrs → Str
unfolding string_of join
resource_label [] = codes "anything"
resource_label (e ∷ attrs) = join dot (map (λ a. string_of a.1) (e ∷ attrs))

unfoldable pub resource_title : BartAttrs → Str
unfolding string_of join
resource_title [] = codes "empty pattern: Bart's wildcard, matches everything"
resource_title (e ∷ attrs) =
    join (codes ", ") (map (λ a. a.0 ++ (codes ": " ++ string_of a.1)) (e ∷ attrs))
