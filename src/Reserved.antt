-- ===== src/Reserved.antt =====
-- app/backend/src/bart/reserved.ts: what user data may hold. The values come from a request body,
-- so they are checked here as JSON of unknown shape.
pub mod Gate
pub mod Patterns
use bart_share.Prelude.{
  ℕ, Bool, true, false, not, ◌&&◌, ◌||◌, List, [], ◌∷◌, ◌++◌, ltb, ◌==◌, if◌then◌else◌, Option,
  none, some, any, drop,
}
use bart_share.Text.{Str, codes, str_eq, includes, starts_with}
use bart_share.Number.{Number, is_finite, is_integer, number_text}
use bart_share.Emitter.Grammar.{is_name, is_keyword, is_writable_number, user_id_attr}
use bart_share.Context.Providers.{provider_keys}

-- `unknown`, as far as `typeof` and `Array.isArray` look: `object` is `null`, a nested object, or,
-- inside an array, an array.
pub data Element : Type 0 where
  text : Str → Element
  num : Number → Element
  boolean : Bool → Element
  object : Element

pub data Unknown : Type 0 where
  one : Element → Unknown
  many : List Element → Unknown

abbrev pub Attrs : Type 0
Attrs = List (Str × Unknown)

-- BAD_VALUE_CHARS_RE
unfoldable pub has_bad_char : Str → Bool
has_bad_char s = any (λ c. c == b'"' || c == b'\\') s

unfoldable pub has_control_char : Str → Bool
has_control_char s = any (λ c. ltb c 0x20) s

-- RESERVED_ATTR_NAMES
unfoldable pub reserved_attr_names : List Str
unfolding provider_keys
reserved_attr_names = user_id_attr ∷ provider_keys

unfoldable pub is_reserved : Str → Bool
unfolding includes reserved_attr_names
is_reserved k = includes k reserved_attr_names

-- `attrs: <where> of '<key>'<what>`
unfoldable pub about : Str → Str → Str → Str
about where_ key what =
    codes "attrs: " ++ (where_ ++ (codes " of '" ++ (key ++ (codes "'" ++ what))))

unfoldable pub bad_chars_text : Str
bad_chars_text = codes " may not contain '\"', '\\' or control characters"

unfoldable pub not_finite_text : Str
not_finite_text = codes " must be a finite number"

unfoldable pub out_of_range_text : Number → Str
out_of_range_text n =
    codes " is outside the exact integer range (got '"
    ++ (number_text n ++ codes "'; whole numbers stop at ±(2^53 - 1))")

unfoldable pub exponent_message : Number → Str
exponent_message n =
    codes " must be a plain decimal number (got '"
    ++ (number_text n ++ codes "'; Bart has no exponent notation)")

unfoldable pub wrong_type_text : Str
wrong_type_text = codes " must be a string, number or boolean"

unfoldable pub scalar_error : Str → Element → Str → Option Str
unfolding has_bad_char has_control_char
scalar_error key (text s) where_ =
    if has_bad_char s || has_control_char s then some (about where_ key bad_chars_text) else none
scalar_error key (num n) where_ =
    if is_writable_number n
    then none
    else if not (is_finite n)
    then some (about where_ key not_finite_text)
    else if is_integer n
    then some (about where_ key (out_of_range_text n))
    else some (about where_ key (exponent_message n))
scalar_error key (boolean b) where_ = none
scalar_error key object where_ = some (about where_ key wrong_type_text)

-- The loop over an array stops at its first error.
unfoldable pub first_error : Str → List Element → Option Str
unfolding scalar_error
first_error key [] = none
first_error key (v ∷ vs) = elim (scalar_error key v (codes "element")) [
  | some e ↦ some e
  | none ↦ first_error key vs
]

unfoldable pub value_error : Str → Unknown → Option Str
unfolding first_error scalar_error
value_error key (many vs) = first_error key vs
value_error key (one v) = scalar_error key v (codes "value")

unfoldable pub not_a_name_text : Str → Str → Str
not_a_name_text field key =
    field
    ++ (codes ": key '"
        ++ (key
            ++ codes
                "' is not a valid Bart name (letters, digits and underscore; may not start with a digit)"))

unfoldable pub keyword_text : Str → Str → Str
keyword_text field key =
    field
    ++ (codes ": key '"
        ++ (key ++ codes "' is a reserved Bart keyword and cannot be an attribute name"))

unfoldable pub set_by_system_text : Str → Str
set_by_system_text key =
    codes "attrs: key '" ++ (key ++ codes "' is reserved and is set by the system")

unfoldable pub is_context_text : Str → Str
is_context_text key =
    codes "from: key '"
    ++ (key ++ codes "' is context, not a party attribute, and would match no one")

-- What one round of the loop of `validateAttrs` pushes, if anything.
unfoldable pub attr_error : Str → Unknown → Option Str
attr_error key value =
    if not (is_name key)
    then some (not_a_name_text (codes "attrs") key)
    else if is_keyword key
    then some (keyword_text (codes "attrs") key)
    else if is_reserved key
    then some (set_by_system_text key)
    else value_error key value

abbrev pub push_error : Option Str → List Str → List Str
push_error none errors = errors
push_error (some e) errors = e ∷ errors

unfoldable pub validate_attrs : Attrs → List Str
unfolding attr_error
validate_attrs [] = []
validate_attrs ((key, value) ∷ attrs) = push_error (attr_error key value) (validate_attrs attrs)

-- `error.replace(/^attrs: /, 'from: ')`
unfoldable pub as_from : Str → Str
as_from e = if starts_with e (codes "attrs: ") then codes "from: " ++ drop 7 e else e

unfoldable pub pattern_error : Str → Unknown → Option Str
pattern_error key value =
    if not (is_name key)
    then some (not_a_name_text (codes "from") key)
    else if is_keyword key
    then some (keyword_text (codes "from") key)
    else if not (str_eq key user_id_attr) && is_reserved key
    then some (is_context_text key)
    else elim (value_error key value) [ none ↦ none | some e ↦ some (as_from e) ]

unfoldable pub validate_party_pattern : Attrs → List Str
unfolding pattern_error
validate_party_pattern [] = []
validate_party_pattern ((key, value) ∷ attrs) =
    push_error (pattern_error key value) (validate_party_pattern attrs)
