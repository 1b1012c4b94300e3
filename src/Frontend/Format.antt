-- ===== src/Frontend/Format.antt =====
-- app/frontend/src/lib/bart/types.ts and format.ts: which attribute keys a user may write, and the
-- editor's own printing of attributes.
pub mod Agreement
use bart_share.Text.{Str, codes, includes, join}
use bart_share.Number.{Number, number_text, is_finite}
use bart_share.Attrs.{BartScalar, text, num, boolean, BartValue, scalar, collection, BartAttrs}
use bart_share.Emitter.Grammar.{is_name}
use bart_share.Emitter.{quote, bool_text}
use bart_share.Prelude.{
  none, ◌&&◌, throw, not, some, ◌++◌, if◌then◌else◌, [], ◌>>=◌, traverse, ok, Option, ◌∷◌, Outcome,
  List,
}

-- `BART_KEYWORDS`: the frontend's own copy.
abbrev pub editor_keywords : List Str
editor_keywords =
    codes "to"
    ∷ codes "and"
    ∷ codes "or"
    ∷ codes "not"
    ∷ codes "in"
    ∷ codes "me"
    ∷ codes "requester"
    ∷ codes "any"
    ∷ codes "all"
    ∷ codes "from"
    ∷ codes "party"
    ∷ codes "rules"
    ∷ codes "resource"
    ∷ codes "condition"
    ∷ codes "exchange"
    ∷ codes "true"
    ∷ codes "false"
    ∷ []

abbrev pub reserved_keys : List Str
reserved_keys =
    codes "userId"
    ∷ codes "connections"
    ∷ codes "groups"
    ∷ codes "date_year"
    ∷ codes "date_month"
    ∷ codes "date_day"
    ∷ []

pub data AttrKeyProblem : Type 0 where
  invalid_name keyword reserved : AttrKeyProblem

unfoldable pub validate_attr_key : Str → List Str → Option AttrKeyProblem
validate_attr_key key allow =
    if not (is_name key)
    then some invalid_name
    else if includes key editor_keywords
    then some keyword
    else if includes key reserved_keys && not (includes key allow)
    then some reserved
    else none

-- An `Error`, by its message.
abbrev pub FormatError : Type 0
FormatError = Str

-- The `default` case is for values outside `BartScalar`, which the type rules out.
unfoldable pub format_scalar : BartScalar → Outcome FormatError Str
format_scalar (text s) = ok (quote s)
format_scalar (num n) =
    if not (is_finite n)
    then throw (codes "value " ++ (number_text n ++ codes " is not a finite number"))
    else ok (number_text n)
format_scalar (boolean b) = ok (bool_text b)

unfoldable pub format_value : BartValue → Outcome FormatError Str
format_value (collection vs) =
    traverse format_scalar vs >>= λ items. ok (b'{' ∷ (join (b',' ∷ []) items ++ (b'}' ∷ [])))
format_value (scalar v) = format_scalar v

unfoldable pub format_attr : Str → BartValue → Outcome FormatError Str
format_attr key value = format_value value >>= λ v. ok (b'(' ∷ (key ++ (b':' ∷ (v ++ (b')' ∷ [])))))

-- One entry of emitAttrs, by the problem with its key; a reserved key is written.
unfoldable pub emit_unless : Option AttrKeyProblem → Str → BartValue → Outcome FormatError Str
emit_unless (some invalid_name) key value =
    throw (codes "key '" ++ (key ++ codes "' is not a valid Bart name"))
emit_unless (some keyword) key value =
    throw (codes "key '" ++ (key ++ codes "' is a reserved Bart keyword"))
emit_unless (some reserved) key value = format_attr key value
emit_unless none key value = format_attr key value

unfoldable pub emit_entry : Str × BartValue → Outcome FormatError Str
emit_entry (key, value) = emit_unless (validate_attr_key key []) key value

unfoldable pub emit_attrs : BartAttrs → Outcome FormatError Str
emit_attrs attrs = traverse emit_entry attrs >>= λ parts. ok (join [] parts)
