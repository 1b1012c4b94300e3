-- ===== src/Emitter.antt =====
-- app/backend/src/bart/emitter.ts: attributes, policies and requests as `.bart` text.
pub mod Grammar
pub mod Comments
pub mod Stripping
pub mod Bare
pub mod Owner
use bart_share.Prelude.{
  ℕ, Bool, true, false, not, ◌&&◌, ◌||◌, List, [], ◌∷◌, ◌++◌, map, leb, ◌==◌, if◌then◌else◌,
  Outcome, ok, throw, ◌>>=◌, traverse, keep,
}
use bart_share.Emitter.Grammar.{is_name, is_keyword, is_writable_number, user_id_attr}
use bart_share.Emitter.Comments.{strip_comments}
use bart_share.Text.{Str, codes, str_eq, includes, join, trim, show_nat}
use bart_share.Number.{Number, number_text}
use bart_share.Attrs.{BartScalar, text, num, boolean, BartValue, scalar, collection, BartAttrs}

-- `class BartEmitError`, by its message.
pub data BartEmitError : Type 0 where
  bart_emit_error : Str → BartEmitError

-- `value.replace(/c/g, '\\c')`: one pass that puts a backslash before every `c`.
unfoldable pub escape_all : ℕ → Str → Str
escape_all q [] = []
escape_all q (c ∷ s) = let rest = escape_all q s in if c == q then b'\\' ∷ c ∷ rest else c ∷ rest

unfoldable pub quote : Str → Str
unfolding escape_all
quote s = b'"' ∷ (escape_all b'"' (escape_all b'\\' s) ++ (b'"' ∷ []))

abbrev pub bool_text : Bool → Str
bool_text true = codes "true"
bool_text false = codes "false"

unfoldable pub not_a_number_message : Number → Str
not_a_number_message n =
    codes "number " ++ (number_text n ++ codes " cannot be written as Bart NUMBER")

-- The `default` case is for values outside `BartScalar`, which the type rules out.
unfoldable pub emit_scalar : BartScalar → Outcome BartEmitError Str
emit_scalar (text s) = ok (quote s)
emit_scalar (num n) =
    if not (is_writable_number n)
    then throw (bart_emit_error (not_a_number_message n))
    else ok (number_text n)
emit_scalar (boolean b) = ok (bool_text b)

-- `null` and objects are outside `BartValue`, which the type rules out.
unfoldable pub emit_value : BartValue → Outcome BartEmitError Str
emit_value (collection vs) =
    traverse emit_scalar vs >>= λ items. ok (b'{' ∷ (join (b',' ∷ []) items ++ (b'}' ∷ [])))
emit_value (scalar v) = emit_scalar v

unfoldable pub invalid_name_message : Str → Str
invalid_name_message k = codes "key '" ++ (k ++ codes "' is not a valid Bart name")

unfoldable pub keyword_message : Str → Str
keyword_message k = codes "key '" ++ (k ++ codes "' is a reserved Bart keyword")

unfoldable pub emit_attr : Str × BartValue → Outcome BartEmitError Str
emit_attr (key, value) =
    if not (is_name key)
    then throw (bart_emit_error (invalid_name_message key))
    else if is_keyword key
    then throw (bart_emit_error (keyword_message key))
    else emit_value value >>= λ v. ok (b'(' ∷ (key ++ (b':' ∷ (v ++ (b')' ∷ [])))))

unfoldable pub emit_attrs : BartAttrs → Outcome BartEmitError Str
emit_attrs attrs = traverse emit_attr attrs >>= λ parts. ok (join [] parts)

unfoldable pub emit_attr_list : BartAttrs → Outcome BartEmitError Str
emit_attr_list attrs =
    emit_attrs attrs >>= λ emitted. ok (if str_eq emitted [] then codes "()" else emitted)

-- `const { userId: _carried, ...rest } = attrs`
unfoldable pub without : Str → BartAttrs → BartAttrs
without k [] = []
without k ((j, v) ∷ r) = let rest = without k r in if str_eq j k then rest else (j, v) ∷ rest

pub record PolicyUser : Type 0 where
  pub id : Str
  pub attrs : BartAttrs
  pub rules : List Str

unfoldable pub party_attrs_of : Str → BartAttrs → BartAttrs
unfolding without
party_attrs_of id attrs = (user_id_attr, scalar (text id)) ∷ without user_id_attr attrs

-- The rules that are left once comments are gone.
unfoldable pub cleaned_rules : List Str → List Str
cleaned_rules rules = keep (λ rule. not (str_eq (trim rule) [])) (map strip_comments rules)

unfoldable pub rules_text : List Str → Str
unfolding join
rules_text [] = codes "()"
rules_text (r ∷ rs) = join (b'\n' ∷ []) (r ∷ rs)

-- The policy around its party text.
unfoldable pub policy_text : Str → List Str → Str
policy_text party rules =
    codes "(party:"
    ++ (party ++ (codes ", rules:" ++ (rules_text (cleaned_rules rules) ++ codes ")")))

unfoldable pub emit_policy : PolicyUser → Outcome BartEmitError Str
emit_policy user =
    emit_attrs (party_attrs_of user.id user.attrs) >>= λ party. ok (policy_text party user.rules)

pub data Quantifier : Type 0 where
  any_of all_of : Quantifier

abbrev pub quantifier_text : Quantifier → Str
quantifier_text any_of = codes "any"
quantifier_text all_of = codes "all"

pub record RequestTarget : Type 0 where
  pub quantifier : Quantifier
  pub attrs : BartAttrs

unfoldable pub empty_request_message : Str
empty_request_message = codes "a request needs at least one resource attribute"

-- The text of a request from its parts.
unfoldable pub request_text : ℕ → Str → Quantifier → Str → Str
unfolding show_nat
request_text index resource quantifier from =
    show_nat index
    ++ (codes " : (resource:"
        ++ (resource
            ++ (codes ", from:("
                ++ (quantifier_text quantifier ++ (codes ":" ++ (from ++ codes "))"))))))

unfoldable pub emit_request : ℕ → BartAttrs → RequestTarget → Outcome BartEmitError Str
emit_request index [] target = throw (bart_emit_error empty_request_message)
emit_request index (a ∷ r) target = emit_attrs (a ∷ r) >>= λ resource.
    emit_attrs target.attrs >>= λ from. ok (request_text index resource target.quantifier from)
