-- ===== src/Tests/Backend.antt =====
-- The emitter, the validators and the matcher.
use Prim.Native.String.{String}
use mathlib.Core.List.{Perm}
use bart_share.Text.{is_digit, show_nat, Str, codes, str_eq, includes, sort, insert_sorted, str_le}
use bart_share.Number.{decimal, pos, negsuc, number_of, number_text}
use bart_share.Attrs.{BartScalar, BartValue, scalar, collection, BartAttrs, own}
use bart_share.Emitter.Grammar.{is_name, is_name_part, is_keyword, is_writable_number, user_id_attr}
use bart_share.Emitter.Comments.{next_mode, in_code, strip_comments}
use bart_share.Emitter.Stripping.{mode_after, strip_comments-join}
use bart_share.Emitter.{emit_attrs, emit_policy, party_attrs_of}
use bart_share.Reserved.{
  Element, one, Attrs, validate_attrs, attr_error, is_reserved, value_error, has_bad_char,
  has_control_char,
}
use bart_share.Reserved.Patterns.{AreAskable, validate_party_pattern_gate}
use bart_share.Reserved.{validate_party_pattern, pattern_error}
use bart_share.Emitter.{emit_request, any_of, emit_attr, emit_value, emit_scalar, quote, escape_all}
use bart_share.Prelude.{ok}
use bart_share.Text.{join}
use bart_share.Emitter.Grammar.{is_name_start}
use bart_share.Reserved.Gate.{widen, validate_attrs_gate}
use bart_share.Matcher.{
  matches, has_equal, values_equal, scalar_eq, bags_equal, every_equal, sort_key,
}
use bart_share.Matcher.Bags.{bags_equal_iff}
use bart_share.Matcher.Laws.{matches_trans}
use bart_share.Prelude.{List, [], ◌∷◌, ◌++◌, map, ok, refl, true, false, ◌≡◌, ◌↔◌}

abbrev string : String → BartValue
string s = scalar (BartScalar.text (codes s))

-- A `#` in a string stays, a comment goes with the text up to its newline.
strip_run : strip_comments (codes "(n:\"i#4\") # note\n(b:1)") ≡ codes "(n:\"i#4\") \n(b:1)"
unfolding strip_comments
strip_run = refl

-- A `#` in a literal stays, behind an escaped quote too; the comment goes, its newline stays.
abbrev commented : Str
commented = codes "(a:\"#\\\"\") # x\n"

strip_comments-join_example :
    (strip_comments (codes "(a:1) # x" ++ b'\n' ∷ codes "(b:2)")
      ≡ strip_comments (codes "(a:1) # x") ++ b'\n' ∷ strip_comments (codes "(b:2)"))
    × (mode_after in_code (strip_comments (codes "(a:1) # x")) ≡ in_code)
unfolding next_mode
strip_comments-join_example = strip_comments-join (codes "(a:1) # x") (codes "(b:2)") refl

-- Numbers print as JavaScript prints them: 120, 0.05, 1.5e-7 and 1e+21.
number_runs :
    (number_text (decimal false (1 ∷ 2 ∷ []) (pos 3)) ≡ codes "120")
    × (number_text (decimal true (5 ∷ []) (negsuc 0)) ≡ codes "-0.05")
    × (number_text (decimal false (1 ∷ 5 ∷ []) (negsuc 5)) ≡ codes "1.5e-7")
    × (number_text (decimal false (1 ∷ []) (pos 22)) ≡ codes "1e+21")
    × (number_text (decimal false (2 ∷ 5 ∷ []) (pos 1)) ≡ codes "2.5")
unfolding number_text show_nat
number_runs = (refl, refl, refl, refl, refl)

writable_runs :
    (is_writable_number (decimal false (1 ∷ 2 ∷ []) (pos 3)) ≡ true)
    × (is_writable_number (decimal false (1 ∷ 5 ∷ []) (negsuc 5)) ≡ false)
    × (is_writable_number (decimal false (1 ∷ []) (pos 17)) ≡ false)
unfolding is_writable_number number_text show_nat
writable_runs = (refl, refl, refl)

abbrev request_attrs : Attrs
request_attrs = (codes "course", one (Element.text (codes "ads"))) ∷ []

validate_run : validate_attrs request_attrs ≡ []
unfolding validate_attrs attr_error value_error has_bad_char has_control_char is_name is_name_part
    is_digit is_keyword is_reserved includes str_eq
validate_run = refl

validate_attrs_gate_example :
    (typed : BartAttrs) × (emitted : Str) × (policy : Str) × (widen typed ≡ request_attrs)
    × (emit_attrs typed ≡ ok emitted)
    × (emit_policy (record { id = codes "u"; attrs = typed; rules = [] }) ≡ ok policy)
    × (party_attrs_of (codes "u") typed
        ≡ (user_id_attr, scalar (BartScalar.text (codes "u"))) ∷ typed)
validate_attrs_gate_example = validate_attrs_gate request_attrs (codes "u") [] validate_run

abbrev asked_of : Attrs
asked_of = (codes "userId", one (Element.text (codes "bob"))) ∷ []

pattern_run : validate_party_pattern asked_of ≡ []
unfolding validate_party_pattern pattern_error value_error has_bad_char has_control_char is_name
    is_name_part is_digit is_keyword is_reserved includes str_eq
pattern_run = refl

resource_run :
    emit_attrs ((codes "course", scalar (BartScalar.text (codes "ads"))) ∷ [])
    ≡ ok (codes "(course:\"ads\")")
unfolding emit_attrs emit_attr emit_value emit_scalar quote escape_all is_name is_name_part
    is_name_start is_digit is_keyword includes str_eq join
resource_run = refl

validate_party_pattern_gate_example :
    (typed : BartAttrs) × (line : Str) × (widen typed ≡ asked_of)
    × AreAskable typed
    × (emit_request 1
          ((codes "course", scalar (BartScalar.text (codes "ads"))) ∷ [])
          (record { quantifier = any_of; attrs = typed })
        ≡ ok line)
validate_party_pattern_gate_example =
    validate_party_pattern_gate asked_of 1 any_of (codes "course")
      (scalar (BartScalar.text (codes "ads"))) [] (codes "(course:\"ads\")") pattern_run
      resource_run

abbrev b_a : List BartScalar
b_a = BartScalar.text (codes "b") ∷ BartScalar.text (codes "a") ∷ []

abbrev a_b : List BartScalar
a_b = BartScalar.text (codes "a") ∷ BartScalar.text (codes "b") ∷ []

bag_runs : (bags_equal b_a a_b ≡ true) × (bags_equal b_a (BartScalar.text (codes "b") ∷ []) ≡ false)
unfolding bags_equal sort insert_sorted str_le str_eq every_equal sort_key
bag_runs = (refl, refl)

bags_equal_iff_example : (bags_equal b_a a_b ≡ true) ↔ Perm (map sort_key b_a) (map sort_key a_b)
bags_equal_iff_example = bags_equal_iff b_a a_b

abbrev wide : BartAttrs
wide = (codes "type", string "book") ∷ []

abbrev narrow : BartAttrs
narrow = (codes "type", string "book") ∷ (codes "tags", collection b_a) ∷ []

abbrev full : BartAttrs
full =
    (codes "tags", collection a_b)
    ∷ (codes "type", string "book")
    ∷ (codes "year", scalar (BartScalar.num (number_of 7)))
    ∷ []

match_runs : (matches wide narrow ≡ true) × (matches narrow full ≡ true)
unfolding matches has_equal own values_equal scalar_eq bags_equal sort insert_sorted str_le str_eq
    every_equal sort_key
match_runs = (refl, refl)

matches_trans_example : matches wide full ≡ true
matches_trans_example = matches_trans wide narrow full match_runs.0 match_runs.1
