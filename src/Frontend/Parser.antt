-- ===== src/Frontend/Parser.antt =====
-- app/frontend/src/lib/bart/parse.ts: recursive descent over the tokens of a rule. A loop takes the
-- tokens that are left as its fuel.
pub mod Values
pub mod Parties
pub mod Attributes
pub mod Exchanges
pub mod Standing
pub mod Primary
pub mod Nodes
pub mod Terms
pub mod Entries
use bart_share.Prelude.{
  zero, suc, ◌||◌, not, ◌&&◌, suc, ◌==◌, Outcome, Bool, ◌++◌, ◌>>=◌, List, ◌-◌, if◌then◌else◌, ℕ,
  [], ◌∷◌, length, take, drop, true, false, ok, throw,
}
use bart_share.Text.{Str, codes, str_eq}
use bart_share.Number.{number_text}
use bart_share.Number.Reading.{to_number}
use bart_share.Attrs.{
  BartScalar, text, num, boolean, BartValue, scalar, collection, BartAttrs, is_in,
}
use bart_share.Frontend.Lexer.{string, number, bool, name, punct, eof}
use bart_share.Frontend.Rule.{
  Participant, me, requester, any_of, all_of, Connector, and_, or_, ExchangeNode, term,
  ExchangeNodes, node, end, group_node, connector_text,
}
use bart_share.Frontend.Cursor.{
  Problem, syntax_problem, unrepresentable, out_of_fuel, Cursor, Parsed, is_name_kind, position_of,
  peek_second, next, is_token, fail, expect, fuel_of,
}

unfoldable pub not_representable_reason : Str
not_representable_reason =
    codes
      "This rule uses Bart the block editor cannot represent exactly, so it opens in Advanced only."

-- `text.replace(/\\(.)/g, '$1')`: the dot matches no line terminator, before which a backslash stays.
unfoldable pub is_line_end : ℕ → Bool
is_line_end c = c == b'\n' || c == 13 || c == 0x2028 || c == 0x2029

unfoldable pub unescape : Str → Str
unfolding is_line_end
unescape [] = []
unescape (c ∷ []) = c ∷ []
unescape (c ∷ d ∷ s) = elim (c == b'\\' && not (is_line_end d)) [
  | true ↦ d ∷ unescape s
  | false ↦ c ∷ unescape (d ∷ s)
]

-- `slice(1, -1)`
unfoldable pub inner : Str → Str
inner s = take (length s - 2) (drop 1 s)

unfoldable pub unquote : Str → Str
unfolding unescape inner
unquote s = unescape (inner s)

unfoldable pub parse_atom : Cursor → Parsed BartScalar
unfolding unquote
parse_atom c = elim c.current.kind [
  | string ↦ ok (text (unquote c.current.text), next c)
  | number ↦
      if str_eq (number_text (to_number c.current.text)) c.current.text
      then ok (num (to_number c.current.text), next c)
      else throw (unrepresentable not_representable_reason)
  | bool ↦ ok (boolean (str_eq c.current.text (codes "true")), next c)
  | name ↦ fail (codes "expected a string, number or boolean") c
  | punct ↦ fail (codes "expected a string, number or boolean") c
  | eof ↦ fail (codes "expected a string, number or boolean") c
]

-- `while (c.accept(',')) items.push(parseAtom(c))`
unfoldable pub more_atoms : ℕ → Cursor → Parsed (List BartScalar)
unfolding parse_atom
more_atoms zero c = throw out_of_fuel
more_atoms (suc fuel) c = elim (is_token (codes ",") c.current) [
  | false ↦ ok ([], c)
  | true ↦ parse_atom (next c) >>= λ (v, c1). more_atoms fuel c1 >>= λ (vs, c2). ok (v ∷ vs, c2)
]

unfoldable pub parse_atoms : Cursor → Parsed (List BartScalar)
unfolding more_atoms
parse_atoms c =
    parse_atom c >>= λ (v, c1). more_atoms (fuel_of c1) c1 >>= λ (vs, c2). ok (v ∷ vs, c2)

-- Behind a `{`.
unfoldable pub parse_braced : Cursor → Parsed BartValue
unfolding parse_atoms
parse_braced c = elim (is_token (codes "}") c.current) [
  | true ↦ ok (collection [], next c)
  | false ↦ parse_atoms c >>= λ (vs, c1). expect (codes "}") c1 >>= λ c2. ok (collection vs, c2)
]

-- A single atom, or a collection without braces.
unfoldable pub scalar_or_list : List BartScalar → BartValue
scalar_or_list [] = collection []
scalar_or_list (v ∷ []) = scalar v
scalar_or_list (v ∷ w ∷ vs) = collection (v ∷ w ∷ vs)

unfoldable pub parse_value : Cursor → Parsed BartValue
unfolding parse_braced scalar_or_list
parse_value c = elim (is_token (codes "{") c.current) [
  | true ↦ parse_braced (next c)
  | false ↦ parse_atoms c >>= λ (vs, c1). ok (scalar_or_list vs, c1)
]

unfoldable pub duplicate_text : Str → Str
duplicate_text key = codes "duplicate attribute key '" ++ (key ++ codes "'")

-- The entry with the name at the cursor.
unfoldable pub parse_entry : BartAttrs → Cursor → Parsed BartAttrs
unfolding duplicate_text parse_value
parse_entry into c =
    if is_in c.current.text into
    then throw (syntax_problem (duplicate_text c.current.text) (position_of c.current))
    else expect (codes ":") (next c) >>= λ c1. parse_value c1 >>= λ (value, c2).
        expect (codes ")") c2 >>= λ c3. ok (into ++ (c.current.text, value) ∷ [], c3)

unfoldable pub parse_attribute : BartAttrs → Cursor → Parsed BartAttrs
unfolding parse_entry
parse_attribute into c = expect (codes "(") c >>= λ c1.
    if is_name_kind c1.current.kind
    then parse_entry into c1
    else fail (codes "expected an attribute name") c1

-- `while (c.at('(')) parseAttribute(c, attrs)`
unfoldable pub more_attributes : ℕ → BartAttrs → Cursor → Parsed BartAttrs
unfolding parse_attribute
more_attributes zero attrs c = throw out_of_fuel
more_attributes (suc fuel) attrs c = elim (is_token (codes "(") c.current) [
  | false ↦ ok (attrs, c)
  | true ↦ parse_attribute attrs c >>= λ (longer, c1). more_attributes fuel longer c1
]

unfoldable pub parse_attributes : Bool → Cursor → Parsed BartAttrs
unfolding more_attributes
parse_attributes at_least_one c =
    if at_least_one && not (is_token (codes "(") c.current)
    then fail (codes "expected at least one attribute") c
    else more_attributes (fuel_of c) [] c

unfoldable pub quantified : Str → BartAttrs → Participant
quantified quant attrs = if str_eq quant (codes "any") then any_of attrs else all_of attrs

-- Behind the parenthesis of a quantified party.
unfoldable pub parse_quantified : Cursor → Parsed Participant
unfolding quantified parse_attributes
parse_quantified c =
    if not (is_token (codes "any") c.current) && not (is_token (codes "all") c.current)
    then fail (codes "expected 'any' or 'all'") c
    else expect (codes ":") (next c) >>= λ c1. parse_attributes false c1 >>= λ (attrs, c2).
        expect (codes ")") c2 >>= λ c3. ok (quantified c.current.text attrs, c3)

unfoldable pub parse_others : Cursor → Parsed Participant
unfolding parse_quantified
parse_others c = expect (codes "(") c >>= λ c1. parse_quantified c1

unfoldable pub parse_to : Cursor → Parsed Participant
unfolding parse_others
parse_to c =
    if is_token (codes "me") c.current
    then ok (me, next c)
    else if is_token (codes "(") c.current
    then parse_others c
    else fail (codes "expected 'me' or a quantified party for 'to'") c

unfoldable pub parse_from : Cursor → Parsed Participant
unfolding parse_others
parse_from c =
    if is_token (codes "requester") c.current
    then ok (requester, next c)
    else if is_token (codes "(") c.current
    then parse_others c
    else fail (codes "expected 'requester' or a quantified party for 'from'") c

-- `c.expect(word); c.expect(':')`
unfoldable pub expect_key : Str → Cursor → Outcome Problem Cursor
expect_key word c = expect word c >>= λ c1. expect (codes ":") c1

unfoldable pub parse_term : Cursor → Parsed ExchangeNode
unfolding expect_key parse_to parse_from parse_attributes
parse_term c = expect (codes "(") c >>= λ c1. expect_key (codes "to") c1 >>= λ c2.
    parse_to c2 >>= λ (to, c3). expect (codes ",") c3 >>= λ c4.
    expect_key (codes "resource") c4 >>= λ c5. parse_attributes true c5 >>= λ (resource, c6).
    expect (codes ",") c6 >>= λ c7. expect_key (codes "from") c7 >>= λ c8.
    parse_from c8 >>= λ (from, c9). expect (codes ")") c9 >>= λ c10.
    ok (term (record { to = to; resource = resource; from = from }), c10)

-- `while (c.accept(word)) children.push(child(c))`
unfoldable pub more_children :
    ℕ → Str → (Cursor → Parsed ExchangeNode) → Cursor → Parsed ExchangeNodes
more_children zero word child c = throw out_of_fuel
more_children (suc fuel) word child c = elim (is_token word c.current) [
  | false ↦ ok (end, c)
  | true ↦ child (next c) >>= λ (n, c1).
      more_children fuel word child c1 >>= λ (ns, c2). ok (node n ns, c2)
]

-- parseAnd and parseOr, over the parser of a child.
unfoldable pub parse_connected :
    Connector → (Cursor → Parsed ExchangeNode) → Cursor → Parsed ExchangeNode
unfolding more_children
parse_connected connector child c = child c >>= λ (n, c1).
    more_children (fuel_of c1) (connector_text connector) child c1 >>= λ (ns, c2).
    ok (group_node connector (node n ns), c2)

unfoldable pub parse_or_of : (Cursor → Parsed ExchangeNode) → Cursor → Parsed ExchangeNode
unfolding parse_connected
parse_or_of primary c = parse_connected or_ (parse_connected and_ primary) c

-- `c.peek(1).kind === 'name' && c.peek(1).text === 'to'`
unfoldable pub opens_term : Cursor → Bool
opens_term c = is_name_kind (peek_second c).kind && str_eq (peek_second c).text (codes "to")

unfoldable pub parse_primary : ℕ → Cursor → Parsed ExchangeNode
unfolding opens_term parse_term parse_or_of
parse_primary zero c = throw out_of_fuel
parse_primary (suc fuel) c =
    if not (is_token (codes "(") c.current)
    then fail (codes "expected an exchange") c
    else elim (opens_term c) [
      | true ↦ parse_term c
      | false ↦ expect (codes "(") c >>= λ c1.
          parse_or_of (parse_primary fuel) c1 >>= λ (inner_, c2).
          expect (codes ")") c2 >>= λ c3. ok (inner_, c3)
    ]

unfoldable pub parse_or : Cursor → Parsed ExchangeNode
unfolding parse_primary
parse_or c = parse_or_of (parse_primary (fuel_of c)) c
