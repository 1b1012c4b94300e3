-- ===== src/Frontend/Rule.antt =====
-- app/frontend/src/lib/bart/rule.ts: rules as the editor holds them, and its canonical printer.
pub mod Entries
pub mod Nodes
pub mod Groups
pub mod Shapes
pub mod Widening
pub mod Pieces
pub mod Written
pub mod Tokens
pub mod Printing
use bart_share.Prelude.{
  leb, ◌&&◌, false, [], ◌++◌, throw, ◌>>=◌, ok, ◌∷◌, ◌==◌, not, true, ℕ, Outcome, if◌then◌else◌,
  Bool, Option, List, none, some, length, replicate,
}
use bart_share.Text.{Str, codes, join}
use bart_share.Attrs.{BartAttrs}
use bart_share.Frontend.Format.{FormatError, emit_attrs}

pub data Participant : Type 0 where
  me requester : Participant
  any_of all_of : BartAttrs → Participant

pub record ExchangeTerm : Type 0 where
  pub to : Participant
  pub resource : BartAttrs
  pub from : Participant

pub data Connector : Type 0 where
  and_ or_ : Connector

pub record ExchangeGroup : Type 0 where
  pub connector : Connector
  pub terms : List ExchangeTerm

-- `condition?: string` and `exchange?: ExchangeGroup`
pub record RuleAst : Type 0 where
  pub resource : BartAttrs
  pub condition : Option Str
  pub exchange : Option ExchangeGroup

unfoldable pub is_and : Connector → Bool
is_and and_ = true
is_and or_ = false

unfoldable pub same_connector : Connector → Connector → Bool
same_connector and_ c = is_and c
same_connector or_ c = not (is_and c)

unfoldable pub normalize_exchange : ExchangeGroup → ExchangeGroup
unfolding is_and
normalize_exchange group_ =
    if length group_.terms == 1 && not (is_and group_.connector)
    then record { connector = and_; terms = group_.terms }
    else group_

-- A node and `ExchangeNode[]`.
mutual
  pub data ExchangeNode : Type 0 where
    term : ExchangeTerm → ExchangeNode
    group : Connector → ExchangeNodes → ExchangeNode

  pub data ExchangeNodes : Type 0 where
    end : ExchangeNodes
    node : ExchangeNode → ExchangeNodes → ExchangeNodes

pub record RuleTree : Type 0 where
  pub resource : BartAttrs
  pub condition : Option Str
  pub exchange : Option ExchangeNode

unfoldable pub append_nodes : ExchangeNodes → ExchangeNodes → ExchangeNodes
append_nodes end ms = ms
append_nodes (node n ns) ms = node n (append_nodes ns ms)

-- The loop of groupNode, which collects `flat`.
unfoldable pub flatten : Connector → ExchangeNodes → ExchangeNodes
unfolding append_nodes same_connector is_and
flatten c end = end
flatten c (node (term t) ns) = node (term t) (flatten c ns)
flatten c (node (group d children) ns) =
    let rest = flatten c ns in
    if same_connector d c then append_nodes children rest else node (group d children) rest

-- `flat.length === 1 ? flat[0] : { kind: 'group', connector, children: flat }`
unfoldable pub bare_or_group : Connector → ExchangeNodes → ExchangeNode
bare_or_group c end = group c end
bare_or_group c (node n end) = n
bare_or_group c (node n (node m ns)) = group c (node n (node m ns))

unfoldable pub group_node : Connector → ExchangeNodes → ExchangeNode
unfolding flatten bare_or_group
group_node c children = bare_or_group c (flatten c children)

unfoldable pub term_nodes : List ExchangeTerm → ExchangeNodes
term_nodes [] = end
term_nodes (t ∷ ts) = node (term t) (term_nodes ts)

abbrev pub no_term_text : Str
no_term_text = codes "an exchange needs at least one term"

unfoldable pub to_tree : RuleAst → Outcome FormatError RuleTree
to_tree ast = elim ast.exchange [
  | none ↦ ok (record { resource = ast.resource; condition = ast.condition; exchange = none })
  | some group_ ↦
      if length group_.terms == 0
      then throw no_term_text
      else ok (record {
        resource = ast.resource;
        condition = ast.condition;
        exchange = some (group_node group_.connector (term_nodes group_.terms));
      })
]

unfoldable pub participant_to_bart : Participant → Outcome FormatError Str
participant_to_bart me = ok (codes "me")
participant_to_bart requester = ok (codes "requester")
participant_to_bart (any_of attrs) =
    emit_attrs attrs >>= λ s. ok (codes "(any:" ++ (s ++ codes ")"))
participant_to_bart (all_of attrs) =
    emit_attrs attrs >>= λ s. ok (codes "(all:" ++ (s ++ codes ")"))

unfoldable pub require_resource : BartAttrs → Str → Outcome FormatError Str
require_resource attrs where_ =
    if length attrs == 0
    then throw (where_ ++ codes " needs at least one resource attribute")
    else emit_attrs attrs

abbrev pub term_indent : Str
term_indent = replicate (length (codes " exchange:(")) b' '

unfoldable pub term_to_bart : Str → ExchangeTerm → Outcome FormatError Str
term_to_bart key_separator t = participant_to_bart t.to >>= λ to.
    participant_to_bart t.from >>= λ from.
    require_resource t.resource (codes "an exchange") >>= λ resource. ok (
      codes "(to:"
      ++ (to
          ++ (codes ","
              ++ (key_separator
                  ++ (codes "resource:"
                      ++ (resource
                          ++ (codes ","
                              ++ (key_separator ++ (codes "from:" ++ (from ++ codes ")"))))))))))

unfoldable pub connector_text : Connector → Str
connector_text and_ = codes "and"
connector_text or_ = codes "or"

-- The children's texts in one pair of parentheses; a group without children is refused.
unfoldable pub in_parens : Str → Connector → List Str → Outcome FormatError Str
in_parens between c [] = throw no_term_text
in_parens between c (part ∷ parts) =
    ok (codes "(" ++ (join (between ++ (connector_text c ++ between)) (part ∷ parts) ++ codes ")"))

unfoldable mutual
  unfolding term_to_bart in_parens

  pub node_to_bart : Str → Str → ExchangeNode → Outcome FormatError Str
  node_to_bart key_separator between (term t) = term_to_bart key_separator t
  node_to_bart key_separator between (group c children) =
      nodes_to_bart key_separator between children >>= λ parts. in_parens between c parts

  pub nodes_to_bart : Str → Str → ExchangeNodes → Outcome FormatError (List Str)
  nodes_to_bart key_separator between end = ok []
  nodes_to_bart key_separator between (node n ns) = node_to_bart key_separator between n >>= λ part.
      nodes_to_bart key_separator between ns >>= λ parts. ok (part ∷ parts)

-- `broken ? '\n' + TERM_INDENT + (grouped ? ' ' : '') : ' '`
unfoldable pub key_separator_of : ExchangeNode → Bool → Str
key_separator_of n false = codes " "
key_separator_of (term t) true = codes "\n" ++ term_indent
key_separator_of (group c ns) true = codes "\n" ++ (term_indent ++ codes " ")

unfoldable pub between_of : Bool → Str
between_of false = codes " "
between_of true = codes "\n" ++ term_indent

unfoldable pub exchange_to_bart : ExchangeNode → Bool → Outcome FormatError Str
unfolding key_separator_of between_of
exchange_to_bart n broken = node_to_bart (key_separator_of n broken) (between_of broken) n

-- A null or an empty condition is no clause.
unfoldable pub condition_clause : Option Str → List Str
condition_clause none = []
condition_clause (some []) = []
condition_clause (some (c ∷ s)) = (codes "condition:(" ++ (c ∷ s) ++ codes ")") ∷ []

unfoldable pub exchange_clause : Option ExchangeNode → Bool → Outcome FormatError (List Str)
exchange_clause none broken = ok []
exchange_clause (some n) broken =
    exchange_to_bart n broken >>= λ s. ok ((codes "exchange:" ++ s) ∷ [])

unfoldable pub rule_text : Str → Str → RuleTree → Bool → Outcome FormatError Str
unfolding condition_clause
rule_text separator resource tree broken = exchange_clause tree.exchange broken >>= λ exchange. ok (
    codes "("
    ++ (join separator
          ((codes "resource:" ++ resource) ∷ (condition_clause tree.condition ++ exchange))
        ++ codes ")"))

unfoldable pub print_tree : RuleTree → ℕ → Outcome FormatError Str
print_tree tree width = require_resource tree.resource (codes "a rule") >>= λ resource.
    rule_text (codes ", ") resource tree false >>= λ one_line.
    if leb (length one_line) width then ok one_line else rule_text (codes ",\n ") resource tree true

unfoldable pub print_rule : RuleAst → ℕ → Outcome FormatError Str
unfolding to_tree
print_rule ast width = to_tree ast >>= λ tree. print_tree tree width

pub data PrintedRule : Type 0 where
  printed : Str → PrintedRule
  not_printed : FormatError → PrintedRule

unfoldable pub caught : Outcome FormatError Str → PrintedRule
caught (ok text) = printed text
caught (throw message) = not_printed message

unfoldable pub try_print_rule : RuleAst → ℕ → PrintedRule
unfolding caught
try_print_rule ast width = caught (print_rule ast width)

unfoldable pub try_print_tree : RuleTree → ℕ → PrintedRule
unfolding caught
try_print_tree tree width = caught (print_tree tree width)
