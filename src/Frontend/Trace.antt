-- ===== src/Frontend/Trace.antt =====
-- app/frontend/src/lib/bart/trace.ts: the evaluator's trace as a tree.
pub mod Order
pub mod Preorder
use bart_share.Prelude.{
  ℕ, zero, suc, ◌+◌, ◌-◌, ◌/◌, Bool, true, false, not, ◌&&◌, ◌||◌, ◌==◌, List, [], ◌∷◌, ◌++◌,
  length, take, drop, all, replicate, Option, none, some, if◌then◌else◌,
}
use bart_share.Text.{Str, codes, str_eq, starts_with, trim, trim_start, is_digit}
use bart_share.Frontend.Parser.{is_line_end}
use bart_share.Frontend.Clauses.{behind_number}

pub data TraceLineKind : Type 0 where
  request policy rule exchange connector compliance result other : TraceLineKind

-- `boolean | { errored: string } | null`
pub data TraceOutcome : Type 0 where
  stated : Bool → TraceOutcome
  errored : Str → TraceOutcome
  not_stated : TraceOutcome

-- A node without its children; its id is `t` and the number.
pub record TraceLine : Type 0 where
  pub id : ℕ
  pub text : Str
  pub depth : ℕ
  pub kind : TraceLineKind
  pub outcome : TraceOutcome

-- `TraceNode` and `TraceNode[]`.
mutual
  pub data TraceNode : Type 0 where
    trace_node : TraceLine → TraceNodes → TraceNode

  pub data TraceNodes : Type 0 where
    no_nodes : TraceNodes
    first_node : TraceNode → TraceNodes → TraceNodes

unfoldable pub is_errored : TraceOutcome → Bool
is_errored (errored message) = true
is_errored (stated b) = false
is_errored not_stated = false

unfoldable pub boolean_outcome : TraceOutcome → Option Bool
boolean_outcome (stated b) = some b
boolean_outcome (errored message) = none
boolean_outcome not_stated = none

-- `/word/.test(text)`
unfoldable pub has_text : Str → Str → Bool
has_text word [] = starts_with [] word
has_text word (c ∷ s) = starts_with (c ∷ s) word || has_text word s

-- `^rule \d+\.\d+:`
unfoldable pub behind_rule : Str → Option Str
behind_rule s =
    if starts_with s (codes "rule ")
    then elim (behind_number b'.' (drop 5 s)) [ none ↦ none | some rest ↦ behind_number b':' rest ]
    else none

unfoldable pub rule_kind : Str → TraceLineKind
unfolding has_text
rule_kind text =
    if has_text (codes "evaluating OR") text
      || has_text (codes "evaluating AND") text
      || (has_text (codes "evaluating Exchange") text || has_text (codes "END Exchange") text)
    then exchange
    else rule

-- The tests behind those on `result:` and on a connector.
unfoldable pub other_kind : Str → TraceLineKind
unfolding has_text behind_rule rule_kind
other_kind text =
    if has_text (codes "compliant request found") text
    then compliance
    else elim (behind_rule text) [
      | some rest ↦ rule_kind text
      | none ↦
          if starts_with text (codes "policy ")
            && elim (behind_number b':' (drop 7 text)) [ some rest ↦ true | none ↦ false ]
          then policy
          else if starts_with text (codes "evaluating Request[")
          then request
          else other
    ]

unfoldable pub trace_kind : Str → TraceLineKind
unfolding other_kind
trace_kind text = if starts_with text (codes "result:") then result else elim (behind_rule text) [
  | some rest ↦
      if str_eq rest (codes " OR") || str_eq rest (codes " AND") then connector else other_kind text
  | none ↦ other_kind text
]

-- `/.* ->\s*(.*)$/` from here: the last arrow that the dots reach, and the text behind it.
unfoldable pub behind_arrow : Str → Option Str
unfolding is_line_end
behind_arrow [] = none
behind_arrow (c ∷ s) =
    let later = behind_arrow s in
    let message = trim_start (drop 3 (c ∷ s)) in
    let here =
      if starts_with (c ∷ s) (codes " ->") && all (λ d. not (is_line_end d)) message
      then some message
      else none in
    if is_line_end c then here else elim later [ some rest ↦ some rest | none ↦ here ]

abbrev pub no_error_message : Str
no_error_message = codes "the exception carried no message"

unfoldable pub condition_outcome : Str → TraceOutcome
unfolding behind_rule behind_arrow
condition_outcome text = elim (behind_rule text) [
  | none ↦ not_stated
  | some rest ↦
      if starts_with rest (codes " condition ")
      then elim (behind_arrow (drop 11 rest)) [
        | none ↦ not_stated
        | some said ↦
            if str_eq (trim said) [] || str_eq (trim said) (codes "null")
            then errored no_error_message
            else errored (trim said)
      ]
      else not_stated
]

unfoldable pub ends_with : Str → Str → Bool
ends_with word [] = str_eq [] word
ends_with word (c ∷ s) = str_eq (c ∷ s) word || ends_with word s

unfoldable pub read_outcome : Str → TraceOutcome
unfolding ends_with condition_outcome
read_outcome text =
    if ends_with (codes "-> true") text
    then stated true
    else if ends_with (codes "-> false") text
    then stated false
    else if str_eq text (codes "result: true")
    then stated true
    else if str_eq text (codes "result: false")
    then stated false
    else condition_outcome text

-- The nodes seen, by depth; a depth may be empty.
abbrev pub Stack : Type 0
Stack = List (Option ℕ)

unfoldable pub last_some : Stack → Option ℕ
last_some [] = none
last_some (s ∷ stack) = elim (last_some stack) [ some id ↦ some id | none ↦ s ]

unfoldable pub find_ancestor : Stack → ℕ → Option ℕ
unfolding last_some
find_ancestor stack depth = last_some (take depth stack)

-- `stack[depth] = node; stack.length = depth + 1`
unfoldable pub put_at : ℕ → ℕ → Stack → Stack
put_at zero id stack = some id ∷ []
put_at (suc depth) id [] = none ∷ put_at depth id []
put_at (suc depth) id (s ∷ stack) = s ∷ put_at depth id stack

unfoldable pub push : TraceNode → TraceNodes → TraceNodes
push n no_nodes = first_node n no_nodes
push n (first_node m ms) = first_node m (push n ms)

-- `parent.children.push(node)`, for the parent with this id.
unfoldable mutual
  unfolding push

  pub push_below : ℕ → TraceNode → TraceNode → TraceNode
  push_below id n (trace_node line children) =
      let below = push_child id n children in
      trace_node line (if line.id == id then push n children else below)

  pub push_child : ℕ → TraceNode → TraceNodes → TraceNodes
  push_child id n no_nodes = no_nodes
  push_child id n (first_node m ms) = first_node (push_below id n m) (push_child id n ms)

-- `roots`, `stack` and `counter`.
pub record Parsing : Type 0 where
  pub roots : TraceNodes
  pub stack : Stack
  pub counter : ℕ

-- `if (parent) parent.children.push(node); else roots.push(node);`
unfoldable pub attach : Option ℕ → TraceNode → TraceNodes → TraceNodes
unfolding push push_child
attach none n roots = push n roots
attach (some parent) n roots = push_child parent n roots

unfoldable pub line_of : ℕ → Str → TraceLine
unfolding trace_kind read_outcome
line_of counter line = record {
  id = counter;
  text = trim line;
  depth = (length line - length (trim_start line)) / 2;
  kind = trace_kind (trim line);
  outcome = read_outcome (trim line);
}

unfoldable pub add_line : TraceLine → Parsing → Parsing
unfolding find_ancestor put_at attach
add_line line p = record {
  roots = attach (find_ancestor p.stack line.depth) (trace_node line no_nodes) p.roots;
  stack = put_at line.depth line.id p.stack;
  counter = suc p.counter;
}

unfoldable pub parse_lines : List Str → Parsing → Parsing
unfolding line_of add_line
parse_lines [] p = p
parse_lines (line ∷ lines) p =
    if str_eq (trim line) []
    then parse_lines lines p
    else parse_lines lines (add_line (line_of p.counter line) p)

-- `raw.split('\n')`
unfoldable pub begin : ℕ → List Str → List Str
begin c [] = (c ∷ []) ∷ []
begin c (line ∷ lines) = (c ∷ line) ∷ lines

unfoldable pub split_lines : Str → List Str
unfolding begin
split_lines [] = [] ∷ []
split_lines (c ∷ s) = let rest = split_lines s in if c == b'\n' then [] ∷ rest else begin c rest

unfoldable pub parse_trace : Str → TraceNodes
unfolding parse_lines split_lines
parse_trace raw =
    (parse_lines (split_lines raw) (record { roots = no_nodes; stack = []; counter = 0 })).roots

-- The loop of traceVerdict, from the last root.
unfoldable pub last_result : TraceNodes → Option Bool → Option Bool
last_result no_nodes found = found
last_result (first_node (trace_node line children) ms) found = last_result ms (elim line.kind [
  | result ↦ boolean_outcome line.outcome
  | request ↦ found
  | policy ↦ found
  | rule ↦ found
  | exchange ↦ found
  | connector ↦ found
  | compliance ↦ found
  | other ↦ found
])

unfoldable pub trace_verdict : Str → Option Bool
unfolding parse_trace last_result
trace_verdict raw = last_result (parse_trace raw) none

unfoldable mutual
  pub flatten_line : TraceNode → List TraceLine
  flatten_line (trace_node line children) = line ∷ flatten_trace children

  pub flatten_trace : TraceNodes → List TraceLine
  flatten_trace no_nodes = []
  flatten_trace (first_node n ns) = flatten_line n ++ flatten_trace ns
