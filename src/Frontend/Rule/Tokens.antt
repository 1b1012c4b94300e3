-- ===== src/Frontend/Rule/Tokens.antt =====
-- About app/frontend/src/lib/bart/rule.ts: the tokens that a rule is written as.
use mathlib.Core.Path.{subst}
use bart_share.Prelude.{
  ℕ, List, [], ◌∷◌, ◌++◌, ◌≡◌, ◌==◌, ok, >>=-eq-ok, ok_injective, length, arith, refl, inl, inr,
  Bool-cases, none, some, Option,
}
use bart_share.Text.{Str, codes, str_eq, is_digit}
use bart_share.Attrs.{BartAttrs}
use bart_share.Emitter.Grammar.{is_name, is_name_start, is_name_part}
use bart_share.Frontend.Lexer.{name, name_kind}
use bart_share.Frontend.Lexer.Words.{Piece}
use bart_share.Frontend.Lexer.Lexemes.{
  Closed, Writes, Closed-append, Writes-append, mark, marks, IsBreak-marks, Closed-mark,
  Writes-word, Closed-key,
}
use bart_share.Frontend.Format.{emit_attrs}
use bart_share.Frontend.Rule.{
  Participant, me, requester, any_of, all_of, ExchangeTerm, Connector, and_, or_, ExchangeNode,
  term, group, ExchangeNodes, node, end, RuleTree, participant_to_bart, require_resource,
  connector_text,
}
use bart_share.Frontend.Rule.Pieces.{attrs_pieces, HaveReadable}
use bart_share.Frontend.Rule.Entries.{Closed-Writes, emit_attrs-Closed}

-- A word of the grammar, and one with the colon behind it.
abbrev pub word : Str → Piece
word s = (name, s)

abbrev pub key : Str → List Piece
key s = word s ∷ mark b':' ∷ []

abbrev pub participant_pieces : Participant → List Piece
participant_pieces me = word (codes "me") ∷ []
participant_pieces requester = word (codes "requester") ∷ []
participant_pieces (any_of attrs) =
    mark b'(' ∷ (key (codes "any") ++ (attrs_pieces attrs ++ mark b')' ∷ []))
participant_pieces (all_of attrs) =
    mark b'(' ∷ (key (codes "all") ++ (attrs_pieces attrs ++ mark b')' ∷ []))

abbrev pub from_pieces : Participant → List Piece
from_pieces from = mark b',' ∷ (key (codes "from") ++ (participant_pieces from ++ mark b')' ∷ []))

abbrev pub term_pieces : ExchangeTerm → List Piece
term_pieces t =
    mark b'('
    ∷ (key (codes "to")
        ++ (participant_pieces t.to
            ++ (mark b','
                ∷ (key (codes "resource") ++ (attrs_pieces t.resource ++ from_pieces t.from)))))

abbrev mutual
  pub node_pieces : ExchangeNode → List Piece
  node_pieces (term t) = term_pieces t
  node_pieces (group c end) = []
  node_pieces (group c (node n ns)) =
      mark b'(' ∷ ((node_pieces n ++ children_pieces c ns) ++ mark b')' ∷ [])

  -- The children behind the first.
  pub children_pieces : Connector → ExchangeNodes → List Piece
  children_pieces c end = []
  children_pieces c (node n ns) = word (connector_text c) ∷ (node_pieces n ++ children_pieces c ns)

abbrev pub exchange_pieces : Option ExchangeNode → List Piece
exchange_pieces none = []
exchange_pieces (some n) = mark b',' ∷ (key (codes "exchange") ++ node_pieces n)

-- A rule without a condition.
abbrev pub rule_pieces : RuleTree → List Piece
rule_pieces tree =
    mark b'('
    ∷ (key (codes "resource")
        ++ ((attrs_pieces tree.resource ++ exchange_pieces tree.exchange) ++ mark b')' ∷ []))

abbrev pub PartyReadable : Participant → Type 0
PartyReadable me = Unit {0}
PartyReadable requester = Unit {0}
PartyReadable (any_of attrs) = HaveReadable attrs
PartyReadable (all_of attrs) = HaveReadable attrs

abbrev pub TermReadable : ExchangeTerm → Type 0
TermReadable t = PartyReadable t.to × HaveReadable t.resource × PartyReadable t.from

abbrev mutual
  pub NodeReadable : ExchangeNode → Type 0
  NodeReadable (term t) = TermReadable t
  NodeReadable (group c ns) = NodesReadable ns

  pub NodesReadable : ExchangeNodes → Type 0
  NodesReadable end = Unit {0}
  NodesReadable (node n ns) = NodeReadable n × NodesReadable ns

abbrev pub ExchangeReadable : Option ExchangeNode → Type 0
ExchangeReadable none = Unit {0}
ExchangeReadable (some n) = NodeReadable n

-- The words of the grammar that the printer writes.
pub word_keys :
    Closed (codes "to:") (key (codes "to"))
    × Closed (codes "resource:") (key (codes "resource"))
    × Closed (codes "from:") (key (codes "from"))
    × Closed (codes "any:") (key (codes "any"))
    × Closed (codes "all:") (key (codes "all"))
    × Closed (codes "exchange:") (key (codes "exchange"))
unfolding is_name is_name_start is_name_part is_digit name_kind str_eq
word_keys = (
  Closed-key (codes "to") refl,
  Closed-key (codes "resource") refl,
  Closed-key (codes "from") refl,
  Closed-key (codes "any") refl,
  Closed-key (codes "all") refl,
  Closed-key (codes "exchange") refl,
)

pub bare_words :
    Writes (codes "me") (word (codes "me") ∷ [])
    × Writes (codes "requester") (word (codes "requester") ∷ [])
    × ((c : Connector) → Writes (connector_text c) (word (connector_text c) ∷ []))
unfolding is_name is_name_start is_name_part is_digit name_kind str_eq connector_text
bare_words = (Writes-word (codes "me") refl, Writes-word (codes "requester") refl, connector_word)
  where
    connector_word : (c : Connector) → Writes (connector_text c) (word (connector_text c) ∷ [])
    connector_word and_ = Writes-word (codes "and") refl
    connector_word or_ = Writes-word (codes "or") refl

-- A text behind a mark.
pub behind_mark :
    (c : ℕ) (s : Str) (qs : List Piece)
    → Closed (c ∷ []) (mark c ∷ [])
    → Closed s qs
    → Closed (c ∷ s) (mark c ∷ qs)
behind_mark c s qs h k = Closed-append (c ∷ []) s (mark c ∷ []) qs h k

pub before_close :
    (s : Str) (qs : List Piece) → Writes s qs → Closed (s ++ b')' ∷ []) (qs ++ mark b')' ∷ [])
before_close s qs w =
    Writes-append s b')' [] qs (mark b')' ∷ []) w IsBreak-marks.0 (Closed-mark b')' marks.1)

others-Closed :
    (keyed : Str) (ks : List Piece) (attrs : BartAttrs) (s : Str)
    → Closed keyed ks
    → emit_attrs attrs ≡ ok s
    → HaveReadable attrs
    → Closed
        (b'(' ∷ (keyed ++ (s ++ b')' ∷ [])))
        (mark b'(' ∷ (ks ++ (attrs_pieces attrs ++ mark b')' ∷ [])))
others-Closed keyed ks attrs s k h r =
    behind_mark b'(' (keyed ++ (s ++ b')' ∷ [])) (ks ++ (attrs_pieces attrs ++ mark b')' ∷ []))
      (Closed-mark b'(' marks.0)
      (Closed-append keyed (s ++ b')' ∷ []) ks (attrs_pieces attrs ++ mark b')' ∷ []) k (
        before_close s (attrs_pieces attrs)
          (Closed-Writes s (attrs_pieces attrs) (emit_attrs-Closed attrs s h r))))

pub participant-Writes :
    (p : Participant) (s : Str)
    → participant_to_bart p ≡ ok s
    → PartyReadable p
    → Writes s (participant_pieces p)
unfolding participant_to_bart
participant-Writes me s h r =
    subst (λ w. Writes w (word (codes "me") ∷ [])) (ok_injective (codes "me") s h) bare_words.0
participant-Writes requester s h r =
    subst (λ w. Writes w (word (codes "requester") ∷ [])) (ok_injective (codes "requester") s h)
      bare_words.1
participant-Writes (any_of attrs) s h r =
    let (a, read, same) = >>=-eq-ok (emit_attrs attrs) _ h in
    let t : Str = b'(' ∷ (codes "any:" ++ (a ++ b')' ∷ [])) in
    subst (λ w. Writes w (participant_pieces (any_of attrs))) (ok_injective t s same)
      (Closed-Writes t (participant_pieces (any_of attrs))
        (others-Closed (codes "any:") (key (codes "any")) attrs a word_keys.3 read r))
participant-Writes (all_of attrs) s h r =
    let (a, read, same) = >>=-eq-ok (emit_attrs attrs) _ h in
    let t : Str = b'(' ∷ (codes "all:" ++ (a ++ b')' ∷ [])) in
    subst (λ w. Writes w (participant_pieces (all_of attrs))) (ok_injective t s same)
      (Closed-Writes t (participant_pieces (all_of attrs))
        (others-Closed (codes "all:") (key (codes "all")) attrs a word_keys.4 read r))

pub require_resource-emit :
    (attrs : BartAttrs) (where_ s : Str)
    → require_resource attrs where_ ≡ ok s
    → emit_attrs attrs ≡ ok s
unfolding require_resource
require_resource-emit attrs where_ s h = elim (Bool-cases (length attrs == 0)) [
  | inl none_ ↦ absurd (ground arith)
  | inr some_ ↦ ground arith
]
