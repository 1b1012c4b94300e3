-- ===== src/Frontend/Parser/Primary.antt =====
-- About parsePrimary of app/frontend/src/lib/bart/parse.ts: whole exchanges from their tokens.
use mathlib.Core.Path.{subst}
use mathlib.Core.List.{append-nil}
use bart_share.Prelude.{
  ℕ, zero, suc, false, List, [], ◌∷◌, ◌++◌, ◌≡◌, ◌<◌, ◌&&◌, ok, arith, refl, ap, sym, ◌∙◌, inl, inr,
  Bool-cases,
}
use bart_share.Text.{codes, str_eq}
use bart_share.Frontend.Lexer.{Token}
use bart_share.Frontend.Lexer.Words.{Piece}
use bart_share.Frontend.Lexer.Lexemes.{mark}
use bart_share.Frontend.Rule.Pieces.{attrs_pieces}
use bart_share.Frontend.Rule.{
  ExchangeTerm, Connector, and_, or_, ExchangeNode, term, group, ExchangeNodes, node, end,
  connector_text,
}
use bart_share.Frontend.Rule.Shapes.{IsTidy, AreChildren}
use bart_share.Frontend.Rule.Tokens.{
  participant_pieces, from_pieces, word, key, node_pieces, children_pieces,
}
use bart_share.Frontend.Cursor.{
  Cursor, Parsed, is_eof, is_name_kind, peek_second, move, next, is_token, fuel_of,
}
use bart_share.Frontend.Cursor.Moves.{left}
use bart_share.Frontend.Parser.{parse_connected, parse_or_of, opens_term, parse_primary, parse_or}
use bart_share.Frontend.Parser.Standing.{Stands, Stands-append, expect-Stands}
use bart_share.Frontend.Parser.Entries.{here-Stands}
use bart_share.Frontend.Parser.Terms.{IsKeptTerm, parse_term-Stands}
use bart_share.Frontend.Parser.Nodes.{
  Child, AllChild, group_node-one, group_node-children, parse_connected-Stands, parse_connected-one,
}

abbrev mutual
  pub KeptTerms : ExchangeNode → Type 0
  KeptTerms (term t) = IsKeptTerm t
  KeptTerms (group c ns) = AllKept ns

  pub AllKept : ExchangeNodes → Type 0
  AllKept end = Unit {0}
  AllKept (node n ns) = KeptTerms n × AllKept ns

-- Anything may follow, or anything but `and`.
abbrev Any : Cursor → Type 0
Any c = Unit {0}

abbrev NoAnd : Cursor → Type 0
NoAnd c = is_token (codes "and") c.current ≡ false

peek_second-next : (c : Cursor) → left (next c) < left c → peek_second c ≡ (next c).current
unfolding peek_second next move
peek_second-next c h = go c.current c.later h
  where
    go :
        (t : Token) (ts : List Token)
        → let c : Cursor = record { current = t; later = ts } in
          left (next c) < left c → peek_second c ≡ (next c).current
    go t [] h = absurd (omega arith)
    go t (u ∷ ts) h = elim (Bool-cases (is_eof t.kind)) [
      | inl eof_ ↦ absurd (ground arith)
      | inr open_ ↦ rw (open_, next) refl
    ]

-- What stands behind the parenthesis says whether a term is opened.
opens_term-piece :
    (p q : Piece) (ps : List Piece) (c d : Cursor)
    → Stands (p ∷ q ∷ ps) c d
    → opens_term c ≡ (is_name_kind q.0 && str_eq q.1 (codes "to"))
unfolding opens_term
opens_term-piece p q ps c d (_, _, l, (k, w, _, _)) =
    ap (λ (t : Token). is_name_kind t.kind && str_eq t.text (codes "to")) (peek_second-next c l)
    ∙ (ap (λ x. is_name_kind x && str_eq (next c).current.text (codes "to")) k
        ∙ ap (λ x. is_name_kind q.0 && str_eq x (codes "to")) w)

node_pieces-open :
    (n : ExchangeNode) → IsTidy n → (ps : List Piece) × (node_pieces n ≡ mark b'(' ∷ ps)
node_pieces-open (term t) h = (_, refl)
node_pieces-open (group c (node n ns)) h = (_, refl)
node_pieces-open (group c end) (two, h) = absurd two

module _ (primary : Cursor → Parsed ExchangeNode) (bound : ℕ) where
  connected-Child :
      (n : ExchangeNode)
      → IsTidy n
      → Child primary bound Any n
      → Child (parse_connected and_ primary) bound NoAnd n
  unfolding connector_text
  connected-Child n tidy k c d h b no_and =
      parse_connected-Stands and_ primary bound Any (λ ps c d h. tt) n end c d
        (subst (λ ps. Stands ps c d) (sym (append-nil (node_pieces n))) h) k tt b tt no_and
      ∙ ap (λ m. ok (m, d)) (group_node-one and_ n tidy)

  and_children :
      (c : Connector) (ns : ExchangeNodes)
      → AreChildren c ns
      → AllChild primary bound Any ns
      → AllChild (parse_connected and_ primary) bound NoAnd ns
  and_children c end t k = tt
  and_children c (node n ns) (tidy, _, t) (k, ks) =
      (connected-Child n tidy k, and_children c ns t ks)

  -- The children of a group, in its parentheses.
  inside_group :
      (connector : Connector) (n m : ExchangeNode) (ns : ExchangeNodes) (c d : Cursor)
      → AreChildren connector (node n (node m ns))
      → AllChild primary bound Any (node n (node m ns))
      → Stands (node_pieces n ++ children_pieces connector (node m ns)) c d
      → left c < bound
      → is_token (codes "and") d.current ≡ false
      → is_token (codes "or") d.current ≡ false
      → parse_or_of primary c ≡ ok (group connector (node n (node m ns)), d)
  unfolding parse_or_of connector_text str_eq
  inside_group and_ n m ns c d t (k, ks) h b no_and no_or =
      let is = group_node-children and_ (node n (node m ns)) tt t in
      let read =
        parse_connected-Stands and_ primary bound Any (λ ps c d h. tt) n (node m ns) c d h k ks b tt
          no_and
        ∙ ap (λ g. ok (g, d)) is in
      parse_connected-one or_ (parse_connected and_ primary) bound NoAnd
        (λ ps c d h. here-Stands (codes "and") (word (codes "or")) ps c d h)
        (group and_ (node n (node m ns))) c d read no_or
      ∙ ap (λ g. ok (g, d)) (group_node-one or_ (group and_ (node n (node m ns))) (tt, t))
  inside_group or_ n m ns c d t (k, ks) h b no_and no_or =
      parse_connected-Stands or_ (parse_connected and_ primary) bound NoAnd
        (λ ps c d h. here-Stands (codes "and") (word (codes "or")) ps c d h) n (node m ns) c d h
        (connected-Child n t.0 k) (and_children or_ (node m ns) t.2 ks) b no_and no_or
      ∙ ap (λ g. ok (g, d)) (group_node-children or_ (node n (node m ns)) tt t)

abbrev to_pieces : ExchangeTerm → List Piece
to_pieces t =
    participant_pieces t.to
    ++ (mark b',' ∷ (key (codes "resource") ++ (attrs_pieces t.resource ++ from_pieces t.from)))

mutual
  unfolding parse_primary str_eq is_name_kind

  parse_primary-Child :
      (n : ExchangeNode) (fuel : ℕ) → IsTidy n → KeptTerms n → Child (parse_primary fuel) fuel Any n
  parse_primary-Child n zero tidy k c d h b p = absurd (omega arith)
  parse_primary-Child (term t) (suc fuel) tidy k c d h b p =
      let open_ = here-Stands (codes "(") (mark b'(') (key (codes "to") ++ to_pieces t) c d h in
      let opens =
        opens_term-piece (mark b'(') (word (codes "to")) (mark b':' ∷ to_pieces t) c d h in
      rw (open_, opens, parse_primary) (parse_term-Stands t c d h k)
  parse_primary-Child (group connector end) (suc fuel) tidy k c d h b p = absurd tidy.0
  parse_primary-Child (group connector (node n end)) (suc fuel) tidy k c d h b p = absurd tidy.0
  parse_primary-Child (group connector (node n (node m ns))) (suc fuel) (two, t) (k, ks) c d h b p =
      let inside : List Piece = node_pieces n ++ children_pieces connector (node m ns) in
      let (ps, first) = node_pieces-open n t.0 in
      let nested : Stands
          (mark b'('
            ∷ (((mark b'(' ∷ ps) ++ children_pieces connector (node m ns)) ++ mark b')' ∷ []))
          c d =
        subst
          (λ qs.
            Stands (mark b'(' ∷ ((qs ++ children_pieces connector (node m ns)) ++ mark b')' ∷ [])) c
              d)
          first h in
      let open_ = here-Stands (codes "(") (mark b'(') (inside ++ mark b')' ∷ []) c d h in
      let opens =
        opens_term-piece (mark b'(') (mark b'(')
          ((ps ++ children_pieces connector (node m ns)) ++ mark b')' ∷ []) c d nested in
      let opened = expect-Stands (codes "(") (mark b'(') (inside ++ mark b')' ∷ []) c d refl h in
      let (x, within, closing) = Stands-append inside (mark b')' ∷ []) (next c) d h.3 in
      let no_and = here-Stands (codes "and") (mark b')') [] x d closing in
      let no_or = here-Stands (codes "or") (mark b')') [] x d closing in
      let read =
        inside_group (parse_primary fuel) fuel connector n m ns (next c) x t
          (
            parse_primary-Child n fuel t.0 k,
            parse_primary-AllChild connector (node m ns) fuel t.2 ks,
          )
          within (omega (arith, h.2)) no_and no_or in
      let closed = expect-Stands (codes ")") (mark b')') [] x d refl closing in
      rw (open_, opens, parse_primary, opened, read, closed)
        (ap (λ (y : Cursor). ok (group connector (node n (node m ns)), y)) closing.3)

  parse_primary-AllChild :
      (connector : Connector) (ns : ExchangeNodes) (fuel : ℕ)
      → AreChildren connector ns
      → AllKept ns
      → AllChild (parse_primary fuel) fuel Any ns
  parse_primary-AllChild connector end fuel t k = tt
  parse_primary-AllChild connector (node n ns) fuel (tidy, _, t) (k, ks) =
      (parse_primary-Child n fuel tidy k, parse_primary-AllChild connector ns fuel t ks)

-- An exchange, before a token that is no connector.
pub parse_or-Stands :
    (n : ExchangeNode) (c d : Cursor)
    → IsTidy n
    → KeptTerms n
    → Stands (node_pieces n) c d
    → is_token (codes "and") d.current ≡ false
    → is_token (codes "or") d.current ≡ false
    → parse_or c ≡ ok (n, d)
unfolding parse_or parse_or_of fuel_of connector_text str_eq
parse_or-Stands n c d tidy k h no_and no_or =
    let primary = parse_primary (suc (left c)) in
    let read =
      connected-Child primary (suc (left c)) n tidy (parse_primary-Child n (suc (left c)) tidy k) c
        d h (omega arith) no_and in
    parse_connected-one or_ (parse_connected and_ primary) (suc (left c)) NoAnd
      (λ ps c d h. here-Stands (codes "and") (word (codes "or")) ps c d h) n c d read no_or
    ∙ ap (λ g. ok (g, d)) (group_node-one or_ n tidy)
