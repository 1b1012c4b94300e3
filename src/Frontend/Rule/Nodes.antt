-- ===== src/Frontend/Rule/Nodes.antt =====
-- About nodeToBart of app/frontend/src/lib/bart/rule.ts: an exchange as tokens.
use mathlib.Core.List.{append-nil}
use mathlib.Core.Path.{subst}
use bart_share.Prelude.{
  List, [], ◌∷◌, ◌++◌, ◌≡◌, Outcome, ok, >>=-eq-ok, ok_injective, ap, sym, ◌∙◌,
}
use bart_share.Text.{Str, codes, join}
use bart_share.Frontend.Lexer.Words.{Piece}
use bart_share.Frontend.Lexer.Lexemes.{
  IsBreak, Closed, Closed-append, Writes-append, mark, marks, IsBreak-marks, Closed-mark,
}
use bart_share.Frontend.Rule.{
  ExchangeTerm, Connector, ExchangeNode, term, group, ExchangeNodes, node, end, participant_to_bart,
  require_resource, term_to_bart, connector_text, in_parens, node_to_bart, nodes_to_bart,
}
use bart_share.Frontend.Format.{FormatError}
use bart_share.Frontend.Rule.Pieces.{attrs_pieces}
use bart_share.Frontend.Rule.Entries.{Closed-Writes, emit_attrs-Closed}
use bart_share.Frontend.Rule.Tokens.{
  word, key, participant_pieces, from_pieces, term_pieces, node_pieces, children_pieces,
  TermReadable, NodeReadable, NodesReadable, word_keys, bare_words, behind_mark, before_close,
  participant-Writes, require_resource-emit,
}

-- A text of blanks.
abbrev pub IsBlankText : Str → Type 0
IsBlankText [] = ⊥
IsBlankText (c ∷ s) = IsBreak c × Closed (c ∷ s) []

module _ (k between : Str) (k_blank : Closed k []) (between_blank : IsBlankText between) where
  keyed-Closed :
      (s : Str) (ks : List Piece) (t : Str) (ps : List Piece)
      → Closed s ks
      → Closed t ps
      → Closed (b',' ∷ (k ++ (s ++ t))) (mark b',' ∷ (ks ++ ps))
  keyed-Closed s ks t ps h i =
      behind_mark b',' (k ++ (s ++ t)) (ks ++ ps) (Closed-mark b',' marks.4)
        (Closed-append k (s ++ t) [] (ks ++ ps) k_blank (Closed-append s t ks ps h i))

  term-Closed :
      (t : ExchangeTerm) (s : Str)
      → term_to_bart k t ≡ ok s
      → TermReadable t
      → Closed s (term_pieces t)
  unfolding term_to_bart
  term-Closed t s h (r_to, r_resource, r_from) =
      let (to, to_is, h1) = >>=-eq-ok (participant_to_bart t.to) _ h in
      let (from, from_is, h2) = >>=-eq-ok (participant_to_bart t.from) _ h1 in
      let (resource, resource_is, same) =
        >>=-eq-ok (require_resource t.resource (codes "an exchange")) _ h2 in
      let from_text : Str = b',' ∷ (k ++ (codes "from:" ++ (from ++ b')' ∷ []))) in
      let rest_text : Str = k ++ (codes "resource:" ++ (resource ++ from_text)) in
      let from_closed : Closed from_text (from_pieces t.from) =
        keyed-Closed (codes "from:") (key (codes "from")) (from ++ b')' ∷ [])
          (participant_pieces t.from ++ mark b')' ∷ []) word_keys.2
          (before_close from (participant_pieces t.from)
            (participant-Writes t.from from from_is r_from)) in
      let resource_closed =
        Closed-append resource from_text (attrs_pieces t.resource) (from_pieces t.from)
          (emit_attrs-Closed t.resource resource
            (require_resource-emit t.resource (codes "an exchange") resource resource_is)
            r_resource)
          from_closed in
      let rest_closed =
        keyed-Closed (codes "resource:") (key (codes "resource")) (resource ++ from_text)
          (attrs_pieces t.resource ++ from_pieces t.from) word_keys.1 resource_closed in
      let rest_pieces : List Piece =
        key (codes "resource") ++ (attrs_pieces t.resource ++ from_pieces t.from) in
      let to_closed =
        Writes-append to b',' rest_text (participant_pieces t.to) (mark b',' ∷ rest_pieces)
          (participant-Writes t.to to to_is r_to) IsBreak-marks.1 rest_closed in
      subst (λ w. Closed w (term_pieces t))
        (ok_injective (codes "(to:" ++ (to ++ (b',' ∷ rest_text))) s same)
        (behind_mark b'(' (codes "to:" ++ (to ++ (b',' ∷ rest_text)))
          (key (codes "to") ++ (participant_pieces t.to ++ (mark b',' ∷ rest_pieces)))
          (Closed-mark b'(' marks.0)
          (Closed-append (codes "to:") (to ++ (b',' ∷ rest_text)) (key (codes "to"))
            (participant_pieces t.to ++ (mark b',' ∷ rest_pieces)) word_keys.0 to_closed))

  separator-Closed :
      (c : Connector) (b : Str)
      → IsBlankText b
      → Closed (b ++ (connector_text c ++ b)) (word (connector_text c) ∷ [])
  separator-Closed c [] h = absurd h
  separator-Closed c (d ∷ b) (br, h) =
      Closed-append (d ∷ b) (connector_text c ++ d ∷ b) [] (word (connector_text c) ∷ []) h (
        Writes-append (connector_text c) d b (word (connector_text c) ∷ []) [] (bare_words.2 c) br
          h)

  mutual
    unfolding node_to_bart nodes_to_bart in_parens join

    pub node-Closed :
        (n : ExchangeNode) (s : Str)
        → node_to_bart k between n ≡ ok s
        → NodeReadable n
        → Closed s (node_pieces n)
    node-Closed (term t) s h r = term-Closed t s h r
    node-Closed (group c end) s h r = cc
    node-Closed (group c (node n ns)) s h r =
        let (parts, read, same) = >>=-eq-ok (nodes_to_bart k between (node n ns)) _ h in
        let (part, first, h1) = >>=-eq-ok (node_to_bart k between n) _ read in
        let (more, rest, both) = >>=-eq-ok (nodes_to_bart k between ns) _ h1 in
        let joined : Str = join (between ++ (connector_text c ++ between)) (part ∷ more) in
        let is : ◌≡◌ {A = Outcome FormatError Str} (ok (b'(' ∷ (joined ++ b')' ∷ []))) (ok s) =
          ap (in_parens between c) (ok_injective (part ∷ more) parts both) ∙ same in
        subst (λ w. Closed w (node_pieces (group c (node n ns))))
          (ok_injective (b'(' ∷ (joined ++ b')' ∷ [])) s is)
          (behind_mark b'(' (joined ++ b')' ∷ [])
            ((node_pieces n ++ children_pieces c ns) ++ mark b')' ∷ []) (Closed-mark b'(' marks.0)
            (before_close joined (node_pieces n ++ children_pieces c ns) (
              Closed-Writes joined (node_pieces n ++ children_pieces c ns)
                (children-Closed c n ns part more (node-Closed n part first r.0) rest r.1))))

    children-Closed :
        (c : Connector) (n : ExchangeNode) (ns : ExchangeNodes) (part : Str) (more : List Str)
        → Closed part (node_pieces n)
        → nodes_to_bart k between ns ≡ ok more
        → NodesReadable ns
        → Closed
            (join (between ++ (connector_text c ++ between)) (part ∷ more))
            (node_pieces n ++ children_pieces c ns)
    children-Closed c n end part more first rest rs =
        subst
          (λ m.
            Closed (join (between ++ (connector_text c ++ between)) (part ∷ m))
              (node_pieces n ++ []))
          (ok_injective [] more rest) (subst (Closed part) (sym (append-nil (node_pieces n))) first)
    children-Closed c n (node m ns) part more first rest (rm, rs) =
        let sep : Str = between ++ (connector_text c ++ between) in
        let (p, second, h1) = >>=-eq-ok (node_to_bart k between m) _ rest in
        let (ps, others, both) = >>=-eq-ok (nodes_to_bart k between ns) _ h1 in
        let tail = children-Closed c m ns p ps (node-Closed m p second rm) others rs in
        subst (λ l. Closed (join sep (part ∷ l)) (node_pieces n ++ children_pieces c (node m ns)))
          (ok_injective (p ∷ ps) more both)
          (Closed-append part (sep ++ join sep (p ∷ ps)) (node_pieces n)
            (word (connector_text c) ∷ (node_pieces m ++ children_pieces c ns)) first
            (Closed-append sep (join sep (p ∷ ps)) (word (connector_text c) ∷ [])
              (node_pieces m ++ children_pieces c ns) (separator-Closed c between between_blank)
              tail))
