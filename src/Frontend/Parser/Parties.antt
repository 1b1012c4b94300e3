-- ===== src/Frontend/Parser/Parties.antt =====
-- About the terms of an exchange in app/frontend/src/lib/bart/parse.ts: what their parsers read.
use bart_share.Prelude.{true, false, inl, inr, Bool-cases, suc, arith, ◌≡◌, ◌&&◌, not}
use bart_share.Text.{Str, codes, str_eq}
use bart_share.Attrs.{BartAttrs}
use bart_share.Frontend.Rule.{
  Participant, me, requester, any_of, all_of, ExchangeTerm, Connector, and_, or_, ExchangeNode,
  term, group, ExchangeNodes, node, end, append_nodes, flatten, bare_or_group, group_node, is_and,
  same_connector,
}
use bart_share.Frontend.Rule.Shapes.{IsTidy, AreTidy, group_node-IsTidy}
use bart_share.Frontend.Cursor.{is_eof, Cursor, next, is_token, expect}
use bart_share.Frontend.Cursor.Moves.{
  next-Within, is_token-open, IsGood, left, Ensures, Ensures->>=, Ensures-mono, Ensures-if,
  Ensures-fail, Within, Reads, behind-Within, expect-Within,
}
use bart_share.Frontend.Parser.{
  parse_attributes, quantified, parse_quantified, parse_others, parse_to, parse_from, expect_key,
  parse_term,
}
use bart_share.Frontend.Parser.Values.{closing}
use bart_share.Frontend.Parser.Attributes.{
  AreDistinct, IsPattern, parse_attributes-Reads, parse_attributes-IsPattern,
}

-- Who may stand at an end of an exchange.
abbrev pub IsOthers : Participant → Type 0
IsOthers (any_of attrs) = AreDistinct attrs
IsOthers (all_of attrs) = AreDistinct attrs
IsOthers me = ⊥
IsOthers requester = ⊥

abbrev pub IsTo : Participant → Type 0
IsTo me = Unit {0}
IsTo requester = ⊥
IsTo (any_of attrs) = AreDistinct attrs
IsTo (all_of attrs) = AreDistinct attrs

abbrev pub IsFrom : Participant → Type 0
IsFrom requester = Unit {0}
IsFrom me = ⊥
IsFrom (any_of attrs) = AreDistinct attrs
IsFrom (all_of attrs) = AreDistinct attrs

abbrev pub IsTerm : ExchangeTerm → Type 0
IsTerm t = IsTo t.to × IsFrom t.from × IsPattern t.resource

-- The terms of a node.
abbrev mutual
  pub HasTerms : ExchangeNode → Type 0
  HasTerms (term t) = IsTerm t
  HasTerms (group c ns) = HaveTerms ns

  pub HaveTerms : ExchangeNodes → Type 0
  HaveTerms end = Unit {0}
  HaveTerms (node n ns) = HasTerms n × HaveTerms ns

abbrev pub IsExchange : ExchangeNode → Type 0
IsExchange n = IsTidy n × HasTerms n

abbrev pub AreExchanges : ExchangeNodes → Type 0
AreExchanges ns = AreTidy ns × HaveTerms ns

append_nodes-HaveTerms :
    (ns ms : ExchangeNodes) → HaveTerms ns → HaveTerms ms → HaveTerms (append_nodes ns ms)
unfolding append_nodes
append_nodes-HaveTerms end ms h k = k
append_nodes-HaveTerms (node n ns) ms (a, h) k = (a, append_nodes-HaveTerms ns ms h k)

flatten-HaveTerms : (c : Connector) (ns : ExchangeNodes) → HaveTerms ns → HaveTerms (flatten c ns)
unfolding flatten same_connector is_and
flatten-HaveTerms c end h = tt
flatten-HaveTerms c (node (term t) ns) (a, h) = (a, flatten-HaveTerms c ns h)
flatten-HaveTerms and_ (node (group and_ ms) ns) (a, h) =
    append_nodes-HaveTerms ms (flatten and_ ns) a (flatten-HaveTerms and_ ns h)
flatten-HaveTerms or_ (node (group or_ ms) ns) (a, h) =
    append_nodes-HaveTerms ms (flatten or_ ns) a (flatten-HaveTerms or_ ns h)
flatten-HaveTerms and_ (node (group or_ ms) ns) (a, h) = (a, flatten-HaveTerms and_ ns h)
flatten-HaveTerms or_ (node (group and_ ms) ns) (a, h) = (a, flatten-HaveTerms or_ ns h)

bare_or_group-HasTerms :
    (c : Connector) (ns : ExchangeNodes) → HaveTerms ns → HasTerms (bare_or_group c ns)
unfolding bare_or_group
bare_or_group-HasTerms c end h = tt
bare_or_group-HasTerms c (node n end) (a, h) = a
bare_or_group-HasTerms c (node n (node m ns)) h = h

pub group_node-IsExchange :
    (c : Connector) (n : ExchangeNode) (ns : ExchangeNodes)
    → IsExchange n
    → AreExchanges ns
    → IsExchange (group_node c (node n ns))
unfolding group_node
group_node-IsExchange c n ns (t, h) (ts, hs) = (
  group_node-IsTidy c (node n ns) (t, ts) tt,
  bare_or_group-HasTerms c (flatten c (node n ns)) (flatten-HaveTerms c (node n ns) (h, hs)),
)

quantified-IsOthers :
    (quant : Str) (attrs : BartAttrs) → AreDistinct attrs → IsOthers (quantified quant attrs)
unfolding quantified
quantified-IsOthers quant attrs d = elim (Bool-cases (str_eq quant (codes "any"))) [
  | inl t ↦ rw (t, quantified) d
  | inr f ↦ rw (f, quantified) d
]

two_words :
    (v w : Str) (c : Cursor)
    → (not (is_token v c.current) && not (is_token w c.current)) ≡ false
    → is_eof c.current.kind ≡ false
two_words v w c h = elim (Bool-cases (is_token v c.current)) [
  | inl t ↦ is_token-open v c.current t
  | inr f ↦ is_token-open w c.current (ground arith)
]

parse_quantified-Reads :
    (c : Cursor) → IsGood c → Ensures (Reads IsOthers (left c)) (parse_quantified c)
unfolding parse_quantified
parse_quantified-Reads c g =
    let Q = Reads IsOthers (left c) in
    Ensures-if Q (not (is_token (codes "any") c.current) && not (is_token (codes "all") c.current))
      _ _ (λ h. Ensures-fail Q (codes "expected 'any' or 'all'") c)
      (λ h.
        let (g0, l0) = next-Within c g (two_words (codes "any") (codes "all") c h) in
        Ensures->>= (Within (left (next c))) Q (expect (codes ":") (next c)) _
          (expect-Within (codes ":") (next c) g0)
          (λ c1 (g1, l1).
            Ensures->>= (Reads AreDistinct (suc (left c1))) Q (parse_attributes false c1) _
              (parse_attributes-Reads c1 g1)
              (λ (attrs, c2) (d, (g2, l2)).
                closing IsOthers (left c) (codes ")") _ c2
                  (quantified-IsOthers c.current.text attrs d) (g2, omega arith))))

parse_others-Reads : (c : Cursor) → IsGood c → Ensures (Reads IsOthers (left c)) (parse_others c)
unfolding parse_others
parse_others-Reads c g =
    Ensures->>= (Within (left c)) (Reads IsOthers (left c)) (expect (codes "(") c) _
      (expect-Within (codes "(") c g)
      (λ c1 (g1, l1).
        Ensures-mono (Reads IsOthers (left c1)) (Reads IsOthers (left c)) (parse_quantified c1)
          (parse_quantified-Reads c1 g1) (λ (p, c2) (o, (g2, l2)). (o, (g2, omega arith))))

others-IsTo : (p : Participant) → IsOthers p → IsTo p
others-IsTo (any_of attrs) d = d
others-IsTo (all_of attrs) d = d
others-IsTo me d = absurd d
others-IsTo requester d = absurd d

others-IsFrom : (p : Participant) → IsOthers p → IsFrom p
others-IsFrom (any_of attrs) d = d
others-IsFrom (all_of attrs) d = d
others-IsFrom me d = absurd d
others-IsFrom requester d = absurd d

parse_to-Reads : (c : Cursor) → IsGood c → Ensures (Reads IsTo (left c)) (parse_to c)
unfolding parse_to
parse_to-Reads c g =
    let Q = Reads IsTo (left c) in
    Ensures-if Q (is_token (codes "me") c.current) _ _ (λ h. (tt, behind-Within (codes "me") c g h))
      (λ h.
        Ensures-if Q (is_token (codes "(") c.current) _ _
          (λ k.
            Ensures-mono (Reads IsOthers (left c)) Q (parse_others c) (parse_others-Reads c g)
              (λ (p, c1) (o, w). (others-IsTo p o, w)))
          (λ k. Ensures-fail Q (codes "expected 'me' or a quantified party for 'to'") c))

parse_from-Reads : (c : Cursor) → IsGood c → Ensures (Reads IsFrom (left c)) (parse_from c)
unfolding parse_from
parse_from-Reads c g =
    let Q = Reads IsFrom (left c) in
    Ensures-if Q (is_token (codes "requester") c.current) _ _
      (λ h. (tt, behind-Within (codes "requester") c g h))
      (λ h.
        Ensures-if Q (is_token (codes "(") c.current) _ _
          (λ k.
            Ensures-mono (Reads IsOthers (left c)) Q (parse_others c) (parse_others-Reads c g)
              (λ (p, c1) (o, w). (others-IsFrom p o, w)))
          (λ k. Ensures-fail Q (codes "expected 'requester' or a quantified party for 'from'") c))

pub expect_key-Within :
    (word : Str) (c : Cursor) → IsGood c → Ensures (Within (left c)) (expect_key word c)
unfolding expect_key
expect_key-Within word c g =
    Ensures->>= (Within (left c)) (Within (left c)) (expect word c) _ (expect-Within word c g)
      (λ c1 (g1, l1).
        Ensures-mono (Within (left c1)) (Within (left c)) (expect (codes ":") c1)
          (expect-Within (codes ":") c1 g1) (λ c2 (g2, l2). (g2, omega arith)))

pub parse_term-Reads : (c : Cursor) → IsGood c → Ensures (Reads IsExchange (left c)) (parse_term c)
unfolding parse_term
parse_term-Reads c g =
    let Q = Reads IsExchange (left c) in
    Ensures->>= (Within (left c)) Q (expect (codes "(") c) _ (expect-Within (codes "(") c g)
      (λ c1 (g1, l1).
        Ensures->>= (Within (left c1)) Q (expect_key (codes "to") c1) _
          (expect_key-Within (codes "to") c1 g1)
          (λ c2 (g2, l2).
            Ensures->>= (Reads IsTo (left c2)) Q (parse_to c2) _ (parse_to-Reads c2 g2)
              (λ (to, c3) (to_is, (g3, l3)).
                Ensures->>= (Within (left c3)) Q (expect (codes ",") c3) _
                  (expect-Within (codes ",") c3 g3)
                  (λ c4 (g4, l4).
                    Ensures->>= (Within (left c4)) Q (expect_key (codes "resource") c4) _
                      (expect_key-Within (codes "resource") c4 g4)
                      (λ c5 (g5, l5).
                        Ensures->>= (Reads IsPattern (suc (left c5))) Q (parse_attributes true c5) _
                          (parse_attributes-IsPattern c5 g5)
                          (λ (resource, c6) (pattern_, (g6, l6)).
                            Ensures->>= (Within (left c6)) Q (expect (codes ",") c6) _
                              (expect-Within (codes ",") c6 g6)
                              (λ c7 (g7, l7).
                                Ensures->>= (Within (left c7)) Q (expect_key (codes "from") c7) _
                                  (expect_key-Within (codes "from") c7 g7)
                                  (λ c8 (g8, l8).
                                    Ensures->>= (Reads IsFrom (left c8)) Q (parse_from c8) _
                                      (parse_from-Reads c8 g8)
                                      (λ (from, c9) (from_is, (g9, l9)).
                                        closing IsExchange (left c) (codes ")") _ c9
                                          (tt, (to_is, from_is, pattern_))
                                          (g9, omega arith))))))))))
