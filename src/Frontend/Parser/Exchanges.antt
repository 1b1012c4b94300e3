-- ===== src/Frontend/Parser/Exchanges.antt =====
-- About the exchange parsers of app/frontend/src/lib/bart/parse.ts: what they read.
use bart_share.Prelude.{inl, inr, Bool-cases, zero, suc, arith, ℕ, ◌<◌, not}
use bart_share.Text.{Str, codes}
use bart_share.Frontend.Rule.{Connector, and_, or_, ExchangeNode, connector_text}
use bart_share.Frontend.Cursor.{Cursor, Parsed, next, is_token, expect, fuel_of}
use bart_share.Frontend.Cursor.Moves.{
  IsGood, left, Ensures, Ensures->>=, Ensures-if, Ensures-fail, Within, Reads, behind-Within,
  expect-Within,
}
use bart_share.Frontend.Parser.{
  more_children, parse_connected, parse_or_of, opens_term, parse_primary, parse_or,
}
use bart_share.Frontend.Parser.Values.{closing}
use bart_share.Frontend.Parser.Parties.{
  IsExchange, AreExchanges, group_node-IsExchange, parse_term-Reads,
}

-- A parser of nodes that may be called where fewer than `fuel` tokens are left.
abbrev pub ReadsNodes : ℕ → (Cursor → Parsed ExchangeNode) → Type 0
ReadsNodes fuel child =
    (c : Cursor) → IsGood c → left c < fuel → Ensures (Reads IsExchange (left c)) (child c)

more_children-Reads :
    (bound fuel : ℕ) (word : Str) (child : Cursor → Parsed ExchangeNode) (c : Cursor)
    → ReadsNodes bound child
    → IsGood c
    → left c < fuel
    → left c < bound
    → Ensures (Reads AreExchanges (suc (left c))) (more_children fuel word child c)
unfolding more_children
more_children-Reads bound zero word child c k g h b = absurd (omega arith)
more_children-Reads bound (suc fuel) word child c k g h b =
    elim (Bool-cases (is_token word c.current)) [
      | inr no_ ↦ rw (no_, more_children) ((tt, tt), (g, omega arith))
      | inl there ↦
          let (g0, l0) = behind-Within word c g there in
          let Q = Reads AreExchanges (suc (left c)) in
          rw (there, more_children)
            (Ensures->>= (Reads IsExchange (left (next c))) Q (child (next c)) _
              (k (next c) g0 (omega arith))
              (λ (n, c1) (n_is, (g1, l1)).
                Ensures->>= (Reads AreExchanges (suc (left c1))) Q
                  (more_children fuel word child c1) _
                  (more_children-Reads bound fuel word child c1 k g1 (omega arith) (omega arith))
                  (λ (ns, c2) ((tidy, terms), (g2, l2)).
                    (((n_is.0, tidy), (n_is.1, terms)), (g2, omega arith)))))
    ]

parse_connected-Reads :
    (bound : ℕ) (connector : Connector) (child : Cursor → Parsed ExchangeNode)
    → ReadsNodes bound child
    → ReadsNodes bound (parse_connected connector child)
unfolding parse_connected fuel_of
parse_connected-Reads bound connector child k c g b =
    let Q = Reads IsExchange (left c) in
    Ensures->>= (Reads IsExchange (left c)) Q (child c) _ (k c g b) (λ (n, c1) (n_is, (g1, l1)).
      Ensures->>= (Reads AreExchanges (suc (left c1))) Q
        (more_children (suc (left c1)) (connector_text connector) child c1) _
        (more_children-Reads bound (suc (left c1)) (connector_text connector) child c1 k g1
          (omega arith) (omega arith))
        (λ (ns, c2) (ns_are, (g2, l2)).
          (group_node-IsExchange connector n ns n_is ns_are, (g2, omega arith))))

parse_primary-Reads : (fuel : ℕ) → ReadsNodes fuel (parse_primary fuel)
unfolding parse_primary parse_or_of
parse_primary-Reads zero c g h = absurd (omega arith)
parse_primary-Reads (suc fuel) c g h = elim (Bool-cases (opens_term c)) [
  | inl t ↦
      rw (t, parse_primary)
        (Ensures-if (Reads IsExchange (left c)) (not (is_token (codes "(") c.current)) _ _
          (λ no_. Ensures-fail (Reads IsExchange (left c)) (codes "expected an exchange") c)
          (λ yes_. parse_term-Reads c g))
  | inr f ↦
      rw (f, parse_primary)
        (Ensures-if (Reads IsExchange (left c)) (not (is_token (codes "(") c.current)) _ _
          (λ no_. Ensures-fail (Reads IsExchange (left c)) (codes "expected an exchange") c)
          (λ yes_.
            Ensures->>= (Within (left c)) (Reads IsExchange (left c)) (expect (codes "(") c) _
              (expect-Within (codes "(") c g)
              (λ c1 (g1, l1).
                Ensures->>= (Reads IsExchange (left c1)) (Reads IsExchange (left c))
                  (parse_or_of (parse_primary fuel) c1) _
                  (parse_connected-Reads fuel or_ (parse_connected and_ (parse_primary fuel))
                    (parse_connected-Reads fuel and_ (parse_primary fuel)
                      (parse_primary-Reads fuel))
                    c1 g1 (omega arith))
                  (λ (n, c2) (n_is, (g2, l2)).
                    closing IsExchange (left c) (codes ")") _ c2 n_is (g2, omega arith)))))
]

pub parse_or-Reads : (c : Cursor) → IsGood c → Ensures (Reads IsExchange (left c)) (parse_or c)
unfolding parse_or parse_or_of fuel_of
parse_or-Reads c g =
    let fuel = suc (left c) in
    parse_connected-Reads fuel or_ (parse_connected and_ (parse_primary fuel))
      (parse_connected-Reads fuel and_ (parse_primary fuel) (parse_primary-Reads fuel)) c g
      (omega arith)
