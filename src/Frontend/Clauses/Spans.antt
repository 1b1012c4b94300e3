-- ===== src/Frontend/Clauses/Spans.antt =====
-- About the condition and the clauses in app/frontend/src/lib/bart/parse.ts: what they read.
use bart_share.Prelude.{
  inl, inr, Bool-cases, arith, ℕ, zero, suc, [], true, none, some, Option, ◌<◌, ◌&&◌, ◌||◌,
  if◌then◌else◌,
}
use bart_share.Text.{Str, codes, str_eq, trim}
use bart_share.Number.{ℤ, pos}
use bart_share.Frontend.Lexer.{Token}
use bart_share.Frontend.Rule.{ExchangeNode, RuleTree}
use bart_share.Frontend.Cursor.{Cursor, is_eof, next, is_token, expect, fuel_of}
use bart_share.Frontend.Cursor.Moves.{
  IsGood, left, Ensures, Ensures->>=, Ensures-mono, Ensures-if, Ensures-fail, Within, Reads,
  next-Within, behind-Within, expect-Within,
}
use bart_share.Frontend.Parser.{parse_attributes, expect_key, parse_or}
use bart_share.Frontend.Parser.Values.{Any}
use bart_share.Frontend.Parser.Attributes.{IsPattern, parse_attributes-IsPattern}
use bart_share.Frontend.Parser.Parties.{IsExchange, expect_key-Within}
use bart_share.Frontend.Parser.Exchanges.{parse_or-Reads}
use bart_share.Frontend.Clauses.{
  is_outside, is_punct, deeper, shallower, span_end, slice, parse_condition_span, ClausesFound,
  is_some, parse_condition, parse_exchange, parse_clause, more_clauses, end_of_rule,
  parse_rule_tokens,
}

span_end-Reads :
    (fuel : ℕ) (depth : ℤ) (end : ℕ) (c : Cursor)
    → IsGood c
    → left c < fuel
    → Ensures (Reads Any (suc (left c))) (span_end fuel depth end c)
unfolding span_end
span_end-Reads zero depth end c g h = absurd (omega arith)
span_end-Reads (suc fuel) depth end c g h =
    let Q = Reads Any (suc (left c)) in
    Ensures-if Q (is_eof c.current.kind) _ _ (λ k. tt)
      (λ open_.
        let stop =
          is_outside depth && (is_punct (codes ",") c.current || is_punct (codes ")") c.current) in
        let opened =
          if is_punct (codes "(") c.current || is_punct (codes "{") c.current
          then deeper depth
          else depth in
        let closed =
          if is_punct (codes ")") c.current || is_punct (codes "}") c.current
          then shallower opened
          else opened in
        let (g1, l1) = next-Within c g open_ in
        elim (Bool-cases stop) [
          | inl t ↦ rw t (tt, (g, omega arith))
          | inr f ↦ rw f (
              Ensures-mono (Reads Any (suc (left (next c)))) Q
                (span_end fuel closed c.current.end (next c))
                (span_end-Reads fuel closed c.current.end (next c) g1 (omega arith))
                (λ (e, c2) (_, (g2, l2)). (tt, (g2, omega arith))))
        ])

parse_condition_span-Reads :
    (source : Str) (c : Cursor)
    → IsGood c
    → Ensures (Reads Any (suc (left c))) (parse_condition_span source c)
unfolding parse_condition_span fuel_of
parse_condition_span-Reads source c g =
    let Q = Reads Any (suc (left c)) in
    Ensures->>= (Reads Any (suc (left c))) Q (span_end (suc (left c)) (pos 0) c.current.start c) _
      (span_end-Reads (suc (left c)) (pos 0) c.current.start c g (omega arith))
      (λ (end, c1) w.
        Ensures-if Q (str_eq (trim (slice source c.current.start end)) []) _ _ (λ k. tt) (λ k. w))

-- The exchange is a good one, if there is one.
abbrev pub IsOptional : Option ExchangeNode → Type 0
IsOptional none = Unit {0}
IsOptional (some n) = IsExchange n

abbrev pub AreFound : ClausesFound → Type 0
AreFound found = IsOptional found.exchange

-- The cursor is behind a clause's word.
parse_condition-Reads :
    (source : Str) (clause : Token) (found : ClausesFound) (c : Cursor)
    → AreFound found
    → IsGood c
    → Ensures (Reads AreFound (left c)) (parse_condition source clause found c)
unfolding parse_condition
parse_condition-Reads source clause found c f g =
    let Q = Reads AreFound (left c) in
    Ensures-if Q (is_some found.condition) _ _ (λ h. tt)
      (λ h.
        Ensures-if Q (is_some found.exchange) _ _ (λ k. tt)
          (λ k.
            Ensures->>= (Within (left c)) Q (expect (codes ":") c) _ (expect-Within (codes ":") c g)
              (λ c1 (g1, l1).
                Ensures->>= (Reads Any (suc (left c1))) Q (parse_condition_span source c1) _
                  (parse_condition_span-Reads source c1 g1)
                  (λ (text, c2) (_, (g2, l2)). (f, (g2, omega arith))))))

parse_exchange-Reads :
    (clause : Token) (found : ClausesFound) (c : Cursor)
    → AreFound found
    → IsGood c
    → Ensures (Reads AreFound (left c)) (parse_exchange clause found c)
unfolding parse_exchange
parse_exchange-Reads clause found c f g =
    let Q = Reads AreFound (left c) in
    Ensures-if Q (is_some found.exchange) _ _ (λ k. tt)
      (λ k.
        Ensures->>= (Within (left c)) Q (expect (codes ":") c) _ (expect-Within (codes ":") c g)
          (λ c1 (g1, l1).
            Ensures->>= (Reads IsExchange (left c1)) Q (parse_or c1) _ (parse_or-Reads c1 g1)
              (λ (n, c2) (n_is, (g2, l2)). (n_is, (g2, omega arith)))))

parse_clause-Reads :
    (source : Str) (found : ClausesFound) (c : Cursor)
    → AreFound found
    → IsGood c
    → Ensures (Reads AreFound (left c)) (parse_clause source found c)
unfolding parse_clause
parse_clause-Reads source found c f g =
    let Q = Reads AreFound (left c) in
    Ensures-if Q (is_token (codes "condition") c.current) _ _
      (λ h.
        let (g1, l1) = behind-Within (codes "condition") c g h in
        Ensures-mono (Reads AreFound (left (next c))) Q
          (parse_condition source c.current found (next c))
          (parse_condition-Reads source c.current found (next c) f g1)
          (λ (found1, c2) (f2, (g2, l2)). (f2, (g2, omega arith))))
      (λ h.
        Ensures-if Q (is_token (codes "exchange") c.current) _ _
          (λ k.
            let (g1, l1) = behind-Within (codes "exchange") c g k in
            Ensures-mono (Reads AreFound (left (next c))) Q
              (parse_exchange c.current found (next c))
              (parse_exchange-Reads c.current found (next c) f g1)
              (λ (found1, c2) (f2, (g2, l2)). (f2, (g2, omega arith))))
          (λ k. Ensures-fail Q (codes "expected 'condition' or 'exchange'") c))

more_clauses-Reads :
    (fuel : ℕ) (source : Str) (found : ClausesFound) (c : Cursor)
    → AreFound found
    → IsGood c
    → left c < fuel
    → Ensures (Reads AreFound (suc (left c))) (more_clauses fuel source found c)
unfolding more_clauses
more_clauses-Reads zero source found c f g h = absurd (omega arith)
more_clauses-Reads (suc fuel) source found c f g h =
    elim (Bool-cases (is_token (codes ",") c.current)) [
      | inr no_ ↦ rw (no_, more_clauses) (f, (g, omega arith))
      | inl there ↦
          let (g0, l0) = behind-Within (codes ",") c g there in
          let Q = Reads AreFound (suc (left c)) in
          rw (there, more_clauses)
            (Ensures->>= (Reads AreFound (left (next c))) Q (parse_clause source found (next c)) _
              (parse_clause-Reads source found (next c) f g0)
              (λ (longer, c1) (f1, (g1, l1)).
                Ensures-mono (Reads AreFound (suc (left c1))) Q (more_clauses fuel source longer c1)
                  (more_clauses-Reads fuel source longer c1 f1 g1 (omega arith))
                  (λ (found2, c2) (f2, (g2, l2)). (f2, (g2, omega arith)))))
    ]

-- What a whole rule is when it parses: its resource has an attribute and no key twice, and so have
-- the resources in its exchange, which is tidy and has its parties on the sides where they may stand.
abbrev pub IsRule : RuleTree → Type 0
IsRule tree = IsPattern tree.resource × IsOptional tree.exchange

pub parse_rule_tokens-IsRule :
    (source : Str) (c : Cursor) → IsGood c → Ensures IsRule (parse_rule_tokens source c)
unfolding parse_rule_tokens end_of_rule fuel_of
parse_rule_tokens-IsRule source c g =
    Ensures->>= (Within (left c)) IsRule (expect (codes "(") c) _ (expect-Within (codes "(") c g)
      (λ c1 (g1, l1).
        Ensures->>= (Within (left c1)) IsRule (expect_key (codes "resource") c1) _
          (expect_key-Within (codes "resource") c1 g1)
          (λ c2 (g2, l2).
            Ensures->>= (Reads IsPattern (suc (left c2))) IsRule (parse_attributes true c2) _
              (parse_attributes-IsPattern c2 g2)
              (λ (resource, c3) (pattern_, (g3, l3)).
                Ensures->>= (Reads AreFound (suc (left c3))) IsRule
                  (more_clauses (suc (left c3)) source
                    (record { condition = none; exchange = none }) c3)
                  _
                  (more_clauses-Reads (suc (left c3)) source
                    (record { condition = none; exchange = none }) c3 tt g3 (omega arith))
                  (λ (found, c4) (f4, (g4, l4)).
                    Ensures->>= (Within (left c4)) IsRule (expect (codes ")") c4) _
                      (expect-Within (codes ")") c4 g4)
                      (λ c5 (g5, l5).
                        Ensures->>= Any IsRule (end_of_rule c5) _
                          (Ensures-if Any (is_eof c5.current.kind) _ _ (λ h. tt)
                            (λ h. Ensures-fail Any (codes "expected end of rule") c5))
                          (λ c6 _. (pattern_, f4)))))))
