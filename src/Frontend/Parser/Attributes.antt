-- ===== src/Frontend/Parser/Attributes.antt =====
-- About the attribute parsers of app/frontend/src/lib/bart/parse.ts: what they read.
use bart_share.Prelude.{
  ◌⊎◌, [], ◌∷◌, true, false, inl, inr, Bool-cases, none, Option-cases, zero, suc, arith, refl, ℕ,
  ◌++◌, ◌≡◌, ◌≢◌, ◌<◌,
}
use bart_share.Text.{Str, codes, str_eq, str_eq_iff}
use bart_share.Attrs.{BartValue, BartAttrs, own, is_in}
use bart_share.Frontend.Lexer.{TokenKind, string, number, bool, name, punct, eof}
use bart_share.Frontend.Cursor.{Cursor, is_eof, is_name_kind, next, is_token, expect, fuel_of}
use bart_share.Frontend.Cursor.Moves.{
  IsGood, left, Ensures, Ensures->>=, Ensures-mono, Ensures-if, Ensures-fail, Within, Reads,
  next-Within, expect-Within,
}
use bart_share.Frontend.Parser.{
  parse_value, parse_entry, parse_attribute, more_attributes, parse_attributes,
}
use bart_share.Frontend.Parser.Values.{Any, closing, parse_value-Reads}

-- No key stands twice.
abbrev pub AreDistinct : BartAttrs → Type 0
AreDistinct [] = Unit {0}
AreDistinct ((k, v) ∷ r) = (own k r ≡ none) × AreDistinct r

own-append :
    (k j : Str) (v : BartValue) (attrs : BartAttrs)
    → own j attrs ≡ none
    → str_eq j k ≡ false
    → own j (attrs ++ (k, v) ∷ []) ≡ none
unfolding own
own-append k j v [] h d = ground arith
own-append k j v ((i, w) ∷ r) h d = ground (arith, own-append k j v r)

append-AreDistinct :
    (k : Str) (v : BartValue) (attrs : BartAttrs)
    → AreDistinct attrs
    → own k attrs ≡ none
    → AreDistinct (attrs ++ (k, v) ∷ [])
unfolding own
append-AreDistinct k v [] d h = (refl, tt)
append-AreDistinct k v ((j, w) ∷ r) (first, d) h =
    let other = swapped j k (ground arith) in
    (own-append k j v r first other, append-AreDistinct k v r d (ground arith))
  where
    swapped : (j k : Str) → str_eq k j ≡ false → str_eq j k ≡ false
    swapped j k h = ground (arith, str_eq_iff j k, str_eq_iff k j)

pub not_in-own : (k : Str) (attrs : BartAttrs) → is_in k attrs ≡ false → own k attrs ≡ none
unfolding is_in
not_in-own k attrs h = elim (Option-cases (own k attrs)) [
  | inl none_ ↦ none_
  | inr (v, found) ↦ absurd (ground arith)
]

parse_entry-Reads :
    (into : BartAttrs) (c : Cursor)
    → IsGood c
    → is_name_kind c.current.kind ≡ true
    → AreDistinct into
    → Ensures (Reads (λ attrs. AreDistinct attrs × (attrs ≢ [])) (left c)) (parse_entry into c)
unfolding parse_entry is_name_kind is_eof
parse_entry-Reads into c g k d =
    let Q = Reads (λ (attrs : BartAttrs). AreDistinct attrs × (attrs ≢ [])) (left c) in
    Ensures-if Q (is_in c.current.text into) _ _ (λ h. tt)
      (λ h.
        let (g0, l0) = next-Within c g (name_open c.current.kind k) in
        Ensures->>= (Within (left (next c))) Q (expect (codes ":") (next c)) _
          (expect-Within (codes ":") (next c) g0)
          (λ c1 (g1, l1).
            Ensures->>= (Reads Any (left c1)) Q (parse_value c1) _ (parse_value-Reads c1 g1)
              (λ (v, c2) (_, (g2, l2)).
                closing (λ (attrs : BartAttrs). AreDistinct attrs × (attrs ≢ [])) (left c)
                  (codes ")") _ c2
                  (
                    append-AreDistinct c.current.text v into d (not_in-own c.current.text into h),
                    longer into c.current.text v,
                  )
                  (g2, omega arith))))
  where
    name_open : (k : TokenKind) → is_name_kind k ≡ true → is_eof k ≡ false
    name_open name h = refl
    name_open punct h = cc
    name_open string h = cc
    name_open number h = cc
    name_open bool h = cc
    name_open eof h = cc

    longer : (into : BartAttrs) (k : Str) (v : BartValue) → (into ++ (k, v) ∷ []) ≢ []
    longer [] k v e = cc
    longer (x ∷ into) k v e = cc

-- An attribute object that is read: no key twice, and not empty where one is needed.
abbrev pub IsPattern : BartAttrs → Type 0
IsPattern attrs = AreDistinct attrs × (attrs ≢ [])

parse_attribute-Reads :
    (into : BartAttrs) (c : Cursor)
    → IsGood c
    → AreDistinct into
    → Ensures (Reads IsPattern (left c)) (parse_attribute into c)
unfolding parse_attribute
parse_attribute-Reads into c g d =
    Ensures->>= (Within (left c)) (Reads IsPattern (left c)) (expect (codes "(") c) _
      (expect-Within (codes "(") c g)
      (λ c1 (g1, l1).
        Ensures-if (Reads IsPattern (left c)) (is_name_kind c1.current.kind) _ _
          (λ k.
            Ensures-mono (Reads IsPattern (left c1)) (Reads IsPattern (left c))
              (parse_entry into c1) (parse_entry-Reads into c1 g1 k d)
              (λ (attrs, c2) (p, (g2, l2)). (p, (g2, omega arith))))
          (λ k. Ensures-fail (Reads IsPattern (left c)) (codes "expected an attribute name") c1))

more_attributes-Reads :
    (fuel : ℕ) (attrs : BartAttrs) (c : Cursor)
    → IsGood c
    → left c < fuel
    → AreDistinct attrs
    → ((attrs ≢ []) ⊎ (is_token (codes "(") c.current ≡ true))
    → Ensures (Reads IsPattern (suc (left c))) (more_attributes fuel attrs c)
unfolding more_attributes
more_attributes-Reads zero attrs c g h d some_ = absurd (omega arith)
more_attributes-Reads (suc fuel) attrs c g h d some_ =
    elim (Bool-cases (is_token (codes "(") c.current)) [
      | inr no_ ↦
          rw (no_, more_attributes)
            ((d, elim some_ [ inl n ↦ n | inr y ↦ absurd (ground arith) ]), (g, omega arith))
      | inl open_ ↦
          rw (open_, more_attributes)
            (Ensures->>= (Reads IsPattern (left c)) (Reads IsPattern (suc (left c)))
              (parse_attribute attrs c) _ (parse_attribute-Reads attrs c g d)
              (λ (longer, c1) ((d1, n1), (g1, l1)).
                Ensures-mono (Reads IsPattern (suc (left c1))) (Reads IsPattern (suc (left c)))
                  (more_attributes fuel longer c1)
                  (more_attributes-Reads fuel longer c1 g1 (omega arith) d1 (inl n1))
                  (λ (all_, c2) (p, (g2, l2)). (p, (g2, omega arith)))))
    ]

pub parse_attributes-Reads :
    (c : Cursor) → IsGood c → Ensures (Reads AreDistinct (suc (left c))) (parse_attributes false c)
unfolding parse_attributes fuel_of more_attributes
parse_attributes-Reads c g = elim (Bool-cases (is_token (codes "(") c.current)) [
  | inr no_ ↦ rw (no_, more_attributes) (tt, (g, omega arith))
  | inl open_ ↦
      Ensures-mono (Reads IsPattern (suc (left c))) (Reads AreDistinct (suc (left c)))
        (more_attributes (suc (left c)) [] c)
        (more_attributes-Reads (suc (left c)) [] c g (omega arith) tt (inr open_))
        (λ (attrs, c1) ((d, n), w). (d, w))
]

pub parse_attributes-IsPattern :
    (c : Cursor) → IsGood c → Ensures (Reads IsPattern (suc (left c))) (parse_attributes true c)
unfolding parse_attributes fuel_of
parse_attributes-IsPattern c g = elim (Bool-cases (is_token (codes "(") c.current)) [
  | inr no_ ↦
      rw (no_, parse_attributes)
        (Ensures-fail (Reads IsPattern (suc (left c))) (codes "expected at least one attribute") c)
  | inl open_ ↦
      rw (open_, parse_attributes)
        (more_attributes-Reads (suc (left c)) [] c g (omega arith) tt (inr open_))
]
