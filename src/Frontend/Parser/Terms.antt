-- ===== src/Frontend/Parser/Terms.antt =====
-- About parseTerm of app/frontend/src/lib/bart/parse.ts: what it reads of given tokens.
use bart_share.Prelude.{true, false, List, [], ◌∷◌, ◌++◌, ◌≡◌, ◌&&◌, not, ok, refl, ap, ◌∙◌}
use bart_share.Text.{Str, codes, str_eq}
use bart_share.Attrs.{BartAttrs}
use bart_share.Frontend.Lexer.Words.{Piece}
use bart_share.Frontend.Lexer.Lexemes.{mark}
use bart_share.Frontend.Rule.{Participant, me, requester, any_of, all_of, ExchangeTerm, term}
use bart_share.Frontend.Rule.Pieces.{attrs_pieces, HaveReadable}
use bart_share.Frontend.Rule.Tokens.{word, key, participant_pieces, from_pieces, term_pieces}
use bart_share.Frontend.Cursor.{Cursor, next, is_token}
use bart_share.Frontend.Parser.{
  parse_attributes, quantified, parse_quantified, parse_others, parse_to, parse_from, expect_key,
  parse_term,
}
use bart_share.Frontend.Parser.Standing.{Stands, Stands-append, is_word, expect-Stands}
use bart_share.Frontend.Parser.Entries.{here-Stands, AreNew, any_attributes-Stands, pattern-Stands}

-- Attributes that are read back as written, those of a resource, and the parties on their sides.
abbrev pub AreKept : BartAttrs → Type 0
AreKept attrs = HaveReadable attrs × AreNew [] attrs

abbrev pub IsKeptPattern : BartAttrs → Type 0
IsKeptPattern [] = ⊥
IsKeptPattern (a ∷ attrs) = AreKept (a ∷ attrs)

abbrev pub IsKeptTo : Participant → Type 0
IsKeptTo me = Unit {0}
IsKeptTo requester = ⊥
IsKeptTo (any_of attrs) = AreKept attrs
IsKeptTo (all_of attrs) = AreKept attrs

abbrev pub IsKeptFrom : Participant → Type 0
IsKeptFrom me = ⊥
IsKeptFrom requester = Unit {0}
IsKeptFrom (any_of attrs) = AreKept attrs
IsKeptFrom (all_of attrs) = AreKept attrs

abbrev pub IsKeptTerm : ExchangeTerm → Type 0
IsKeptTerm t = IsKeptTo t.to × IsKeptPattern t.resource × IsKeptFrom t.from

pub expect_key-Stands :
    (s : Str) (ps : List Piece) (c d : Cursor)
    → is_word s (word s) ≡ true
    → Stands (key s ++ ps) c d
    → (expect_key s c ≡ ok (next (next c))) × Stands ps (next (next c)) d
unfolding expect_key str_eq
expect_key-Stands s ps c d w h =
    let first = expect-Stands s (word s) (mark b':' ∷ ps) c d w h in
    let colon = expect-Stands (codes ":") (mark b':') ps (next c) d refl h.3 in
    (rw first colon, h.3.3)

others-Stands :
    (q : Str) (attrs : BartAttrs) (c d : Cursor)
    → (not (str_eq q (codes "any")) && not (str_eq q (codes "all"))) ≡ false
    → Stands (mark b'(' ∷ (key q ++ (attrs_pieces attrs ++ mark b')' ∷ []))) c d
    → AreKept attrs
    → parse_others c ≡ ok (quantified q attrs, d)
unfolding parse_others parse_quantified str_eq
others-Stands q attrs c d quant h (r, n) =
    let ps : List Piece = attrs_pieces attrs ++ mark b')' ∷ [] in
    let (x, inside, end) =
      Stands-append (attrs_pieces attrs) (mark b')' ∷ []) (next (next (next c))) d h.3.3.3 in
    let opened = expect-Stands (codes "(") (mark b'(') (key q ++ ps) c d refl h in
    let any_here = here-Stands (codes "any") (word q) (mark b':' ∷ ps) (next c) d h.3 in
    let all_here = here-Stands (codes "all") (word q) (mark b':' ∷ ps) (next c) d h.3 in
    let colon = expect-Stands (codes ":") (mark b':') ps (next (next c)) d refl h.3.3 in
    let read =
      any_attributes-Stands attrs (next (next (next c))) x inside r n
        (here-Stands (codes "(") (mark b')') [] x d end) in
    let closed = expect-Stands (codes ")") (mark b')') [] x d refl end in
    rw (opened, any_here, all_here, quant, colon, read, closed)
      (ap (λ (t : Str). ok (quantified t attrs, next x)) h.3.1
        ∙ ap (λ (y : Cursor). ok (quantified q attrs, y)) end.3)

parse_to-Stands :
    (p : Participant) (c d : Cursor)
    → Stands (participant_pieces p) c d
    → IsKeptTo p
    → parse_to c ≡ ok (p, d)
unfolding parse_to quantified str_eq
parse_to-Stands me c d h r =
    let here = here-Stands (codes "me") (word (codes "me")) [] c d h in
    rw (here, parse_to) (ap (λ (y : Cursor). ok (me, y)) h.3)
parse_to-Stands requester c d h r = absurd r
parse_to-Stands (any_of attrs) c d h r =
    let ps : List Piece = key (codes "any") ++ (attrs_pieces attrs ++ mark b')' ∷ []) in
    let not_me = here-Stands (codes "me") (mark b'(') ps c d h in
    let open_ = here-Stands (codes "(") (mark b'(') ps c d h in
    rw (not_me, open_, parse_to) (others-Stands (codes "any") attrs c d refl h r)
parse_to-Stands (all_of attrs) c d h r =
    let ps : List Piece = key (codes "all") ++ (attrs_pieces attrs ++ mark b')' ∷ []) in
    let not_me = here-Stands (codes "me") (mark b'(') ps c d h in
    let open_ = here-Stands (codes "(") (mark b'(') ps c d h in
    rw (not_me, open_, parse_to) (others-Stands (codes "all") attrs c d refl h r)

parse_from-Stands :
    (p : Participant) (c d : Cursor)
    → Stands (participant_pieces p) c d
    → IsKeptFrom p
    → parse_from c ≡ ok (p, d)
unfolding parse_from quantified str_eq
parse_from-Stands requester c d h r =
    let here = here-Stands (codes "requester") (word (codes "requester")) [] c d h in
    rw (here, parse_from) (ap (λ (y : Cursor). ok (requester, y)) h.3)
parse_from-Stands me c d h r = absurd r
parse_from-Stands (any_of attrs) c d h r =
    let ps : List Piece = key (codes "any") ++ (attrs_pieces attrs ++ mark b')' ∷ []) in
    let no_requester = here-Stands (codes "requester") (mark b'(') ps c d h in
    let open_ = here-Stands (codes "(") (mark b'(') ps c d h in
    rw (no_requester, open_, parse_from) (others-Stands (codes "any") attrs c d refl h r)
parse_from-Stands (all_of attrs) c d h r =
    let ps : List Piece = key (codes "all") ++ (attrs_pieces attrs ++ mark b')' ∷ []) in
    let no_requester = here-Stands (codes "requester") (mark b'(') ps c d h in
    let open_ = here-Stands (codes "(") (mark b'(') ps c d h in
    rw (no_requester, open_, parse_from) (others-Stands (codes "all") attrs c d refl h r)

pub kept_pattern-Stands :
    (attrs : BartAttrs) (c d : Cursor)
    → Stands (attrs_pieces attrs) c d
    → IsKeptPattern attrs
    → is_token (codes "(") d.current ≡ false
    → parse_attributes true c ≡ ok (attrs, d)
kept_pattern-Stands [] c d h r e = absurd r
kept_pattern-Stands (a ∷ attrs) c d h (r, n) e = pattern-Stands a attrs c d h r n e

pub parse_term-Stands :
    (t : ExchangeTerm) (c d : Cursor)
    → Stands (term_pieces t) c d
    → IsKeptTerm t
    → parse_term c ≡ ok (term t, d)
unfolding parse_term str_eq
parse_term-Stands t c d h (r_to, r_resource, r_from) =
    let end_pieces : List Piece = participant_pieces t.from ++ mark b')' ∷ [] in
    let resource_pieces : List Piece = attrs_pieces t.resource ++ from_pieces t.from in
    let to_pieces : List Piece =
      participant_pieces t.to ++ (mark b',' ∷ (key (codes "resource") ++ resource_pieces)) in
    let opened = expect-Stands (codes "(") (mark b'(') (key (codes "to") ++ to_pieces) c d refl h in
    let (to_key, h1) = expect_key-Stands (codes "to") to_pieces (next c) d refl h.3 in
    let (c3, to_here, h2) =
      Stands-append (participant_pieces t.to)
        (mark b',' ∷ (key (codes "resource") ++ resource_pieces)) (next (next (next c))) d h1 in
    let to = parse_to-Stands t.to (next (next (next c))) c3 to_here r_to in
    let comma =
      expect-Stands (codes ",") (mark b',') (key (codes "resource") ++ resource_pieces) c3 d refl
        h2 in
    let (resource_key, h3) =
      expect_key-Stands (codes "resource") resource_pieces (next c3) d refl h2.3 in
    let (c6, resource_here, h4) =
      Stands-append (attrs_pieces t.resource) (from_pieces t.from) (next (next (next c3))) d h3 in
    let no_more = here-Stands (codes "(") (mark b',') (key (codes "from") ++ end_pieces) c6 d h4 in
    let resource =
      kept_pattern-Stands t.resource (next (next (next c3))) c6 resource_here r_resource no_more in
    let comma2 =
      expect-Stands (codes ",") (mark b',') (key (codes "from") ++ end_pieces) c6 d refl h4 in
    let (from_key, h5) = expect_key-Stands (codes "from") end_pieces (next c6) d refl h4.3 in
    let (c9, from_here, h6) =
      Stands-append (participant_pieces t.from) (mark b')' ∷ []) (next (next (next c6))) d h5 in
    let from = parse_from-Stands t.from (next (next (next c6))) c9 from_here r_from in
    let closed = expect-Stands (codes ")") (mark b')') [] c9 d refl h6 in
    rw (opened, to_key, to, comma, resource_key, resource, comma2, from_key, from, closed)
      (ap (λ (y : Cursor). ok (term t, y)) h6.3)
