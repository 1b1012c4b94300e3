-- ===== src/Frontend/Parser/Values.antt =====
-- About the value parsers of app/frontend/src/lib/bart/parse.ts: what they read.
use bart_share.Prelude.{ok, inl, inr, Bool-cases, zero, suc, arith, ap, refl, ℕ, ◌≡◌, ◌<◌, ◌>>=◌}
use bart_share.Text.{Str, codes, str_eq}
use bart_share.Number.{number_text}
use bart_share.Number.Reading.{to_number}
use bart_share.Frontend.Lexer.{TokenKind, string, number, bool, name, punct, eof}
use bart_share.Frontend.Cursor.{Cursor, is_eof, next, is_token, expect, fuel_of}
use bart_share.Frontend.Cursor.Moves.{
  IsGood, left, Ensures, Ensures->>=, Ensures-mono, Ensures-if, Ensures-fail, Within, Reads,
  next-Within, behind-Within, expect-Within,
}
use bart_share.Frontend.Parser.{parse_atom, more_atoms, parse_atoms, parse_braced, parse_value}

abbrev pub Any : {A : Type 0} → A → Type 0
Any a = Unit {0}

parse_atom-Reads : (c : Cursor) → IsGood c → Ensures (Reads Any (left c)) (parse_atom c)
unfolding parse_atom is_eof
parse_atom-Reads c g = go c.current.kind refl
  where
    go : (k : TokenKind) → c.current.kind ≡ k → Ensures (Reads Any (left c)) (parse_atom c)
    go string e = rw (e, parse_atom) (tt, next-Within c g (ap is_eof e))
    go number e =
        rw (e, parse_atom)
          (Ensures-if (Reads Any (left c))
            (str_eq (number_text (to_number c.current.text)) c.current.text) _ _
            (λ h. (tt, next-Within c g (ap is_eof e))) (λ h. refl))
    go bool e = rw (e, parse_atom) (tt, next-Within c g (ap is_eof e))
    go name e = rw (e, parse_atom) (Ensures-fail (Reads Any (left c)) _ c)
    go punct e = rw (e, parse_atom) (Ensures-fail (Reads Any (left c)) _ c)
    go eof e = rw (e, parse_atom) (Ensures-fail (Reads Any (left c)) _ c)

more_atoms-Reads :
    (fuel : ℕ) (c : Cursor)
    → IsGood c
    → left c < fuel
    → Ensures (Reads Any (suc (left c))) (more_atoms fuel c)
unfolding more_atoms
more_atoms-Reads zero c g h = absurd (omega arith)
more_atoms-Reads (suc fuel) c g h = elim (Bool-cases (is_token (codes ",") c.current)) [
  | inr no_ ↦ rw (no_, more_atoms) (tt, (g, omega arith))
  | inl comma ↦
      let (g0, l0) = behind-Within (codes ",") c g comma in
      rw (comma, more_atoms)
        (Ensures->>= (Reads Any (left (next c))) (Reads Any (suc (left c))) (parse_atom (next c)) _
          (parse_atom-Reads (next c) g0)
          (λ (v, c1) (_, (g1, l1)).
            Ensures->>= (Reads Any (suc (left c1))) (Reads Any (suc (left c))) (more_atoms fuel c1)
              _ (more_atoms-Reads fuel c1 g1 (omega arith))
              (λ (vs, c2) (_, (g2, l2)). (tt, (g2, omega arith)))))
]

parse_atoms-Reads : (c : Cursor) → IsGood c → Ensures (Reads Any (left c)) (parse_atoms c)
unfolding parse_atoms fuel_of
parse_atoms-Reads c g =
    Ensures->>= (Reads Any (left c)) (Reads Any (left c)) (parse_atom c) _ (parse_atom-Reads c g)
      (λ (v, c1) (_, (g1, l1)).
        Ensures->>= (Reads Any (suc (left c1))) (Reads Any (left c)) (more_atoms (suc (left c1)) c1)
          _ (more_atoms-Reads (suc (left c1)) c1 g1 (omega arith))
          (λ (vs, c2) (_, (g2, l2)). (tt, (g2, omega arith))))

-- A token expected behind what was read.
pub closing :
    {B : Type 0} (P : B → Type 0) (n : ℕ) (word : Str) (b : B) (c : Cursor)
    → P b
    → Within n c
    → Ensures (Reads P n) (expect word c >>= λ c1. ok (b, c1))
closing P n word b c p (g, l) =
    Ensures->>= (Within (left c)) (Reads P n) (expect word c) _ (expect-Within word c g)
      (λ c1 (g1, l1). (p, (g1, omega arith)))

parse_braced-Reads : (c : Cursor) → IsGood c → Ensures (Reads Any (suc (left c))) (parse_braced c)
unfolding parse_braced
parse_braced-Reads c g = elim (Bool-cases (is_token (codes "}") c.current)) [
  | inl there ↦
      let (g1, l1) = behind-Within (codes "}") c g there in
      rw (there, parse_braced) (tt, (g1, omega arith))
  | inr no_ ↦
      rw (no_, parse_braced)
        (Ensures->>= (Reads Any (left c)) (Reads Any (suc (left c))) (parse_atoms c) _
          (parse_atoms-Reads c g)
          (λ (vs, c1) (_, (g1, l1)).
            closing Any (suc (left c)) (codes "}") _ c1 tt (g1, omega arith)))
]

pub parse_value-Reads : (c : Cursor) → IsGood c → Ensures (Reads Any (left c)) (parse_value c)
unfolding parse_value
parse_value-Reads c g = elim (Bool-cases (is_token (codes "{") c.current)) [
  | inl there ↦
      let (g0, l0) = behind-Within (codes "{") c g there in
      rw (there, parse_value)
        (Ensures-mono (Reads Any (suc (left (next c)))) (Reads Any (left c)) (parse_braced (next c))
          (parse_braced-Reads (next c) g0) (λ (v, c1) (_, (g1, l1)). (tt, (g1, omega arith))))
  | inr no_ ↦
      rw (no_, parse_value)
        (Ensures->>= (Reads Any (left c)) (Reads Any (left c)) (parse_atoms c) _
          (parse_atoms-Reads c g) (λ (vs, c1) (_, w). (tt, w)))
]
