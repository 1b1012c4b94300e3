-- ===== src/Frontend/Lexer/Words.antt =====
-- About app/frontend/src/lib/bart/lex.ts: texts that are written as a list of tokens.
use bart_share.Prelude.{
  ℕ, zero, suc, false, List, [], ◌∷◌, ◌++◌, ◌≡◌, ◌≤◌, length, take, arith, refl, ap,
}
use bart_share.Text.{Str}
use bart_share.Frontend.Lexer.{
  TokenKind, eof, eof_at, Token, lexed, Place, skip, token, classify, advance, token_at, before,
  lex_round, lex_from,
}
use bart_share.Frontend.Lexer.Runs.{drop-length-append}
use bart_share.Frontend.Cursor.{is_eof}

-- A token, wherever it stands.
abbrev pub Piece : Type 0
Piece = TokenKind × Str

-- The tokens are these, and an `eof` behind them.
abbrev pub Shaped : List Piece → List Token → Type 0
Shaped [] [] = ⊥
Shaped [] (t ∷ []) = t.kind ≡ eof
Shaped [] (t ∷ u ∷ ts) = ⊥
Shaped (p ∷ ps) [] = ⊥
Shaped (p ∷ ps) (t ∷ ts) = (t.kind ≡ p.0) × (t.text ≡ p.1) × (is_eof p.0 ≡ false) × Shaped ps ts

-- From any place on, the text gives these tokens.
abbrev pub Lexes : Str → List Piece → Type 0
Lexes s ps =
    (fuel : ℕ) (p : Place)
    → length s ≤ fuel
    → (ts : List Token) × (lex_from fuel p s ≡ lexed ts) × Shaped ps ts

pub take-length-append : (s t : Str) → take (length s) (s ++ t) ≡ s
take-length-append [] t = refl
take-length-append (c ∷ s) t = ap (◌∷◌ c) (take-length-append s t)

length-append_le : (s t : Str) → length t ≤ length (s ++ t)
length-append_le [] t = omega arith
length-append_le (c ∷ s) t = omega (arith, length-append_le s t)

pub Lexes-eof : Lexes [] []
unfolding lex_from
Lexes-eof fuel p h = (eof_at p ∷ [], refl, refl)

pub Lexes-skip :
    (c : ℕ) (s : Str) (ps : List Piece) → classify c s ≡ skip 1 → Lexes s ps → Lexes (c ∷ s) ps
unfolding lex_from lex_round
Lexes-skip c s ps round rest zero p h = absurd (omega arith)
Lexes-skip c s ps round rest (suc fuel) p h =
    rw round (rest fuel (advance 1 p (c ∷ s)) (omega arith))

pub Lexes-token :
    (k : TokenKind) (c : ℕ) (w rest : Str) (ps : List Piece)
    → classify c (w ++ rest) ≡ token k (suc (length w))
    → is_eof k ≡ false
    → Lexes rest ps
    → Lexes (c ∷ (w ++ rest)) ((k, c ∷ w) ∷ ps)
unfolding lex_from lex_round before token_at
Lexes-token k c w rest ps round open_ more zero p h = absurd (omega arith)
Lexes-token k c w rest ps round open_ more (suc fuel) p h =
    let at_ = advance (suc (length w)) p (c ∷ (w ++ rest)) in
    let (ts, is, shaped) = more fuel at_ (omega (arith, length-append_le w rest)) in
    let t = token_at k (suc (length w)) p (c ∷ (w ++ rest)) in
    let same : lex_from (suc fuel) p (c ∷ (w ++ rest)) ≡ lexed (t ∷ ts) =
      rw (round, drop-length-append w rest, is) refl in
    (t ∷ ts, same, (refl, ap (◌∷◌ c) (take-length-append w rest), open_, shaped))
