-- ===== src/Frontend/Lexer/Places.antt =====
-- About app/frontend/src/lib/bart/lex.ts: where the tokens stand in the source.
use mathlib.Core.Path.{subst}
use mathlib.Core.List.{append_assoc, append-nil}
use bart_share.Text.{Str}
use bart_share.Frontend.Lexer.{
  lex_round, Round, skip, token, give_up, classify, Place, Token, lex_from, LexResult, lexed,
  failed, out_of_fuel, before, advance, lex, TokenKind, step_over, token_at, eof,
}
use bart_share.Frontend.Lexer.Bounds.{classify-Takes, Takes, length-drop_le}
use bart_share.Prelude.{
  sym, ◌∙◌, ap, ◌≡◌, ℕ, zero, suc, ◌+◌, ◌≤◌, ◌<◌, ◌≢◌, List, [], ◌∷◌, ◌++◌, length, take, drop,
  arith, refl, length-append, if◌then◌else◌, ◌==◌,
}

-- The newlines of a text, and the characters behind its last one, counted on from `n`.
abbrev pub newlines : Str → ℕ
newlines [] = 0
newlines (c ∷ s) = (if c == b'\n' then 1 else 0) + newlines s

abbrev pub since_newline : ℕ → Str → ℕ
since_newline n [] = n
since_newline n (c ∷ s) = since_newline (if c == b'\n' then 0 else n + 1) s

-- The place that the scan has behind this text.
pub record IsAt (pre : Str) (p : Place) : Type 0 where
  pub offset : p.i ≡ length pre
  pub line_is : p.line ≡ 1 + newlines pre
  pub column_is : p.column ≡ 1 + since_newline 0 pre

newlines-append : (a b : Str) → newlines (a ++ b) ≡ newlines a + newlines b
newlines-append [] b = omega arith
newlines-append (c ∷ a) b = omega (arith, newlines-append a b)

since_newline-append :
    (n : ℕ) (a b : Str) → since_newline n (a ++ b) ≡ since_newline (since_newline n a) b
since_newline-append n [] b = refl
since_newline-append n (c ∷ a) b = since_newline-append (if c == b'\n' then 0 else n + 1) a b

step_over-IsAt : (pre : Str) (c : ℕ) (p : Place) → IsAt pre p → IsAt (pre ++ c ∷ []) (step_over c p)
unfolding step_over
step_over-IsAt pre c p h = ground (
  arith,
  length-append pre (c ∷ []),
  newlines-append pre (c ∷ []),
  since_newline-append 0 pre (c ∷ []),
)

pub advance-IsAt :
    (n : ℕ) (pre : Str) (p : Place) (rest : Str)
    → IsAt pre p
    → IsAt (pre ++ take n rest) (advance n p rest)
unfolding advance
advance-IsAt zero pre p rest h = rw (append-nil pre) h
advance-IsAt (suc n) pre p [] h = rw (append-nil pre) h
advance-IsAt (suc n) pre p (c ∷ rest) h =
    subst (λ s. IsAt s (advance n (step_over c p) rest)) (append_assoc pre (c ∷ []) (take n rest))
      (advance-IsAt n (pre ++ c ∷ []) (step_over c p) rest (step_over-IsAt pre c p h))

take-append-drop : (n : ℕ) (s : Str) → take n s ++ drop n s ≡ s
take-append-drop zero s = refl
take-append-drop (suc n) [] = refl
take-append-drop (suc n) (c ∷ s) = ap (◌∷◌ c) (take-append-drop n s)

length-take_le : (n : ℕ) (s : Str) → n ≤ length s → length (take n s) ≡ n
length-take_le zero s h = refl
length-take_le (suc n) [] h = absurd (omega arith)
length-take_le (suc n) (c ∷ s) h = ap suc (length-take_le n s (omega arith))

-- A token stands in the source between two texts: what comes before it ends at its start, and its
-- line and column are one more than the newlines there, and the characters since the last of them.
pub record StandsIn (source : Str) (t : Token) : Type 0 where
  pub pre : Str
  pub post : Str
  pub splits : source ≡ pre ++ (t.text ++ post)
  pub start_is : t.start ≡ length pre
  pub end_is : t.end ≡ length pre + length t.text
  pub line_is : t.line ≡ 1 + newlines pre
  pub column_is : t.column ≡ 1 + since_newline 0 pre

-- The tokens stand in the source in order, with no overlap, and the last is the `eof` at its end.
abbrev pub Ordered : Str → ℕ → List Token → Type 0
Ordered source from [] = ⊥
Ordered source from (t ∷ []) =
    (t.kind ≡ eof) × (from ≤ t.start) × (t.start ≡ length source) × (t.end ≡ length source)
Ordered source from (t ∷ u ∷ ts) =
    (from ≤ t.start) × (t.start < t.end) × StandsIn source t × Ordered source t.end (u ∷ ts)

module _ (source : Str) where
  -- What the loop gives from a place on.
  abbrev pub Good : ℕ → LexResult → Type 0
  Good from (lexed ts) = Ordered source from ts
  Good from (failed reason at_) =
      (pre : Str) × (post : Str) × (source ≡ pre ++ post)
      × (post ≢ [])
      × (at_.line ≡ 1 + newlines pre)
      × (at_.column ≡ 1 + since_newline 0 pre)
  Good from out_of_fuel = ⊥

  before-Good :
      (t : Token) (r : LexResult) (from : ℕ)
      → from ≤ t.start
      → t.start < t.end
      → StandsIn source t
      → Good t.end r
      → Good from (before t r)
  unfolding before
  before-Good t (lexed []) from a b st g = absurd g
  before-Good t (lexed (u ∷ ts)) from a b st g = (a, b, st, g)
  before-Good t (failed reason at_) from a b st g = g
  before-Good t out_of_fuel from a b st g = g

  Good-mono : (r : LexResult) (from to : ℕ) → from ≤ to → Good to r → Good from r
  Good-mono (lexed []) from to h g = g
  Good-mono (lexed (t ∷ [])) from to h (k, a, b, c) = (k, omega arith, b, c)
  Good-mono (lexed (t ∷ u ∷ ts)) from to h (a, b, st, g) = (omega arith, b, st, g)
  Good-mono (failed reason at_) from to h g = g
  Good-mono out_of_fuel from to h g = g

  token_at-StandsIn :
      (kind : TokenKind) (n : ℕ) (pre : Str) (p : Place) (rest : Str)
      → n ≤ length rest
      → source ≡ pre ++ rest
      → IsAt pre p
      → StandsIn source (token_at kind n p rest)
  unfolding token_at
  token_at-StandsIn kind n pre p rest h split at_ =
      let moved = advance-IsAt n pre p rest at_ in
      record {
        pre = pre;
        post = drop n rest;
        splits = split ∙ ap (◌++◌ pre) (sym (take-append-drop n rest));
        start_is = at_.offset;
        end_is = moved.offset ∙ length-append pre (take n rest);
        line_is = at_.line_is;
        column_is = at_.column_is;
      }

  -- A round is good if the rest of the loop is good behind every step over some characters.
  lex_round-Good :
      (r : Round) (onward : ℕ → LexResult) (pre : Str) (p : Place) (c : ℕ) (s : Str)
      → Takes r (suc (length s))
      → source ≡ pre ++ c ∷ s
      → IsAt pre p
      → ((n : ℕ) → 1 ≤ n → n ≤ suc (length s) → Good (advance n p (c ∷ s)).i (onward n))
      → Good p.i (lex_round r onward p (c ∷ s))
  unfolding lex_round
  lex_round-Good (skip n) onward pre p c s t split at_ next =
      let moved = advance-IsAt n pre p (c ∷ s) at_ in
      Good-mono (onward n) p.i (advance n p (c ∷ s)).i
        (omega (arith, at_.offset, moved.offset, length-append pre (take n (c ∷ s))))
        (next n t.0 t.1)
  lex_round-Good (token kind n) onward pre p c s t split at_ next =
      let moved = advance-IsAt n pre p (c ∷ s) at_ in
      before-Good (token_at kind n p (c ∷ s)) (onward n) p.i (unfold token_at in omega arith)
        (unfold token_at in
          omega (
            arith,
            t.0,
            at_.offset,
            moved.offset,
            length-append pre (take n (c ∷ s)),
            length-take_le n (c ∷ s) t.1,
          ))
        (token_at-StandsIn kind n pre p (c ∷ s) t.1 split at_) (unfold token_at in next n t.0 t.1)
  lex_round-Good (give_up reason) onward pre p c s t split at_ next =
      (pre, c ∷ s, split, λ e. cc, at_.line_is, at_.column_is)

  lex_from-Good :
      (fuel : ℕ) (pre : Str) (p : Place) (rest : Str)
      → length rest ≤ fuel
      → source ≡ pre ++ rest
      → IsAt pre p
      → Good p.i (lex_from fuel p rest)
  unfolding lex_from
  lex_from-Good fuel pre p [] h split at_ = (
    refl,
    omega arith,
    at_.offset ∙ sym (ap length (split ∙ append-nil pre)),
    at_.offset ∙ sym (ap length (split ∙ append-nil pre)),
  )
  lex_from-Good zero pre p (c ∷ s) h split at_ = absurd (omega arith)
  lex_from-Good (suc fuel) pre p (c ∷ s) h split at_ =
      lex_round-Good (classify c s) _ pre p c s (classify-Takes c s) split at_ (λ n one most.
        lex_from-Good fuel (pre ++ take n (c ∷ s)) (advance n p (c ∷ s)) (drop n (c ∷ s))
          (omega (arith, length-drop_le n (c ∷ s) most))
          (split
            ∙ (ap (◌++◌ pre) (sym (take-append-drop n (c ∷ s)))
                ∙ sym (append_assoc pre (take n (c ∷ s)) (drop n (c ∷ s)))))
          (advance-IsAt n pre p (c ∷ s) at_))

-- The tokenizer always ends within the fuel that the model gives it. Where it succeeds its tokens
-- stand in the source in order and without overlap, each the piece of the source between its offsets,
-- none empty, with the line and the column of its first character, and an `eof` at the end behind
-- them. Where it fails, the position is that of a character of the source.
pub lex_places : (source : Str) → Good source 0 (lex source)
unfolding lex
lex_places source =
    lex_from-Good source (length source) [] (record { i = 0; line = 1; column = 1 }) source
      (omega arith) refl (record { offset = refl; line_is = refl; column_is = refl })
