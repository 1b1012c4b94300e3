-- ===== src/Frontend/Lexer/Bounds.antt =====
-- About app/frontend/src/lib/bart/lex.ts: how many characters a round takes.
use bart_share.Text.{Str, starts_with, is_digit}
use bart_share.Frontend.Lexer.{
  is_name_part, is_name_start, starts_with_digit, is_blank, string_round, span_length,
  string_length, fraction_length, number_length, punct_length, punctuation, Round, skip, token,
  give_up, classify, punct_round,
}
use bart_share.Prelude.{
  ◌&&◌, ◌||◌, not, if◌then◌else◌, ◌≡◌, ℕ, zero, suc, ◌+◌, ◌≤◌, Bool, true, false, List, [], ◌∷◌,
  some, length, drop, arith, Option-cases, inl, inr, ◌==◌,
}

pub span_length-le : (p : ℕ → Bool) (s : Str) → span_length p s ≤ length s
unfolding span_length
span_length-le p [] = omega arith
span_length-le p (c ∷ s) = ground (arith, span_length-le p s)

string_length-le : (e : Bool) (s : Str) (n : ℕ) → string_length e s ≡ some n → n ≤ length s
unfolding string_length
string_length-le e [] n h = cc
string_length-le true (c ∷ s) n h = elim (Option-cases (string_length false s)) [
  | inl open_ ↦ absurd (ground arith)
  | inr (m, closed) ↦ ground (arith, string_length-le false s m closed)
]
string_length-le false (c ∷ s) n h = elim (Option-cases (string_length (c == b'\\') s)) [
  | inl open_ ↦ ground arith
  | inr (m, closed) ↦ ground (arith, string_length-le (c == b'\\') s m closed)
]

pub length-drop_le : (n : ℕ) (s : Str) → n ≤ length s → length (drop n s) + n ≡ length s
length-drop_le zero s h = omega arith
length-drop_le (suc n) [] h = absurd (omega arith)
length-drop_le (suc n) (c ∷ s) h = omega (arith, length-drop_le n s)

fraction_length-le : (s : Str) → fraction_length s ≤ length s
unfolding fraction_length
fraction_length-le [] = omega arith
fraction_length-le (c ∷ []) = omega arith
fraction_length-le (c ∷ d ∷ s) = ground (arith, span_length-le is_digit (d ∷ s))

number_length-le : (s : Str) → number_length s ≤ length s
unfolding number_length
number_length-le s = omega (
  arith,
  span_length-le is_digit s,
  fraction_length-le (drop (span_length is_digit s) s),
  length-drop_le (span_length is_digit s) s,
)

starts_with-le : (s p : Str) → starts_with s p ≡ true → length p ≤ length s
unfolding starts_with
starts_with-le s [] h = omega arith
starts_with-le [] (c ∷ p) h = cc
starts_with-le (d ∷ s) (c ∷ p) h = ground (arith, starts_with-le s p)

-- Every string of the list has a character.
abbrev NonEmpty : List Str → Type 0
NonEmpty [] = Unit {0}
NonEmpty (p ∷ ps) = (1 ≤ length p) × NonEmpty ps

punct_length-bounds :
    (ps : List Str) (rest : Str) (n : ℕ)
    → NonEmpty ps
    → punct_length ps rest ≡ some n
    → (1 ≤ n) × (n ≤ length rest)
unfolding punct_length
punct_length-bounds [] rest n e h = cc
punct_length-bounds (p ∷ ps) rest n (one, more) h =
    ground (arith, starts_with-le rest p, punct_length-bounds ps rest n more)

-- What a round takes.
abbrev pub Takes : Round → ℕ → Type 0
Takes (skip n) len = (1 ≤ n) × (n ≤ len)
Takes (token kind n) len = (1 ≤ n) × (n ≤ len)
Takes (give_up reason) len = Unit {0}

punct-Takes :
    (c : ℕ) (rest : Str) → Takes (punct_round c (punct_length punctuation rest)) (length rest)
unfolding punct_round
punct-Takes c rest = elim (Option-cases (punct_length punctuation rest)) [
  | inl nothing ↦ rw (nothing, punct_round) tt
  | inr (n, found) ↦
      rw (found, punct_round) (punct_length-bounds punctuation rest n (omega arith) found)
]

string-Takes : (s : Str) → Takes (string_round (string_length false s)) (suc (length s))
unfolding string_round
string-Takes s = elim (Option-cases (string_length false s)) [
  | inl open_ ↦ rw (open_, string_round) tt
  | inr (n, closed) ↦ rw (closed, string_round) (omega (arith, string_length-le false s n closed))
]

Takes-if : (b : Bool) (x y : Round) (n : ℕ) → Takes x n → Takes y n → Takes (if b then x else y) n
Takes-if true x y n h k = h
Takes-if false x y n h k = k

pub classify-Takes : (c : ℕ) (s : Str) → Takes (classify c s) (suc (length s))
unfolding classify
classify-Takes c s =
    let n = suc (length s) in
    Takes-if (is_blank c) _ _ n (omega arith) (
      Takes-if (c == b'#') _ _ n (omega (arith, span_length-le (λ d. not (d == b'\n')) s)) (
        Takes-if (c == b'"') _ _ n (string-Takes s) (
          Takes-if (is_digit c || (c == b'-' && starts_with_digit s)) _ _ n
            (omega (arith, number_length-le s))
            (Takes-if (is_name_start c) _ _ n (omega (arith, span_length-le is_name_part s))
              (punct-Takes c (c ∷ s))))))
