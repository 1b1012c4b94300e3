-- ===== src/Emitter/Bare.antt =====
-- About stripComments of app/backend/src/bart/emitter.ts, against the lexical grammar of a rule.
use mathlib.Core.Path.{◌≡◌, refl, ap}
use bart_share.Prelude.{ℕ, true, false, inl, inr, [], ◌∷◌, ◌==◌, Bool-cases, ==_iff}
use bart_share.Text.{Str}
use bart_share.Emitter.Comments.{in_code, in_string, in_comment, next_mode, is_kept, strip_from}

-- The text of a rule as the grammar takes it: characters of code, string literals and comments.
mutual
  pub data Code : Type 0 where
    done : Code
    plain : ℕ → Code → Code
    literal : Literal → Code
    note : Note → Code

  -- Behind the quote that opens a literal. The last two end inside it: on a lone backslash, or not.
  pub data Literal : Type 0 where
    ordinary : ℕ → Literal → Literal
    escaped : ℕ → Literal → Literal
    closing : Code → Literal
    unclosed : Literal
    cut : Literal

  -- Behind a `#`, up to the newline or to the end of the rule.
  pub data Note : Type 0 where
    noted : ℕ → Note → Note
    ending : Code → Note
    unended : Note

abbrev mutual
  pub code_text : Code → Str
  code_text done = []
  code_text (plain c w) = c ∷ code_text w
  code_text (literal l) = b'"' ∷ literal_text l
  code_text (note n) = b'#' ∷ note_text n

  pub literal_text : Literal → Str
  literal_text (ordinary c l) = c ∷ literal_text l
  literal_text (escaped c l) = b'\\' ∷ c ∷ literal_text l
  literal_text (closing w) = b'"' ∷ code_text w
  literal_text unclosed = []
  literal_text cut = b'\\' ∷ []

  pub note_text : Note → Str
  note_text (noted c n) = c ∷ note_text n
  note_text (ending w) = b'\n' ∷ code_text w
  note_text unended = []

-- Code has no quote and no `#`, a literal neither quote nor backslash but behind a backslash, and a
-- comment no newline.
abbrev mutual
  pub IsCode : Code → Type 0
  IsCode done = Unit {0}
  IsCode (plain c w) = ((c == b'"') ≡ false) × ((c == b'#') ≡ false) × IsCode w
  IsCode (literal l) = IsLiteral l
  IsCode (note n) = IsNote n

  pub IsLiteral : Literal → Type 0
  IsLiteral (ordinary c l) = ((c == b'\\') ≡ false) × ((c == b'"') ≡ false) × IsLiteral l
  IsLiteral (escaped c l) = IsLiteral l
  IsLiteral (closing w) = IsCode w
  IsLiteral unclosed = Unit {0}
  IsLiteral cut = Unit {0}

  pub IsNote : Note → Type 0
  IsNote (noted c n) = ((c == b'\n') ≡ false) × IsNote n
  IsNote (ending w) = IsCode w
  IsNote unended = Unit {0}

-- The rule with each comment taken out, but for the newline behind it.
abbrev mutual
  pub bare : Code → Code
  bare done = done
  bare (plain c w) = plain c (bare w)
  bare (literal l) = literal (bare_literal l)
  bare (note n) = bare_note n

  pub bare_literal : Literal → Literal
  bare_literal (ordinary c l) = ordinary c (bare_literal l)
  bare_literal (escaped c l) = escaped c (bare_literal l)
  bare_literal (closing w) = closing (bare w)
  bare_literal unclosed = unclosed
  bare_literal cut = cut

  pub bare_note : Note → Code
  bare_note (noted c n) = bare_note n
  bare_note (ending w) = plain b'\n' (bare w)
  bare_note unended = done

mutual
  unfolding strip_from next_mode is_kept

  strip_code : (w : Code) → IsCode w → strip_from in_code (code_text w) ≡ code_text (bare w)
  strip_code done h = refl
  strip_code (plain c w) (q, n, h) = rw (q, n) (ap (◌∷◌ c) (strip_code w h))
  strip_code (literal l) h = ap (◌∷◌ b'"') (strip_literal l h)
  strip_code (note n) h = strip_note n h

  strip_literal :
      (l : Literal)
      → IsLiteral l
      → strip_from in_string (literal_text l) ≡ literal_text (bare_literal l)
  strip_literal (ordinary c l) (b, q, h) = rw (b, q) (ap (◌∷◌ c) (strip_literal l h))
  strip_literal (escaped c l) h = ap (λ s. b'\\' ∷ c ∷ s) (strip_literal l h)
  strip_literal (closing w) h = ap (◌∷◌ b'"') (strip_code w h)
  strip_literal unclosed h = refl
  strip_literal cut h = refl

  strip_note : (n : Note) → IsNote n → strip_from in_comment (note_text n) ≡ code_text (bare_note n)
  strip_note (noted c n) (l, h) = rw l (strip_note n h)
  strip_note (ending w) h = ap (◌∷◌ b'\n') (strip_code w h)
  strip_note unended h = refl

mutual
  bare-IsCode : (w : Code) → IsCode w → IsCode (bare w)
  bare-IsCode done h = tt
  bare-IsCode (plain c w) (q, n, h) = (q, n, bare-IsCode w h)
  bare-IsCode (literal l) h = bare_literal-IsLiteral l h
  bare-IsCode (note n) h = bare_note-IsCode n h

  bare_literal-IsLiteral : (l : Literal) → IsLiteral l → IsLiteral (bare_literal l)
  bare_literal-IsLiteral (ordinary c l) (b, q, h) = (b, q, bare_literal-IsLiteral l h)
  bare_literal-IsLiteral (escaped c l) h = bare_literal-IsLiteral l h
  bare_literal-IsLiteral (closing w) h = bare-IsCode w h
  bare_literal-IsLiteral unclosed h = tt
  bare_literal-IsLiteral cut h = tt

  bare_note-IsCode : (n : Note) → IsNote n → IsCode (bare_note n)
  bare_note-IsCode (noted c n) (l, h) = bare_note-IsCode n h
  bare_note-IsCode (ending w) h = (refl, refl, bare-IsCode w h)
  bare_note-IsCode unended h = tt

mutual
  bare-again : (w : Code) → bare (bare w) ≡ bare w
  bare-again done = refl
  bare-again (plain c w) = ap (plain c) (bare-again w)
  bare-again (literal l) = ap literal (bare_literal-again l)
  bare-again (note n) = bare_note-again n

  bare_literal-again : (l : Literal) → bare_literal (bare_literal l) ≡ bare_literal l
  bare_literal-again (ordinary c l) = ap (ordinary c) (bare_literal-again l)
  bare_literal-again (escaped c l) = ap (escaped c) (bare_literal-again l)
  bare_literal-again (closing w) = ap closing (bare-again w)
  bare_literal-again unclosed = refl
  bare_literal-again cut = refl

  bare_note-again : (n : Note) → bare (bare_note n) ≡ bare_note n
  bare_note-again (noted c n) = bare_note-again n
  bare_note-again (ending w) = ap (plain b'\n') (bare-again w)
  bare_note-again unended = refl

is_char : (c k : ℕ) → (c == k) ≡ true → c ≡ k
is_char c k h = (==_iff c k).0 h

-- Every text is one of the grammar.
mutual
  read_code : (s : Str) → (w : Code) × IsCode w × (code_text w ≡ s)
  read_code [] = (done, tt, refl)
  read_code (c ∷ s) = elim (Bool-cases (c == b'"')) [
    | inl quote_ ↦
        let (l, h, same) = read_literal s in
        (literal l, h, rw (is_char c b'"' quote_) (ap (◌∷◌ b'"') same))
    | inr other ↦ elim (Bool-cases (c == b'#')) [
      | inl hash ↦
          let (n, h, same) = read_note s in
          (note n, h, rw (is_char c b'#' hash) (ap (◌∷◌ b'#') same))
      | inr code ↦ let (w, h, same) = read_code s in (plain c w, (other, code, h), ap (◌∷◌ c) same)
    ]
  ]

  read_literal : (s : Str) → (l : Literal) × IsLiteral l × (literal_text l ≡ s)
  read_literal [] = (unclosed, tt, refl)
  read_literal (c ∷ s) = elim (Bool-cases (c == b'\\')) [
    | inl backslash ↦
        let (l, h, same) = read_escaped s in (l, h, rw (is_char c b'\\' backslash) same)
    | inr other ↦ elim (Bool-cases (c == b'"')) [
      | inl quote_ ↦
          let (w, h, same) = read_code s in
          (closing w, h, rw (is_char c b'"' quote_) (ap (◌∷◌ b'"') same))
      | inr letter ↦
          let (l, h, same) = read_literal s in (ordinary c l, (other, letter, h), ap (◌∷◌ c) same)
    ]
  ]

  read_escaped : (s : Str) → (l : Literal) × IsLiteral l × (literal_text l ≡ b'\\' ∷ s)
  read_escaped [] = (cut, tt, refl)
  read_escaped (c ∷ s) =
      let (l, h, same) = read_literal s in (escaped c l, h, ap (λ x. b'\\' ∷ c ∷ x) same)

  read_note : (s : Str) → (n : Note) × IsNote n × (note_text n ≡ s)
  read_note [] = (unended, tt, refl)
  read_note (c ∷ s) = elim (Bool-cases (c == b'\n')) [
    | inl newline ↦
        let (w, h, same) = read_code s in
        (ending w, h, rw (is_char c b'\n' newline) (ap (◌∷◌ b'\n') same))
    | inr other ↦ let (n, h, same) = read_note s in (noted c n, (other, h), ap (◌∷◌ c) same)
  ]
