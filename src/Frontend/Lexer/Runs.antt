-- ===== src/Frontend/Lexer/Runs.antt =====
-- About app/frontend/src/lib/bart/lex.ts: runs of characters that end where they should.
use bart_share.Prelude.{ℕ, Bool, true, false, [], ◌∷◌, ◌++◌, ◌≡◌, length, drop, all, arith, refl}
use bart_share.Text.{Str}
use bart_share.Frontend.Lexer.{span_length}

pub span_length-all :
    (p : ℕ → Bool) (run : Str) (c : ℕ) (rest : Str)
    → all p run ≡ true
    → p c ≡ false
    → span_length p (run ++ c ∷ rest) ≡ length run
unfolding span_length
span_length-all p [] c rest h k = ground arith
span_length-all p (d ∷ run) c rest h k = ground (arith, span_length-all p run c rest)

pub drop-length-append : (s t : Str) → drop (length s) (s ++ t) ≡ t
drop-length-append [] t = refl
drop-length-append (c ∷ s) t = drop-length-append s t
