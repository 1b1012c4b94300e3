-- ===== src/Emitter/Stripping.antt =====
-- About stripComments of app/backend/src/bart/emitter.ts, on one rule and on rules joined.
use bart_share.Prelude.{[], ◌∷◌, ◌++◌, ◌≡◌, refl, inl, inr, arith, Bool-cases, ap, ◌∙◌}
use bart_share.Text.{Str}
use bart_share.Emitter.Comments.{
  ScanMode, in_code, in_string, in_escape, in_comment, next_mode, is_kept, strip_from,
  strip_comments,
}

-- The mode that the scan is in behind a text.
abbrev pub mode_after : ScanMode → Str → ScanMode
mode_after m [] = m
mode_after m (c ∷ s) = mode_after (next_mode m c) s

-- A comment reads as code that has not begun.
abbrev shown : ScanMode → ScanMode
shown in_comment = in_code
shown m = m

strip_from-append :
    (s t : Str) (m : ScanMode)
    → strip_from m (s ++ t) ≡ strip_from m s ++ strip_from (mode_after m s) t
unfolding strip_from
strip_from-append [] t m = refl
strip_from-append (c ∷ s) t m = elim (Bool-cases (is_kept m c)) [
  | inl k ↦ rw k (ap (◌∷◌ c) (strip_from-append s t (next_mode m c)))
  | inr k ↦ rw k (strip_from-append s t (next_mode m c))
]

mode_after-strip_from :
    (s : Str) (m : ScanMode) → mode_after (shown m) (strip_from m s) ≡ shown (mode_after m s)
unfolding strip_from next_mode is_kept
mode_after-strip_from [] m = refl
mode_after-strip_from (c ∷ s) in_code =
    ground (arith, mode_after-strip_from s (next_mode in_code c))
mode_after-strip_from (c ∷ s) in_string =
    ground (arith, mode_after-strip_from s (next_mode in_string c))
mode_after-strip_from (c ∷ s) in_escape = mode_after-strip_from s in_string
mode_after-strip_from (c ∷ s) in_comment =
    ground (arith, mode_after-strip_from s (next_mode in_comment c))

-- A rule whose string literals are all closed: its end is in code, or in a last comment.
abbrev pub IsClosed : Str → Type 0
IsClosed rule = shown (mode_after in_code rule) ≡ in_code

after_newline :
    (m : ScanMode) (s : Str)
    → shown m ≡ in_code
    → strip_from m (b'\n' ∷ s) ≡ b'\n' ∷ strip_from in_code s
unfolding strip_from next_mode is_kept
after_newline in_code s h = refl
after_newline in_comment s h = refl
after_newline in_string s h = cc
after_newline in_escape s h = cc

-- A rule with its string literals closed cannot swallow the rule that is joined behind it by a
-- newline: stripping the two together is stripping each one, and behind the stripped first rule a
-- scan is in code again, a last comment included.
pub strip_comments-join :
    (rule next : Str)
    → IsClosed rule
    → (strip_comments (rule ++ b'\n' ∷ next) ≡ strip_comments rule ++ b'\n' ∷ strip_comments next)
      × (mode_after in_code (strip_comments rule) ≡ in_code)
unfolding strip_comments
strip_comments-join rule next h = (
  strip_from-append rule (b'\n' ∷ next) in_code
      ∙ ap (◌++◌ (strip_from in_code rule)) (after_newline (mode_after in_code rule) next h),
  mode_after-strip_from rule in_code ∙ h,
)
