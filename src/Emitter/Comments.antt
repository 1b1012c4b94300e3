-- ===== src/Emitter/Comments.antt =====
-- app/backend/src/bart/emitter.ts: `stripComments`, one character at a time. The places of the
-- source's loop where `i` moves on inside a round are modes here.
use bart_share.Prelude.{ℕ, Bool, true, not, [], ◌∷◌, ◌==◌, if◌then◌else◌}
use bart_share.Text.{Str}

pub data ScanMode : Type 0 where
  in_code in_string in_escape in_comment : ScanMode

unfoldable pub next_mode : ScanMode → ℕ → ScanMode
next_mode in_code c = if c == b'"' then in_string else if c == b'#' then in_comment else in_code
next_mode in_string c = if c == b'\\' then in_escape else if c == b'"' then in_code else in_string
next_mode in_escape c = in_string
next_mode in_comment c = if c == b'\n' then in_code else in_comment

-- Whether the character goes to `out`.
unfoldable pub is_kept : ScanMode → ℕ → Bool
is_kept in_code c = not (c == b'#')
is_kept in_comment c = c == b'\n'
is_kept _ c = true

unfoldable pub strip_from : ScanMode → Str → Str
unfolding next_mode is_kept
strip_from m [] = []
strip_from m (c ∷ s) =
    let rest = strip_from (next_mode m c) s in if is_kept m c then c ∷ rest else rest

unfoldable pub strip_comments : Str → Str
unfolding strip_from
strip_comments rule = strip_from in_code rule
