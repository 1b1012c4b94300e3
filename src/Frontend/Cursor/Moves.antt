-- ===== src/Frontend/Cursor/Moves.antt =====
-- About the cursor of app/frontend/src/lib/bart/parse.ts: how far a function moves it.
use bart_share.Prelude.{
  ◌++◌, refl, ◌||◌, arith, ◌<◌, if◌then◌else◌, ◌>>=◌, ◌≡◌, Bool, Outcome, ℕ, List, [], ◌∷◌, length,
  true, false, ok, throw,
}
use bart_share.Text.{Str, codes}
use bart_share.Frontend.Lexer.{TokenKind, string, number, bool, name, punct, eof, Token}
use bart_share.Frontend.Cursor.{
  Problem, syntax_problem, unrepresentable, out_of_fuel, Cursor, is_eof, is_name_kind,
  is_punct_kind, move, next, is_token, fail, expect,
}
use bart_share.Frontend.Parser.{not_representable_reason}

-- The list of tokens, never empty, has an `eof` at its end.
abbrev pub Ends : Token → List Token → Type 0
Ends t [] = is_eof t.kind ≡ true
Ends t (u ∷ ts) = Ends u ts

abbrev pub IsGood : Cursor → Type 0
IsGood c = Ends c.current c.later

abbrev pub left : Cursor → ℕ
left c = length c.later

-- A value is returned with the property, or the rule is refused, as unrepresentable for the one
-- reason; the fuel does not run out.
abbrev pub Ensures : {A : Type 0} → (A → Type 0) → Outcome Problem A → Type 0
Ensures P (ok a) = P a
Ensures P (throw (syntax_problem detail at_)) = Unit {0}
Ensures P (throw (unrepresentable reason)) = reason ≡ not_representable_reason
Ensures P (throw out_of_fuel) = ⊥

pub Ensures->>= :
    {A B : Type 0} (P : A → Type 0) (Q : B → Type 0) (m : Outcome Problem A)
    (f : A → Outcome Problem B)
    → Ensures P m
    → ((a : A) → P a → Ensures Q (f a))
    → Ensures Q (m >>= f)
Ensures->>= P Q (ok a) f h k = k a h
Ensures->>= P Q (throw (syntax_problem detail at_)) f h k = tt
Ensures->>= P Q (throw (unrepresentable reason)) f h k = h
Ensures->>= P Q (throw out_of_fuel) f h k = h

pub Ensures-mono :
    {A : Type 0} (P Q : A → Type 0) (m : Outcome Problem A)
    → Ensures P m
    → ((a : A) → P a → Q a)
    → Ensures Q m
Ensures-mono P Q (ok a) h k = k a h
Ensures-mono P Q (throw (syntax_problem detail at_)) h k = tt
Ensures-mono P Q (throw (unrepresentable reason)) h k = h
Ensures-mono P Q (throw out_of_fuel) h k = h

pub Ensures-if :
    {A : Type 0} (P : A → Type 0) (b : Bool) (m n : Outcome Problem A)
    → (b ≡ true → Ensures P m)
    → (b ≡ false → Ensures P n)
    → Ensures P (if b then m else n)
Ensures-if P true m n h k = h refl
Ensures-if P false m n h k = k refl

pub Ensures-fail :
    {A : Type 0} (P : A → Type 0) (detail : Str) (c : Cursor) → Ensures P (fail detail c)
unfolding fail
Ensures-fail P detail c = tt

-- The cursor is good, and closer to the end than `n` tokens.
abbrev pub Within : ℕ → Cursor → Type 0
Within n c = IsGood c × (left c < n)

abbrev pub Reads : {A : Type 0} → (A → Type 0) → ℕ → A × Cursor → Type 0
Reads P n (a, c) = P a × Within n c

move-Within :
    (t : Token) (ts : List Token)
    → Ends t ts
    → is_eof t.kind ≡ false
    → Within (length ts) (move t ts)
unfolding move
move-Within t [] e h = absurd cc
move-Within t (u ∷ ts) e h = (e, omega arith)

pub next-Within : (c : Cursor) → IsGood c → is_eof c.current.kind ≡ false → Within (left c) (next c)
unfolding next
next-Within c g h = rw (h, next) (move-Within c.current c.later g h)

pub is_token-open : (text : Str) (t : Token) → is_token text t ≡ true → is_eof t.kind ≡ false
unfolding is_token is_eof is_punct_kind is_name_kind
is_token-open text t h = kind_open t.kind (ground arith)
  where
    kind_open : (k : TokenKind) → (is_punct_kind k || is_name_kind k) ≡ true → is_eof k ≡ false
    kind_open punct h = refl
    kind_open name h = refl
    kind_open string h = refl
    kind_open number h = refl
    kind_open bool h = refl
    kind_open eof h = cc

-- The cursor behind a token that is there.
pub behind-Within :
    (text : Str) (c : Cursor) → IsGood c → is_token text c.current ≡ true → Within (left c) (next c)
behind-Within text c g h = next-Within c g (is_token-open text c.current h)

pub expect-Within : (text : Str) (c : Cursor) → IsGood c → Ensures (Within (left c)) (expect text c)
unfolding expect
expect-Within text c g =
    Ensures-if (Within (left c)) (is_token text c.current) (ok (next c)) _ (behind-Within text c g)
      (λ h. Ensures-fail (Within (left c)) (codes "expected '" ++ (text ++ codes "'")) c)
