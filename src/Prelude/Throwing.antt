-- ===== src/Prelude/Throwing.antt =====
-- The result of code that may throw: a value, or the error thrown.
use mathlib.Core.Path.{◌≡◌, refl, sym, ap, ◌∙◌}
use mathlib.Core.Option.{some, some-injective}
use Prim.Native.Nat.{ℕ, zero, suc}
use bart_share.Prelude.Lists.{length, get_elem?}
use mathlib.Core.Logic.{◌⊎◌, inl, inr}
use mathlib.Core.List.{List, [], ◌∷◌}

pub data Outcome {ℓ κ} (E : Type ℓ) (A : Type κ) : Type (ℓ ⊔ κ) where
  ok : A → Outcome E A
  throw : E → Outcome E A

infixl 5 ◌>>=◌
abbrev pub ◌>>=◌ {ℓ κ μ} :
    {E : Type ℓ} {A : Type κ} {B : Type μ} → Outcome E A → (A → Outcome E B) → Outcome E B
ok a >>= f = f a
throw e >>= f = throw e

-- `map` with a callback that may throw: the first error stops it.
abbrev pub traverse {ℓ κ μ} :
    {E : Type ℓ} {A : Type κ} {B : Type μ} → (A → Outcome E B) → List A → Outcome E (List B)
traverse f [] = ok []
traverse f (x ∷ xs) = f x >>= λ y. traverse f xs >>= λ ys. ok (y ∷ ys)

pub Outcome-cases {ℓ κ} :
    {E : Type ℓ} {A : Type κ} (m : Outcome E A) → ((a : A) × (m ≡ ok a)) ⊎ ((e : E) × (m ≡ throw e))
Outcome-cases (ok a) = inl (a, refl)
Outcome-cases (throw e) = inr (e, refl)

pub throw-ne-ok {ℓ κ} :
    {E : Type ℓ} {A : Type κ} (e : E) (a : A) → ◌≡◌ {A = Outcome E A} (throw e) (ok a) → ⊥
throw-ne-ok e a h = cc

pub ok_injective {ℓ κ} :
    {E : Type ℓ} {A : Type κ} (a b : A) → ◌≡◌ {A = Outcome E A} (ok a) (ok b) → a ≡ b
ok_injective a b h = cc

-- Code that returns returned at its first step, and then in the rest.
pub >>=-eq-ok {ℓ κ μ} :
    {Err : Type ℓ} {Mid : Type κ} {Out : Type μ} (first : Outcome Err Mid)
    (rest : Mid → Outcome Err Out) {out : Out} (returns : (first >>= rest) ≡ ok out)
    → (mid : Mid) × (first ≡ ok mid) × (rest mid ≡ ok out)
>>=-eq-ok (ok mid) rest returns = (mid, refl, returns)
>>=-eq-ok (throw why) rest returns = absurd (throw-ne-ok why _ returns)

-- A traversal that returns ran its function on the head, and then on the rest.
pub traverse-cons {ℓ κ μ} :
    {E : Type ℓ} {A : Type κ} {B : Type μ} (f : A → Outcome E B) (x : A) (xs : List A) (ys : List B)
    → traverse f (x ∷ xs) ≡ ok ys
    → (y : B) × (r : List B) × (f x ≡ ok y) × (traverse f xs ≡ ok r) × (ys ≡ y ∷ r)
traverse-cons f x xs ys h =
    let (y, first, later) = >>=-eq-ok (f x) _ h in
    let (r, rest, same) = >>=-eq-ok (traverse f xs) _ later in
    (y, r, first, rest, sym (ok_injective (y ∷ r) ys same))

-- It gives each element its own result, at its place.
pub traverse-get_elem? {ℓ κ μ} :
    {E : Type ℓ} {A : Type κ} {B : Type μ} (f : A → Outcome E B) (xs : List A) (ys : List B) (i : ℕ)
    (x : A)
    → traverse f xs ≡ ok ys
    → get_elem? xs i ≡ some x
    → (y : B) × (get_elem? ys i ≡ some y) × (f x ≡ ok y)
traverse-get_elem? f [] ys i x h there = cc
traverse-get_elem? f (a ∷ xs) ys zero x h there =
    let (y, r, first, rest, same) = traverse-cons f a xs ys h in
    (y, ap (λ zs. get_elem? zs 0) same, ap f (sym (some-injective a x there)) ∙ first)
traverse-get_elem? f (a ∷ xs) ys (suc i) x h there =
    let (y, r, first, rest, same) = traverse-cons f a xs ys h in
    let (z, place, value) = traverse-get_elem? f xs r i x rest there in
    (z, ap (λ zs. get_elem? zs (suc i)) same ∙ place, value)

pub length-traverse {ℓ κ μ} :
    {E : Type ℓ} {A : Type κ} {B : Type μ} (f : A → Outcome E B) (xs : List A) (ys : List B)
    → traverse f xs ≡ ok ys
    → length ys ≡ length xs
length-traverse f [] ys h = ap length (sym (ok_injective [] ys h))
length-traverse f (x ∷ xs) ys h =
    let (y, r, first, rest, same) = traverse-cons f x xs ys h in
    ap length same ∙ ap suc (length-traverse f xs r rest)

pub throw_injective {ℓ κ} :
    {E : Type ℓ} {A : Type κ} (d e : E) → ◌≡◌ {A = Outcome E A} (throw d) (throw e) → d ≡ e
throw_injective d e h = cc
