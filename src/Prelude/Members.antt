-- ===== src/Prelude/Members.antt =====
-- Membership of a list as a type that computes, which the tactics take apart.
use mathlib.Core.Path.{◌≡◌, refl, ap, ◌∙◌, subst}
use mathlib.Core.Logic.{◌⊎◌, inl, inr, ◌↔◌}
use mathlib.Core.Bool.{Bool, true, false}
use mathlib.Core.List.{List, [], ◌∷◌, ◌++◌}
use Prim.Native.Nat.{◌≤◌}
use native.Mathlib.Omega.{arith}
use bart_share.Prelude.Throwing.{Outcome, ok, traverse}
use bart_share.Prelude.Tests.{Bool-cases}
use bart_share.Prelude.Lists.{keep, length}

module _ {A : Type 0} where
  abbrev pub In : A → List A → Type 0
  In a [] = ⊥
  In a (x ∷ xs) = (a ≡ x) ⊎ In a xs

  pub In-append : (a : A) (xs ys : List A) → In a (xs ++ ys) ↔ (In a xs ⊎ In a ys)
  In-append a [] ys = (inr, λ h. elim h [ inl f ↦ absurd f | inr m ↦ m ])
  In-append a (x ∷ xs) ys = ground (arith, In-append a xs ys)

  pub In-keep : (p : A → Bool) (a : A) (xs : List A) → In a xs → p a ≡ true → In a (keep p xs)
  In-keep p a [] h t = h
  In-keep p a (x ∷ xs) (inl e) t = ground (arith, ap p e)
  In-keep p a (x ∷ xs) (inr m) t = ground (arith, In-keep p a xs m t)

  pub In-of_keep : (p : A → Bool) (a : A) (xs : List A) → In a (keep p xs) → In a xs
  In-of_keep p a [] m = m
  In-of_keep p a (x ∷ xs) m = ground (arith, In-of_keep p a xs)

  pub keep-true : (p : A → Bool) (a : A) (xs : List A) → In a (keep p xs) → p a ≡ true
  keep-true p a [] m = absurd m
  keep-true p a (x ∷ xs) m = elim (Bool-cases (p x)) [
    | inr f ↦ keep-true p a xs (rw f at m)
    | inl t ↦ elim (rw t at m) [ inl e ↦ ap p e ∙ t | inr later ↦ keep-true p a xs later ]
  ]

  pub keep-nil : (p : A → Bool) (xs : List A) → ((a : A) → In a xs → p a ≡ false) → keep p xs ≡ []
  keep-nil p [] h = refl
  keep-nil p (x ∷ xs) h = rw (h x (inl refl)) (keep-nil p xs (λ a m. h a (inr m)))

  pub length-keep : (p : A → Bool) (xs : List A) → length (keep p xs) ≤ length xs
  length-keep p [] = omega arith
  length-keep p (x ∷ xs) = ground (arith, length-keep p xs)

  pub keep-append : (p : A → Bool) (xs ys : List A) → keep p (xs ++ ys) ≡ keep p xs ++ keep p ys
  keep-append p [] ys = refl
  keep-append p (x ∷ xs) ys = ground (arith, keep-append p xs ys)

  pub keep-eq-nil : (p : A → Bool) (a : A) (xs : List A) → keep p xs ≡ [] → In a xs → p a ≡ false
  keep-eq-nil p a [] h m = absurd m
  keep-eq-nil p a (x ∷ xs) h (inl e) = elim (Bool-cases (p x)) [
    | inl t ↦ absurd (ground arith)
    | inr f ↦ ap p e ∙ f
  ]
  keep-eq-nil p a (x ∷ xs) h (inr m) = keep-eq-nil p a xs (ground arith) m

-- Some element of the list has the property.
abbrev pub Exists : {A : Type 0} → (A → Type 0) → List A → Type 0
Exists {A} P xs = (x : A) × (In x xs × P x)

module _ {A : Type 0} (P : A → Type 0) where
  Exists-split : (x : A) (xs : List A) → Exists P (x ∷ xs) → P x ⊎ Exists P xs
  Exists-split x xs (a, (inl e, h)) = inl (subst P e h)
  Exists-split x xs (a, (inr m, h)) = inr (a, (m, h))

  Exists-join : (x : A) (xs : List A) → P x ⊎ Exists P xs → Exists P (x ∷ xs)
  Exists-join x xs (inl h) = (x, (inl refl, h))
  Exists-join x xs (inr (a, (m, h))) = (a, (inr m, h))

  pub Exists-cons : (x : A) (xs : List A) → Exists P (x ∷ xs) ↔ (P x ⊎ Exists P xs)
  Exists-cons x xs = (Exists-split x xs, Exists-join x xs)

-- A traversal returns if its function returns on every element.
pub traverse_total :
    {E A B : Type 0} (f : A → Outcome E B) (xs : List A)
    → ((x : A) → In x xs → (y : B) × (f x ≡ ok y))
    → (ys : List B) × (traverse f xs ≡ ok ys)
traverse_total f [] h = ([], refl)
traverse_total f (x ∷ xs) h =
    let (y, first) = h x (inl refl) in
    let (ys, rest) = traverse_total f xs (λ z m. h z (inr m)) in (y ∷ ys, rw (first, rest))
