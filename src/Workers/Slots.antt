-- ===== src/Workers/Slots.antt =====
-- Lists with one place set.
use mathlib.Core.Option.{some-injective}
use bart_share.Prelude.{
  ◌≤◌, none, refl, ◌≢◌, ◌<◌, ◌≡◌, List, Bool, ℕ, some, length, get_elem?, replicate, all, [], ◌∷◌,
  arith, ap, zero, suc, sym, true,
}
use bart_share.Workers.{set_at}

module _ {A : Type 0} where
  pub length-set_at : (i : ℕ) (a : A) (xs : List A) → length (set_at i a xs) ≡ length xs
  length-set_at i a [] = refl
  length-set_at zero a (x ∷ xs) = refl
  length-set_at (suc i) a (x ∷ xs) = ap suc (length-set_at i a xs)

  pub set_here :
      (i : ℕ) (a : A) (xs : List A) → i < length xs → get_elem? (set_at i a xs) i ≡ some a
  set_here i a [] h = absurd (omega arith)
  set_here zero a (x ∷ xs) h = refl
  set_here (suc i) a (x ∷ xs) h = set_here i a xs (omega arith)

  pub set_there :
      (i j : ℕ) (a : A) (xs : List A) → j ≢ i → get_elem? (set_at i a xs) j ≡ get_elem? xs j
  set_there i j a [] h = refl
  set_there zero zero a (x ∷ xs) h = absurd (h refl)
  set_there zero (suc j) a (x ∷ xs) h = refl
  set_there (suc i) zero a (x ∷ xs) h = refl
  set_there (suc i) (suc j) a (x ∷ xs) h = set_there i j a xs (λ e. h (ap suc e))

  pub get_elem?-lt : (i : ℕ) (x : A) (xs : List A) → get_elem? xs i ≡ some x → i < length xs
  get_elem?-lt i x [] h = cc
  get_elem?-lt zero x (y ∷ xs) h = omega arith
  get_elem?-lt (suc i) x (y ∷ xs) h = omega (arith, get_elem?-lt i x xs h)

  pub all-get_elem? :
      (p : A → Bool) (xs : List A) (i : ℕ) (x : A)
      → all p xs ≡ true
      → get_elem? xs i ≡ some x
      → p x ≡ true
  all-get_elem? p [] i x h k = cc
  all-get_elem? p (y ∷ xs) zero x h k = let e = some-injective y x k in ground arith
  all-get_elem? p (y ∷ xs) (suc i) x h k = all-get_elem? p xs i x (ground arith) k

  pub get_first : (xs : List A) → 0 < length xs → (x : A) × (get_elem? xs 0 ≡ some x)
  get_first [] h = absurd (omega arith)
  get_first (x ∷ xs) h = (x, refl)

  pub length-replicate : (n : ℕ) (a : A) → length (replicate n a) ≡ n
  length-replicate zero a = refl
  length-replicate (suc n) a = ap suc (length-replicate n a)

  pub get_elem?-replicate : (n i : ℕ) (a x : A) → get_elem? (replicate n a) i ≡ some x → x ≡ a
  get_elem?-replicate zero i a x h = cc
  get_elem?-replicate (suc n) zero a x h = sym (some-injective a x h)
  get_elem?-replicate (suc n) (suc i) a x h = get_elem?-replicate n i a x h

  pub get_elem?-none : (i : ℕ) (xs : List A) → get_elem? xs i ≡ none → length xs ≤ i
  get_elem?-none i [] h = omega arith
  get_elem?-none zero (x ∷ xs) h = cc
  get_elem?-none (suc i) (x ∷ xs) h = omega (arith, get_elem?-none i xs h)
