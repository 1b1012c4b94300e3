-- ===== src/Text/Order.antt =====
-- The order of strings by code units, and what `sort` makes of it.
use mathlib.Core.Logic.{∥∥₁_elim}
use mathlib.Core.List.{Permᴰ, Perm}
use mathlib.Core.List.Perm
use bart_share.Prelude.{
  suc, ◌∙◌, length, ◌↔◌, ◌≡◌, refl, inl, inr, true, false, List, [], ◌∷◌, arith, Bool-cases,
}
use bart_share.Text.{Str, str_le, insert_sorted, sort}

pub str_le_refl : (a : Str) → str_le a a ≡ true
unfolding str_le
str_le_refl [] = refl
str_le_refl (x ∷ a) = ground (arith, str_le_refl a)

pub str_le_total : (a b : Str) → str_le a b ≡ false → str_le b a ≡ true
unfolding str_le
str_le_total [] b h = cc
str_le_total (x ∷ a) [] h = refl
str_le_total (x ∷ a) (y ∷ b) h = ground (arith, str_le_total a b)

pub str_le_antisymm : (a b : Str) → str_le a b ≡ true → str_le b a ≡ true → a ≡ b
unfolding str_le
str_le_antisymm [] [] h k = refl
str_le_antisymm [] (y ∷ b) h k = cc
str_le_antisymm (x ∷ a) [] h k = cc
str_le_antisymm (x ∷ a) (y ∷ b) h k = ground (arith, str_le_antisymm a b)

pub str_le_trans : (a b c : Str) → str_le a b ≡ true → str_le b c ≡ true → str_le a c ≡ true
unfolding str_le
str_le_trans [] b c h k = refl
str_le_trans (x ∷ a) [] c h k = cc
str_le_trans (x ∷ a) (y ∷ b) [] h k = cc
str_le_trans (x ∷ a) (y ∷ b) (z ∷ c) h k = ground (arith, str_le_trans a b c)

-- Two insertions commute.
insert_sorted_comm :
    (a b : Str) (xs : List Str)
    → insert_sorted a (insert_sorted b xs) ≡ insert_sorted b (insert_sorted a xs)
unfolding insert_sorted
insert_sorted_comm a b [] = ground (arith, str_le_total a b, str_le_antisymm a b)
insert_sorted_comm a b (x ∷ xs) = ground (
  arith,
  insert_sorted_comm a b xs,
  str_le_total a b,
  str_le_total a x,
  str_le_total b x,
  str_le_antisymm a b,
  str_le_trans a b x,
  str_le_trans b a x,
)

insert_sorted-perm : (a : Str) (xs : List Str) → Perm (a ∷ xs) (insert_sorted a xs)
unfolding insert_sorted
insert_sorted-perm a [] = Perm.refl (a ∷ [])
insert_sorted-perm a (x ∷ xs) = elim (Bool-cases (str_le a x)) [
  | inl h ↦ rw h (Perm.refl (a ∷ x ∷ xs))
  | inr h ↦ rw h (Perm.trans (Perm.swap x a xs) (Perm.cons x (insert_sorted-perm a xs)))
]

pub sort-perm : (xs : List Str) → Perm xs (sort xs)
unfolding sort
sort-perm [] = Perm.refl []
sort-perm (x ∷ xs) = Perm.trans (Perm.cons x (sort-perm xs)) (insert_sorted-perm x (sort xs))

List_Str-set : IsSet (List Str)
List_Str-set = hlevel

sort_of_permᴰ : {xs ys : List Str} → Permᴰ xs ys → sort xs ≡ sort ys
unfolding sort
sort_of_permᴰ Permᴰ.nil = refl
sort_of_permᴰ (Permᴰ.cons {l₁ = xs} {l₂ = ys} e p) = cc (e, sort_of_permᴰ p)
sort_of_permᴰ (Permᴰ.swap {a} {b} {l = l} e f) = cc (e, f, insert_sorted_comm a b (sort l))
sort_of_permᴰ (Permᴰ.trans p q) = sort_of_permᴰ p ∙ sort_of_permᴰ q

-- Two lists sort to one list exactly when they are permutations of one another.
pub sort_eq_iff : (xs ys : List Str) → (sort xs ≡ sort ys) ↔ Perm xs ys
sort_eq_iff xs ys = (
  λ e. Perm.trans (sort-perm xs) (rw e (Perm.symm (sort-perm ys))),
  λ p. ∥∥₁_elim p (List_Str-set (sort xs) (sort ys)) sort_of_permᴰ,
)

insert_sorted-length : (a : Str) (xs : List Str) → length (insert_sorted a xs) ≡ suc (length xs)
unfolding insert_sorted
insert_sorted-length a [] = refl
insert_sorted-length a (x ∷ xs) = ground (arith, insert_sorted-length a xs)

pub length-sort : (xs : List Str) → length (sort xs) ≡ length xs
unfolding sort
length-sort [] = refl
length-sort (x ∷ xs) = omega (arith, insert_sorted-length x (sort xs), length-sort xs)

-- Ascending, with equal neighbours allowed.
abbrev pub IsSorted : List Str → Type 0
IsSorted [] = Unit {0}
IsSorted (x ∷ []) = Unit {0}
IsSorted (x ∷ y ∷ r) = (str_le x y ≡ true) × IsSorted (y ∷ r)

insert_sorted-IsSorted : (a : Str) (xs : List Str) → IsSorted xs → IsSorted (insert_sorted a xs)
unfolding insert_sorted
insert_sorted-IsSorted a [] s = tt
insert_sorted-IsSorted a (x ∷ []) s = ground (arith, str_le_total a x)
insert_sorted-IsSorted a (x ∷ y ∷ r) (xy, s) =
    ground (arith, str_le_total a x, str_le_total a y, insert_sorted-IsSorted a (y ∷ r) s)

pub sort-IsSorted : (xs : List Str) → IsSorted (sort xs)
unfolding sort
sort-IsSorted [] = tt
sort-IsSorted (x ∷ xs) = insert_sorted-IsSorted x (sort xs) (sort-IsSorted xs)
