-- ===== src/Text/Members.antt =====
-- `includes` and `sort` beside membership.
use bart_share.Text.{Str, str_eq_iff, includes, insert_sorted, sort}
use bart_share.Prelude.{arith, false, true, ◌↔◌, ◌≡◌, List, In, [], ◌∷◌}

pub includes_iff : (a : Str) (xs : List Str) → (includes a xs ≡ true) ↔ In a xs
unfolding includes
includes_iff a [] = (λ h. cc, λ h. absurd h)
includes_iff a (x ∷ xs) = ground (arith, includes_iff a xs, str_eq_iff a x)

pub not-includes : (a : Str) (xs : List Str) → includes a xs ≡ false → ¬ In a xs
not-includes a xs h m = let t = (includes_iff a xs).1 m in ground arith

In-insert_sorted : (a x : Str) (xs : List Str) → In a (insert_sorted x xs) ↔ In a (x ∷ xs)
unfolding insert_sorted
In-insert_sorted a x [] = (λ h. h, λ h. h)
In-insert_sorted a x (y ∷ ys) = ground (arith, In-insert_sorted a x ys)

pub In-sort : (a : Str) (xs : List Str) → In a (sort xs) ↔ In a xs
unfolding sort
In-sort a [] = (λ h. h, λ h. h)
In-sort a (x ∷ xs) = ground (arith, In-sort a xs, In-insert_sorted a x (sort xs))
