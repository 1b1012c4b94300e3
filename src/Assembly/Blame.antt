-- ===== src/Assembly/Blame.antt =====
-- About callBlaming and textOwners of app/backend/src/bart/assembly.ts: who is blamed for a rejected
-- policy text.
use bart_share.Text.{Str, codes, show_nat, starts_with}
use bart_share.Text.Decimals.{digits_number-show_nat, show_nat-digits, show_nat-cons}
use bart_share.Attrs.{own}
use bart_share.Assembly.{TextOwners, text_at, digits_only, location_digits, user_for_location}
use bart_share.Emitter.{PolicyUser}
use bart_share.Assembly.{Rows}
use bart_share.Prelude.{Option, ◌≡◌, ℕ, suc, ◌++◌, List, some, none, get_elem?, arith}

-- The location that the evaluator gives for the policy at this place, counted from 1.
abbrev pub location_of : ℕ → Str
location_of i = codes "policy " ++ show_nat (suc i)

digits_only-show_nat : (n : ℕ) → digits_only (show_nat n) ≡ some (show_nat n)
unfolding digits_only
digits_only-show_nat n =
    let (c, s, e) = show_nat-cons n in rw e (ground (arith, rw e at (show_nat-digits n)))

location_digits-location_of : (i : ℕ) → location_digits (location_of i) ≡ some (show_nat (suc i))
unfolding location_digits starts_with
location_digits-location_of i = digits_only-show_nat (suc i)

-- What `findByPk` gives has the key that it was asked for.
abbrev pub IsByKey : Rows → Type 0
IsByKey db = (id : Str) (row : PolicyUser) → db.by_pk id ≡ some row → row.id ≡ id

-- The evaluator's "policy n" is resolved to the owner of the n-th text of the batch, for every place
-- in a batch of any length; past its end, or where the text has no owner, it resolves to nobody.
pub user_for_location_lem :
    (i : ℕ) (texts : List Str) (owners : TextOwners)
    → user_for_location (some (location_of i)) texts owners
      ≡ (elim (get_elem? texts i) [ none ↦ none | some text ↦ own text owners ])
unfolding user_for_location text_at
user_for_location_lem i texts owners =
    rw (location_digits-location_of i, user_for_location)
      (rw (digits_number-show_nat (suc i), text_at))
