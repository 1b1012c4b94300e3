-- ===== src/Tests/Pool.antt =====
-- Two workers on three items.
use bart_share.Prelude.{
  ◌⊎◌, ◌+◌, Bool, ◌*◌, Option, Outcome, ◌≤◌, ◌≡◌, ℕ, List, none, some, length, get_elem?, [], ◌∷◌,
  ok, throw, refl,
}
use bart_share.Workers.{
  ready, start, run, turn, act, pull, settle, settled, worker_count, is_finished,
}
use bart_share.Workers.Results.{run_settles}
use bart_share.Workers.Ends.{AreMoves, CanMove, run_ends}

abbrev numbers : List ℕ
numbers = 5 ∷ 6 ∷ 7 ∷ []

abbrev double : ℕ → Outcome Bool ℕ
double n = ok (n + n)

-- The second worker is ahead of the first.
abbrev moves : List ℕ
moves = 0 ∷ 1 ∷ 1 ∷ 1 ∷ 1 ∷ 0 ∷ 0 ∷ 1 ∷ []

abbrev doubled : List (Option ℕ)
doubled = some 10 ∷ some 12 ∷ some 14 ∷ []

pool_run :
    settled numbers double (run numbers double moves (start numbers double 2)) ≡ some (ok doubled)
unfolding start run turn act pull settle settled worker_count is_finished
pool_run = refl

run_settles_example :
    ((slots : List (Option ℕ)) × (◌≡◌ {A = Outcome Bool (List (Option ℕ))} (ok doubled) (ok slots))
      × (length slots ≡ length numbers)
      × ((i : ℕ) (x : ℕ)
          → get_elem? numbers i ≡ some x
          → (y : ℕ) × (double x ≡ ok y) × (get_elem? slots i ≡ some (some y))))
    ⊎ ((e : Bool) × (◌≡◌ {A = Outcome Bool (List (Option ℕ))} (ok doubled) (throw e))
        × (i : ℕ) × (x : ℕ) × (get_elem? numbers i ≡ some x)
        × (double x ≡ throw e))
run_settles_example = run_settles numbers double 2 moves (ok doubled) pool_run

abbrev first_two : List ℕ
first_two = 0 ∷ 1 ∷ []

two_moves : AreMoves numbers double first_two (start numbers double 2)
unfolding start turn act pull worker_count is_finished
two_moves = ((ready, refl, refl), ((ready, refl, refl), tt))

run_ends_example :
    (length first_two ≤ 2 * length numbers + worker_count 2 (length numbers))
    × (settled numbers double (run numbers double first_two (start numbers double 2)) ≡ none
        → (w : ℕ) × CanMove numbers double
            (run numbers double first_two (start numbers double 2))
            w)
run_ends_example = run_ends numbers double 2 first_two two_moves
