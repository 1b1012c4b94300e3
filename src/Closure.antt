-- ===== src/Closure.antt =====
-- app/backend/src/bart/closure.ts: which parties a request needs. The awaited calls are functions
-- that may throw; the `for (;;)` loop takes fuel.
pub mod Rounds
pub mod Exact
pub mod Rule
pub mod Terminates
use bart_share.Prelude.{
  ℕ, zero, suc, ◌+◌, Bool, true, false, not, List, [], ◌∷◌, ◌++◌, if◌then◌else◌, Outcome, ok, throw,
  ◌>>=◌, traverse, keep, length,
}
use bart_share.Text.{Str, includes, sort}
use bart_share.Attrs.{BartAttrs}
use bart_share.Matcher.{matches}

pub record PartyPattern : Type 0 where
  pub attrs : BartAttrs

-- `ReadonlyMap<string, BartAttrs>`, in its order.
abbrev pub PartyIndex : Type 0
PartyIndex = List (Str × BartAttrs)

pub record Found : Type 0 where
  pub members : List Str
  pub discovered : List Str

-- The innermost loop's body: `if (members.has(id)) continue; if (!matches(...)) continue; ...`
unfoldable pub offer : PartyPattern → Str × BartAttrs → Found → Found
offer pattern_ (id, attrs) s =
    if includes id s.members
    then s
    else if not (matches pattern_.attrs attrs)
    then s
    else record { members = s.members ++ id ∷ []; discovered = s.discovered ++ id ∷ [] }

unfoldable pub scan_index : PartyPattern → PartyIndex → Found → Found
scan_index pattern_ [] s = s
scan_index pattern_ (entry ∷ index) s = scan_index pattern_ index (offer pattern_ entry s)

unfoldable pub scan_patterns : PartyIndex → List PartyPattern → Found → Found
scan_patterns index [] s = s
scan_patterns index (p ∷ ps) s = scan_patterns index ps (scan_index p index s)

unfoldable pub scan_results : PartyIndex → List (List PartyPattern) → Found → Found
scan_results index [] s = s
scan_results index (ps ∷ results) s = scan_results index results (scan_patterns index ps s)

-- `new Set(seed)`
unfoldable pub add_all : List Str → List Str → List Str
add_all s [] = s
add_all s (x ∷ xs) = add_all (if includes x s then s else s ++ x ∷ []) xs

-- Why a closure has no result: a call threw, or, in the model alone, the fuel ran out.
pub data Stop {ℓ} (E : Type ℓ) : Type ℓ where
  failed : E → Stop E
  out_of_fuel : Stop E

-- The members that are not analysed yet.
unfoldable pub frontier_of : List Str → Found → List Str
frontier_of analysed s = keep (λ id. not (includes id analysed)) s.members

-- An error of an awaited call leaves the loop.
unfoldable pub fail_with {ℓ} :
    {E : Type ℓ}
    → Outcome E Found
    → (Found → Outcome (Stop E) (List Str))
    → Outcome (Stop E) (List Str)
fail_with (ok s) k = k s
fail_with (throw e) k = throw (failed e)

module _ {E : Type 0} (analyze : List Str → List Str → Outcome E (List (List PartyPattern)))
    (policy_text_of : Str → Outcome E Str) (index : PartyIndex) where
  -- One round: the frontier's policies are analysed, and what their patterns match joins. The two
  -- callbacks may share state: `analyze` is also given the ids whose texts were asked for so far.
  unfoldable pub round : List Str → List Str → Found → Outcome E Found
  round analysed frontier s = traverse policy_text_of frontier >>= λ texts.
      analyze (analysed ++ frontier) texts >>= λ results. ok (scan_results index results s)

  -- What is left of the loop, for a frontier. The result is `discovered`.
  unfoldable pub loop : ℕ → List Str → Found → Outcome (Stop E) (List Str)
  unfolding fail_with
  loop zero analysed s = throw out_of_fuel
  loop (suc fuel) analysed s = elim (frontier_of analysed s) [
    | [] ↦ ok s.discovered
    | x ∷ r ↦ fail_with (round analysed (x ∷ r) s) (loop fuel (analysed ++ x ∷ r))
  ]

  unfoldable pub party_closure : List Str → Outcome (Stop E) (List Str)
  party_closure seed =
      loop (suc (length seed + length index)) []
        (record { members = add_all [] seed; discovered = [] })
      >>= λ discovered. ok (seed ++ sort discovered)
