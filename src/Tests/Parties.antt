-- ===== src/Tests/Parties.antt =====
-- The closure, the assembly and the decisions, at four users: alice's policy names carol, and
-- carol's names bob.
use Prim.Native.String.{String}
use bart_share.Text.{Str, codes, str_eq, includes, sort, insert_sorted, str_le}
use bart_share.Text.Order.{IsSorted}
use bart_share.Attrs.{BartScalar, scalar, BartAttrs, own}
use bart_share.Matcher.{matches, has_equal, values_equal, scalar_eq}
use bart_share.Closure.{
  PartyPattern, PartyIndex, out_of_fuel, party_closure, loop, round, frontier_of, add_all,
  scan_results, scan_patterns, scan_index, offer,
}
use bart_share.Closure.Rule.{Reach, NamesBy, party_closure_exact}
use bart_share.Closure.Terminates.{party_closure_terminates}
use bart_share.Prelude.{
  sym, In, List, [], ◌∷◌, ◌++◌, map, Outcome, ok, throw, refl, ok_injective, if◌then◌else◌, ◌≡◌,
  ◌≢◌, ◌↔◌,
}

abbrev user_is : String → BartAttrs
user_is id = (codes "userId", scalar (BartScalar.text (codes id))) ∷ []

abbrev naming : String → List PartyPattern
naming id = record { attrs = user_is id } ∷ []

abbrev index : PartyIndex
index =
    (codes "alice", user_is "alice")
    ∷ (codes "carol", user_is "carol")
    ∷ (codes "bob", user_is "bob")
    ∷ (codes "dave", user_is "dave")
    ∷ []

-- The text of a policy is the id of its owner here.
abbrev text_of : Str → Outcome Str Str
text_of id = ok id

abbrev patterns_in : Str → List PartyPattern
patterns_in text =
    if str_eq text (codes "alice")
    then naming "carol"
    else if str_eq text (codes "carol")
    then naming "bob"
    else []

abbrev analyze : List Str → List Str → Outcome Str (List (List PartyPattern))
analyze asked texts = ok (map patterns_in texts)

abbrev all_three : List Str
all_three = codes "alice" ∷ codes "bob" ∷ codes "carol" ∷ []

closure_run : party_closure analyze text_of index (codes "alice" ∷ []) ≡ ok all_three
unfolding party_closure loop round frontier_of add_all scan_results scan_patterns scan_index offer
    includes matches has_equal own values_equal scalar_eq str_eq sort insert_sorted str_le
closure_run = refl

each_alone :
    (asked texts : List Str) (results : List (List PartyPattern))
    → analyze asked texts ≡ ok results
    → results ≡ map patterns_in texts
each_alone asked texts results h = sym (ok_injective (map patterns_in texts) results h)

party_closure_exact_example :
    (found : List Str) × (all_three ≡ (codes "alice" ∷ []) ++ sort found)
    × IsSorted (sort found)
    × ((id : Str)
        → In id all_three ↔ Reach (NamesBy text_of patterns_in index) (codes "alice" ∷ []) id)
party_closure_exact_example =
    party_closure_exact analyze text_of index patterns_in each_alone (codes "alice" ∷ []) all_three
      closure_run

party_closure_terminates_example :
    party_closure analyze text_of index (codes "alice" ∷ []) ≢ throw out_of_fuel
party_closure_terminates_example =
    party_closure_terminates analyze text_of index (codes "alice" ∷ [])
