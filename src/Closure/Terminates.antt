-- ===== src/Closure/Terminates.antt =====
-- About app/backend/src/bart/closure.ts: the loop's rounds against its fuel.
use mathlib.Core.Path.{subst}
use bart_share.Text.{Str, includes}
use bart_share.Text.Members.{includes_iff}
use bart_share.Closure.{
  party_closure, PartyPattern, PartyIndex, Found, out_of_fuel, add_all, round, frontier_of, loop,
}
use bart_share.Closure.Rounds.{missing-le, missing, Grows, scan_results-Grows, includes-append}
use bart_share.Prelude.{
  ◌∙◌, zero, ap, arith, >>=-eq-ok, suc, ◌<◌, ◌≢◌, ◌<◌, arith, >>=-eq-ok, not, ◌+◌, ℕ, ◌≡◌, ◌++◌,
  ◌≤◌, List, In, [], ◌∷◌, inl, inr, true, length, length-append, Bool-cases, keep, keep-nil,
  In-keep, length-keep, keep-append, List-cases, Outcome, ok, throw, Outcome-cases, traverse,
}

length-add_all : (s xs : List Str) → length (add_all s xs) ≤ length s + length xs
unfolding add_all
length-add_all s [] = omega arith
length-add_all s (x ∷ xs) = elim (Bool-cases (includes x s)) [
  | inl old ↦ rw old (omega (arith, length-add_all s xs))
  | inr new ↦ rw new (omega (arith, length-add_all (s ++ x ∷ []) xs, length-append s (x ∷ [])))
]

-- Behind a round every member that was there is analysed.
pub covered :
    (analysed : List Str) (s : Found) (a : Str)
    → In a s.members
    → includes a (analysed ++ frontier_of analysed s) ≡ true
unfolding frontier_of
covered analysed s a m = elim (Bool-cases (includes a analysed)) [
  | inl old ↦ rw (includes-append a analysed (frontier_of analysed s), old)
  | inr new ↦
      let queued = In-keep (λ id. not (includes id analysed)) a s.members m (rw new) in
      rw (includes-append a analysed (keep (λ id. not (includes id analysed)) s.members))
        (ground (arith, includes_iff a (keep (λ id. not (includes id analysed)) s.members)))
]

module _ {E : Type 0} (analyze : List Str → List Str → Outcome E (List (List PartyPattern)))
    (policy_text_of : Str → Outcome E Str) (index : PartyIndex) where
  -- What a round that does not throw does to the members.
  pub round-Grows :
      (analysed frontier : List Str) (s t : Found)
      → round analyze policy_text_of index analysed frontier s ≡ ok t
      → Grows index s t
  unfolding round
  round-Grows analysed frontier s t h =
      let (texts, read, then) = >>=-eq-ok (traverse policy_text_of frontier) _ h in
      let (results, analysed, same) = >>=-eq-ok (analyze (analysed ++ frontier) texts) _ then in
      subst (Grows index s) (ground arith) (scan_results-Grows index results s)

  -- The next frontier is among the ids that the round added.
  next_frontier :
      (analysed : List Str) (s t : Found) (g : Grows index s t)
      → length (frontier_of (analysed ++ frontier_of analysed s) t) ≤ length g.new
  unfolding frontier_of
  next_frontier analysed s t g =
      let old = λ (id : Str). not (includes id (analysed ++ frontier_of analysed s)) in
      let gone = keep-nil old s.members (λ a m. rw (covered analysed s a m)) in
      rw (g.members_are, keep-append old s.members g.new, gone) (length-keep old g.new)

  loop_ends :
      (fuel : ℕ) (analysed : List Str) (s : Found)
      → missing index s.members + length (frontier_of analysed s) < fuel
      → loop analyze policy_text_of index fuel analysed s ≢ throw out_of_fuel
  unfolding loop
  loop_ends zero analysed s h = absurd (omega arith)
  loop_ends (suc fuel) analysed s h = elim (List-cases (frontier_of analysed s)) [
    | inl empty ↦ rw (empty, loop) (λ e. cc)
    | inr (x, r, e) ↦
        rw (e, loop)
          (elim (Outcome-cases (round analyze policy_text_of index analysed (x ∷ r) s)) [
            | inr (error, thrown) ↦ rw thrown (λ bad. cc)
            | inl (t, done) ↦
                let g = round-Grows analysed (x ∷ r) s t done in
                let next = rw e at (next_frontier analysed s t g) in
                rw done (loop_ends fuel (analysed ++ x ∷ r) t (omega (arith, g.room, ap length e)))
          ])
  ]

  -- The closure always ends: with the fuel that the model gives it, one round more than the seed and
  -- the index have entries together, it returns or a call throws, and never runs out.
  pub party_closure_terminates :
      (seed : List Str) → party_closure analyze policy_text_of index seed ≢ throw out_of_fuel
  unfolding party_closure frontier_of
  party_closure_terminates seed =
      let start : Found = record { members = add_all [] seed; discovered = [] } in
      let fuel = suc (length seed + length index) in
      let ends = loop_ends fuel [] start (
        omega (
          arith,
          missing-le index start.members,
          length-keep (λ (id : Str). not (includes id [])) start.members,
          length-add_all [] seed,
        )) in
      elim (Outcome-cases (loop analyze policy_text_of index fuel [] start)) [
        | inl (found, e) ↦ rw e (λ bad. cc)
        | inr (why, e) ↦ rw e (λ bad. ends (e ∙ bad))
      ]
