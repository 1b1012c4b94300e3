-- ===== src/Closure/Rounds.antt =====
-- About app/backend/src/bart/closure.ts: how a round changes the members, and the room that is
-- left.
use mathlib.Core.List.{append-nil, append_assoc}
use bart_share.Text.{Str, includes}
use bart_share.Text.Members.{includes_iff}
use bart_share.Attrs.{BartAttrs}
use bart_share.Matcher.{matches}
use bart_share.Closure.{
  PartyPattern, PartyIndex, Found, offer, scan_index, scan_patterns, scan_results,
}
use bart_share.Prelude.{
  refl, ap, if◌then◌else◌, ◌∙◌, arith, ◌+◌, ◌||◌, ◌≤◌, ℕ, ◌++◌, sym, ◌≡◌, List, In, [], ◌∷◌, inl,
  inr, true, false, length, length-append, Bool-cases,
}

-- The index entries whose party is not a member yet.
abbrev pub missing : PartyIndex → List Str → ℕ
missing [] members = 0
missing ((id, attrs) ∷ index) members =
    (if includes id members then 0 else 1) + missing index members

pub missing-le : (index : PartyIndex) (members : List Str) → missing index members ≤ length index
missing-le [] members = omega arith
missing-le ((id, attrs) ∷ index) members = ground (arith, missing-le index members)

pub includes-append :
    (a : Str) (xs ys : List Str) → includes a (xs ++ ys) ≡ (includes a xs || includes a ys)
unfolding includes
includes-append a [] ys = refl
includes-append a (x ∷ xs) ys = ground (arith, includes-append a xs ys)

missing-append :
    (index : PartyIndex) (members more : List Str)
    → missing index (members ++ more) ≤ missing index members
missing-append [] members more = omega arith
missing-append ((id, attrs) ∷ index) members more =
    ground (arith, includes-append id members more, missing-append index members more)

pub includes_self : (a : Str) → includes a (a ∷ []) ≡ true
includes_self a = (includes_iff a (a ∷ [])).1 (inl refl)

missing-add :
    (index : PartyIndex) (id : Str) (attrs : BartAttrs) (members : List Str)
    → In (id, attrs) index
    → includes id members ≡ false
    → missing index (members ++ id ∷ []) + 1 ≤ missing index members
missing-add [] id attrs members m h = absurd m
missing-add ((j, w) ∷ index) id attrs members (inl e) h =
    rw (← ap (λ (x : Str × BartAttrs). x.0) e) (
      ground (
        arith,
        includes-append id members (id ∷ []),
        includes_self id,
        missing-append index members (id ∷ []),
      ))
missing-add ((j, w) ∷ index) id attrs members (inr m) h =
    ground (arith, includes-append j members (id ∷ []), missing-add index id attrs members m h)

-- One state grows into another by the same ids in both fields, each of them new to the members.
pub record Grows (index : PartyIndex) (s t : Found) : Type 0 where
  pub new : List Str
  pub members_are : t.members ≡ s.members ++ new
  pub discovered_are : t.discovered ≡ s.discovered ++ new
  pub room : missing index t.members + length new ≤ missing index s.members

Grows-refl : (index : PartyIndex) (s : Found) → Grows index s s
Grows-refl index s = record {
  new = [];
  members_are = sym (append-nil s.members);
  discovered_are = sym (append-nil s.discovered);
  room = omega arith;
}

Grows-trans :
    {index : PartyIndex} {s t u : Found} → Grows index s t → Grows index t u → Grows index s u
Grows-trans {s = s} g h = record {
  new = g.new ++ h.new;
  members_are = h.members_are ∙ rw g.members_are (append_assoc s.members g.new h.new);
  discovered_are = h.discovered_are ∙ rw g.discovered_are (append_assoc s.discovered g.new h.new);
  room = omega (arith, length-append g.new h.new, g.room, h.room);
}

offer-Grows :
    (index : PartyIndex) (p : PartyPattern) (id : Str) (attrs : BartAttrs) (s : Found)
    → In (id, attrs) index
    → Grows index s (offer p (id, attrs) s)
unfolding offer
offer-Grows index p id attrs s m = elim (Bool-cases (includes id s.members)) [
  | inl old ↦ rw old (Grows-refl index s)
  | inr fresh ↦ rw fresh (elim (Bool-cases (matches p.attrs attrs)) [
    | inr no_match ↦ rw no_match (Grows-refl index s)
    | inl hit ↦ rw hit (record {
      new = id ∷ [];
      members_are = refl;
      discovered_are = refl;
      room = missing-add index id attrs s.members m fresh;
    })
  ])
]

scan_index-Grows :
    (index : PartyIndex) (p : PartyPattern) (part : PartyIndex) (s : Found)
    → ((e : Str × BartAttrs) → In e part → In e index)
    → Grows index s (scan_index p part s)
unfolding scan_index
scan_index-Grows index p [] s sub = Grows-refl index s
scan_index-Grows index p ((id, attrs) ∷ part) s sub =
    Grows-trans (offer-Grows index p id attrs s (sub (id, attrs) (inl refl)))
      (scan_index-Grows index p part (offer p (id, attrs) s) (λ e m. sub e (inr m)))

scan_patterns-Grows :
    (index : PartyIndex) (ps : List PartyPattern) (s : Found)
    → Grows index s (scan_patterns index ps s)
unfolding scan_patterns
scan_patterns-Grows index [] s = Grows-refl index s
scan_patterns-Grows index (p ∷ ps) s =
    Grows-trans (scan_index-Grows index p index s (λ e m. m))
      (scan_patterns-Grows index ps (scan_index p index s))

pub scan_results-Grows :
    (index : PartyIndex) (results : List (List PartyPattern)) (s : Found)
    → Grows index s (scan_results index results s)
unfolding scan_results
scan_results-Grows index [] s = Grows-refl index s
scan_results-Grows index (ps ∷ results) s =
    Grows-trans (scan_patterns-Grows index ps s)
      (scan_results-Grows index results (scan_patterns index ps s))
