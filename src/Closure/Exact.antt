-- ===== src/Closure/Exact.antt =====
-- About app/backend/src/bart/closure.ts: what a scan of the patterns adds to the members.
use bart_share.Text.{Str}
use bart_share.Text.Members.{includes_iff}
use bart_share.Attrs.{BartAttrs}
use bart_share.Matcher.{matches}
use bart_share.Closure.{
  scan_results, scan_patterns, scan_index, PartyPattern, PartyIndex, Found, offer,
}
use bart_share.Prelude.{
  Exists, Exists-cons, inr, inl, arith, ◌⊎◌, ◌↔◌, List, ◌≡◌, In, In-append, [], ◌∷◌, true,
}

-- An index entry is this party's, and the pattern matches it.
abbrev pub HasHit : PartyPattern → Str → Str × BartAttrs → Type 0
HasHit p id (j, attrs) = (id ≡ j) × (matches p.attrs attrs ≡ true)

-- The party has an entry that the pattern matches; that one of the patterns matches; and that one of
-- the patterns of all the analysed policies matches.
abbrev pub Hit : PartyIndex → Str → PartyPattern → Type 0
Hit index id p = Exists (HasHit p id) index

abbrev pub HitBy : PartyIndex → Str → List PartyPattern → Type 0
HitBy index id ps = Exists (Hit index id) ps

abbrev pub Named : PartyIndex → Str → List (List PartyPattern) → Type 0
Named index id results = Exists (HitBy index id) results

-- A loop's first round and its rest, put together.
chain_mem : {M S A B C D : Type 0} → M ↔ (S ⊎ A) → S ↔ (B ⊎ C) → D ↔ (C ⊎ A) → M ↔ (B ⊎ D)
chain_mem f g h = (
  λ m. elim (f.0 m) [
    | inl s ↦ elim (g.0 s) [ inl b ↦ inl b | inr c ↦ inr (h.1 (inl c)) ]
    | inr a ↦ inr (h.1 (inr a))
  ],
  elim [
    | inl b ↦ f.1 (inl (g.1 (inl b)))
    | inr d ↦ elim (h.0 d) [ inl c ↦ f.1 (inl (g.1 (inr c))) | inr a ↦ f.1 (inr a) ]
  ],
)

offer-mem :
    (p : PartyPattern) (j : Str) (w : BartAttrs) (s : Found) (id : Str)
    → In id (offer p (j, w) s).members ↔ (In id s.members ⊎ ((id ≡ j) × (matches p.attrs w ≡ true)))
unfolding offer
offer-mem p j w s id =
    ground
      (arith, includes_iff j s.members, includes_iff id s.members, In-append id s.members (j ∷ []))

scan_index-mem :
    (part : PartyIndex) (p : PartyPattern) (s : Found) (id : Str)
    → In id (scan_index p part s).members ↔ (In id s.members ⊎ Hit part id p)
unfolding scan_index
scan_index-mem [] p s id = (inl, elim [ inl m ↦ m | inr h ↦ absurd h.1.0 ])
scan_index-mem ((j, w) ∷ part) p s id =
    chain_mem (scan_index-mem part p (offer p (j, w) s) id) (offer-mem p j w s id)
      (Exists-cons (HasHit p id) (j, w) part)

scan_patterns-mem :
    (index : PartyIndex) (ps : List PartyPattern) (s : Found) (id : Str)
    → In id (scan_patterns index ps s).members ↔ (In id s.members ⊎ HitBy index id ps)
unfolding scan_patterns
scan_patterns-mem index [] s id = (inl, elim [ inl m ↦ m | inr h ↦ absurd h.1.0 ])
scan_patterns-mem index (p ∷ ps) s id =
    chain_mem (scan_patterns-mem index ps (scan_index p index s) id) (scan_index-mem index p s id)
      (Exists-cons (Hit index id) p ps)

pub scan_results-mem :
    (index : PartyIndex) (results : List (List PartyPattern)) (s : Found) (id : Str)
    → In id (scan_results index results s).members ↔ (In id s.members ⊎ Named index id results)
unfolding scan_results
scan_results-mem index [] s id = (inl, elim [ inl m ↦ m | inr h ↦ absurd h.1.0 ])
scan_results-mem index (ps ∷ results) s id =
    chain_mem (scan_results-mem index results (scan_patterns index ps s) id)
      (scan_patterns-mem index ps s id) (Exists-cons (HitBy index id) ps results)
