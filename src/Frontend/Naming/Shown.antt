-- ===== src/Frontend/Naming/Shown.antt =====
-- About app/frontend/src/lib/bart/naming.ts and roster.ts: names that are shown, and rows counted.
use bart_share.Prelude.{
  keep, length, In, [], ◌∷◌, ◌++◌, ◌≡◌, ◌≢◌, List, ℕ, Bool, true, false, inl, inr, Bool-cases,
  Option-cases, refl, arith,
}
use bart_share.Text.{
  Str, codes, str_eq, str_eq_iff, trim, trim_start, trim_end, is_space, drop_blank,
}
use bart_share.Frontend.Naming.{
  NamedResource, resource_name, short_id, PartyRef, PartyStatus, requester, involved, candidate,
  absent, has_lane, party_status, hidden_count,
}

-- A row that says that the party was never asked.
abbrev pub is_never_asked : PartyStatus → Bool
is_never_asked candidate = true
is_never_asked absent = true
is_never_asked requester = false
is_never_asked involved = false

-- The roster's "not involved" counts exactly the rows that say so, whichever parties matched, as long as
-- the requester has a lane.
pub hidden_count_lem :
    (parties : List PartyRef) (matched : List ℕ)
    → ((p : PartyRef) → In p parties → p.index ≡ 1 → has_lane p ≡ true)
    → hidden_count parties
      ≡ length (keep (λ (p : PartyRef). is_never_asked (party_status p matched)) parties)
unfolding hidden_count party_status
hidden_count_lem [] matched h = refl
hidden_count_lem (p ∷ parties) matched h =
    let rest = hidden_count_lem parties matched (λ q m. h q (inr m)) in
    let here = h p (inl refl) in ground (arith, rest, here)

kept_end : (c : ℕ) (s : Str) → is_space c ≡ false → drop_blank c s ≢ []
unfolding drop_blank
kept_end c [] h = rw h (λ e. cc)
kept_end c (d ∷ s) h = λ e. cc

fallback_shown : (s : Str) → trim (codes "Resource " ++ s) ≢ []
unfolding trim trim_start trim_end is_space
fallback_shown s = kept_end b'R' (trim_end (codes "esource " ++ s)) refl

-- A resource is never shown under a blank name, whatever its stored name is.
pub resource_name-shown : (r : NamedResource) → trim (resource_name r) ≢ []
unfolding resource_name
resource_name-shown r = elim (Option-cases r.name) [
  | inl missing ↦ rw (missing, resource_name) (fallback_shown (short_id r.id))
  | inr (name, is) ↦ elim (Bool-cases (str_eq (trim name) [])) [
    | inl blank ↦ rw (is, resource_name, blank) (fallback_shown (short_id r.id))
    | inr shown ↦
        rw (is, resource_name, shown)
          (λ e. let same = (str_eq_iff (trim name) []).1 e in cc (same, shown))
  ]
]
