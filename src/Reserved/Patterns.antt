-- ===== src/Reserved/Patterns.antt =====
-- About validatePartyPattern of app/backend/src/bart/reserved.ts beside the requests that are written.
use bart_share.Prelude.{
  ℕ, ◌≡◌, refl, List, [], ◌∷◌, none, arith, ok, Option-cases, inl, inr, traverse, ◌⊎◌, true, false,
}
use bart_share.Text.{Str, str_eq, join}
use bart_share.Attrs.{BartValue, BartAttrs}
use bart_share.Emitter.Grammar.{user_id_attr}
use bart_share.Emitter.{emit_attr, emit_attrs, emit_request, request_text, Quantifier}
use bart_share.Reserved.{
  Unknown, Attrs, value_error, pattern_error, validate_party_pattern, is_reserved,
}
use bart_share.Reserved.Gate.{widen, widen_value, value_gate, attr_text}

-- A key that a party pattern may have: `userId`, or one that the system does not set.
abbrev pub AreAskable : BartAttrs → Type 0
AreAskable [] = Unit {0}
AreAskable ((k, v) ∷ r) = ((str_eq k user_id_attr ≡ true) ⊎ (is_reserved k ≡ false)) × AreAskable r

entry_gate :
    (key : Str) (v : Unknown)
    → pattern_error key v ≡ none
    → (b : BartValue) × (t : Str) × (widen_value b ≡ v)
      × (emit_attr (key, b) ≡ ok t)
      × ((str_eq key user_id_attr ≡ true) ⊎ (is_reserved key ≡ false))
unfolding pattern_error emit_attr
entry_gate key v h = elim (Option-cases (value_error key v)) [
  | inr (e, bad) ↦ absurd (ground arith)
  | inl fine ↦
      let (b, t, same, written) = value_gate key v fine in
      (b, attr_text key t, same, ground (arith, written), ground arith)
]

entries_gate :
    (attrs : Attrs)
    → validate_party_pattern attrs ≡ []
    → (typed : BartAttrs) × (ts : List Str) × (widen typed ≡ attrs)
      × (traverse emit_attr typed ≡ ok ts)
      × AreAskable typed
unfolding validate_party_pattern widen
entries_gate [] h = ([], [], refl, refl, tt)
entries_gate ((key, value) ∷ attrs) h = elim (Option-cases (pattern_error key value)) [
  | inr (e, bad) ↦ absurd (ground arith)
  | inl fine ↦
      let (b, t, same, written, free) = entry_gate key value fine in
      let (typed, ts, sames, all_written, all_free) = entries_gate attrs (ground arith) in
      ((key, b) ∷ typed, t ∷ ts, cc, rw (written, all_written), (free, all_free))
]

emit_attrs-joined :
    (typed : BartAttrs) (ts : List Str)
    → traverse emit_attr typed ≡ ok ts
    → emit_attrs typed ≡ ok (join [] ts)
unfolding emit_attrs
emit_attrs-joined typed ts written = rw written refl

-- Whatever JSON object passes validatePartyPattern is a typed attribute object whose keys are `userId` or
-- not set by the system, and a request for any resource that can be written, asked of any or all parties
-- of that pattern, is written without throwing.
pub validate_party_pattern_gate :
    (attrs : Attrs) (index : ℕ) (quantifier : Quantifier) (key : Str) (value : BartValue)
    (more : BartAttrs) (resource : Str)
    → validate_party_pattern attrs ≡ []
    → emit_attrs ((key, value) ∷ more) ≡ ok resource
    → (typed : BartAttrs) × (line : Str) × (widen typed ≡ attrs)
      × AreAskable typed
      × (emit_request index
            ((key, value) ∷ more)
            (record { quantifier = quantifier; attrs = typed })
          ≡ ok line)
unfolding emit_request
validate_party_pattern_gate attrs index quantifier key value more resource h w =
    let (typed, ts, same, written, free) = entries_gate attrs h in
    let from = emit_attrs-joined typed ts written in
    (typed, request_text index resource quantifier (join [] ts), same, free, rw (w, from) refl)
