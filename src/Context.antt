-- ===== src/Context.antt =====
-- app/backend/src/bart/context/index.ts: what the providers say of each party, merged into one
-- attribute bag and written as the context tuple. The database answers are parameters.
pub mod Providers
pub mod Report
pub mod Merging
pub mod Total
use bart_share.Prelude.{
  ℕ, Bool, true, false, ◌||◌, List, [], ◌∷◌, ◌++◌, map, Option, none, some, if◌then◌else◌, Outcome,
  ok, throw, ◌>>=◌, traverse,
}
use bart_share.Text.{Str, codes, join}
use bart_share.Attrs.{BartAttrs, own, is_in}
use bart_share.Emitter.{BartEmitError, emit_attr_list}
use bart_share.Context.Providers.{
  ContextProvider, Contribution, EvalContext, Queries, contribute, context_providers,
}

-- What can be thrown: an error of the emitter, or two providers that claim one key.
pub data ContextError : Type 0 where
  collision : Str → Str → ContextError
  not_emitted : BartEmitError → ContextError

-- The message of the error thrown on a collision.
collision_message : Str → Str → Str
collision_message key provider =
    codes "context providers collide on '" ++ (key ++ (codes "' (" ++ (provider ++ codes ")")))

-- One provider's attributes, copied into the bag.
unfoldable pub copy_into : Str → BartAttrs → BartAttrs → Outcome ContextError BartAttrs
copy_into provider merged [] = ok merged
copy_into provider merged ((key, value) ∷ attrs) =
    let rest = copy_into provider (merged ++ (key, value) ∷ []) attrs in
    if is_in key merged then throw (collision key provider) else rest

-- `contribution.get(partyId) ?? {}`
abbrev pub given : Str → Contribution → BartAttrs
given id c = elim (own id c) [ some attrs ↦ attrs | none ↦ [] ]

-- The loop over the contributions; each comes from the provider at its place.
unfoldable pub merge_onto :
    Str → BartAttrs → List (ContextProvider × Contribution) → Outcome ContextError BartAttrs
unfolding copy_into own
merge_onto id merged [] = ok merged
merge_onto id merged ((provider, c) ∷ rest) =
    copy_into provider.name merged (given id c) >>= λ m. merge_onto id m rest

unfoldable pub merge_contributions :
    Str → List (ContextProvider × Contribution) → Outcome ContextError BartAttrs
unfolding merge_onto
merge_contributions id contributions = merge_onto id [] contributions

-- `providers.map(provider => provider.contribute(partyIds, evalCtx))`, beside the providers.
unfoldable pub contributions_of :
    Queries → List Str → EvalContext → List (ContextProvider × Contribution)
unfolding contribute
contributions_of db ids now = map (λ p. (p, contribute p db ids now)) context_providers

lift_emit : Outcome BartEmitError Str → Outcome ContextError Str
lift_emit (ok t) = ok t
lift_emit (throw e) = throw (not_emitted e)

unfoldable pub slot_text : List (ContextProvider × Contribution) → Str → Outcome ContextError Str
unfolding merge_contributions emit_attr_list lift_emit
slot_text contributions id =
    merge_contributions id contributions >>= λ attrs. lift_emit (emit_attr_list attrs)

unfoldable pub build_context_tuple : Queries → List Str → EvalContext → Outcome ContextError Str
unfolding contributions_of slot_text join
build_context_tuple db ids now = traverse (slot_text (contributions_of db ids now)) ids >>= λ slots.
    ok (b'(' ∷ (join (b',' ∷ []) slots ++ (b')' ∷ [])))
