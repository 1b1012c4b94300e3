-- ===== src/Assembly/Parties.antt =====
-- About assemblePolicySystem of app/backend/src/bart/assembly.ts: what an assembled system has to
-- be.
use bart_share.Text.{sort, Str, join}
use bart_share.Closure.{Stop, failed, out_of_fuel, party_closure, loop}
use bart_share.Emitter.{BartEmitError}
use bart_share.Context.Providers.{Queries, EvalContext}
use bart_share.Context.{ContextError, build_context_tuple, slot_text, contributions_of}
use bart_share.Evaluator.{Thrown}
use bart_share.Assembly.{
  policy_text_of, index_or, analyze_with_blame, row_of, AssembledSystem, policy_of, PartyIndex,
  assemble_policy_system, policies_of, closure_of, Rows, PartyPattern, AssemblyError, as_thrown,
  lift_closure, lift_context,
}
use mathlib.Core.Path.{subst}
use bart_share.Prelude.{
  Option, sym, ap, ◌≡◌, ℕ, ◌++◌, List, [], ◌∷◌, some, get_elem?, Outcome, ok, throw, >>=-eq-ok,
  ok_injective, traverse, traverse-get_elem?, length-traverse, length, throw-ne-ok,
}

lift_closure-ok :
    (m : Outcome (Stop (Thrown AssemblyError)) (List Str)) (parties : List Str)
    → lift_closure m ≡ ok parties
    → m ≡ ok parties
unfolding lift_closure
lift_closure-ok (ok p) parties h = ap ok (ok_injective p parties h)
lift_closure-ok (throw (failed e)) parties h = absurd (throw-ne-ok _ _ h)
lift_closure-ok (throw out_of_fuel) parties h = absurd (throw-ne-ok _ _ h)

lift_context-ok :
    (m : Outcome ContextError Str) (text : Str) → lift_context m ≡ ok text → m ≡ ok text
unfolding lift_context
lift_context-ok (ok t) text h = ap ok (ok_injective t text h)
lift_context-ok (throw e) text h = absurd (throw-ne-ok _ _ h)

pub as_thrown-ok :
    (m : Outcome BartEmitError Str) (text : Str) → as_thrown m ≡ ok text → m ≡ ok text
unfolding as_thrown
as_thrown-ok (ok t) text h = ap ok (ok_injective t text h)
as_thrown-ok (throw e) text h = absurd (throw-ne-ok _ _ h)

-- The tuple is the slots of the parties, as many as there are parties.
pub build_context_tuple-slots :
    (queries : Queries) (ids : List Str) (now : EvalContext) (text : Str)
    → build_context_tuple queries ids now ≡ ok text
    → (slots : List Str) × (length slots ≡ length ids)
      × (text ≡ b'(' ∷ (join (b',' ∷ []) slots ++ (b')' ∷ [])))
      × ((i : ℕ) (id : Str)
          → get_elem? ids i ≡ some id
          → (slot : Str) × (get_elem? slots i ≡ some slot)
            × (slot_text (contributions_of queries ids now) id ≡ ok slot))
unfolding build_context_tuple
build_context_tuple-slots queries ids now text h =
    let f = slot_text (contributions_of queries ids now) in
    let (slots, each, same) = >>=-eq-ok (traverse f ids) _ h in
    (
      slots,
      length-traverse f ids slots each,
      sym (ok_injective _ _ same),
      λ i id there. traverse-get_elem? f ids slots i id each there,
    )

-- A system over a seed: its first parties are the seed, in order; every party has its policy at its
-- own place, that of its row, or of a party without attributes and rules if the row is gone; and the
-- context tuple has one slot for each party.
pub record IsAssembled (db : Rows) (seed : List Str) (system : AssembledSystem) : Type 0 where
  pub found : List Str
  pub seed_first : system.parties ≡ seed ++ sort found
  pub one_each : length system.policies ≡ length system.parties
  pub own_policy :
      (i : ℕ) (id : Str)
      → get_elem? system.parties i ≡ some id
      → (text : Str) × (get_elem? system.policies i ≡ some text)
        × (policy_of id (row_of id (db.where_ids system.parties)) ≡ ok text)
  pub slots : List Str
  pub arity : length slots ≡ length system.parties
  pub tuple : system.context ≡ b'(' ∷ (join (b',' ∷ []) slots ++ (b')' ∷ []))

module _ (analyze : List Str → Outcome (Thrown AssemblyError) (List (List PartyPattern)))
    (db : Rows) (queries : Queries) (now : EvalContext) where
  closure_of-seed :
      (seed : List Str) (index : PartyIndex) (parties : List Str)
      → closure_of analyze db queries now seed index ≡ ok parties
      → (found : List Str) × (parties ≡ seed ++ sort found)
  unfolding closure_of party_closure
  closure_of-seed seed index parties h =
      let run = lift_closure-ok _ parties h in
      let (found, loop_run, same) =
        >>=-eq-ok
          (loop (analyze_with_blame analyze db queries now) (policy_text_of db) index _ [] _) _
          run in
      (found, sym (ok_injective _ _ same))

  policies_of-each :
      (parties policies : List Str)
      → policies_of analyze db queries now parties ≡ ok policies
      → (length policies ≡ length parties)
        × ((i : ℕ) (id : Str)
            → get_elem? parties i ≡ some id
            → (text : Str) × (get_elem? policies i ≡ some text)
              × (policy_of id (row_of id (db.where_ids parties)) ≡ ok text))
  unfolding policies_of
  policies_of-each parties policies h =
      let f = λ (id : Str). as_thrown (policy_of id (row_of id (db.where_ids parties))) in
      (
        length-traverse f parties policies h,
        λ i id there.
            let (text, place, written) = traverse-get_elem? f parties policies i id h there in
            (text, place, as_thrown-ok _ text written),
      )

  -- Whatever assembles is a system over its seed: the seed first, a policy for each party at its own
  -- place, and a context slot for each party.
  pub assemble_policy_system-IsAssembled :
      (seed : List Str) (given : Option PartyIndex) (system : AssembledSystem)
      → assemble_policy_system analyze db queries now seed given ≡ ok system
      → IsAssembled db seed system
  unfolding assemble_policy_system
  assemble_policy_system-IsAssembled seed given system h =
      let (parties, closed, h1) =
        >>=-eq-ok (closure_of analyze db queries now seed (index_or db given)) _ h in
      let (policies, written, h2) = >>=-eq-ok (policies_of analyze db queries now parties) _ h1 in
      let (context, built, h3) =
        >>=-eq-ok (lift_context (build_context_tuple queries parties now)) _ h2 in
      let (found, seeded) = closure_of-seed seed (index_or db given) parties closed in
      let (count, each) = policies_of-each parties policies written in
      let (slots, arity, text, _) =
        build_context_tuple-slots queries parties now context (lift_context-ok _ context built) in
      subst (IsAssembled db seed) (ok_injective _ _ h3) (record {
        found = found;
        seed_first = seeded;
        one_each = count;
        own_policy = each;
        slots = slots;
        arity = arity;
        tuple = text;
      })
