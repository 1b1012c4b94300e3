-- ===== src/Workers/Results.antt =====
-- About mapWithConcurrency of app/backend/src/utils/general.utils.ts: what a settled pool has.
use mathlib.Core.Option.{some-injective}
use bart_share.Prelude.{
  ◌∙◌, ◌⊎◌, ◌<◌, ◌≡◌, Option, ℕ, Outcome, List, none, some, length, get_elem?, all, [], ◌∷◌, arith,
  ap, sym, ok, throw, true, inl, inr, Option-cases, Bool-cases, Outcome-cases, refl,
}
use bart_share.Workers.{
  Worker, ready, busy, finished, PoolState, is_finished, settle, act, turn, run, start, settled,
  worker_count,
}
use bart_share.Workers.Slots.{
  get_elem?-lt, all-get_elem?, get_first, length-replicate, get_elem?-replicate,
}
use bart_share.Workers.Pool.{Inv, pull-Inv, returned-Inv, thrown-Inv}

finished-eq : (k : Worker) → is_finished k ≡ true → k ≡ finished
unfolding is_finished
finished-eq finished h = refl
finished-eq ready h = cc
finished-eq (busy i) h = cc

module _ {A B E : Type 0} (items : List A) (f : A → Outcome E B) where
  act-Inv :
      (w : ℕ) (k : Worker) (p : PoolState E B)
      → get_elem? p.workers w ≡ some k
      → Inv items f p
      → Inv items f (act items f w k p)
  unfolding act settle
  act-Inv w finished p at_ inv = inv
  act-Inv w ready p at_ inv = pull-Inv items f w p at_ inv
  act-Inv w (busy i) p at_ inv = elim (Option-cases (get_elem? items i)) [
    | inl none_ ↦ rw (none_, act) inv
    | inr (x, item) ↦ elim (Outcome-cases (f x)) [
      | inl (y, gives) ↦
          rw (item, act, gives, settle) (returned-Inv items f w i x y p at_ item gives inv)
      | inr (e, gives) ↦
          rw (item, act, gives, settle) (thrown-Inv items f w i x e p at_ item gives inv)
    ]
  ]

  pub turn-Inv : (w : ℕ) (p : PoolState E B) → Inv items f p → Inv items f (turn items f w p)
  unfolding turn
  turn-Inv w p inv = elim (Option-cases (get_elem? p.workers w)) [
    | inl none_ ↦ rw (none_, turn) inv
    | inr (k, at_) ↦ rw (at_, turn) (act-Inv w k p at_ inv)
  ]

  pub run-Inv :
      (schedule : List ℕ) (p : PoolState E B) → Inv items f p → Inv items f (run items f schedule p)
  unfolding run
  run-Inv [] p inv = inv
  run-Inv (w ∷ schedule) p inv = run-Inv schedule (turn items f w p) (turn-Inv w p inv)

  worker_count_pos : (limit size : ℕ) → 0 < worker_count limit size
  unfolding worker_count
  worker_count_pos limit size = ground arith

  pub start-Inv : (limit : ℕ) → Inv items f (start items f limit)
  unfolding start
  start-Inv limit = record {
    size = length-replicate (length items) none;
    staffed = omega (
      arith,
      length-replicate (worker_count limit (length items)) ready,
      worker_count_pos limit (length items),
    );
    taken = λ i x there lt. absurd (omega arith);
    awaited = λ w i is.
        absurd (
          let e = get_elem?-replicate (worker_count limit (length items)) w ready (busy i) is in
          cc);
    over = λ w is.
        absurd (
          let e = get_elem?-replicate (worker_count limit (length items)) w ready finished is in
          cc);
    blamed = λ e is. absurd cc;
  }

  settled_cases :
      (p : PoolState E B) (out : Outcome E (List (Option B)))
      → settled items f p ≡ some out
      → ((e : E) × (p.failure ≡ some e) × (out ≡ throw e))
        ⊎ ((p.failure ≡ none) × (all is_finished p.workers ≡ true) × (out ≡ ok p.slots))
  unfolding settled
  settled_cases p out h = elim (Option-cases p.failure) [
    | inr (e, failed) ↦ inl (e, failed, sym (some-injective _ out (rw (failed, settled) at h)))
    | inl fine ↦ elim (Bool-cases (all is_finished p.workers)) [
      | inl done ↦ inr (fine, done, sym (some-injective _ out (rw (fine, settled, done) at h)))
      | inr no_ ↦ absurd (ground arith)
    ]
  ]

  in_place :
      (p : PoolState E B)
      → Inv items f p
      → p.failure ≡ none
      → all is_finished p.workers ≡ true
      → (i : ℕ) (x : A) → get_elem? items i ≡ some x
      → (y : B) × (f x ≡ ok y) × (get_elem? p.slots i ≡ some (some y))
  unfolding is_finished
  in_place p inv fine done i x there =
      let (k, first) = get_first p.workers inv.staffed in
      let finished_ = all-get_elem? is_finished p.workers 0 k done first in
      elim (inv.over 0 (first ∙ ap some (finished-eq k finished_))) [
        | inr (e, failed) ↦ absurd (ground arith)
        | inl le ↦ elim (inv.taken i x there (omega (arith, get_elem?-lt i x items there))) [
          | inl placed ↦ placed
          | inr (inl (w, held)) ↦
              absurd (let busy_ = all-get_elem? is_finished p.workers w (busy i) done held in cc)
          | inr (inr (e, failed)) ↦ absurd (ground arith)
        ]
      ]

  -- However the workers are interleaved: if the pool is done, it has the result of each item's own call, at
  -- the item's place, and no other slots; if it is rejected, then with what a call for some item threw.
  pub run_settles :
      (limit : ℕ) (schedule : List ℕ) (out : Outcome E (List (Option B)))
      → settled items f (run items f schedule (start items f limit)) ≡ some out
      → ((slots : List (Option B)) × (out ≡ ok slots)
          × (length slots ≡ length items)
          × ((i : ℕ) (x : A)
              → get_elem? items i ≡ some x
              → (y : B) × (f x ≡ ok y) × (get_elem? slots i ≡ some (some y))))
        ⊎ ((e : E) × (out ≡ throw e)
            × (i : ℕ) × (x : A) × (get_elem? items i ≡ some x)
            × (f x ≡ throw e))
  run_settles limit schedule out h =
      let p = run items f schedule (start items f limit) in
      let inv = run-Inv schedule (start items f limit) (start-Inv limit) in
      elim (settled_cases p out h) [
        | inl (e, failed, is) ↦
            let (i, x, there, gives) = inv.blamed e failed in inr (e, is, i, x, there, gives)
        | inr (fine, done, is) ↦
            inl (p.slots, is, inv.size, λ i x there. in_place p inv fine done i x there)
      ]
