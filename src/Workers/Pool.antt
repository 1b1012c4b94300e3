-- ===== src/Workers/Pool.antt =====
-- About mapWithConcurrency of app/backend/src/utils/general.utils.ts: what holds between two
-- moves.
use mathlib.Core.Option.{some-injective}
use bart_share.Prelude.{
  Option, ◌==◌, ◌≤◌, ◌∙◌, ◌⊎◌, ltb, ◌≢◌, ◌<◌, ◌≡◌, ℕ, Outcome, List, none, some, length, get_elem?,
  arith, ap, sym, ok, throw, suc, inl, inr, Bool-cases, refl,
}
use bart_share.Workers.{Worker, ready, busy, finished, PoolState, set_at, first_failure, pull}
use bart_share.Workers.Slots.{length-set_at, set_here, set_there, get_elem?-lt}

same_or_not : (i j : ℕ) → (i ≡ j) ⊎ (i ≢ j)
same_or_not i j = elim (Bool-cases (i == j)) [
  | inl t ↦ inl (ground arith)
  | inr no_ ↦ inr (λ e. ground arith)
]

below_suc : (i c : ℕ) → i < suc c → (i ≡ c) ⊎ (i < c)
below_suc i c h = elim (same_or_not i c) [ inl e ↦ inl e | inr differ ↦ inr (ground arith) ]

changed_worker :
    (w v : ℕ) (k m : Worker) (ws : List Worker)
    → w < length ws
    → get_elem? (set_at w k ws) v ≡ some m
    → (k ≡ m) ⊎ (get_elem? ws v ≡ some m)
changed_worker w v k m ws h is = elim (same_or_not v w) [
  | inl e ↦
      inl (
        some-injective k m
          (sym (set_here w k ws h) ∙ (ap (get_elem? (set_at w k ws)) (sym e) ∙ is)))
  | inr differ ↦ inr (sym (set_there w v k ws differ) ∙ is)
]

busy_injective : (i j : ℕ) → busy i ≡ busy j → i ≡ j
busy_injective i j h = cc

module _ {A B E : Type 0} (items : List A) (f : A → Outcome E B) where
  -- The result of the i-th item stands in its slot; a worker awaits it; the pool has failed.
  abbrev pub IsPlaced : PoolState E B → ℕ → A → Type 0
  IsPlaced p i x = (y : B) × (f x ≡ ok y) × (get_elem? p.slots i ≡ some (some y))

  abbrev pub IsHeld : PoolState E B → ℕ → Type 0
  IsHeld p i = (w : ℕ) × (get_elem? p.workers w ≡ some (busy i))

  abbrev pub HasFailed : PoolState E B → Type 0
  HasFailed p = (e : E) × (p.failure ≡ some e)

  pub record Inv (p : PoolState E B) : Type 0 where
    pub size : length p.slots ≡ length items
    pub staffed : 0 < length p.workers
    pub taken :
        (i : ℕ) (x : A)
        → get_elem? items i ≡ some x
        → i < p.cursor
        → IsPlaced p i x ⊎ (IsHeld p i ⊎ HasFailed p)
    pub awaited : (w i : ℕ) → get_elem? p.workers w ≡ some (busy i) → i < length items
    pub over :
        (w : ℕ) → get_elem? p.workers w ≡ some finished → (length items ≤ p.cursor) ⊎ HasFailed p
    pub blamed :
        (e : E)
        → p.failure ≡ some e
        → (i : ℕ) × (x : A) × (get_elem? items i ≡ some x) × (f x ≡ throw e)

  -- A worker other than `w` keeps its place.
  held_else :
      (w v i : ℕ) (k m : Worker) (ws : List Worker)
      → get_elem? ws w ≡ some k
      → k ≢ busy i
      → get_elem? ws v ≡ some (busy i)
      → get_elem? (set_at w m ws) v ≡ some (busy i)
  held_else w v i k m ws at_ other_ held =
      set_there w v m ws
        (λ e. other_ (some-injective k (busy i) (sym at_ ∙ (ap (get_elem? ws) (sym e) ∙ held))))
      ∙ held

  pulled-Inv :
      (w : ℕ) (k : Worker) (p : PoolState E B)
      → get_elem? p.workers w ≡ some ready
      → ((i : ℕ) (x : A) → get_elem? items i ≡ some x → i ≡ p.cursor → k ≡ busy i)
      → (k ≡ finished → length items ≤ p.cursor)
      → ((i : ℕ) → k ≡ busy i → i < length items)
      → Inv p
      → Inv (record {
        cursor = suc p.cursor;
        slots = p.slots;
        workers = set_at w k p.workers;
        failure = p.failure;
      })
  pulled-Inv w k p at_ new end begun inv = record {
    size = inv.size;
    staffed = omega (arith, length-set_at w k p.workers, inv.staffed);
    taken = λ i x there lt. elim (below_suc i p.cursor lt) [
      | inl e ↦ inr (
          inl (
            w,
            set_here w k p.workers (get_elem?-lt w ready p.workers at_) ∙ ap some (new i x there e),
          ))
      | inr before ↦ elim (inv.taken i x there before) [
        | inl placed ↦ inl placed
        | inr (inl (v, held)) ↦ inr (inl (v, held_else w v i ready k p.workers at_ (λ e. cc) held))
        | inr (inr failed) ↦ inr (inr failed)
      ]
    ];
    awaited = λ v i is.
        elim (changed_worker w v k (busy i) p.workers (get_elem?-lt w ready p.workers at_) is) [
          | inl e ↦ begun i e
          | inr old ↦ inv.awaited v i old
        ];
    over = λ v is.
        elim (changed_worker w v k finished p.workers (get_elem?-lt w ready p.workers at_) is) [
          | inl e ↦ inl (let le = end e in omega arith)
          | inr old ↦ elim (inv.over v old) [ inl le ↦ inl (omega arith) | inr failed ↦ inr failed ]
        ];
    blamed = inv.blamed;
  }

  pub pull-Inv :
      (w : ℕ) (p : PoolState E B)
      → get_elem? p.workers w ≡ some ready
      → Inv p
      → Inv (pull items f w p)
  unfolding pull
  pull-Inv w p at_ inv = elim (Bool-cases (ltb p.cursor (length items))) [
    | inl more ↦
        rw (more, pull)
          (pulled-Inv w (busy p.cursor) p at_ (λ i x there e. ap busy (sym e)) (λ e. cc)
            (λ i e. let same = busy_injective p.cursor i e in ground arith) inv)
    | inr none_ ↦
        rw (none_, pull)
          (pulled-Inv w finished p at_
            (λ i x there e. let lt = get_elem?-lt i x items there in absurd (ground arith))
            (λ e. ground arith) (λ i e. cc) inv)
  ]

  pub returned-Inv :
      (w i : ℕ) (x : A) (y : B) (p : PoolState E B)
      → get_elem? p.workers w ≡ some (busy i)
      → get_elem? items i ≡ some x
      → f x ≡ ok y
      → Inv p
      → Inv (record {
        cursor = p.cursor;
        slots = set_at i (some y) p.slots;
        workers = set_at w ready p.workers;
        failure = p.failure;
      })
  returned-Inv w i x y p at_ item gives inv =
      let fits : i < length p.slots = omega (arith, inv.size, get_elem?-lt i x items item) in
      record {
        size = length-set_at i (some y) p.slots ∙ inv.size;
        staffed = omega (arith, length-set_at w ready p.workers, inv.staffed);
        taken = λ j z there lt. elim (same_or_not j i) [
          | inl e ↦
              let same : x ≡ z =
                some-injective x z (sym item ∙ (ap (get_elem? items) (sym e) ∙ there)) in
              inl (
                y,
                ap f (sym same) ∙ gives,
                ap (get_elem? (set_at i (some y) p.slots)) e ∙ set_here i (some y) p.slots fits,
              )
          | inr differ ↦ elim (inv.taken j z there lt) [
            | inl (u, value, slot) ↦ inl (u, value, set_there i j (some y) p.slots differ ∙ slot)
            | inr (inl (v, held)) ↦ inr (
                inl (
                  v,
                  held_else w v j (busy i) ready p.workers at_
                      (λ e. differ (sym (busy_injective i j e))) held,
                ))
            | inr (inr failed) ↦ inr (inr failed)
          ]
        ];
        awaited = λ v j is.
            elim (changed_worker w v ready (busy j) p.workers
              (get_elem?-lt w (busy i) p.workers at_) is) [
                | inl e ↦ absurd cc
                | inr old ↦ inv.awaited v j old
              ];
        over = λ v is.
            elim (changed_worker w v ready finished p.workers
              (get_elem?-lt w (busy i) p.workers at_) is) [
                | inl e ↦ absurd cc
                | inr old ↦ inv.over v old
              ];
        blamed = inv.blamed;
      }

  failed_as :
      (o : Option E) (e : E) → (d : E) × (first_failure o e ≡ some d) × ((d ≡ e) ⊎ (o ≡ some d))
  unfolding first_failure
  failed_as none e = (e, refl, inl refl)
  failed_as (some d) e = (d, refl, inr refl)

  pub thrown-Inv :
      (w i : ℕ) (x : A) (e : E) (p : PoolState E B)
      → get_elem? p.workers w ≡ some (busy i)
      → get_elem? items i ≡ some x
      → f x ≡ throw e
      → Inv p
      → Inv (record {
        cursor = p.cursor;
        slots = p.slots;
        workers = set_at w finished p.workers;
        failure = first_failure p.failure e;
      })
  thrown-Inv w i x e p at_ item gives inv =
      let (d, failed, why) = failed_as p.failure e in
      record {
        size = inv.size;
        staffed = omega (arith, length-set_at w finished p.workers, inv.staffed);
        taken = λ j z there lt. inr (inr (d, failed));
        awaited = λ v j is.
            elim (changed_worker w v finished (busy j) p.workers
              (get_elem?-lt w (busy i) p.workers at_) is) [
                | inl e ↦ absurd cc
                | inr old ↦ inv.awaited v j old
              ];
        over = λ v is. inr (d, failed);
        blamed = λ c is.
            let same : d ≡ c = some-injective d c (sym failed ∙ is) in
            elim why [
              | inl new ↦ (i, x, item, gives ∙ ap throw (sym new ∙ same))
              | inr old ↦ inv.blamed c (old ∙ ap some same)
            ];
      }
