-- ===== src/Workers.antt =====
-- app/backend/src/utils/general.utils.ts: mapWithConcurrency, a pool of workers that pull items from
-- one cursor. A schedule names the worker that moves next, so each list of numbers is one interleaving.
pub mod Slots
pub mod Pool
pub mod Results
pub mod Ends
use bart_share.Prelude.{
  Outcome, if◌then◌else◌, List, Bool, Option, ℕ, length, get_elem?, replicate, ltb, all, [], ◌∷◌,
  ok, throw, zero, suc, true, false, none, some,
}

-- Where a worker's loop stands: before `const i = cursor++`, awaiting `fn(items[i])`, or behind it,
-- having returned or thrown.
pub data Worker : Type 0 where
  ready finished : Worker
  busy : ℕ → Worker

-- `cursor`, `results`, the workers' promises, and what `Promise.all` was rejected with first.
pub record PoolState (E B : Type 0) : Type 0 where
  pub cursor : ℕ
  pub slots : List (Option B)
  pub workers : List Worker
  pub failure : Option E

-- `list[i] = a`, for an index of the list.
abbrev pub set_at {ℓ} : {A : Type ℓ} → ℕ → A → List A → List A
set_at i a [] = []
set_at zero a (x ∷ xs) = a ∷ xs
set_at (suc i) a (x ∷ xs) = x ∷ set_at i a xs

-- `Math.max(1, Math.min(limit, length))`
unfoldable pub worker_count : ℕ → ℕ → ℕ
worker_count limit size =
    let few = if ltb limit size then limit else size in if ltb few 1 then 1 else few

-- A promise that is rejected stays so.
unfoldable pub first_failure : {E : Type 0} → Option E → E → Option E
first_failure none e = some e
first_failure (some earlier) e = some earlier

unfoldable pub is_finished : Worker → Bool
is_finished finished = true
is_finished ready = false
is_finished (busy i) = false

module _ {A B E : Type 0} (items : List A) (f : A → Outcome E B) where
  unfoldable pub start : ℕ → PoolState E B
  unfolding worker_count
  start limit = record {
    cursor = 0;
    slots = replicate (length items) none;
    workers = replicate (worker_count limit (length items)) ready;
    failure = none;
  }

  -- The call for an item returns to its worker.
  unfoldable pub settle : ℕ → ℕ → Outcome E B → PoolState E B → PoolState E B
  unfolding first_failure
  settle w i (ok y) p = record {
    cursor = p.cursor;
    slots = set_at i (some y) p.slots;
    workers = set_at w ready p.workers;
    failure = p.failure;
  }
  settle w i (throw e) p = record {
    cursor = p.cursor;
    slots = p.slots;
    workers = set_at w finished p.workers;
    failure = first_failure p.failure e;
  }

  -- `const i = cursor++; if (i >= items.length) return;`
  unfoldable pub pull : ℕ → PoolState E B → PoolState E B
  pull w p = record {
    cursor = suc p.cursor;
    slots = p.slots;
    workers = set_at w (if ltb p.cursor (length items) then busy p.cursor else finished) p.workers;
    failure = p.failure;
  }

  unfoldable pub act : ℕ → Worker → PoolState E B → PoolState E B
  unfolding pull settle
  act w finished p = p
  act w ready p = pull w p
  act w (busy i) p = elim (get_elem? items i) [ none ↦ p | some x ↦ settle w i (f x) p ]

  unfoldable pub turn : ℕ → PoolState E B → PoolState E B
  unfolding act
  turn w p = elim (get_elem? p.workers w) [ none ↦ p | some worker ↦ act w worker p ]

  unfoldable pub run : List ℕ → PoolState E B → PoolState E B
  unfolding turn
  run [] p = p
  run (w ∷ schedule) p = run schedule (turn w p)

  -- `await Promise.all(...)`: rejected with the first failure, or done when every worker returned.
  unfoldable pub settled : PoolState E B → Option (Outcome E (List (Option B)))
  settled p = elim p.failure [
    | some e ↦ some (throw e)
    | none ↦ if all is_finished p.workers then some (ok p.slots) else none
  ]
