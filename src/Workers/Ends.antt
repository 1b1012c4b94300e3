-- ===== src/Workers/Ends.antt =====
-- About mapWithConcurrency of app/backend/src/utils/general.utils.ts: the moves that a pool has
-- left.
use mathlib.Core.Option.{some-injective}
use bart_share.Prelude.{
  ◌≤◌, ◌-◌, ◌<◌, ◌*◌, Outcome, ◌≡◌, ◌+◌, List, ℕ, none, some, length, get_elem?, all, [], ◌∷◌,
  arith, ap, zero, suc, false, inl, inr, Option-cases, Bool-cases, Outcome-cases, refl, ltb,
  replicate,
}
use bart_share.Workers.{
  Worker, ready, busy, finished, PoolState, set_at, is_finished, pull, settle, act, turn, run,
  start, settled, worker_count,
}
use bart_share.Workers.Slots.{get_elem?-none}
use bart_share.Workers.Pool.{Inv}
use bart_share.Workers.Results.{turn-Inv, start-Inv}

-- The moves that a worker has left for what it holds, and those of all workers.
weight : Worker → ℕ
weight finished = 0
weight ready = 1
weight (busy i) = 2

load : List Worker → ℕ
unfolding weight
load [] = 0
load (k ∷ ws) = weight k + load ws

load-set_at :
    (w : ℕ) (m k : Worker) (ws : List Worker)
    → get_elem? ws w ≡ some k
    → load (set_at w m ws) + weight k ≡ load ws + weight m
unfolding load
load-set_at w m k [] h = cc
load-set_at zero m k (j ∷ ws) h = omega (arith, ap weight (some-injective j k h))
load-set_at (suc w) m k (j ∷ ws) h = omega (arith, load-set_at w m k ws h)

load-replicate : (n : ℕ) → load (replicate n ready) ≡ n
unfolding load weight
load-replicate zero = refl
load-replicate (suc n) = omega (arith, load-replicate n)

unfinished :
    (ws : List Worker)
    → all is_finished ws ≡ false
    → (w : ℕ) × (k : Worker) × (get_elem? ws w ≡ some k) × (is_finished k ≡ false)
unfinished [] h = cc
unfinished (k ∷ ws) h = elim (Bool-cases (is_finished k)) [
  | inr open_ ↦ (0, k, refl, open_)
  | inl done ↦ let (w, m, at_, open_) = unfinished ws (ground arith) in (suc w, m, at_, open_)
]

module _ {A B E : Type 0} (items : List A) (f : A → Outcome E B) where
  measure : PoolState E B → ℕ
  measure p = 2 * (length items - p.cursor) + load p.workers

  -- The worker has not returned or thrown yet.
  abbrev pub CanMove : PoolState E B → ℕ → Type 0
  CanMove p w = (k : Worker) × (get_elem? p.workers w ≡ some k) × (is_finished k ≡ false)

  -- Each worker that the schedule names can move when its turn comes.
  abbrev pub AreMoves : List ℕ → PoolState E B → Type 0
  AreMoves [] p = Unit {0}
  AreMoves (w ∷ schedule) p = CanMove p w × AreMoves schedule (turn items f w p)

  turn-measure :
      (w : ℕ) (p : PoolState E B)
      → Inv items f p
      → CanMove p w
      → measure (turn items f w p) < measure p
  unfolding measure turn act pull settle weight is_finished
  turn-measure w p inv (finished, at_, open_) = absurd cc
  turn-measure w p inv (ready, at_, open_) = elim (Bool-cases (ltb p.cursor (length items))) [
    | inl more ↦
        rw (at_, turn, more, pull)
          (ground (arith, load-set_at w (busy p.cursor) ready p.workers at_))
    | inr none_ ↦
        rw (at_, turn, none_, pull) (ground (arith, load-set_at w finished ready p.workers at_))
  ]
  turn-measure w p inv (busy i, at_, open_) =
      let fits = inv.awaited w i at_ in
      elim (Option-cases (get_elem? items i)) [
        | inl none_ ↦ absurd (omega (arith, get_elem?-none i items none_))
        | inr (x, item) ↦ elim (Outcome-cases (f x)) [
          | inl (y, gives) ↦
              rw (at_, turn, item, act, gives, settle)
                (omega (arith, load-set_at w ready (busy i) p.workers at_))
          | inr (e, gives) ↦
              rw (at_, turn, item, act, gives, settle)
                (omega (arith, load-set_at w finished (busy i) p.workers at_))
        ]
      ]

  start-measure :
      (limit : ℕ)
      → measure (start items f limit) ≡ 2 * length items + worker_count limit (length items)
  unfolding measure start
  start-measure limit = omega (arith, load-replicate (worker_count limit (length items)))

  moves-measure :
      (schedule : List ℕ) (p : PoolState E B)
      → Inv items f p
      → AreMoves schedule p
      → length schedule + measure (run items f schedule p) ≤ measure p
  unfolding run
  moves-measure [] p inv m = omega arith
  moves-measure (w ∷ schedule) p inv (move, later) = omega (
    arith,
    turn-measure w p inv move,
    moves-measure schedule (turn items f w p) (turn-Inv items f w p inv) later,
  )

  unsettled : (p : PoolState E B) → settled items f p ≡ none → (w : ℕ) × CanMove p w
  unfolding settled
  unsettled p h = elim (Bool-cases (all is_finished p.workers)) [
    | inr open_ ↦ let (w, k, at_, moves) = unfinished p.workers open_ in (w, (k, at_, moves))
    | inl done ↦ elim (Option-cases p.failure) [
      | inl fine ↦ absurd (ground arith)
      | inr (e, failed) ↦ absurd (ground arith)
    ]
  ]

  -- The pool ends under every interleaving: a schedule of moves is no longer than twice the items and once
  -- the workers, and whenever the pool is not settled behind it some worker can move.
  pub run_ends :
      (limit : ℕ) (schedule : List ℕ)
      → AreMoves schedule (start items f limit)
      → (length schedule ≤ 2 * length items + worker_count limit (length items))
        × (settled items f (run items f schedule (start items f limit)) ≡ none
            → (w : ℕ) × CanMove (run items f schedule (start items f limit)) w)
  run_ends limit schedule m = (
    omega (
      arith,
      moves-measure schedule (start items f limit) (start-Inv items f limit) m,
      start-measure limit,
    ),
    unsettled (run items f schedule (start items f limit)),
  )
