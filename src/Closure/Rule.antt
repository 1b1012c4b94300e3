-- ===== src/Closure/Rule.antt =====
-- About app/backend/src/bart/closure.ts: which parties a seed reaches through policies, and the
-- loop.
use mathlib.Core.Path.{subst}
use mathlib.Core.List.{append-nil, append_assoc}
use bart_share.Text.{Str, includes}
use bart_share.Text.Order.{IsSorted, sort-IsSorted}
use bart_share.Text.Members.{In-sort, includes_iff}
use bart_share.Closure.{
  suc, party_closure, sort, loop, PartyPattern, PartyIndex, Found, scan_results, add_all, round,
  frontier_of,
}
use bart_share.Closure.Exact.{HitBy, Named, scan_results-mem}
use bart_share.Closure.Terminates.{round-Grows}
use bart_share.Prelude.{
  List-cases, Outcome-cases, keep-eq-nil, zero, suc, throw-ne-ok, List-cases, ℕ, keep-eq-nil, ◌∙◌,
  ap, sym, ◌++◌, arith, not, ◌≡◌, ◌⊎◌, ◌↔◌, List, In, In-append, In-of_keep, Exists, Exists-cons,
  [], ◌∷◌, inl, inr, Bool-cases, Outcome, ok, throw, traverse, >>=-eq-ok, map,
}

-- The parties that the seed reaches by a relation "the policy of this one names that one".
pub data Reach (Names : Str → Str → Type 0) (seed : List Str) : Str → Type 0 where
  seeded : {id : Str} → In id seed → Reach Names seed id
  named : {owner id : Str} → Reach Names seed owner → Names owner id → Reach Names seed id

In-add_all : (s xs : List Str) (id : Str) → In id (add_all s xs) ↔ (In id s ⊎ In id xs)
unfolding add_all
In-add_all s [] id = (inl, elim [ inl m ↦ m | inr n ↦ absurd n ])
In-add_all s (x ∷ xs) id = elim (Bool-cases (includes x s)) [
  | inl old ↦ rw old (ground (arith, In-add_all s xs id, includes_iff x s))
  | inr new ↦ rw new (ground (arith, In-add_all (s ++ x ∷ []) xs id, In-append id s (x ∷ [])))
]

-- The policy text of a party can be had, and one of its patterns matches the other party's entry.
abbrev pub NamesBy :
    {E : Type 0}
    → (Str → Outcome E Str)
    → (Str → List PartyPattern)
    → PartyIndex
    → Str
    → Str
    → Type 0
NamesBy policy_text_of patterns_of index owner id =
    (text : Str) × ((policy_text_of owner ≡ ok text) × HitBy index id (patterns_of text))

-- Two lists of facts that agree at their heads and in their rests.
both : {A B C D F G : Type 0} → A ↔ (B ⊎ C) → D ↔ (F ⊎ G) → B ↔ F → C ↔ G → A ↔ D
both f g h k = (
  λ a. elim (f.0 a) [ inl b ↦ g.1 (inl (h.0 b)) | inr c ↦ g.1 (inr (k.0 c)) ],
  λ d. elim (g.0 d) [ inl b ↦ f.1 (inl (h.1 b)) | inr c ↦ f.1 (inr (k.1 c)) ],
)

chain_iff : {A B C D : Type 0} → A ↔ (B ⊎ C) → C ↔ D → A ↔ (B ⊎ D)
chain_iff f g = (
  λ a. elim (f.0 a) [ inl b ↦ inl b | inr c ↦ inr (g.0 c) ],
  elim [ inl b ↦ f.1 (inl b) | inr d ↦ f.1 (inr (g.1 d)) ],
)

-- The value of a call that returned.
abbrev get_ok : {E : Type 0} → Found → Outcome E Found → Found
get_ok d (ok s) = s
get_ok d (throw e) = d

frontier-member :
    (analysed : List Str) (s : Found) (id : Str) → In id (frontier_of analysed s) → In id s.members
unfolding frontier_of
frontier-member analysed s id m = In-of_keep (λ (x : Str). not (includes x analysed)) id s.members m

module _ {E : Type 0} (analyze : List Str → List Str → Outcome E (List (List PartyPattern)))
    (policy_text_of : Str → Outcome E Str) (index : PartyIndex)
    (patterns_of : Str → List PartyPattern)
    (batch : (asked texts : List Str) (results : List (List PartyPattern))
      → analyze asked texts ≡ ok results
      → results ≡ map patterns_of texts)
    (seed : List Str) where
  abbrev Names : Str → Str → Type 0
  Names = NamesBy policy_text_of patterns_of index

  head_named :
      (x t id : Str) → policy_text_of x ≡ ok t → HitBy index id (patterns_of t) ↔ Names x id
  head_named x t id e = (
    λ h. (t, (e, h)),
    λ (u, (e', h)). let same : u ≡ t = cc in subst (λ w. HitBy index id (patterns_of w)) same h,
  )

  -- What the analysis of a frontier finds is what the policies of the frontier name.
  frontier-Named :
      (frontier texts : List Str) (id : Str)
      → traverse policy_text_of frontier ≡ ok texts
      → Named index id (map patterns_of texts) ↔ Exists (λ owner. Names owner id) frontier
  frontier-Named [] [] id e = (λ h. absurd h.1.0, λ h. absurd h.1.0)
  frontier-Named [] (t ∷ ts) id e = absurd (ground arith)
  frontier-Named (x ∷ r) texts id e =
      let (t, read, later) = >>=-eq-ok (policy_text_of x) _ e in
      let (ts, rest, same) = >>=-eq-ok (traverse policy_text_of r) _ later in
      let list : t ∷ ts ≡ texts = cc in
      subst (λ w. Named index id (map patterns_of w) ↔ Exists (λ owner. Names owner id) (x ∷ r))
        list
        (both (Exists-cons (HitBy index id) (patterns_of t) (map patterns_of ts))
          (Exists-cons (λ owner. Names owner id) x r) (head_named x t id read)
          (frontier-Named r ts id rest))

  record Inv (analysed : List Str) (s : Found) : Type 0 where
    sound : (id : Str) → In id s.members → Reach Names seed id
    closed : (owner id : Str) → In owner analysed → Names owner id → In id s.members
    split : s.members ≡ add_all [] seed ++ s.discovered

  Inv-start : Inv [] (record { members = add_all [] seed; discovered = [] })
  Inv-start = record {
    sound = λ id m. elim ((In-add_all [] seed id).0 m) [ inl n ↦ absurd n | inr n ↦ seeded n ];
    closed = λ owner id m n. absurd m;
    split = sym (append-nil (add_all [] seed));
  }

  -- The members behind a round: those before it, and those that the frontier's policies name.
  round-mem :
      (analysed : List Str) (s t : Found) (frontier : List Str) (id : Str)
      → round analyze policy_text_of index analysed frontier s ≡ ok t
      → In id t.members ↔ (In id s.members ⊎ Exists (λ owner. Names owner id) frontier)
  unfolding round
  round-mem analysed s t frontier id e =
      let (texts, read, later) = >>=-eq-ok (traverse policy_text_of frontier) _ e in
      let (results, found, same) = >>=-eq-ok (analyze (analysed ++ frontier) texts) _ later in
      let after : scan_results index (map patterns_of texts) s ≡ t =
        ap (λ rs. scan_results index rs s) (sym (batch (analysed ++ frontier) texts results found))
        ∙ ap (get_ok t) same in
      subst (λ u. In id u.members ↔ (In id s.members ⊎ Exists (λ owner. Names owner id) frontier))
        after
        (chain_iff (scan_results-mem index (map patterns_of texts) s id)
          (frontier-Named frontier texts id read))

  Inv-round :
      (analysed : List Str) (s t : Found) (frontier : List Str)
      → frontier_of analysed s ≡ frontier
      → round analyze policy_text_of index analysed frontier s ≡ ok t
      → Inv analysed s
      → Inv (analysed ++ frontier) t
  Inv-round analysed s t frontier front e inv =
      let g = round-Grows analyze policy_text_of index analysed frontier s t e in
      record {
        sound = λ id m. elim ((round-mem analysed s t frontier id e).0 m) [
          | inl old ↦ inv.sound id old
          | inr (owner, (there, n)) ↦
              named (inv.sound owner (frontier-member analysed s owner (rw front there))) n
        ];
        closed = λ owner id m n.
            (round-mem analysed s t frontier id e).1
              (elim ((In-append owner analysed frontier).0 m) [
                | inl before ↦ inl (inv.closed owner id before n)
                | inr now ↦ inr (owner, (now, n))
              ]);
        split =
            g.members_are
            ∙ rw (inv.split, g.discovered_are) (append_assoc (add_all [] seed) s.discovered g.new);
      }

  -- Where the loop returns, nothing is left to analyse, and the invariant holds.
  loop_rule :
      (fuel : ℕ) (analysed : List Str) (s : Found) (found : List Str)
      → Inv analysed s
      → loop analyze policy_text_of index fuel analysed s ≡ ok found
      → (analysed' : List Str) × (t : Found) × Inv analysed' t
        × (frontier_of analysed' t ≡ [])
        × (found ≡ t.discovered)
  unfolding loop
  loop_rule zero analysed s found inv e = cc
  loop_rule (suc fuel) analysed s found inv e = elim (List-cases (frontier_of analysed s)) [
    | inl empty ↦ (analysed, s, inv, empty, cc (rw (empty, loop) at e))
    | inr (x, r, front) ↦
        elim (Outcome-cases (round analyze policy_text_of index analysed (x ∷ r) s)) [
          | inl (t, done) ↦
              loop_rule fuel (analysed ++ x ∷ r) t found
                (Inv-round analysed s t (x ∷ r) front done inv) (rw (front, loop, done) at e)
          | inr (error, thrown) ↦ absurd (throw-ne-ok _ _ (rw (front, loop, thrown) at e))
        ]
  ]

  -- A member of the last state is in the result, and the other way round.
  result-mem :
      (s : Found) (found : List Str) (id : Str)
      → s.members ≡ add_all [] seed ++ s.discovered
      → found ≡ s.discovered
      → In id (seed ++ sort found) ↔ In id s.members
  result-mem s found id split same =
      rw (split, same)
        (ground (
          arith,
          In-append id seed (sort s.discovered),
          In-append id (add_all [] seed) s.discovered,
          In-add_all [] seed id,
          In-sort id s.discovered,
        ))

  reached :
      (analysed : List Str) (s : Found) (id : Str)
      → Inv analysed s
      → frontier_of analysed s ≡ []
      → Reach Names seed id
      → In id s.members
  unfolding frontier_of
  reached analysed s id inv empty (seeded m) =
      rw inv.split
        ((In-append id (add_all [] seed) s.discovered).1 (inl ((In-add_all [] seed id).1 (inr m))))
  reached analysed s id inv empty (named {owner = owner} r n) =
      let there = reached analysed s owner inv empty r in
      let off = keep-eq-nil (λ (x : Str). not (includes x analysed)) owner s.members empty there in
      inv.closed owner id ((includes_iff owner analysed).0 (ground arith)) n

  -- A closure that returns has the seed first, in its order, and behind it ids in ascending order;
  -- an id is among them exactly when the seed reaches it through the policies of the parties found,
  -- no party missing and none too many. This supposes that the evaluator analyses each policy text of
  -- a batch on its own and answers in the order asked.
  pub party_closure_exact :
      (out : List Str)
      → party_closure analyze policy_text_of index seed ≡ ok out
      → (found : List Str) × (out ≡ seed ++ sort found)
        × IsSorted (sort found)
        × ((id : Str) → In id out ↔ Reach Names seed id)
  unfolding party_closure
  party_closure_exact out e =
      let (found, run, same) = >>=-eq-ok (loop analyze policy_text_of index _ [] _) _ e in
      let (analysed, t, inv, empty, is) = loop_rule _ [] _ found Inv-start run in
      let out_is : seed ++ sort found ≡ out = cc in
      (
        found,
        sym out_is,
        sort-IsSorted found,
        λ id.
            subst (λ w. In id w ↔ Reach Names seed id) out_is
              (
                λ m. inv.sound id ((result-mem t found id inv.split is).0 m),
                λ r. (result-mem t found id inv.split is).1 (reached analysed t id inv empty r),
              ),
      )
