-- ===== src/Frontend/Trace/Order.antt =====
-- About parseTrace of app/frontend/src/lib/bart/trace.ts: where a node is put.
use mathlib.Core.List.{append_assoc, append-nil}
use bart_share.Prelude.{
  ℕ, ◌<◌, true, false, ◌≡◌, ◌==◌, ◌⊎◌, inl, inr, List, [], ◌∷◌, ◌++◌, arith, refl, ap, sym, ◌∙◌,
}
use bart_share.Frontend.Trace.{
  TraceLine, TraceNode, trace_node, TraceNodes, no_nodes, first_node, push, push_below, push_child,
  flatten_line, flatten_trace,
}

-- The ids are below a number.
abbrev mutual
  pub IsBelow : ℕ → TraceNode → Type 0
  IsBelow c (trace_node l ch) = (l.id < c) × AreBelow c ch

  pub AreBelow : ℕ → TraceNodes → Type 0
  AreBelow c no_nodes = Unit {0}
  AreBelow c (first_node m ms) = IsBelow c m × AreBelow c ms

-- The id is not there.
abbrev mutual
  pub IsAbsent : ℕ → TraceNode → Type 0
  IsAbsent i (trace_node l ch) = ((l.id == i) ≡ false) × AreAbsent i ch

  pub AreAbsent : ℕ → TraceNodes → Type 0
  AreAbsent i no_nodes = Unit {0}
  AreAbsent i (first_node m ms) = IsAbsent i m × AreAbsent i ms

abbrev pub NoneIs : List ℕ → ℕ → Type 0
NoneIs [] i = Unit {0}
NoneIs (j ∷ js) i = ((i == j) ≡ false) × NoneIs js i

abbrev pub AllAbsent : List ℕ → TraceNode → Type 0
AllAbsent [] m = Unit {0}
AllAbsent (j ∷ js) m = IsAbsent j m × AllAbsent js m

-- These ids stand one below the other on the way to the last node, and nowhere else.
abbrev pub Chain : List ℕ → TraceNodes → Type 0
Chain [] ns = Unit {0}
Chain (j ∷ js) no_nodes = ⊥
Chain (j ∷ js) (first_node (trace_node l ch) no_nodes) =
    (((l.id == j) ≡ true) × NoneIs js l.id × Chain js ch)
    ⊎ (NoneIs (j ∷ js) l.id × Chain (j ∷ js) ch)
Chain (j ∷ js) (first_node m (first_node n ns)) =
    AllAbsent (j ∷ js) m × Chain (j ∷ js) (first_node n ns)

mutual
  below-IsAbsent : (c : ℕ) (m : TraceNode) → IsBelow c m → IsAbsent c m
  below-IsAbsent c (trace_node l ch) (h, hs) = (ground arith, below-AreAbsent c ch hs)

  below-AreAbsent : (c : ℕ) (ms : TraceNodes) → AreBelow c ms → AreAbsent c ms
  below-AreAbsent c no_nodes h = tt
  below-AreAbsent c (first_node m ms) (h, hs) = (below-IsAbsent c m h, below-AreAbsent c ms hs)

mutual
  unfolding push_below push_child

  push_below-absent : (i : ℕ) (n m : TraceNode) → IsAbsent i m → push_below i n m ≡ m
  push_below-absent i n (trace_node l ch) (h, hs) =
      rw h (ap (trace_node l) (push_child-absent i n ch hs))

  push_child-absent :
      (i : ℕ) (n : TraceNode) (ms : TraceNodes) → AreAbsent i ms → push_child i n ms ≡ ms
  push_child-absent i n no_nodes h = refl
  push_child-absent i n (first_node m ms) (h, hs) =
      rw (push_below-absent i n m h, push_child-absent i n ms hs) refl

pub flatten-push :
    (n : TraceNode) (ms : TraceNodes)
    → flatten_trace (push n ms) ≡ flatten_trace ms ++ flatten_line n
unfolding push flatten_trace flatten_line
flatten-push n no_nodes = append-nil (flatten_line n)
flatten-push n (first_node m ms) =
    ap (◌++◌ (flatten_line m)) (flatten-push n ms)
    ∙ sym (append_assoc (flatten_line m) (flatten_trace ms) (flatten_line n))

NoneIs-front : (js ks : List ℕ) (i : ℕ) → NoneIs (js ++ ks) i → NoneIs js i
NoneIs-front [] ks i h = tt
NoneIs-front (j ∷ js) ks i (h, hs) = (h, NoneIs-front js ks i hs)

-- Dropping the ids at the end.
pub Chain-front : (js ks : List ℕ) (ns : TraceNodes) → Chain (js ++ ks) ns → Chain js ns
Chain-front [] ks ns h = tt
Chain-front (j ∷ js) ks no_nodes h = absurd h
Chain-front (j ∷ js) ks (first_node (trace_node l ch) no_nodes) (inl (e, o, h)) =
    inl (e, NoneIs-front js ks l.id o, Chain-front js ks ch h)
Chain-front (j ∷ js) ks (first_node (trace_node l ch) no_nodes) (inr (o, h)) =
    inr (NoneIs-front (j ∷ js) ks l.id o, Chain-front (j ∷ js) ks ch h)
Chain-front (j ∷ js) ks (first_node m (first_node n ns)) (a, h) =
    (front_absent (j ∷ js) ks m a, Chain-front (j ∷ js) ks (first_node n ns) h)
  where
    front_absent : (js ks : List ℕ) (m : TraceNode) → AllAbsent (js ++ ks) m → AllAbsent js m
    front_absent [] ks m h = tt
    front_absent (j ∷ js) ks m (h, hs) = (h, front_absent js ks m hs)

abbrev pub last_of : ℕ → List ℕ → ℕ
last_of j [] = j
last_of j (k ∷ ks) = last_of k ks

NoneIs-last : (j : ℕ) (js : List ℕ) (i : ℕ) → NoneIs (j ∷ js) i → (i == last_of j js) ≡ false
NoneIs-last j [] i (h, _) = h
NoneIs-last j (k ∷ ks) i (_, h) = NoneIs-last k ks i h

IsAbsent-last :
    (j : ℕ) (js : List ℕ) (m : TraceNode) → AllAbsent (j ∷ js) m → IsAbsent (last_of j js) m
IsAbsent-last j [] m (h, _) = h
IsAbsent-last j (k ∷ ks) m (_, h) = IsAbsent-last k ks m h

NoneIs-append : (js : List ℕ) (c i : ℕ) → NoneIs js i → i < c → NoneIs (js ++ c ∷ []) i
NoneIs-append [] c i h l = (ground arith, tt)
NoneIs-append (j ∷ js) c i (h, hs) l = (h, NoneIs-append js c i hs l)

absent-append :
    (js : List ℕ) (c : ℕ) (m : TraceNode)
    → AllAbsent js m
    → IsBelow c m
    → AllAbsent (js ++ c ∷ []) m
absent-append [] c m h b = (below-IsAbsent c m b, tt)
absent-append (j ∷ js) c m (h, hs) b = (h, absent-append js c m hs b)

-- A new node at the end of the roots.
pub Chain-push :
    (line : TraceLine) (ns : TraceNodes)
    → AreBelow line.id ns
    → Chain (line.id ∷ []) (push (trace_node line no_nodes) ns)
unfolding push
Chain-push line no_nodes b = inl (ground arith, tt, tt)
Chain-push line (first_node m no_nodes) (b, _) =
    ((below-IsAbsent line.id m b, tt), inl (ground arith, tt, tt))
Chain-push line (first_node m (first_node n ns)) (b, bs) =
    ((below-IsAbsent line.id m b, tt), Chain-push line (first_node n ns) bs)

one_root :
    (l line : TraceLine) (more ch : TraceNodes)
    → flatten_trace more ≡ flatten_trace ch ++ line ∷ []
    → l ∷ (flatten_trace more ++ []) ≡ l ∷ ((flatten_trace ch ++ []) ++ line ∷ [])
one_root l line more ch h = ap (◌∷◌ l) (
    append-nil (flatten_trace more)
    ∙ (h ∙ ap (λ x. x ++ line ∷ []) (sym (append-nil (flatten_trace ch)))))

-- A new node below the last of a chain.
pub Chain-push_child :
    (line : TraceLine) (j : ℕ) (js : List ℕ) (ns : TraceNodes)
    → Chain (j ∷ js) ns
    → AreBelow line.id ns
    → let more = push_child (last_of j js) (trace_node line no_nodes) ns in
      Chain (j ∷ (js ++ line.id ∷ [])) more × (flatten_trace more ≡ flatten_trace ns ++ line ∷ [])
unfolding push_child push_below flatten_trace flatten_line
Chain-push_child line j js no_nodes h b = absurd h
Chain-push_child line j [] (first_node (trace_node l ch) no_nodes) (inl (e, o, h)) ((b, bs), _) =
    rw e (
      inl (refl, (ground arith, tt), Chain-push line ch bs),
      one_root l line (push (trace_node line no_nodes) ch) ch
          (flatten-push (trace_node line no_nodes) ch),
    )
Chain-push_child line j (k ∷ ks) (first_node (trace_node l ch) no_nodes) (inl (e, o, h))
      ((b, bs), _) =
    let (chain, same) = Chain-push_child line k ks ch h bs in
    rw (NoneIs-last k ks l.id o) (
      inl (e, NoneIs-append (k ∷ ks) line.id l.id o b, chain),
      one_root l line (push_child (last_of k ks) (trace_node line no_nodes) ch) ch same,
    )
Chain-push_child line j js (first_node (trace_node l ch) no_nodes) (inr (o, h)) ((b, bs), _) =
    let (chain, same) = Chain-push_child line j js ch h bs in
    rw (NoneIs-last j js l.id o) (
      inr (NoneIs-append (j ∷ js) line.id l.id o b, chain),
      one_root l line (push_child (last_of j js) (trace_node line no_nodes) ch) ch same,
    )
Chain-push_child line j js (first_node m (first_node n ns)) (a, h) (b, bs) =
    let (chain, same) = Chain-push_child line j js (first_node n ns) h bs in
    rw (push_below-absent (last_of j js) (trace_node line no_nodes) m (IsAbsent-last j js m a)) (
      (absent-append (j ∷ js) line.id m a b, chain),
      ap (◌++◌ (flatten_line m)) same
          ∙ sym (append_assoc (flatten_line m) (flatten_trace (first_node n ns)) (line ∷ [])),
    )
