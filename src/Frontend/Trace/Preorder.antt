-- ===== src/Frontend/Trace/Preorder.antt =====
-- About parseTrace and flattenTrace of app/frontend/src/lib/bart/trace.ts: the order of the nodes.
use mathlib.Core.Path.{subst}
use mathlib.Core.List.{append_assoc, append-nil}
use bart_share.Prelude.{
  ℕ, zero, suc, ◌≡◌, ◌==◌, ◌⊎◌, inl, inr, Bool-cases, none, some, List, [], ◌∷◌, ◌++◌, take, drop,
  arith, refl, ap, sym, ◌∙◌, if◌then◌else◌,
}
use bart_share.Text.{Str, str_eq, trim}
use bart_share.Frontend.Trace.{
  TraceLine, TraceNode, trace_node, TraceNodes, no_nodes, first_node, push, push_below, push_child,
  flatten_line, flatten_trace, Stack, last_some, find_ancestor, put_at, Parsing, line_of, add_line,
  attach, parse_lines, split_lines, parse_trace,
}
use bart_share.Frontend.Trace.Order.{
  IsBelow, AreBelow, Chain, Chain-front, last_of, flatten-push, Chain-push, Chain-push_child,
}

-- The ids on the stack.
abbrev somes : Stack → List ℕ
somes [] = []
somes (none ∷ s) = somes s
somes (some i ∷ s) = i ∷ somes s

somes-put_at :
    (depth id : ℕ) (s : Stack) → somes (put_at depth id s) ≡ somes (take depth s) ++ id ∷ []
unfolding put_at
somes-put_at zero id s = refl
somes-put_at (suc depth) id [] =
    somes-put_at depth id [] ∙ ap (λ (x : Stack). somes x ++ id ∷ []) (take_nothing depth)
  where
    take_nothing : (n : ℕ) → ◌≡◌ {A = Stack} (take n []) []
    take_nothing zero = refl
    take_nothing (suc n) = refl
somes-put_at (suc depth) id (none ∷ s) = somes-put_at depth id s
somes-put_at (suc depth) id (some i ∷ s) = ap (◌∷◌ i) (somes-put_at depth id s)

somes-take : (depth : ℕ) (s : Stack) → somes s ≡ somes (take depth s) ++ somes (drop depth s)
somes-take zero s = refl
somes-take (suc depth) [] = refl
somes-take (suc depth) (none ∷ s) = somes-take depth s
somes-take (suc depth) (some i ∷ s) = ap (◌∷◌ i) (somes-take depth s)

-- Nothing is on the stack, or the ancestor is the last that is.
last_some-cases :
    (s : Stack)
    → ((last_some s ≡ none) × (somes s ≡ []))
      ⊎ ((j : ℕ) × (js : List ℕ) × (somes s ≡ j ∷ js) × (last_some s ≡ some (last_of j js)))
unfolding last_some
last_some-cases [] = inl (refl, refl)
last_some-cases (none ∷ s) = elim (last_some-cases s) [
  | inl (nothing, empty) ↦ inl (rw (nothing, last_some) refl, empty)
  | inr (j, js, there, last) ↦ inr (j, js, there, rw (last, last_some) refl)
]
last_some-cases (some i ∷ s) = elim (last_some-cases s) [
  | inl (nothing, empty) ↦ inr (i, [], ap (◌∷◌ i) empty, rw (nothing, last_some) refl)
  | inr (j, js, there, last) ↦ inr (i, j ∷ js, ap (◌∷◌ i) there, rw (last, last_some) refl)
]

mutual
  suc-IsBelow : (c : ℕ) (m : TraceNode) → IsBelow c m → IsBelow (suc c) m
  suc-IsBelow c (trace_node l ch) (h, hs) = (omega arith, suc-AreBelow c ch hs)

  suc-AreBelow : (c : ℕ) (ms : TraceNodes) → AreBelow c ms → AreBelow (suc c) ms
  suc-AreBelow c no_nodes h = tt
  suc-AreBelow c (first_node m ms) (h, hs) = (suc-IsBelow c m h, suc-AreBelow c ms hs)

push-AreBelow :
    (c : ℕ) (n : TraceNode) (ms : TraceNodes) → IsBelow c n → AreBelow c ms → AreBelow c (push n ms)
unfolding push
push-AreBelow c n no_nodes h b = (h, tt)
push-AreBelow c n (first_node m ms) h (b, bs) = (b, push-AreBelow c n ms h bs)

mutual
  unfolding push_below push_child

  push_below-IsBelow :
      (c i : ℕ) (n m : TraceNode) → IsBelow c n → IsBelow c m → IsBelow c (push_below i n m)
  push_below-IsBelow c i n (trace_node l ch) h (b, bs) = elim (Bool-cases (l.id == i)) [
    | inl here ↦ rw here (b, push-AreBelow c n ch h bs)
    | inr there ↦ rw there (b, push_child-AreBelow c i n ch h bs)
  ]

  push_child-AreBelow :
      (c i : ℕ) (n : TraceNode) (ms : TraceNodes)
      → IsBelow c n
      → AreBelow c ms
      → AreBelow c (push_child i n ms)
  push_child-AreBelow c i n no_nodes h b = tt
  push_child-AreBelow c i n (first_node m ms) h (b, bs) =
      (push_below-IsBelow c i n m h b, push_child-AreBelow c i n ms h bs)

-- The stack holds nodes on the way to the last one, and the ids are fresh.
abbrev IsParsing : Parsing → Type 0
IsParsing p = Chain (somes p.stack) p.roots × AreBelow p.counter p.roots

-- What adding a line does.
abbrev Adds : TraceLine → Parsing → Parsing → Type 0
Adds line p q = IsParsing q × (flatten_trace q.roots ≡ flatten_trace p.roots ++ line ∷ [])

leaf-IsBelow : (line : TraceLine) (c : ℕ) → line.id ≡ c → IsBelow (suc c) (trace_node line no_nodes)
leaf-IsBelow line c h = (omega (arith, h), tt)

add_line-Adds :
    (line : TraceLine) (p : Parsing)
    → line.id ≡ p.counter
    → IsParsing p
    → Adds line p (add_line line p)
unfolding add_line find_ancestor flatten_line flatten_trace attach
add_line-Adds line p fresh (chain, below) = elim (last_some-cases (take line.depth p.stack)) [
  | inl (nothing, empty) ↦
      let stack : somes (put_at line.depth line.id p.stack) ≡ line.id ∷ [] =
        somes-put_at line.depth line.id p.stack ∙ ap (λ (x : List ℕ). x ++ line.id ∷ []) empty in
      rw (nothing, stack)
        (
          (
            Chain-push line p.roots fresh_below,
            push-AreBelow (suc p.counter) leaf p.roots (leaf-IsBelow line p.counter fresh)
                (suc-AreBelow p.counter p.roots below),
          ),
          flatten-push leaf p.roots,
        )
  | inr (j, js, there, last) ↦
      let stack : somes (put_at line.depth line.id p.stack) ≡ j ∷ (js ++ line.id ∷ []) =
        somes-put_at line.depth line.id p.stack ∙ ap (λ (x : List ℕ). x ++ line.id ∷ []) there in
      let kept : Chain (j ∷ js) p.roots =
        Chain-front (j ∷ js) (somes (drop line.depth p.stack)) p.roots (
          subst (λ x. Chain x p.roots)
            (somes-take line.depth p.stack
              ∙ ap (λ (x : List ℕ). x ++ somes (drop line.depth p.stack)) there)
            chain) in
      let (longer, same) = Chain-push_child line j js p.roots kept fresh_below in
      rw (last, stack)
        (
          (
            longer,
            push_child-AreBelow (suc p.counter) (last_of j js) leaf p.roots
                (leaf-IsBelow line p.counter fresh) (suc-AreBelow p.counter p.roots below),
          ),
          same,
        )
]
  where
    leaf : TraceNode
    leaf = trace_node line no_nodes

    fresh_below : AreBelow line.id p.roots
    fresh_below = subst (λ c. AreBelow c p.roots) (sym fresh) below

-- The lines that are not blank, numbered.
abbrev pub numbered : ℕ → List Str → List TraceLine
numbered c [] = []
numbered c (line ∷ lines) =
    let later = numbered (suc c) lines in
    let same = numbered c lines in if str_eq (trim line) [] then same else line_of c line ∷ later

parse_lines-flatten :
    (lines : List Str) (p : Parsing)
    → IsParsing p
    → flatten_trace (parse_lines lines p).roots ≡ flatten_trace p.roots ++ numbered p.counter lines
unfolding parse_lines
parse_lines-flatten [] p h = sym (append-nil (flatten_trace p.roots))
parse_lines-flatten (line ∷ lines) p h = elim (Bool-cases (str_eq (trim line) [])) [
  | inl blank ↦ rw blank (parse_lines-flatten lines p h)
  | inr text ↦
      let here = line_of p.counter line in
      let (inv, same) = add_line-Adds here p (unfold line_of in refl) h in
      rw text (
        parse_lines-flatten lines (add_line here p) inv
        ∙ (ap (λ (x : List TraceLine). x ++ numbered (add_line here p).counter lines) same
            ∙ append_assoc (flatten_trace p.roots) (here ∷ [])
                (numbered (add_line here p).counter lines)))
]

-- The tree keeps the printed order: flattening what the trace is parsed to gives each line of it that is
-- not blank, once, in the order printed, whatever the indentation.
pub parse_trace-flatten :
    (raw : Str) → flatten_trace (parse_trace raw) ≡ numbered 0 (split_lines raw)
unfolding parse_trace flatten_trace
parse_trace-flatten raw =
    parse_lines-flatten (split_lines raw) (record { roots = no_nodes; stack = []; counter = 0 })
      (tt, tt)
