-- ===== src/Frontend/Rule/Printing.antt =====
-- About app/frontend/src/lib/bart/rule.ts: printed texts, seen without their white space.
use bart_share.Prelude.{
  ◌∙◌, Option, throw, ℕ, refl, ok, ◌++◌, ◌>>=◌, List, ◌≡◌, Outcome, not, ◌||◌, ◌==◌, keep,
  keep-append, [], ◌∷◌, ap, sym, ok_injective, throw_injective, map, length, leb, Outcome-cases,
  inl, inr, Bool-cases, none, some, true, false,
}
use bart_share.Text.{Str, codes, join}
use bart_share.Frontend.Format.{FormatError}
use bart_share.Frontend.Rule.{
  ExchangeTerm, Connector, ExchangeNode, term, group, ExchangeNodes, end, node, RuleTree,
  participant_to_bart, require_resource, term_to_bart, connector_text, in_parens, node_to_bart,
  nodes_to_bart, key_separator_of, between_of, exchange_to_bart, condition_clause, exchange_clause,
  rule_text, print_tree,
}

-- A text without its spaces and line breaks.
abbrev pub unspaced : Str → Str
unspaced s = keep (λ c. not (c == b' ' || c == b'\n')) s

-- What an outcome shows, through a view of its value.
abbrev pub viewed : {E A B : Type 0} → (A → B) → Outcome E A → Outcome E B
viewed view m = m >>= λ a. ok (view a)

viewed->>= :
    {E A B S T : Type 0} (view : A → S) (view' : B → T) (m m' : Outcome E A)
    (f f' : A → Outcome E B)
    → viewed view m ≡ viewed view m'
    → ((a b : A) → view a ≡ view b → viewed view' (f a) ≡ viewed view' (f' b))
    → viewed view' (m >>= f) ≡ viewed view' (m' >>= f')
viewed->>= view view' (ok a) (ok b) f f' h k = k a b (ok_injective (view a) (view b) h)
viewed->>= view view' (throw d) (throw e) f f' h k = ap throw (throw_injective d e h)
viewed->>= view view' (ok a) (throw e) f f' h k = cc
viewed->>= view view' (throw d) (ok b) f f' h k = cc

unspaced-append :
    (u v s t : Str)
    → unspaced u ≡ unspaced v
    → unspaced s ≡ unspaced t
    → unspaced (u ++ s) ≡ unspaced (v ++ t)
unspaced-append u v s t h k =
    let p = λ (c : ℕ). not (c == b' ' || c == b'\n') in
    cc (keep-append p u s, keep-append p v t, h, k)

behind : (u s t : Str) → unspaced s ≡ unspaced t → unspaced (u ++ s) ≡ unspaced (u ++ t)
behind u s t k = unspaced-append u u s t refl k

unspaced-join :
    (sep sep' : Str) (ps qs : List Str)
    → unspaced sep ≡ unspaced sep'
    → map unspaced ps ≡ map unspaced qs
    → unspaced (join sep ps) ≡ unspaced (join sep' qs)
unfolding join
unspaced-join sep sep' [] [] h k = refl
unspaced-join sep sep' [] (q ∷ qs) h k = cc
unspaced-join sep sep' (p ∷ ps) [] h k = cc
unspaced-join sep sep' (p ∷ []) (q ∷ []) h k = cc
unspaced-join sep sep' (p ∷ []) (q ∷ r ∷ qs) h k = cc
unspaced-join sep sep' (p ∷ o ∷ ps) (q ∷ []) h k = cc
unspaced-join sep sep' (p ∷ o ∷ ps) (q ∷ r ∷ qs) h k =
    let head : unspaced p ≡ unspaced q = cc in
    let rest = unspaced-join sep sep' (o ∷ ps) (r ∷ qs) h cc in
    unspaced-append p q (sep ++ join sep (o ∷ ps)) (sep' ++ join sep' (r ∷ qs)) head
      (unspaced-append sep sep' (join sep (o ∷ ps)) (join sep' (r ∷ qs)) h rest)

term_text-unspaced :
    (k l to resource from : Str)
    → unspaced k ≡ unspaced l
    → unspaced (
        codes "(to:"
        ++ (to
            ++ (codes ","
                ++ (k
                    ++ (codes "resource:"
                        ++ (resource
                            ++ (codes "," ++ (k ++ (codes "from:" ++ (from ++ codes ")"))))))))))
      ≡ unspaced (
          codes "(to:"
          ++ (to
              ++ (codes ","
                  ++ (l
                      ++ (codes "resource:"
                          ++ (resource
                              ++ (codes "," ++ (l ++ (codes "from:" ++ (from ++ codes ")"))))))))))
term_text-unspaced k l to resource from h =
    let last : Str = codes "from:" ++ (from ++ codes ")") in
    let tail = λ (w : Str). codes "," ++ (w ++ last) in
    let middle = λ (w : Str). codes "," ++ (w ++ (codes "resource:" ++ (resource ++ tail w))) in
    let tails : unspaced (tail k) ≡ unspaced (tail l) =
      behind (codes ",") (k ++ last) (l ++ last) (unspaced-append k l last last h refl) in
    let named =
      behind (codes "resource:") (resource ++ tail k) (resource ++ tail l)
        (behind resource (tail k) (tail l) tails) in
    behind (codes "(to:") (to ++ middle k) (to ++ middle l) (
      behind to (middle k) (middle l) (
        behind (codes ",") (k ++ (codes "resource:" ++ (resource ++ tail k)))
          (l ++ (codes "resource:" ++ (resource ++ tail l)))
          (unspaced-append k l (codes "resource:" ++ (resource ++ tail k))
            (codes "resource:" ++ (resource ++ tail l)) h named)))

term_to_bart-unspaced :
    (k l : Str) (t : ExchangeTerm)
    → unspaced k ≡ unspaced l
    → viewed unspaced (term_to_bart k t) ≡ viewed unspaced (term_to_bart l t)
unfolding term_to_bart
term_to_bart-unspaced k l t h = elim (Outcome-cases (participant_to_bart t.to)) [
  | inr (e, to_fails) ↦ rw to_fails refl
  | inl (to, to_is) ↦ elim (Outcome-cases (participant_to_bart t.from)) [
    | inr (e, from_fails) ↦ rw (to_is, from_fails) refl
    | inl (from, from_is) ↦
        elim (Outcome-cases (require_resource t.resource (codes "an exchange"))) [
          | inr (e, fails) ↦ rw (to_is, from_is, fails) refl
          | inl (resource, is) ↦
              rw (to_is, from_is, is) (ap ok (term_text-unspaced k l to resource from h))
        ]
  ]
]

in_parens-unspaced :
    (b d : Str) (c : Connector) (ps qs : List Str)
    → unspaced b ≡ unspaced d
    → map unspaced ps ≡ map unspaced qs
    → viewed unspaced (in_parens b c ps) ≡ viewed unspaced (in_parens d c qs)
unfolding in_parens
in_parens-unspaced b d c [] [] h k = refl
in_parens-unspaced b d c [] (q ∷ qs) h k = cc
in_parens-unspaced b d c (p ∷ ps) [] h k = cc
in_parens-unspaced b d c (p ∷ ps) (q ∷ qs) h k =
    let sep = λ (w : Str). w ++ (connector_text c ++ w) in
    let seps : unspaced (sep b) ≡ unspaced (sep d) =
      unspaced-append b d (connector_text c ++ b) (connector_text c ++ d) h
        (behind (connector_text c) b d h) in
    let joined = unspaced-join (sep b) (sep d) (p ∷ ps) (q ∷ qs) seps k in
    ap ok (
      behind (codes "(") (join (sep b) (p ∷ ps) ++ codes ")") (join (sep d) (q ∷ qs) ++ codes ")") (
        unspaced-append (join (sep b) (p ∷ ps)) (join (sep d) (q ∷ qs)) (codes ")") (codes ")")
          joined refl))

mutual
  unfolding node_to_bart nodes_to_bart

  node_to_bart-unspaced :
      (k l b d : Str)
      → unspaced k ≡ unspaced l
      → unspaced b ≡ unspaced d
      → (n : ExchangeNode)
      → viewed unspaced (node_to_bart k b n) ≡ viewed unspaced (node_to_bart l d n)
  node_to_bart-unspaced k l b d h i (term t) = term_to_bart-unspaced k l t h
  node_to_bart-unspaced k l b d h i (group c ns) =
      viewed->>= (map unspaced) unspaced (nodes_to_bart k b ns) (nodes_to_bart l d ns)
        (in_parens b c) (in_parens d c) (nodes_to_bart-unspaced k l b d h i ns)
        (λ ps qs e. in_parens-unspaced b d c ps qs i e)

  nodes_to_bart-unspaced :
      (k l b d : Str)
      → unspaced k ≡ unspaced l
      → unspaced b ≡ unspaced d
      → (ns : ExchangeNodes)
      → viewed (map unspaced) (nodes_to_bart k b ns) ≡ viewed (map unspaced) (nodes_to_bart l d ns)
  nodes_to_bart-unspaced k l b d h i end = refl
  nodes_to_bart-unspaced k l b d h i (node n ns) =
      viewed->>= unspaced (map unspaced) (node_to_bart k b n) (node_to_bart l d n) _ _
        (node_to_bart-unspaced k l b d h i n)
        (λ p q e.
          viewed->>= (map unspaced) (map unspaced) (nodes_to_bart k b ns) (nodes_to_bart l d ns) _ _
            (nodes_to_bart-unspaced k l b d h i ns) (λ ps qs f. ap ok (cc (e, f))))

separators-unspaced :
    (n : ExchangeNode)
    → (unspaced (key_separator_of n true) ≡ unspaced (key_separator_of n false))
      × (unspaced (between_of true) ≡ unspaced (between_of false))
unfolding key_separator_of between_of
separators-unspaced (term t) = (refl, refl)
separators-unspaced (group c ns) = (refl, refl)

exchange_clause-unspaced :
    (exchange : Option ExchangeNode)
    → viewed (map unspaced) (exchange_clause exchange true)
      ≡ viewed (map unspaced) (exchange_clause exchange false)
unfolding exchange_clause exchange_to_bart
exchange_clause-unspaced none = refl
exchange_clause-unspaced (some n) =
    let (keys, between) = separators-unspaced n in
    viewed->>= unspaced (map unspaced) (node_to_bart (key_separator_of n true) (between_of true) n)
      (node_to_bart (key_separator_of n false) (between_of false) n) _ _
      (node_to_bart-unspaced (key_separator_of n true) (key_separator_of n false) (between_of true)
        (between_of false) keys between n)
      (λ s t e. ap (λ w. ok (w ∷ [])) (behind (codes "exchange:") s t e))

clauses-unspaced :
    (clauses ps qs : List Str)
    → map unspaced ps ≡ map unspaced qs
    → map unspaced (clauses ++ ps) ≡ map unspaced (clauses ++ qs)
clauses-unspaced [] ps qs h = h
clauses-unspaced (c ∷ clauses) ps qs h = ap (◌∷◌ (unspaced c)) (clauses-unspaced clauses ps qs h)

rule_text-unspaced :
    (resource : Str) (tree : RuleTree)
    → viewed unspaced (rule_text (codes ",\n ") resource tree true)
      ≡ viewed unspaced (rule_text (codes ", ") resource tree false)
unfolding rule_text
rule_text-unspaced resource tree =
    let before = (codes "resource:" ++ resource) ∷ condition_clause tree.condition in
    viewed->>= (map unspaced) unspaced (exchange_clause tree.exchange true)
      (exchange_clause tree.exchange false) _ _ (exchange_clause-unspaced tree.exchange)
      (λ ps qs e.
        let joined =
          unspaced-join (codes ",\n ") (codes ", ") (before ++ ps) (before ++ qs) refl
            (clauses-unspaced before ps qs e) in
        ap ok (
          behind (codes "(") (join (codes ",\n ") (before ++ ps) ++ codes ")")
            (join (codes ", ") (before ++ qs) ++ codes ")")
            (unspaced-append (join (codes ",\n ") (before ++ ps)) (join (codes ", ") (before ++ qs))
              (codes ")") (codes ")") joined refl)))

-- The rule on one line, whatever its length.
abbrev one_line_of : RuleTree → Outcome FormatError Str
one_line_of tree = require_resource tree.resource (codes "a rule") >>= λ resource.
    rule_text (codes ", ") resource tree false

print_tree-one_line :
    (tree : RuleTree) (width : ℕ)
    → viewed unspaced (print_tree tree width) ≡ viewed unspaced (one_line_of tree)
unfolding print_tree
print_tree-one_line tree width =
    elim (Outcome-cases (require_resource tree.resource (codes "a rule"))) [
      | inr (e, fails) ↦ rw fails refl
      | inl (resource, is) ↦ elim (Outcome-cases (rule_text (codes ", ") resource tree false)) [
        | inr (e, fails) ↦ rw (is, fails) refl
        | inl (line, written) ↦ elim (Bool-cases (leb (length line) width)) [
          | inl fits ↦ rw (is, written, fits) refl
          | inr long ↦
              rw (is, written, long)
                (rule_text-unspaced resource tree ∙ ap (viewed unspaced) written)
        ]
      ]
    ]

-- The width that a rule is printed for only moves white space: at any two widths printing fails with
-- the same message, or gives the same text but for spaces and line breaks.
pub print_tree-unspaced :
    (tree : RuleTree) (v w : ℕ)
    → viewed unspaced (print_tree tree v) ≡ viewed unspaced (print_tree tree w)
print_tree-unspaced tree v w = print_tree-one_line tree v ∙ sym (print_tree-one_line tree w)
