-- ===== src/Emitter/Owner.antt =====
-- About emitPolicy of app/backend/src/bart/emitter.ts: whose policy a text is.
use mathlib.Core.Path.{◌≡◌, refl, ap, ◌∙◌}
use mathlib.Core.List.{append_assoc, append-nil}
use bart_share.Emitter.Grammar.{user_id_attr, is_name, is_name_part, is_name_start, is_keyword}
use bart_share.Attrs.{scalar, text}
use bart_share.Emitter.{
  PolicyUser, policy_text, party_attrs_of, emit_scalar, emit_attrs, emit_value, emit_policy,
  emit_attr, quote, escape_all, rules_text, cleaned_rules,
}
use bart_share.Text.{Str, codes, includes, str_eq, join, is_digit}
use bart_share.Prelude.{
  List, sym, traverse-cons, >>=-eq-ok, ok_injective, ok, drop, traverse, ℕ, false, inl, inr, [],
  ◌∷◌, ◌++◌, ◌==◌, Bool-cases, arith, if◌then◌else◌,
}

-- The string that a literal stands for, read behind its opening quote.
abbrev pub literal_of : Str → Str
literal_of [] = []
literal_of (c ∷ []) = if c == b'"' then [] else c ∷ []
literal_of (c ∷ d ∷ s) =
    let behind = literal_of s in
    let rest = literal_of (d ∷ s) in
    if c == b'\\' then d ∷ behind else if c == b'"' then [] else c ∷ rest

literal_of-plain :
    (c : ℕ) (s : Str)
    → (c == b'\\') ≡ false
    → (c == b'"') ≡ false
    → literal_of (c ∷ s) ≡ c ∷ literal_of s
literal_of-plain c [] h k = rw k refl
literal_of-plain c (d ∷ s) h k = rw (h, k) refl

literal_of-closing : (s : Str) → literal_of (b'"' ∷ s) ≡ []
literal_of-closing [] = refl
literal_of-closing (d ∷ s) = refl

literal_of-escape : (a s : Str) → literal_of (escape_all b'"' (escape_all b'\\' a) ++ b'"' ∷ s) ≡ a
unfolding escape_all
literal_of-escape [] s = literal_of-closing s
literal_of-escape (c ∷ a) s = elim (Bool-cases (c == b'\\')) [
  | inl backslash ↦ ground (arith, literal_of-escape a s)
  | inr other ↦ elim (Bool-cases (c == b'"')) [
    | inl quote_ ↦ rw (other, quote_) (ap (◌∷◌ c) (literal_of-escape a s))
    | inr plain ↦
        rw (other, plain) (literal_of-plain c _ other plain ∙ ap (◌∷◌ c) (literal_of-escape a s))
  ]
]

literal_of-quoted :
    (a s : Str) → literal_of ((escape_all b'"' (escape_all b'\\' a) ++ b'"' ∷ []) ++ s) ≡ a
literal_of-quoted a s =
    ap literal_of (append_assoc (escape_all b'"' (escape_all b'\\' a)) (b'"' ∷ []) s)
    ∙ literal_of-escape a s

-- The attribute `userId`, in front of other text.
abbrev owner_attr : Str → Str
owner_attr id = b'(' ∷ (codes "userId" ++ (b':' ∷ (quote id ++ (b')' ∷ []))))

literal_of-owner :
    (id s : Str) → literal_of (drop 16 (codes "(party:" ++ (owner_attr id ++ s))) ≡ id
unfolding quote
literal_of-owner id s =
    ap literal_of (append_assoc (escape_all b'"' (escape_all b'\\' id) ++ b'"' ∷ []) (b')' ∷ []) s)
    ∙ literal_of-quoted id (b')' ∷ s)

emit_attr-owner :
    (id y : Str) → emit_attr (user_id_attr, scalar (text id)) ≡ ok y → owner_attr id ≡ y
unfolding emit_attr emit_value emit_scalar is_name is_name_part is_name_start is_digit is_keyword
    includes str_eq
emit_attr-owner id y h = ok_injective _ y h

join-front : (y : Str) (r : List Str) → (rest : Str) × (join [] (y ∷ r) ≡ y ++ rest)
unfolding join
join-front y [] = ([], sym (append-nil y))
join-front y (z ∷ r) = (join [] (z ∷ r), refl)

-- A policy's text names the id of its user, in the literal behind `(party:(userId:`.
pub emit_policy-id :
    (user : PolicyUser) (made : Str)
    → emit_policy user ≡ ok made
    → literal_of (drop 16 made) ≡ user.id
unfolding emit_policy emit_attrs party_attrs_of policy_text
emit_policy-id user made h =
    let (party, written, h1) = >>=-eq-ok (emit_attrs (party_attrs_of user.id user.attrs)) _ h in
    let (parts, each, h2) =
      >>=-eq-ok (traverse emit_attr (party_attrs_of user.id user.attrs)) _ written in
    let (y, r, first, _, cons) = traverse-cons emit_attr _ _ parts each in
    let (rest, front) = join-front y r in
    let behind : Str = codes ", rules:" ++ (rules_text (cleaned_rules user.rules) ++ codes ")") in
    let starts : party ≡ owner_attr user.id ++ rest =
      sym (ok_injective _ party h2)
      ∙ (ap (join []) cons
          ∙ (front ∙ ap (λ x. x ++ rest) (sym (emit_attr-owner user.id y first)))) in
    ap (λ x. literal_of (drop 16 x))
      (sym (ok_injective _ made h1)
        ∙ (ap (λ x. codes "(party:" ++ (x ++ behind)) starts
            ∙ ap (◌++◌ (codes "(party:")) (append_assoc (owner_attr user.id) rest behind)))
    ∙ literal_of-owner user.id (rest ++ behind)
