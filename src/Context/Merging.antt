-- ===== src/Context/Merging.antt =====
-- About mergeContributions of app/backend/src/bart/context/index.ts, on the registry's providers.
use bart_share.Text.{Str, str_eq, str_eq_iff, codes, includes, sort}
use bart_share.Attrs.{BartScalar, scalar, collection, BartAttrs, own, keys, is_in, inherited}
use bart_share.Number.{number_of}
use bart_share.Context.Providers.{
  ContextProvider, Contribution, EvalContext, Queries, map_set, same_for_all, set_rows,
  rows_contribution, id_collection, date_attrs, contribute_as, contribute, provider_keys,
}
use bart_share.Context.{copy_into, given, merge_onto, merge_contributions, contributions_of}
use bart_share.Prelude.{
  ap, ◌⊎◌, ◌≡◌, In, ◌+◌, List, [], ◌∷◌, map, some, none, Option, refl, arith, ok, Bool-cases, inl,
  inr, if◌then◌else◌,
}

own-map_set :
    (j k : Str) (v : BartAttrs) (m : Contribution)
    → own j (map_set k v m) ≡ (if str_eq j k then some v else own j m)
unfolding own map_set
own-map_set j k v [] = refl
own-map_set j k v ((i, w) ∷ m) =
    ground (arith, str_eq_iff k i, str_eq_iff j k, str_eq_iff j i, own-map_set j k v m)

own-same_for_all :
    (id : Str) (ids : List Str) (attrs : BartAttrs) (m : Contribution)
    → In id ids ⊎ (own id m ≡ some attrs)
    → own id (same_for_all ids attrs m) ≡ some attrs
unfolding same_for_all
own-same_for_all id [] attrs m (inl h) = absurd h
own-same_for_all id [] attrs m (inr h) = h
own-same_for_all id (x ∷ ids) attrs m h =
    own-same_for_all id ids attrs (map_set x attrs m)
      (ground (arith, own-map_set id x attrs m, str_eq_iff id x))

-- Every entry of a contribution of rows is the one collection of its key.
abbrev OneCollection : Str → Option BartAttrs → Type 0
OneCollection key none = ⊥
OneCollection key (some attrs) =
    (ids : List Str) × (attrs ≡ (key, collection (map BartScalar.text ids)) ∷ [])

set_rows-OneCollection :
    (key id : Str) (rows : List (Str × List Str)) (m : Contribution)
    → OneCollection key (own id m)
    → OneCollection key (own id (set_rows key rows m))
unfolding set_rows id_collection
set_rows-OneCollection key id [] m h = h
set_rows-OneCollection key id ((x, xs) ∷ rows) m h =
    set_rows-OneCollection key id rows (map_set x (id_collection key xs) m)
      (elim (Bool-cases (str_eq id x)) [
        | inl hit ↦ rw (own-map_set id x (id_collection key xs) m, hit) (sort xs, refl)
        | inr miss ↦ rw (own-map_set id x (id_collection key xs) m, miss) h
      ])

rows_contribution-OneCollection :
    (key id : Str) (ids : List Str) (rows : List (Str × List Str))
    → In id ids
    → OneCollection key (own id (rows_contribution key ids rows))
unfolding rows_contribution
rows_contribution-OneCollection key id ids rows m =
    set_rows-OneCollection key id rows (same_for_all ids ((key, collection []) ∷ []) [])
      (rw (own-same_for_all id ids ((key, collection []) ∷ []) [] (inl m)) ([], refl))

given_collection :
    (key : Str) (o : Option BartAttrs)
    → OneCollection key o
    → (ids : List Str) × (o ≡ some ((key, collection (map BartScalar.text ids)) ∷ []))
given_collection key none h = absurd h
given_collection key (some attrs) (ids, e) = (ids, ap some e)

-- What one party's bag is, from the registry.
abbrev pub bag : EvalContext → List Str → List Str → BartAttrs
bag now cs gs =
    (codes "date_year", scalar (BartScalar.num (number_of now.year)))
    ∷ (codes "date_month", scalar (BartScalar.num (number_of (now.month + 1))))
    ∷ (codes "date_day", scalar (BartScalar.num (number_of now.day)))
    ∷ (codes "connections", collection (map BartScalar.text cs))
    ∷ (codes "groups", collection (map BartScalar.text gs))
    ∷ []

merge_three :
    (id : Str) (now : EvalContext) (cs gs : List Str) (p q r : ContextProvider)
    (a b c : Contribution)
    → own id a ≡ some (date_attrs now)
    → own id b ≡ some ((codes "connections", collection (map BartScalar.text cs)) ∷ [])
    → own id c ≡ some ((codes "groups", collection (map BartScalar.text gs)) ∷ [])
    → merge_contributions id ((p, a) ∷ (q, b) ∷ (r, c) ∷ []) ≡ ok (bag now cs gs)
unfolding merge_contributions merge_onto copy_into is_in own date_attrs inherited str_eq includes
merge_three id now cs gs p q r a b c ha hb hc = rw (ha, given, hb, hc) refl

pub bag_merged :
    (db : Queries) (ids : List Str) (now : EvalContext) (id : Str)
    → In id ids
    → (cs : List Str) × (gs : List Str) × (merge_contributions id (contributions_of db ids now)
        ≡ ok (bag now cs gs))
unfolding contributions_of contribute contribute_as
bag_merged db ids now id m =
    let (cs, hc) =
      given_collection (codes "connections") _
        (rows_contribution-OneCollection (codes "connections") id ids (db.connection_rows ids) m) in
    let (gs, hg) =
      given_collection (codes "groups") _
        (rows_contribution-OneCollection (codes "groups") id ids (db.group_rows ids) m) in
    (
      cs,
      gs,
      merge_three id now cs gs _ _ _ _ _ _ (own-same_for_all id ids (date_attrs now) [] (inl m)) hc
          hg,
    )

-- For a party asked about, the registry's providers never claim one key twice, and its bag has
-- exactly their keys, whatever the database answers: rows missing, repeated or for other ids.
pub merge_contributions_total :
    (db : Queries) (ids : List Str) (now : EvalContext) (id : Str)
    → In id ids
    → (merged : BartAttrs) × (merge_contributions id (contributions_of db ids now) ≡ ok merged)
      × (keys merged ≡ provider_keys)
unfolding keys provider_keys
merge_contributions_total db ids now id m =
    let (cs, gs, merged) = bag_merged db ids now id m in (bag now cs gs, merged, refl)
