-- ===== src/Context/Providers.antt =====
-- app/backend/src/bart/context: the registry, its keys, and the three providers. What the database
-- answers to a provider's query is a parameter, `Queries`.
use bart_share.Prelude.{ℕ, ◌+◌, List, [], ◌∷◌, ◌++◌, map, if◌then◌else◌}
use bart_share.Text.{Str, codes, str_eq, sort}
use bart_share.Number.{number_of}
use bart_share.Attrs.{text, num, scalar, collection, BartAttrs}

pub record ContextKeyDoc : Type 0 where
  pub name : Str
  pub description : Str
  pub example : Str

-- The instant of the evaluation, by its UTC fields; `month` counts from 0, as `getUTCMonth` does.
pub record EvalContext : Type 0 where
  pub year : ℕ
  pub month : ℕ
  pub day : ℕ

-- A provider of the registry, by what it asks.
pub data Kind : Type 0 where
  date connections groups : Kind

pub record ContextProvider : Type 0 where
  pub name : Str
  pub kind : Kind
  pub keys : List ContextKeyDoc

-- `Map<string, BartAttrs>`, in insertion order.
abbrev pub Contribution : Type 0
Contribution = List (Str × BartAttrs)

-- `User.findAll` of both providers: for some of the ids asked, the row's id and the ids of its
-- connections or of its groups.
pub record Queries : Type 0 where
  pub connection_rows : List Str → List (Str × List Str)
  pub group_rows : List Str → List (Str × List Str)

abbrev pub connections_provider : ContextProvider
connections_provider = record {
  name = codes "connections";
  kind = connections;
  keys =
      record {
        name = codes "connections";
        description = codes "The ids of everyone you are connected to. Connections are mutual.";
        example = codes "requester.userId in connections";
      }
      ∷ [];
}

abbrev pub date_provider : ContextProvider
date_provider = record {
  name = codes "date";
  kind = date;
  keys =
      record {
        name = codes "date_year";
        description = codes "The UTC year at evaluation time.";
        example = codes "date_year > 2025";
      }
      ∷ record {
        name = codes "date_month";
        description = codes "The UTC month at evaluation time, 1-12.";
        example = codes "date_month = 12";
      }
      ∷ record {
        name = codes "date_day";
        description = codes "The UTC day of the month at evaluation time.";
        example = codes "date_day <= 15";
      }
      ∷ [];
}

abbrev pub groups_provider : ContextProvider
groups_provider = record {
  name = codes "groups";
  kind = groups;
  keys =
      record {
        name = codes "groups";
        description = codes "The ids of every group joined by the referenced user.";
        example = codes "\"<groupId>\" in requester.groups";
      }
      ∷ [];
}

-- CONTEXT_PROVIDERS
abbrev pub context_providers : List ContextProvider
context_providers = date_provider ∷ connections_provider ∷ groups_provider ∷ []

unfoldable pub key_names : List ContextKeyDoc → List Str
key_names [] = []
key_names (k ∷ ks) = k.name ∷ key_names ks

unfoldable pub keys_of_all : List ContextProvider → List Str
unfolding key_names
keys_of_all [] = []
keys_of_all (p ∷ ps) = key_names p.keys ++ keys_of_all ps

unfoldable pub provider_keys : List Str
unfolding keys_of_all
provider_keys = keys_of_all context_providers

-- `Map.set`
unfoldable pub map_set : Str → BartAttrs → Contribution → Contribution
unfolding str_eq
map_set k v [] = (k, v) ∷ []
map_set k v ((j, w) ∷ m) =
    let rest = map_set k v m in if str_eq k j then (j, v) ∷ m else (j, w) ∷ rest

-- `new Map(partyIds.map(id => [id, attrs]))`
unfoldable pub same_for_all : List Str → BartAttrs → Contribution → Contribution
unfolding map_set
same_for_all [] attrs m = m
same_for_all (id ∷ ids) attrs m = same_for_all ids attrs (map_set id attrs m)

-- The attribute object with the one collection of a row.
unfoldable pub id_collection : Str → List Str → BartAttrs
unfolding sort
id_collection key ids = (key, collection (map text (sort ids))) ∷ []

-- `for (const user of users) byId.set(user.id, ...)`
unfoldable pub set_rows : Str → List (Str × List Str) → Contribution → Contribution
unfolding map_set id_collection
set_rows key [] m = m
set_rows key ((id, ids) ∷ rows) m = set_rows key rows (map_set id (id_collection key ids) m)

unfoldable pub rows_contribution : Str → List Str → List (Str × List Str) → Contribution
unfolding set_rows same_for_all
rows_contribution key ids rows = set_rows key rows (same_for_all ids ((key, collection []) ∷ []) [])

unfoldable pub date_attrs : EvalContext → BartAttrs
unfolding number_of
date_attrs now =
    (codes "date_year", scalar (num (number_of now.year)))
    ∷ (codes "date_month", scalar (num (number_of (now.month + 1))))
    ∷ (codes "date_day", scalar (num (number_of now.day)))
    ∷ []

unfoldable pub contribute_as : Kind → Queries → List Str → EvalContext → Contribution
unfolding rows_contribution date_attrs
contribute_as date db ids now = same_for_all ids (date_attrs now) []
contribute_as connections db ids now =
    rows_contribution (codes "connections") ids (db.connection_rows ids)
contribute_as groups db ids now = rows_contribution (codes "groups") ids (db.group_rows ids)

unfoldable pub contribute : ContextProvider → Queries → List Str → EvalContext → Contribution
unfolding contribute_as
contribute p = contribute_as p.kind
