-- ===== src/Context/Report.antt =====
-- app/backend/src/bart/context/report.ts: what the engine will see for one user, told to that user.
pub mod Vocabulary
use bart_share.Prelude.{◌>>=◌, ◌++◌, ◌∷◌, [], Outcome, Option, List, none, some, ok, map}
use bart_share.Text.{Str, codes, join}
use bart_share.Number.{number_text}
use bart_share.Attrs.{BartScalar, text, num, boolean, BartValue, scalar, collection, BartAttrs, own}
use bart_share.Emitter.{bool_text}
use bart_share.Context.{ContextError, merge_contributions, contributions_of}
use bart_share.Context.Providers.{
  Queries, EvalContext, ContextKeyDoc, ContextProvider, context_providers,
}

pub record ContextName : Type 0 where
  pub key : Str
  pub provided_by : Str
  pub description : Str
  pub example : Str

pub record NamedId : Type 0 where
  pub id : Str
  pub shown : Str

-- `display` and the rest; `shown` is a connection's username and a group's name.
pub record ContextReport : Type 0 where
  pub values : BartAttrs
  pub connections : List NamedId
  pub groups : List NamedId
  pub names : List ContextName

-- `value.filter(v => typeof v === 'string')`
unfoldable pub strings_of : List BartScalar → List Str
strings_of [] = []
strings_of (text s ∷ vs) = s ∷ strings_of vs
strings_of (num n ∷ vs) = strings_of vs
strings_of (boolean b ∷ vs) = strings_of vs

unfoldable pub as_ids : Option BartValue → List Str
unfolding strings_of
as_ids (some (collection vs)) = strings_of vs
as_ids (some (scalar v)) = []
as_ids none = []

-- `String(value)`
unfoldable pub scalar_text : BartScalar → Str
scalar_text (text s) = s
scalar_text (num n) = number_text n
scalar_text (boolean b) = bool_text b

unfoldable pub value_text : Option BartValue → Str
unfolding scalar_text
value_text none = codes "undefined"
value_text (some (scalar v)) = scalar_text v
value_text (some (collection vs)) = join (codes ",") (map scalar_text vs)

unfoldable pub names_of : ContextProvider → List ContextKeyDoc → List ContextName
names_of provider [] = []
names_of provider (k ∷ ks) =
    record {
      key = k.name;
      provided_by = provider.name;
      description = k.description;
      example = k.example;
    }
    ∷ names_of provider ks

unfoldable pub all_names : List ContextProvider → List ContextName
unfolding names_of
all_names [] = []
all_names (p ∷ ps) = names_of p p.keys ++ all_names ps

-- The two lookups of the ids: `User.findAll` and `Group.findAll`.
pub record Displays : Type 0 where
  pub users_by_id : List Str → List (Str × BartAttrs)
  pub groups_by_id : List Str → List (Str × Str)

unfoldable pub user_shown : Str × BartAttrs → NamedId
unfolding value_text
user_shown (id, attrs) = record { id = id; shown = value_text (own (codes "username") attrs) }

unfoldable pub group_shown : Str × Str → NamedId
group_shown (id, name) = record { id = id; shown = name }

unfoldable pub report_of : Displays → BartAttrs → ContextReport
unfolding as_ids user_shown group_shown all_names
report_of displays values = record {
  values = values;
  connections = map user_shown (displays.users_by_id (as_ids (own (codes "connections") values)));
  groups = map group_shown (displays.groups_by_id (as_ids (own (codes "groups") values)));
  names = all_names context_providers;
}

unfoldable pub build_context_report :
    Queries → Displays → Str → EvalContext → Outcome ContextError ContextReport
unfolding report_of
build_context_report db displays user_id now =
    merge_contributions user_id (contributions_of db (user_id ∷ []) now) >>= λ values.
    ok (report_of displays values)
