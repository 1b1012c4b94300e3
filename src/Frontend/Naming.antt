-- ===== src/Frontend/Naming.antt =====
-- app/frontend/src/lib/bart/naming.ts and roster.ts: what the editor calls a resource, a user, and
-- the part that a party took in a decision.
pub mod Shown
use bart_share.Prelude.{
  ◌||◌, ◌==◌, if◌then◌else◌, not, Bool, List, ◌++◌, Option, ℕ, none, some, take, keep, length, map,
  [], ◌∷◌, true, false,
}
use bart_share.Text.{Str, codes, includes, str_eq, join, trim, show_nat}
use bart_share.Number.{number_text}
use bart_share.Attrs.{BartScalar, text, num, boolean, BartValue, scalar, collection, BartAttrs, own}
use bart_share.Emitter.{bool_text}
use bart_share.Frontend.Format.{reserved_keys}

-- `String(value)` of an element, as `join` takes it too.
unfoldable pub element_text : BartScalar → Str
element_text (text s) = s
element_text (num n) = number_text n
element_text (boolean b) = bool_text b

unfoldable pub display_value : BartValue → Str
unfolding element_text
display_value (collection vs) = join (codes ", ") (map element_text vs)
display_value (scalar v) = element_text v

unfoldable pub first_values : BartAttrs → ℕ → List Str
unfolding display_value
first_values attrs count =
    map (λ e. display_value e.1) (take count (keep (λ e. not (includes e.0 reserved_keys)) attrs))

unfoldable pub short_id : Str → Str
short_id id = take 8 id

-- A resource's `metadata.name`; `none` is a name that is missing or no string.
pub record NamedResource : Type 0 where
  pub id : Str
  pub name : Option Str

unfoldable pub resource_name : NamedResource → Str
unfolding short_id
resource_name r = elim r.name [
  | none ↦ codes "Resource " ++ short_id r.id
  | some name ↦ if not (str_eq (trim name) []) then name else codes "Resource " ++ short_id r.id
]

-- What is shown without a username.
unfoldable pub composed_name : Str → List Str → Str
unfolding short_id
composed_name id [] = codes "User " ++ short_id id
composed_name id (value ∷ values) = value

unfoldable pub user_name : Str → BartAttrs → Str
unfolding composed_name first_values
user_name id attrs = elim (own (codes "username") attrs) [
  | some (scalar (text (c ∷ s))) ↦ c ∷ s
  | _ ↦ composed_name id (first_values attrs 1)
]

-- What the roster reads of a party: its number from 1, and its lane in the diagram, if it has one.
pub record PartyRef : Type 0 where
  pub index : ℕ
  pub lane : Option ℕ

pub data PartyStatus : Type 0 where
  requester involved candidate absent : PartyStatus

-- `matched.has(n)`
unfoldable pub has_number : ℕ → List ℕ → Bool
has_number n [] = false
has_number n (m ∷ ms) = n == m || has_number n ms

unfoldable pub has_lane : PartyRef → Bool
has_lane party = elim party.lane [ none ↦ false | some n ↦ true ]

unfoldable pub party_status : PartyRef → List ℕ → PartyStatus
unfolding has_number has_lane
party_status party matched =
    if party.index == 1
    then requester
    else if has_lane party
    then involved
    else if has_number party.index matched
    then candidate
    else absent

unfoldable pub hidden_count : List PartyRef → ℕ
unfolding has_lane
hidden_count parties = length (keep (λ p. not (has_lane p)) parties)

unfoldable pub roster_summary : List PartyRef → Str
unfolding hidden_count
roster_summary parties =
    let total =
      show_nat (length parties)
      ++ (codes " " ++ (if length parties == 1 then codes "party" else codes "parties")) in
    if hidden_count parties == 0
    then total
    else total ++ (codes ", " ++ (show_nat (hidden_count parties) ++ codes " not involved"))
