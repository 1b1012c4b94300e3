-- ===== src/Attrs.antt =====
-- The value domain of app/backend/src/bart/types.ts: attribute objects as their entries, in the
-- order of `Object.entries`. An own key stands once.
use bart_share.Prelude.{true, Bool, List, [], ◌∷◌, Option, none, some, if◌then◌else◌}
use bart_share.Text.{Str, codes, str_eq, includes}
use bart_share.Number.{Number}

pub data BartScalar : Type 0 where
  text : Str → BartScalar
  num : Number → BartScalar
  boolean : Bool → BartScalar

pub data BartValue : Type 0 where
  scalar : BartScalar → BartValue
  collection : List BartScalar → BartValue

abbrev pub BartAttrs : Type 0
BartAttrs = List (Str × BartValue)

-- `Object.keys`
unfoldable pub keys {ℓ} : {V : Type ℓ} → List (Str × V) → List Str
keys [] = []
keys ((k, v) ∷ r) = k ∷ keys r

-- An own property, by key.
unfoldable pub own {ℓ} : {V : Type ℓ} → Str → List (Str × V) → Option V
unfolding str_eq
own k [] = none
own k ((j, v) ∷ r) = if str_eq k j then some v else own k r

-- The names that every object literal inherits from `Object.prototype`.
abbrev pub prototype_names : List Str
prototype_names =
    codes "constructor"
    ∷ codes "__defineGetter__"
    ∷ codes "__defineSetter__"
    ∷ codes "hasOwnProperty"
    ∷ codes "__lookupGetter__"
    ∷ codes "__lookupSetter__"
    ∷ codes "isPrototypeOf"
    ∷ codes "propertyIsEnumerable"
    ∷ codes "toString"
    ∷ codes "valueOf"
    ∷ codes "__proto__"
    ∷ codes "toLocaleString"
    ∷ []

unfoldable pub inherited : Str → Bool
unfolding includes
inherited k = includes k prototype_names

-- `key in attrs`: an own key, or an inherited one.
unfoldable pub is_in : Str → BartAttrs → Bool
unfolding own
is_in k attrs = elim (own k attrs) [ some _ ↦ true | none ↦ inherited k ]
