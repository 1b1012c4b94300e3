-- ===== src/Text.antt =====
-- JavaScript strings, as lists of UTF-16 code units: `===`, `<`, `join`, the default `sort`, `trim`
-- and the decimal text of a whole number.
pub mod Order
pub mod Members
pub mod Decimals
use Prim.Native.Char.{code}
use Prim.Native.String.{String}
use bart_share.Prelude.{
  ℕ, zero, suc, ◌+◌, ◌/◌, ◌%◌, ◌≡◌, refl, ◌↔◌, Bool, true, false, not, ◌&&◌, ◌||◌, List, [], ◌∷◌,
  ◌++◌, arith, ltb, leb, ◌==◌, if◌then◌else◌,
}

abbrev pub Str : Type 0
Str = List ℕ

-- The code units of a literal; every literal of the program is in the basic plane.
abbrev pub codes : String → Str
codes String.[] = []
codes (String.◌∷◌ c s) = code c ∷ codes s

-- `a === b`
unfoldable pub str_eq : Str → Str → Bool
str_eq [] [] = true
str_eq (x ∷ xs) (y ∷ ys) = x == y && str_eq xs ys
str_eq _ _ = false

-- `a <= b`, by code units.
unfoldable pub str_le : Str → Str → Bool
str_le [] ys = true
str_le (x ∷ xs) [] = false
str_le (x ∷ xs) (y ∷ ys) = ltb x y || (x == y && str_le xs ys)

-- `a < b`
unfoldable pub str_lt : Str → Str → Bool
unfolding str_le
str_lt a b = not (str_le b a)

-- `list.includes(a)` and `Set.has`, on strings.
unfoldable pub includes : Str → List Str → Bool
unfolding str_eq
includes a [] = false
includes a (x ∷ xs) = str_eq a x || includes a xs

-- `s.startsWith(prefix)`
unfoldable pub starts_with : Str → Str → Bool
starts_with s [] = true
starts_with [] (p ∷ ps) = false
starts_with (c ∷ s) (p ∷ ps) = c == p && starts_with s ps

-- `list.join(sep)`
unfoldable pub join : Str → List Str → Str
join sep [] = []
join sep (x ∷ []) = x
join sep (x ∷ y ∷ r) = x ++ (sep ++ join sep (y ∷ r))

-- `list.sort()`: the default order compares code units, and equal strings cannot be told apart.
unfoldable pub insert_sorted : Str → List Str → List Str
unfolding str_le
insert_sorted a [] = a ∷ []
insert_sorted a (x ∷ xs) =
    let rest = insert_sorted a xs in if str_le a x then a ∷ x ∷ xs else x ∷ rest

unfoldable pub sort : List Str → List Str
unfolding insert_sorted
sort [] = []
sort (x ∷ xs) = insert_sorted x (sort xs)

-- White space and line terminators of ECMAScript, which `trim` removes.
unfoldable pub is_space : ℕ → Bool
is_space c =
    (leb 9 c && leb c 13)
    || c == 32
    || c == 0xa0
    || c == 0x1680
    || (leb 0x2000 c && leb c 0x200a)
    || c == 0x2028
    || c == 0x2029
    || c == 0x202f
    || c == 0x205f
    || c == 0x3000
    || c == 0xfeff

unfoldable pub trim_start : Str → Str
unfolding is_space
trim_start [] = []
trim_start (c ∷ s) = let rest = trim_start s in if is_space c then rest else c ∷ s

-- One character in front of a text whose end is trimmed.
unfoldable pub drop_blank : ℕ → Str → Str
unfolding is_space
drop_blank c [] = if is_space c then [] else c ∷ []
drop_blank c (d ∷ r) = c ∷ d ∷ r

unfoldable pub trim_end : Str → Str
unfolding drop_blank
trim_end [] = []
trim_end (c ∷ s) = drop_blank c (trim_end s)

unfoldable pub trim : Str → Str
unfolding trim_start trim_end
trim s = trim_end (trim_start s)

-- `String(n)` of a whole number; the fuel `suc n` is more than its digits.
unfoldable pub show_digits : ℕ → ℕ → Str → Str
show_digits zero n acc = acc
show_digits (suc f) n acc =
    let more = show_digits f (n / 10) ((48 + n % 10) ∷ acc) in
    if ltb n 10 then (48 + n) ∷ acc else more

unfoldable pub show_nat : ℕ → Str
unfolding show_digits
show_nat n = show_digits (suc n) n []

unfoldable pub is_digit : ℕ → Bool
is_digit c = leb b'0' c && leb c b'9'

pub str_eq_iff : (a b : Str) → (str_eq a b ≡ true) ↔ (a ≡ b)
unfolding str_eq
str_eq_iff (x ∷ a) (y ∷ b) = ground (arith, str_eq_iff a b)
str_eq_iff _ _ = ground arith

pub str_eq_refl : (a : Str) → str_eq a a ≡ true
str_eq_refl a = (str_eq_iff a a).1 refl
