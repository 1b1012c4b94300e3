-- ===== src/Number/Reading.antt =====
-- `Number(text)` of ECMAScript, on decimal texts: the nearest double, ties to the even one, named by its
-- shortest decimal. A double is kept as the natural number that it is of 2^-2000.
use bart_share.Prelude.{
  List, true, false, ◌&&◌, ◌||◌, true, [], ltb, leb, ◌^◌, ◌-◌, ◌%◌, ◌==◌, false, ◌∷◌, Bool, Option,
  if◌then◌else◌, ◌*◌, ◌+◌, ◌/◌, ℕ, zero, suc, none, some, length,
}
use bart_share.Text.{Str, is_digit}
use bart_share.Number.{
  Number, decimal, infinity, ℤ, pos, negsuc, digits_value, text_digits, trim_zeros,
}

-- How many binary digits a number has; the fuel is at least that many.
unfoldable pub bit_length : ℕ → ℕ → ℕ
bit_length zero n = 0
bit_length (suc fuel) n = elim (n == 0) [ true ↦ 0 | false ↦ suc (bit_length fuel (n / 2)) ]

-- The decimal digits of a number before those given; the fuel is at least as many.
unfoldable pub digits_of : ℕ → ℕ → List ℕ → List ℕ
digits_of zero n ds = ds
digits_of (suc fuel) n ds = elim (n == 0) [
  | true ↦ ds
  | false ↦ digits_of fuel (n / 10) (n % 10 ∷ ds)
]

-- The quotient, rounded to the nearest, ties to even.
unfoldable pub round_even : ℕ → ℕ → ℕ
round_even a b =
    let q = a / b in let r = 2 * (a % b) in if ltb b r || (r == b && q % 2 == 1) then q + 1 else q

-- The exponent, from -2000, at which n/d has 53 binary digits before the point, or the least one of
-- a double.
unfoldable pub exponent_of : ℕ → ℕ → ℕ
unfolding bit_length
exponent_of n d =
    let guess = bit_length 100000 n + 1947 - bit_length 100000 d in
    let least = if ltb guess 926 then 926 else guess in
    if leb (2 ^ 53) (n * 2 ^ 2000 / (d * 2 ^ least)) then least + 1 else least

-- The double nearest to n/d.
unfoldable pub nearest_double : ℕ → ℕ → ℕ
unfolding exponent_of round_even
nearest_double n d = let k = exponent_of n d in round_even (n * 2 ^ 2000) (d * 2 ^ k) * 2 ^ k

unfoldable pub point_at : ℕ → ℤ
point_at n = if leb 400 n then pos (n - 400) else negsuc (399 - n)

-- The first candidate of these many digits that reads back as `v`, the nearer of the two first.
unfoldable pub candidate : ℕ → ℕ → ℕ → Option ℕ
unfolding nearest_double
candidate v size k =
    let a = v * 10 ^ (k + 400) in
    let b = 2 ^ 2000 * 10 ^ size in
    let low = a / b in
    let nearer = if leb (2 * (a % b)) b then low else low + 1 in
    let farther = if leb (2 * (a % b)) b then low + 1 else low in
    if nearest_double (nearer * 10 ^ size) (10 ^ (k + 400)) == v
    then some nearer
    else if nearest_double (farther * 10 ^ size) (10 ^ (k + 400)) == v
    then some farther
    else none

-- The digits of the shortest candidate, and where the point stands before them. Seventeen digits are
-- always enough.
unfoldable pub shortest : ℕ → ℕ → ℕ → ℕ → ℕ × ℕ
unfolding candidate digits_of
shortest zero v size k = (0, size)
shortest (suc fuel) v size k = elim (candidate v size k) [
  | some c ↦ (c, size + length (digits_of 100000 c []) - k)
  | none ↦ shortest fuel v size (suc k)
]

-- The name of a double: its size is that of its decimal text, from -400.
unfoldable pub name_of : Bool → ℕ → Number
unfolding shortest point_at digits_of trim_zeros
name_of neg v =
    if v == 0
    then decimal neg [] (pos 0)
    else if leb (2 ^ 3024) v
    then infinity neg
    else let (c, size) = shortest 17 v (length (digits_of 100000 (v * 10 ^ 400 / 2 ^ 2000) [])) 1 in
      decimal neg (trim_zeros (digits_of 100000 c [])) (point_at size)

-- The digits of a text, and how many stand behind its point.
unfoldable pub only_digits : Str → Str
only_digits [] = []
only_digits (c ∷ s) = let rest = only_digits s in if is_digit c then c ∷ rest else rest

unfoldable pub digits_behind : Str → ℕ
digits_behind [] = 0
digits_behind (c ∷ s) = let rest = digits_behind s in if c == b'.' then length s else rest

unfoldable pub read_unsigned : Bool → Str → Number
unfolding name_of nearest_double only_digits digits_behind
read_unsigned neg s =
    name_of neg
      (nearest_double (digits_value 0 (text_digits (only_digits s))) (10 ^ digits_behind s))

-- `Number(text)`, for a text of the form -?\d+(\.\d+)?
unfoldable pub to_number : Str → Number
unfolding read_unsigned
to_number [] = decimal false [] (pos 0)
to_number (c ∷ s) = if c == b'-' then read_unsigned true s else read_unsigned false (c ∷ s)
