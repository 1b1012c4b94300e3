-- ===== src/Number.antt =====
-- JavaScript numbers as `String()` sees them. A finite double is named by the shortest decimal
-- digits that give it back, which is what `Number::toString` prints: `decimal neg ds p` stands for
-- 0.ds * 10^p, with no zero at either end of `ds`, and no digit at all for zero.
pub mod Reading
use bart_share.Prelude.{
  ℕ, zero, suc, ◌+◌, ◌-◌, ◌*◌, ◌^◌, Bool, true, false, ◌&&◌, List, [], ◌∷◌, ◌++◌, ltb, leb, ◌==◌,
  if◌then◌else◌, length, take, drop, replicate,
}
use bart_share.Text.{Str, codes, str_eq, show_nat}

-- The place of the decimal point, an integer: `negsuc n` is -(n + 1).
pub data ℤ : Type 0 where
  pos : ℕ → ℤ
  negsuc : ℕ → ℤ

pub data Number : Type 0 where
  nan : Number
  infinity : Bool → Number
  decimal : Bool → List ℕ → ℤ → Number

-- `Number.isFinite`
unfoldable pub is_finite : Number → Bool
is_finite nan = false
is_finite (infinity neg) = false
is_finite (decimal neg ds p) = true

-- Digits to text, most significant first.
unfoldable pub digit_text : List ℕ → Str
digit_text [] = []
digit_text (d ∷ ds) = (48 + d) ∷ digit_text ds

abbrev sign_text : Bool → Str
sign_text true = b'-' ∷ []
sign_text false = []

-- d.ddde±x, for a point far from the digits.
pub exponent_text : List ℕ → Bool → ℕ → Str
unfolding digit_text
exponent_text [] neg e = []
exponent_text (d ∷ []) neg e = (48 + d) ∷ b'e' ∷ (if neg then b'-' else b'+') ∷ show_nat e
exponent_text (d ∷ x ∷ ds) neg e =
    (48 + d) ∷ b'.' ∷ (digit_text (x ∷ ds) ++ (b'e' ∷ (if neg then b'-' else b'+') ∷ show_nat e))

-- `Number::toString` of the ECMAScript standard, without the sign.
unfoldable pub magnitude_text : List ℕ → ℤ → Str
unfolding digit_text exponent_text
magnitude_text [] p = b'0' ∷ []
magnitude_text (d ∷ ds) (pos zero) = b'0' ∷ b'.' ∷ digit_text (d ∷ ds)
magnitude_text (d ∷ ds) (pos (suc n)) =
    if leb (length (d ∷ ds)) (suc n) && leb (suc n) 21
    then digit_text (d ∷ ds) ++ replicate (suc n - length (d ∷ ds)) b'0'
    else if leb (suc n) 21
    then digit_text (take (suc n) (d ∷ ds)) ++ (b'.' ∷ digit_text (drop (suc n) (d ∷ ds)))
    else exponent_text (d ∷ ds) false n
magnitude_text (d ∷ ds) (negsuc n) =
    if ltb n 5
    then b'0' ∷ b'.' ∷ (replicate (suc n) b'0' ++ digit_text (d ∷ ds))
    else exponent_text (d ∷ ds) true (n + 2)

-- `String(v)`. Both zeros print as "0".
unfoldable pub number_text : Number → Str
unfolding magnitude_text
number_text nan = codes "NaN"
number_text (infinity neg) = sign_text neg ++ codes "Infinity"
number_text (decimal neg [] p) = b'0' ∷ []
number_text (decimal neg (d ∷ ds) p) = sign_text neg ++ magnitude_text (d ∷ ds) p

-- `Number.isInteger`: no digit stands behind the point.
unfoldable pub is_integer : Number → Bool
is_integer nan = false
is_integer (infinity neg) = false
is_integer (decimal neg [] p) = true
is_integer (decimal neg (d ∷ ds) (pos n)) = leb (length (d ∷ ds)) n
is_integer (decimal neg (d ∷ ds) (negsuc n)) = false

unfoldable pub digits_value : ℕ → List ℕ → ℕ
digits_value acc [] = acc
digits_value acc (d ∷ ds) = digits_value (10 * acc + d) ds

-- The absolute value of a whole number.
unfoldable pub whole_value : List ℕ → ℤ → ℕ
unfolding digits_value
whole_value ds (pos n) = digits_value 0 ds * 10 ^ (n - length ds)
whole_value ds (negsuc n) = digits_value 0 ds

-- 2^53 - 1
abbrev pub max_safe_integer : ℕ
max_safe_integer = 9007199254740991

-- `Number.isSafeInteger`
unfoldable pub is_safe_integer : Number → Bool
unfolding is_integer whole_value
is_safe_integer nan = false
is_safe_integer (infinity neg) = false
is_safe_integer (decimal neg ds p) =
    is_integer (decimal neg ds p) && leb (whole_value ds p) max_safe_integer

unfoldable pub digits_eq : List ℕ → List ℕ → Bool
unfolding str_eq
digits_eq a b = str_eq a b

unfoldable pub point_eq : ℤ → ℤ → Bool
point_eq (pos a) (pos b) = a == b
point_eq (negsuc a) (negsuc b) = a == b
point_eq _ _ = false

unfoldable pub bool_eq : Bool → Bool → Bool
bool_eq true true = true
bool_eq false false = true
bool_eq _ _ = false

-- `a === b`: NaN equals nothing, and the two zeros are equal.
unfoldable pub number_eq : Number → Number → Bool
unfolding digits_eq point_eq bool_eq
number_eq (infinity a) (infinity b) = bool_eq a b
number_eq (decimal a [] p) (decimal b [] q) = true
number_eq (decimal a (d ∷ ds) p) (decimal b (e ∷ es) q) =
    bool_eq a b && (digits_eq (d ∷ ds) (e ∷ es) && point_eq p q)
number_eq _ _ = false

-- The number with this decimal text: the zeros at its end are not digits of it.
unfoldable pub drop_zero : ℕ → List ℕ → List ℕ
drop_zero d [] = if d == 0 then [] else d ∷ []
drop_zero d (e ∷ es) = d ∷ e ∷ es

unfoldable pub trim_zeros : List ℕ → List ℕ
unfolding drop_zero
trim_zeros [] = []
trim_zeros (d ∷ ds) = drop_zero d (trim_zeros ds)

unfoldable pub text_digits : Str → List ℕ
text_digits [] = []
text_digits (c ∷ s) = (c - 48) ∷ text_digits s

-- A whole number that JavaScript holds exactly.
unfoldable pub number_of : ℕ → Number
unfolding trim_zeros text_digits show_nat
number_of n = decimal false (trim_zeros (text_digits (show_nat n))) (pos (length (show_nat n)))
