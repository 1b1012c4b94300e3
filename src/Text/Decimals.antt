-- ===== src/Text/Decimals.antt =====
-- The decimal text of a whole number, read back.
use bart_share.Prelude.{
  ◌∙◌, ap, ◌≡◌, ℕ, zero, suc, ◌+◌, ◌/◌, ◌%◌, ◌*◌, ◌-◌, ◌<◌, ltb, Bool-cases, inl, inr, all, arith,
  true, [], ◌∷◌, refl,
}
use bart_share.Text.{Str, show_digits, show_nat, is_digit}

-- A number read from decimal digits, behind `acc`.
unfoldable pub digits_number : ℕ → Str → ℕ
digits_number acc [] = acc
digits_number acc (c ∷ s) = digits_number (10 * acc + (c - 48)) s

read_show :
    (f n : ℕ) (acc : Str) → n < f → digits_number 0 (show_digits f n acc) ≡ digits_number n acc
unfolding show_digits digits_number
read_show zero n acc h = absurd (omega arith)
read_show (suc f) n acc h = elim (Bool-cases (ltb n 10)) [
  | inl small ↦ rw small (ap (λ k. digits_number k acc) (omega arith))
  | inr big ↦ rw big (
      read_show f (n / 10) ((48 + n % 10) ∷ acc) (ground arith)
      ∙ ap (λ k. digits_number k acc) (omega arith))
]

pub digits_number-show_nat : (n : ℕ) → digits_number 0 (show_nat n) ≡ n
unfolding show_nat digits_number
digits_number-show_nat n = read_show (suc n) n [] (omega arith)

show_digits-digits :
    (f n : ℕ) (acc : Str)
    → n < f
    → all is_digit acc ≡ true
    → all is_digit (show_digits f n acc) ≡ true
unfolding show_digits is_digit
show_digits-digits zero n acc h d = absurd (omega arith)
show_digits-digits (suc f) n acc h d = elim (Bool-cases (ltb n 10)) [
  | inl small ↦ rw small (ground arith)
  | inr big ↦
      rw big (show_digits-digits f (n / 10) ((48 + n % 10) ∷ acc) (ground arith) (ground arith))
]

pub show_nat-digits : (n : ℕ) → all is_digit (show_nat n) ≡ true
unfolding show_nat
show_nat-digits n = show_digits-digits (suc n) n [] (omega arith) refl

show_digits-cons :
    (f n : ℕ) (acc : Str) → n < f → (c : ℕ) × (s : Str) × (show_digits f n acc ≡ c ∷ s)
unfolding show_digits
show_digits-cons zero n acc h = absurd (omega arith)
show_digits-cons (suc f) n acc h = elim (Bool-cases (ltb n 10)) [
  | inl small ↦ (48 + n, acc, rw small)
  | inr big ↦ rw big (show_digits-cons f (n / 10) ((48 + n % 10) ∷ acc) (ground arith))
]

pub show_nat-cons : (n : ℕ) → (c : ℕ) × (s : Str) × (show_nat n ≡ c ∷ s)
unfolding show_nat
show_nat-cons n = show_digits-cons (suc n) n [] (omega arith)
