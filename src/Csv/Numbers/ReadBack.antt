-- ===== src/Csv/Numbers/ReadBack.antt =====
-- The integer conversions of src/csv_formatter.cpp and src/market_data_replay.cpp, one after the other.
use mathlib.Core.Option.{some}
use ir_assignment.Prelude.{
  ℕ, zero, suc, ◌+◌, ◌-◌, ◌*◌, ◌/◌, ◌%◌, ◌≤◌, ◌<◌, ◌≡◌, ◌≢◌, refl, ◌∙◌, ap, List, [], ◌∷◌, All,
  arith, ◌==◌, Bool-cases, inl, inr,
}
use ir_assignment.FixedPoint.Grammar.{IsDigit, value}
use ir_assignment.FixedPoint.Scaling.{ten_to}
use ir_assignment.Csv.Numbers.{
  ℤ, pos, negsuc, digits, print_nat, print_int, negated, read_digits, read_nat, read_int,
}

value-digits :
    (fuel n : ℕ) (out : List ℕ)
    → n < ten_to (suc fuel)
    → value 0 (digits (suc fuel) n out) ≡ value n out
unfolding digits
value-digits zero n out h = ground arith
value-digits (suc fuel) n out h = elim (Bool-cases (n / 10 == 0)) [
  | inl last ↦ rw last (ap (λ t. value t out) (ground arith))
  | inr more ↦ rw more (
      value-digits fuel (n / 10) ((b'0' + n % 10) ∷ out) (omega arith)
      ∙ ap (λ t. value t out) (omega arith))
]

digits-IsDigit : (fuel n : ℕ) (out : List ℕ) → All IsDigit out → All IsDigit (digits fuel n out)
unfolding digits
digits-IsDigit zero n out h = h
digits-IsDigit (suc fuel) n out h =
    ground (arith, h, digits-IsDigit fuel (n / 10) ((b'0' + n % 10) ∷ out) (omega arith, h))

digits-ne-nil : (fuel n : ℕ) (c : ℕ) (out : List ℕ) → digits fuel n (c ∷ out) ≢ []
unfolding digits
digits-ne-nil zero n c out = λ e. cc
digits-ne-nil (suc fuel) n c out =
    ground (arith, digits-ne-nil fuel (n / 10) (b'0' + n % 10) (c ∷ out))

pub print_nat-IsDigit : (n : ℕ) → All IsDigit (print_nat n)
unfolding print_nat
print_nat-IsDigit n = digits-IsDigit 20 n [] tt

pub print_nat-ne-nil : (n : ℕ) → print_nat n ≢ []
unfolding print_nat
print_nat-ne-nil n = ground (arith, digits-ne-nil 19 (n / 10) (b'0' + n % 10) [])

pub value-print_nat : (n : ℕ) → n < ten_to 20 → value 0 (print_nat n) ≡ n
unfolding print_nat
value-print_nat n h = value-digits 19 n [] h

read_digits-value : (s : List ℕ) (n : ℕ) → All IsDigit s → read_digits s n ≡ some (value n s)
unfolding read_digits
read_digits-value [] n h = refl
read_digits-value (c ∷ s) n (d, h) = ground (arith, read_digits-value s (n * 10 + (c - b'0')) h)

read_nat-value :
    (s : List ℕ) (max : ℕ)
    → s ≢ []
    → All IsDigit s
    → value 0 s ≤ max
    → read_nat max s ≡ some (value 0 s)
unfolding read_nat
read_nat-value [] max p d h = absurd (p refl)
read_nat-value (c ∷ s) max p d h = ground (arith, read_digits-value (c ∷ s) 0 d)

-- Every value up to `max` is read back from its print.
pub read_nat-print_nat : (max n : ℕ) → n ≤ max → n < ten_to 20 → read_nat max (print_nat n) ≡ some n
read_nat-print_nat max n h k =
    let exact = value-print_nat n k in
    read_nat-value (print_nat n) max (print_nat-ne-nil n) (print_nat-IsDigit n)
      (omega (arith, exact))
    ∙ ap some exact

-- The range of a signed integer of `w` bits, with `half` = 2 ^ (w - 1).
abbrev pub InRange : ℕ → ℤ → Type 0
InRange half (pos n) = n < half
InRange half (negsuc n) = n < half

read_nat-nil : (max n : ℕ) → read_nat max [] ≢ some n
unfolding read_nat
read_nat-nil max n e = cc

read_int-digits :
    (half : ℕ) (s : List ℕ) (n : ℕ)
    → All IsDigit s
    → read_nat (half - 1) s ≡ some n
    → read_int half s ≡ some (pos n)
unfolding read_int
read_int-digits half [] n d h = absurd (read_nat-nil (half - 1) n h)
read_int-digits half (c ∷ s) n (d, ds) h = ground (arith, h)

read_int-minus :
    (half : ℕ) (s : List ℕ) (n : ℕ)
    → read_nat half s ≡ some n
    → read_int half (b'-' ∷ s) ≡ negated (some n)
unfolding read_int
read_int-minus half s n h = rw h

-- A signed value of a width, with `half` = 2 ^ (width - 1) below 10 ^ 20, is read back from its print.
pub read_int-print_int :
    (half : ℕ) (z : ℤ) → InRange half z → half < ten_to 20 → read_int half (print_int z) ≡ some z
unfolding print_int
read_int-print_int half (pos n) h k =
    read_int-digits half (print_nat n) n (print_nat-IsDigit n)
      (read_nat-print_nat (half - 1) n (omega arith) (omega arith))
read_int-print_int half (negsuc n) h k =
    read_int-minus half (print_nat (suc n)) (suc n)
      (read_nat-print_nat half (suc n) h (omega arith))
