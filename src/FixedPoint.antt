-- ===== src/FixedPoint.antt =====
-- include/hft/fixed_point.h and src/fixed_point.cpp: decimal texts to integers scaled by 10^8.
-- A byte is a number; the `int64_t` values are natural numbers, since no step yields a negative one
-- (FixedPoint/Bounds shows that none passes the largest `int64_t`).
pub mod Scaling
pub mod Grammar
pub mod Bounds
pub mod Sound
pub mod Complete
mod Tests
use ir_assignment.Prelude.{
  ℕ, zero, suc, ◌+◌, ◌-◌, ◌*◌, ◌/◌, ◌^◌, ◌≡◌, refl, Bool, not, ◌&&◌, List, [], ◌∷◌, ltb, leb, ◌==◌,
  if◌then◌else◌,
}

abbrev pub decimal_scale : ℕ
decimal_scale = 100_000_000

abbrev pub int64_max : ℕ
int64_max = 2 ^ 63 - 1

abbrev pub maximum_whole : ℕ
maximum_whole = int64_max / decimal_scale

pub data DecimalParseError : Type 0 where
  none empty missing_integer_digits missing_fractional_digits : DecimalParseError
  invalid_character non_zero_discarded_digit overflow : DecimalParseError

pub record DecimalParseResult : Type 0 where
  pub value : ℕ
  pub error : DecimalParseError

-- A stage of the parser returns early with an error, or goes on with a value.
pub data Stage (A : Type 0) : Type 0 where
  fail : DecimalParseError → Stage A
  continue : A → Stage A

infixl 5 ◌>>=◌
abbrev pub ◌>>=◌ : {A B : Type 0} → Stage A → (A → Stage B) → Stage B
fail e >>= f = fail e
continue a >>= f = f a

pub >>=-eq-continue :
    {A B : Type 0} (m : Stage A) (f : A → Stage B) {b : B}
    → (m >>= f) ≡ continue b
    → (a : A) × (m ≡ continue a) × (f a ≡ continue b)
>>=-eq-continue (fail e) f h = cc
>>=-eq-continue (continue a) f h = (a, refl, h)

abbrev pub is_ascii_digit : ℕ → Bool
is_ascii_digit c = leb b'0' c && leb c b'9'

abbrev pub digit_value : ℕ → ℕ
digit_value c = c - b'0'

abbrev pub failure : DecimalParseError → DecimalParseResult
failure e = record { value = 0; error = e }

-- The loop up to the point; the list is what `position` has not passed.
unfoldable pub scan_whole : List ℕ → ℕ → Stage (ℕ × List ℕ)
scan_whole [] whole = continue (whole, [])
scan_whole (c ∷ rest) whole =
    let next = scan_whole rest (whole * 10 + digit_value c) in
    if c == b'.'
    then continue (whole, c ∷ rest)
    else if not (is_ascii_digit c)
    then fail invalid_character
    else if ltb ((maximum_whole - digit_value c) / 10) whole
    then fail overflow
    else next

-- The loop behind the point: `fraction` and `fractional_digits`.
unfoldable pub scan_fraction : List ℕ → ℕ → ℕ → Stage (ℕ × ℕ)
scan_fraction [] fraction digits = continue (fraction, digits)
scan_fraction (c ∷ rest) fraction digits =
    let keep = scan_fraction rest (fraction * 10 + digit_value c) (digits + 1) in
    let discard = scan_fraction rest fraction (digits + 1) in
    if not (is_ascii_digit c)
    then fail invalid_character
    else if ltb digits 8
    then keep
    else if not (c == b'0')
    then fail non_zero_discarded_digit
    else discard

-- `while (fractional_digits < 8)`, by the rounds that are left.
unfoldable pub pad : ℕ → ℕ → ℕ
pad zero fraction = fraction
pad (suc rounds) fraction = pad rounds (fraction * 10)

unfoldable pub parse_fraction : List ℕ → Stage ℕ
parse_fraction [] = continue 0
parse_fraction (point ∷ []) = fail missing_fractional_digits
parse_fraction (point ∷ c ∷ rest) = do
  (fraction, digits) ← scan_fraction (c ∷ rest) 0 0
  continue (pad (8 - digits) fraction)

unfoldable pub combine : ℕ → ℕ → Stage ℕ
combine whole fraction =
    if ltb ((int64_max - fraction) / decimal_scale) whole
    then fail overflow
    else continue (whole * decimal_scale + fraction)

unfoldable pub parse_parts : List ℕ → Stage ℕ
parse_parts input = do
  (whole, rest) ← scan_whole input 0
  fraction ← parse_fraction rest
  combine whole fraction

abbrev result_of : Stage ℕ → DecimalParseResult
result_of (fail e) = failure e
result_of (continue v) = record { value = v; error = none }

unfoldable pub parse_decimal_1e8 : List ℕ → DecimalParseResult
unfolding scan_whole scan_fraction pad parse_fraction combine parse_parts
parse_decimal_1e8 [] = failure empty
parse_decimal_1e8 (c ∷ rest) =
    if c == b'.' then failure missing_integer_digits else result_of (parse_parts (c ∷ rest))
