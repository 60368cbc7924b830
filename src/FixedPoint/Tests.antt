-- ===== src/FixedPoint/Tests.antt =====
-- Runs of the decimal parser, as in tests/fixed_point_test.cpp, and its theorems at an input.
use Prim.Native.Char.{code}
use Prim.Native.String.{String}
use ir_assignment.Prelude.{ℕ, ◌≤◌, ◌*◌, ◌≡◌, refl, List, [], ◌∷◌, arith}
use ir_assignment.FixedPoint.{
  parse_decimal_1e8, failure, none, overflow, non_zero_discarded_digit, missing_fractional_digits,
  int64_max, decimal_scale,
}
use ir_assignment.FixedPoint.Scaling.{ten_to}
use ir_assignment.FixedPoint.Grammar.{IsDecimal, precision, numerator}
use ir_assignment.FixedPoint.Complete.{parse_decimal_1e8_sound, parse_decimal_1e8_complete}

abbrev codes : String → List ℕ
codes String.[] = []
codes (String.◌∷◌ c s) = code c ∷ codes s

-- 12.5
abbrev twelve_and_a_half : List ℕ
twelve_and_a_half = b'1' ∷ b'2' ∷ b'.' ∷ b'5' ∷ []

reads_halves : parse_decimal_1e8 twelve_and_a_half ≡ record { value = 1_250_000_000; error = none }
unfolding parse_decimal_1e8
reads_halves = refl

reads_zeros :
    parse_decimal_1e8 (codes "1.0000000100") ≡ record { value = 100_000_001; error = none }
unfolding parse_decimal_1e8
reads_zeros = refl

refuses_ninth_digit : parse_decimal_1e8 (codes "1.000000001") ≡ failure non_zero_discarded_digit
unfolding parse_decimal_1e8
refuses_ninth_digit = refl

refuses_bare_point : parse_decimal_1e8 (codes "1.") ≡ failure missing_fractional_digits
unfolding parse_decimal_1e8
refuses_bare_point = refl

reads_maximum :
    parse_decimal_1e8 (codes "92233720368.54775807") ≡ record { value = int64_max; error = none }
unfolding parse_decimal_1e8
reads_maximum = refl

refuses_above_maximum : parse_decimal_1e8 (codes "92233720368.54775808") ≡ failure overflow
unfolding parse_decimal_1e8
refuses_above_maximum = refl

half-IsDecimal : IsDecimal twelve_and_a_half
half-IsDecimal = record {
  whole_present = λ e. cc;
  whole_digits = omega arith;
  fraction_present = λ e. cc;
  fraction_digits = omega arith;
}

parse_decimal_1e8_sound_example :
    IsDecimal twelve_and_a_half
    × ((parse_decimal_1e8 twelve_and_a_half).value * ten_to (precision twelve_and_a_half)
        ≡ numerator twelve_and_a_half * decimal_scale)
    × ((parse_decimal_1e8 twelve_and_a_half).value ≤ int64_max)
unfolding parse_decimal_1e8
parse_decimal_1e8_sound_example = parse_decimal_1e8_sound twelve_and_a_half refl

parse_decimal_1e8_complete_example :
    parse_decimal_1e8 twelve_and_a_half ≡ record { value = 1_250_000_000; error = none }
parse_decimal_1e8_complete_example =
    parse_decimal_1e8_complete twelve_and_a_half 1_250_000_000 half-IsDecimal refl (omega arith)
