-- ===== src/Csv/Numbers.antt =====
-- The integer conversions of the standard library that src/csv_formatter.cpp and
-- src/market_data_replay.cpp use: `std::to_chars` and `std::from_chars` in base ten.
pub mod ReadBack
use Prim.Native.Nat.{◌^◌}
use mathlib.Core.Option.{Option, some}
use mathlib.Core.Option
use ir_assignment.Prelude.{
  ℕ, zero, suc, ◌+◌, ◌-◌, ◌*◌, ◌/◌, ◌%◌, Bool, true, false, not, ◌&&◌, List, [], ◌∷◌, ltb, leb,
  ◌==◌, if◌then◌else◌,
}
use ir_assignment.FixedPoint.{is_ascii_digit, digit_value}

-- A signed integer: `negsuc n` is -(n + 1).
pub data ℤ : Type 0 where
  pos : ℕ → ℤ
  negsuc : ℕ → ℤ

-- The digits of `n` in front of `out`; the fuel is the most digits that are written.
unfoldable pub digits : ℕ → ℕ → List ℕ → List ℕ
digits zero n out = out
digits (suc fuel) n out =
    let more = digits fuel (n / 10) ((b'0' + n % 10) ∷ out) in
    if n / 10 == 0 then (b'0' + n % 10) ∷ out else more

-- Twenty digits are enough for every 64-bit value.
unfoldable pub print_nat : ℕ → List ℕ
unfolding digits
print_nat n = digits 20 n []

unfoldable pub print_int : ℤ → List ℕ
unfolding print_nat
print_int (pos n) = print_nat n
print_int (negsuc n) = b'-' ∷ print_nat (suc n)

-- Digits up to the end of the text; `none` where another byte stands.
unfoldable pub read_digits : List ℕ → ℕ → Option ℕ
read_digits [] n = some n
read_digits (c ∷ rest) n =
    let next = read_digits rest (n * 10 + digit_value c) in
    if is_ascii_digit c then next else Option.none

-- A magnitude of at least one digit, at most `max`.
unfoldable pub read_nat : ℕ → List ℕ → Option ℕ
unfolding read_digits
read_nat max [] = Option.none
read_nat max (c ∷ rest) = elim (read_digits (c ∷ rest) 0) [
  | Option.none ↦ Option.none
  | some n ↦ if leb n max then some n else Option.none
]

abbrev pub negated : Option ℕ → Option ℤ
negated Option.none = Option.none
negated (some zero) = some (pos 0)
negated (some (suc n)) = some (negsuc n)

abbrev pub as_int : Option ℕ → Option ℤ
as_int Option.none = Option.none
as_int (some n) = some (pos n)

-- A signed integer of `w` bits, with `half` = 2 ^ (w - 1).
unfoldable pub read_int : ℕ → List ℕ → Option ℤ
read_int half [] = Option.none
read_int half (c ∷ rest) =
    if c == b'-' then negated (read_nat half rest) else as_int (read_nat (half - 1) (c ∷ rest))
