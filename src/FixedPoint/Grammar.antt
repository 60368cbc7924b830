-- ===== src/FixedPoint/Grammar.antt =====
-- The texts that a decimal price or quantity may have, and what they stand for.
use ir_assignment.Prelude.{
  ℕ, ◌+◌, ◌-◌, ◌<◌, ◌*◌, ◌≤◌, ◌≡◌, ◌≢◌, refl, All, length, List, [], ◌∷◌, ◌++◌, arith, ◌==◌,
  if◌then◌else◌,
}
use ir_assignment.FixedPoint.Scaling.{ten_to, scaled-le}
use ir_assignment.FixedPoint.{digit_value}

abbrev pub IsDigit : ℕ → Type 0
IsDigit c = (b'0' ≤ c) × (c ≤ b'9')

abbrev pub IsZero : ℕ → Type 0
IsZero c = c ≡ b'0'

-- The number that digits spell behind `n`, with no bound.
abbrev pub value : ℕ → List ℕ → ℕ
value n [] = n
value n (c ∷ s) = value (n * 10 + digit_value c) s

pub value-lt : (s : List ℕ) (n : ℕ) → All IsDigit s → value n s < (n + 1) * ten_to (length s)
value-lt [] n h = omega arith
value-lt (c ∷ s) n (d, h) = omega (
  arith,
  value-lt s (n * 10 + (c - b'0')) h,
  scaled-le (n * 10 + (c - b'0') + 1) ((n + 1) * 10) (ten_to (length s)) (omega arith),
)

-- A text cut at its first point.
abbrev pub before_point : List ℕ → List ℕ
before_point [] = []
before_point (c ∷ rest) = if c == b'.' then [] else c ∷ before_point rest

abbrev pub from_point : List ℕ → List ℕ
from_point [] = []
from_point (c ∷ rest) = if c == b'.' then c ∷ rest else from_point rest

-- The digits behind the point, for a text that starts at its point or is empty.
abbrev pub behind_point : List ℕ → List ℕ
behind_point [] = []
behind_point (point ∷ rest) = rest

pub before-from : (s : List ℕ) → before_point s ++ from_point s ≡ s
before-from [] = refl
before-from (c ∷ rest) = ground (arith, before-from rest)

abbrev pub StartsAtPoint : List ℕ → Type 0
StartsAtPoint [] = Unit
StartsAtPoint (c ∷ rest) = c ≡ b'.'

pub from_point-StartsAtPoint : (s : List ℕ) → StartsAtPoint (from_point s)
from_point-StartsAtPoint [] = tt
from_point-StartsAtPoint (c ∷ rest) = ground (arith, from_point-StartsAtPoint rest)

-- Digits, and if there is a point, digits before and behind it.
pub record IsDecimal (s : List ℕ) : Type 0 where
  pub whole_present : before_point s ≢ []
  pub whole_digits : All IsDigit (before_point s)
  pub fraction_present : from_point s ≢ b'.' ∷ []
  pub fraction_digits : All IsDigit (behind_point (from_point s))

-- The number that a text stands for is `numerator` over ten to the `precision`.
abbrev pub precision : List ℕ → ℕ
precision s = length (behind_point (from_point s))

abbrev pub numerator : List ℕ → ℕ
numerator s =
    value 0 (before_point s) * ten_to (precision s) + value 0 (behind_point (from_point s))
