-- ===== src/FixedPoint/Scaling.antt =====
-- Powers of ten and exact division, for the scaled decimals of src/fixed_point.cpp.
use native.Mathlib.Decide.{dec_lt}
use ir_assignment.Prelude.{ℕ, zero, suc, ◌≤◌, ◌<◌, ◌+◌, ◌-◌, ◌*◌, ◌≡◌, ap, arith}
use ir_assignment.FixedPoint.{decimal_scale}

-- The powers of ten.
abbrev pub ten_to : ℕ → ℕ
ten_to zero = 1
ten_to (suc k) = ten_to k * 10

pub scaled-le : (a b t : ℕ) → a ≤ b → a * t ≤ b * t
scaled-le a b t h = grind arith

pub quotient-lt : (f v t : ℕ) → v < 1 * t → f * t ≡ v * decimal_scale → f < decimal_scale
quotient-lt f v t small e = elim (dec_lt f decimal_scale) [
  | yes h ↦ h
  | no h ↦ absurd (omega (arith, scaled-le decimal_scale f t (omega arith)))
]

pub remainder-zero : (q f r t : ℕ) → q * t ≡ f * t + r → r < 1 * t → r ≡ 0
remainder-zero q f r t e small = elim (dec_lt f q) [
  | yes h ↦ absurd (omega (arith, scaled-le (f + 1) q t (omega arith)))
  | no h ↦ omega (arith, scaled-le q f t (omega arith))
]

cancel-le : (a b t : ℕ) → 0 < t → a * t ≤ b * t → a ≤ b
cancel-le a b t pos h = elim (dec_lt b a) [
  | yes less ↦ absurd (omega (arith, scaled-le (b + 1) a t (omega arith)))
  | no more ↦ omega arith
]

pub cancel-eq : (a b t : ℕ) → 0 < t → a * t ≡ b * t → a ≡ b
cancel-eq a b t pos h =
    omega (arith, cancel-le a b t pos (omega arith), cancel-le b a t pos (omega arith))

pub ten_to-pos : (k : ℕ) → 0 < ten_to k
ten_to-pos zero = omega arith
ten_to-pos (suc k) = omega (arith, ten_to-pos k)

-- The whole part fits under the value, and the rest of it is the fraction.
pub split_value :
    (v w f t : ℕ)
    → 0 < t
    → v * t ≡ (w * t + f) * decimal_scale
    → (q : ℕ) × (v ≡ w * decimal_scale + q) × (f * decimal_scale ≡ q * t)
split_value v w f t pos e =
    let whole : w * decimal_scale ≤ v = cancel-le (w * decimal_scale) v t pos (omega arith) in
    let rest : v ≡ w * decimal_scale + (v - w * decimal_scale) = omega arith in
    (v - w * decimal_scale, rest, omega (arith, ap (λ x. x * t) rest))
