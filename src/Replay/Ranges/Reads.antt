-- ===== src/Replay/Ranges/Reads.antt =====
-- src/market_data_replay.cpp: the ranges of single fields.
use mathlib.Core.Path.{subst}
use mathlib.Core.Option.{Option, some}
use ir_assignment.Prelude.{
  ℕ, zero, suc, ◌+◌, ◌-◌, ◌≤◌, ◌<◌, ◌^◌, ◌≡◌, refl, ap, Bool, true, false, not, arith, List, [],
  ◌∷◌, ◌==◌, length, leb, if◌then◌else◌, if_cases,
}
use ir_assignment.Payload.{max_payload_bytes}
use ir_assignment.Csv.Numbers.{ℤ, read_digits, read_nat, negated, as_int, read_int}
use ir_assignment.Csv.Numbers.ReadBack.{InRange}
use ir_assignment.Replay.{
  ReplayReadErrorCode, ReplayColumn, Checked, good, bad, or_bad, require, escaped, decode_payload,
  invalid_integer,
}

good_injective {ℓ} : {A : Type ℓ} (x y : A) → good x ≡ good y → x ≡ y
good_injective x y e = cc

or_bad_good {ℓ} :
    {A : Type ℓ} (o : Option A) (code : ReplayReadErrorCode) (column : ReplayColumn) (x : A)
    → or_bad o code column ≡ good x
    → o ≡ some x
or_bad_good Option.none code column x e = cc
or_bad_good (some y) code column x e = ap some (good_injective y x e)

pub require_good :
    (b : Bool) (code : ReplayReadErrorCode) (column : ReplayColumn) (x : Unit {0})
    → require b code column ≡ good x
    → b ≡ true
require_good true code column x e = refl
require_good false code column x e = cc

-- A magnitude, if there is one, is at most `max`.
abbrev IsAtMost : ℕ → Option ℕ → Type 0
IsAtMost max Option.none = Unit
IsAtMost max (some n) = n ≤ max

read_nat-IsAtMost : (max : ℕ) (s : List ℕ) → IsAtMost max (read_nat max s)
unfolding read_nat
read_nat-IsAtMost max [] = tt
read_nat-IsAtMost max (c ∷ s) =
    elim (read_digits (c ∷ s) 0)
      as (λ o. IsAtMost max (elim o [
        | Option.none ↦ Option.none
        | some n ↦ if leb n max then some n else Option.none
      ])) [
        | Option.none ↦ tt
        | some n ↦ if_cases (IsAtMost max) (leb n max) (λ e. ground (arith, e)) (λ e. tt)
      ]

-- A signed integer, if there is one, is in its range.
abbrev IsSigned : ℕ → Option ℤ → Type 0
IsSigned half Option.none = Unit
IsSigned half (some z) = InRange half z

negated-IsSigned :
    (half : ℕ) (o : Option ℕ) → 0 < half → IsAtMost half o → IsSigned half (negated o)
negated-IsSigned half Option.none h k = tt
negated-IsSigned half (some zero) h k = h
negated-IsSigned half (some (suc n)) h k = k

as_int-IsSigned :
    (half : ℕ) (o : Option ℕ) → 0 < half → IsAtMost (half - 1) o → IsSigned half (as_int o)
as_int-IsSigned half Option.none h k = tt
as_int-IsSigned half (some n) h k = omega (arith, h, k)

read_int-IsSigned : (half : ℕ) (s : List ℕ) → 0 < half → IsSigned half (read_int half s)
unfolding read_int
read_int-IsSigned half [] h = tt
read_int-IsSigned half (c ∷ s) h =
    if_cases (IsSigned half) (c == b'-')
      (λ e. negated-IsSigned half (read_nat half s) h (read_nat-IsAtMost half s))
      (λ e.
        as_int-IsSigned half (read_nat (half - 1) (c ∷ s)) h (read_nat-IsAtMost (half - 1) (c ∷ s)))

-- A payload behind `n` bytes, if there is one, leaves them within the limit.
abbrev IsFitting : ℕ → Checked (List ℕ) → Type 0
IsFitting n (good p) = n + length p ≤ max_payload_bytes
IsFitting n (bad code column) = Unit

escaped-IsFitting :
    (n c : ℕ) (r : Checked (List ℕ)) → IsFitting (suc n) r → IsFitting n (escaped c r)
escaped-IsFitting n c (good p) h = omega (arith, h)
escaped-IsFitting n c (bad code column) h = tt

decode_payload-IsFitting :
    (n : ℕ) (s : List ℕ) → n ≤ max_payload_bytes → IsFitting n (decode_payload n s)
unfolding decode_payload
decode_payload-IsFitting n [] h = omega (arith, h)
decode_payload-IsFitting n (c ∷ []) h = ground (arith, h)
decode_payload-IsFitting n (c ∷ d ∷ s) h =
    let pair = λ (k : suc n ≤ max_payload_bytes).
      escaped-IsFitting n c _ (decode_payload-IsFitting (suc n) s k) in
    let plain = λ (k : suc n ≤ max_payload_bytes).
      escaped-IsFitting n c _ (decode_payload-IsFitting (suc n) (d ∷ s) k) in
    ground (arith, h, pair, plain)

pub read_int_good :
    (half : ℕ) (s : List ℕ) (z : ℤ) (column : ReplayColumn)
    → 0 < half
    → or_bad (read_int half s) invalid_integer column ≡ good z
    → InRange half z
read_int_good half s z column h e =
    subst (IsSigned half) (or_bad_good (read_int half s) invalid_integer column z e)
      (read_int-IsSigned half s h)

pub read_nat_good :
    (max : ℕ) (s : List ℕ) (n : ℕ) (column : ReplayColumn)
    → or_bad (read_nat max s) invalid_integer column ≡ good n
    → n ≤ max
read_nat_good max s n column e =
    subst (IsAtMost max) (or_bad_good (read_nat max s) invalid_integer column n e)
      (read_nat-IsAtMost max s)

pub payload_fits : (s p : List ℕ) → decode_payload 0 s ≡ good p → length p ≤ max_payload_bytes
payload_fits s p d =
    let fitting : 0 + length p ≤ max_payload_bytes =
      subst (IsFitting 0) d (decode_payload-IsFitting 0 s (omega arith)) in
    omega (arith, fitting)

pub is_zero : (n : ℕ) → (n == 0) ≡ true → n ≡ 0
is_zero n h = ground (arith, h)

pub is_positive : (n : ℕ) → not (n == 0) ≡ true → 0 < n
is_positive n h = ground (arith, h)

pub below_limit : (n : ℕ) → n ≤ 2 ^ 64 - 1 → n < 2 ^ 64
below_limit n h = omega (arith, h)
