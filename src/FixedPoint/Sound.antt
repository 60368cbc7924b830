-- ===== src/FixedPoint/Sound.antt =====
-- src/fixed_point.cpp: what an accepted text means.
use native.Mathlib.Decide.{dec_lt}
use ir_assignment.Prelude.{
  ℕ, zero, suc, ◌≤◌, ◌<◌, ◌+◌, ◌-◌, ◌*◌, ◌≡◌, ◌≢◌, List, [], ◌∷◌, arith, All, length,
}
use ir_assignment.FixedPoint.{
  int64_max, decimal_scale, parse_parts, parse_fraction, scan_whole, scan_fraction, pad, continue,
  >>=-eq-continue,
}
use ir_assignment.FixedPoint.Bounds.{scan_whole_sound, combine_sound}
use ir_assignment.FixedPoint.Scaling.{ten_to, quotient-lt}
use ir_assignment.FixedPoint.Grammar.{
  from_point-StartsAtPoint, precision, numerator, value-lt, IsDigit, IsZero, value, before_point,
  from_point, behind_point, StartsAtPoint,
}

-- Behind the eighth digit the loop accepts only zeros, and leaves the fraction alone.
scan_fraction_discards :
    (s : List ℕ) (f n : ℕ) {f' n' : ℕ}
    → 8 ≤ n
    → scan_fraction s f n ≡ continue (f', n')
    → All IsZero s × (f' ≡ f) × (8 ≤ n')
unfolding scan_fraction
scan_fraction_discards [] f n h e = ground arith
scan_fraction_discards (c ∷ s) f n {f'} {n'} h e =
    ground (arith, scan_fraction_discards s f (n + 1) {f' = f'} {n' = n'})

pub value-zeros : (s : List ℕ) (n : ℕ) → All IsZero s → value n s ≡ n * ten_to (length s)
value-zeros [] n h = omega arith
value-zeros (c ∷ s) n (z, h) = rw (z, value-zeros s (n * 10 + (48 - 48)) h) (omega arith)

pub pad-ten_to : (k f : ℕ) → pad k f ≡ f * ten_to k
unfolding pad
pad-ten_to zero f = omega arith
pad-ten_to (suc k) f = rw (pad-ten_to k (f * 10)) (omega arith)

pub ten_to-sub : (n : ℕ) → n < 8 → ten_to (8 - n) ≡ ten_to (8 - (n + 1)) * 10
ten_to-sub n h = let e : 8 - n ≡ suc (8 - (n + 1)) = omega arith in rw e

pub no_rounds : (n : ℕ) → 8 ≤ n → ten_to (8 - n) ≡ 1
no_rounds n h = let e : 8 - n ≡ 0 = omega arith in rw e

discards-exact :
    (s : List ℕ) (f n : ℕ) {f' n' : ℕ}
    → 8 ≤ n
    → scan_fraction s f n ≡ continue (f', n')
    → f' * ten_to (8 - n') * ten_to (length s) ≡ value f s
discards-exact s f n {f'} {n'} h e =
    let (zeros, same, many) = scan_fraction_discards s f n h e in
    rw (value-zeros s f zeros, same, no_rounds n' many) (omega arith)

scan_fraction_keep :
    (c : ℕ) (s : List ℕ) (f n : ℕ) {r : ℕ × ℕ}
    → n < 8
    → scan_fraction (c ∷ s) f n ≡ continue r
    → scan_fraction s (f * 10 + (c - b'0')) (n + 1) ≡ continue r
unfolding scan_fraction
scan_fraction_keep c s f n h e = ground arith

scan_fraction_digits :
    (s : List ℕ) (f n : ℕ) {r : ℕ × ℕ} → scan_fraction s f n ≡ continue r → All IsDigit s
unfolding scan_fraction
scan_fraction_digits [] f n e = tt
scan_fraction_digits (c ∷ s) f n {r} e = ground (
  arith,
  scan_fraction_digits s (f * 10 + (c - b'0')) (n + 1) {r = r},
  scan_fraction_digits s f (n + 1) {r = r},
)

scan_fraction_end : {f n f' n' : ℕ} → scan_fraction [] f n ≡ continue (f', n') → (f' ≡ f) × (n' ≡ n)
unfolding scan_fraction
scan_fraction_end e = ground arith

-- The fraction padded to eight digits, against the digits read.
pub scan_fraction_exact :
    (s : List ℕ) (f n : ℕ) {f' n' : ℕ}
    → n ≤ 8
    → scan_fraction s f n ≡ continue (f', n')
    → f' * ten_to (8 - n') * ten_to (length s) ≡ value f s * ten_to (8 - n)
scan_fraction_exact [] f n h e =
    rw (scan_fraction_end e).0 (rw (scan_fraction_end e).1 (omega arith))
scan_fraction_exact (c ∷ s) f n {f'} {n'} h e = elim (dec_lt n 8) [
  | yes small ↦
      let ih =
        scan_fraction_exact s (f * 10 + (c - b'0')) (n + 1) (omega arith)
          (scan_fraction_keep c s f n small e) in
      rw (ten_to-sub n small) (omega (arith, ih))
  | no big ↦
      rw (no_rounds n (omega arith))
        (omega (arith, discards-exact (c ∷ s) f n {f' = f'} {n' = n'} (omega arith) e))
]

-- What the fractional part contributes: the text behind the point, scaled to eight digits.
pub parse_fraction_sound :
    (s : List ℕ) {v : ℕ}
    → StartsAtPoint s
    → parse_fraction s ≡ continue v
    → (s ≢ b'.' ∷ [])
      × All IsDigit (behind_point s)
      × (v * ten_to (length (behind_point s)) ≡ value 0 (behind_point s) * decimal_scale)
unfolding parse_fraction
parse_fraction_sound [] h e = (λ n. cc, tt, ground arith)
parse_fraction_sound (p ∷ []) h e = cc
parse_fraction_sound (p ∷ c ∷ s) {v} h e =
    let ((f, n), scanned, padded) = >>=-eq-continue (scan_fraction (c ∷ s) 0 0) _ e in
    let exact = scan_fraction_exact (c ∷ s) 0 0 (omega arith) scanned in
    let is_padded : pad (8 - n) f ≡ v = ground arith in
    (
      λ n. cc,
      scan_fraction_digits (c ∷ s) 0 0 scanned,
      rw (← is_padded, pad-ten_to (8 - n) f) (omega (arith, exact)),
    )

fraction-le-max :
    (f : ℕ) (s : List ℕ)
    → All IsDigit (behind_point s)
    → f * ten_to (length (behind_point s)) ≡ value 0 (behind_point s) * decimal_scale
    → f ≤ int64_max
fraction-le-max f s digits exact =
    omega (arith, quotient-lt f _ _ (value-lt (behind_point s) 0 digits) exact)

pub parse_parts_sound :
    (s : List ℕ) {v : ℕ}
    → parse_parts s ≡ continue v
    → All IsDigit (before_point s)
      × All IsDigit (behind_point (from_point s))
      × (from_point s ≢ b'.' ∷ [])
      × (v * ten_to (precision s) ≡ numerator s * decimal_scale)
      × (v ≤ int64_max)
unfolding parse_parts
parse_parts_sound s {v} e =
    let ((w, rest), scanned, e₁) = >>=-eq-continue (scan_whole s 0) _ e in
    let (cut, digits, spelled, small) = scan_whole_sound s 0 (omega arith) scanned in
    let (f, fraction, e₂) = >>=-eq-continue (parse_fraction rest) _ e₁ in
    let fraction' : parse_fraction (from_point s) ≡ continue f = rw (← cut) fraction in
    let (present, digits', exact) =
      parse_fraction_sound (from_point s) (from_point-StartsAtPoint s) fraction' in
    let (sum, fits) = combine_sound w f (fraction-le-max f (from_point s) digits' exact) e₂ in
    (digits, digits', present, rw (sum, spelled) (omega (arith, exact)), fits)
