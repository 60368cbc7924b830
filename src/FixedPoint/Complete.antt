-- ===== src/FixedPoint/Complete.antt =====
-- src/fixed_point.cpp: which texts are accepted.
use native.Mathlib.Decide.{dec_lt}
use ir_assignment.Prelude.{
  ℕ, ◌≤◌, ◌<◌, ◌+◌, ◌-◌, ◌*◌, ◌≡◌, ◌≢◌, refl, ap, sym, ◌∙◌, List, [], ◌∷◌, arith, All, length,
}
use ir_assignment.FixedPoint.{
  int64_max, maximum_whole, decimal_scale, parse_decimal_1e8, parse_parts, parse_fraction,
  scan_whole, scan_fraction, combine, pad, Stage, continue, fail, none, ◌>>=◌, result_of,
}
use ir_assignment.FixedPoint.Bounds.{combine_complete}
use ir_assignment.FixedPoint.Sound.{ten_to-sub, no_rounds, parse_fraction_sound, parse_parts_sound}
use ir_assignment.FixedPoint.Scaling.{ten_to, remainder-zero, cancel-eq, ten_to-pos, split_value}
use ir_assignment.FixedPoint.Grammar.{
  IsDigit, IsZero, value, before_point, from_point, behind_point, StartsAtPoint, value-lt,
  IsDecimal, precision, numerator, from_point-StartsAtPoint,
}

-- No stage fails without an error.
scan_whole-ne : (s : List ℕ) (n : ℕ) → scan_whole s n ≢ fail none
unfolding scan_whole
scan_whole-ne [] n e = cc
scan_whole-ne (c ∷ s) n e = ground (arith, scan_whole-ne s (n * 10 + (c - b'0')))

scan_fraction-ne : (s : List ℕ) (f n : ℕ) → scan_fraction s f n ≢ fail none
unfolding scan_fraction
scan_fraction-ne [] f n e = cc
scan_fraction-ne (c ∷ s) f n e =
    ground (arith, scan_fraction-ne s (f * 10 + (c - b'0')) (n + 1), scan_fraction-ne s f (n + 1))

parse_fraction-ne : (s : List ℕ) → parse_fraction s ≢ fail none
unfolding parse_fraction
parse_fraction-ne [] e = cc
parse_fraction-ne (p ∷ []) e = cc
parse_fraction-ne (p ∷ c ∷ s) e = ground (arith, scan_fraction-ne (c ∷ s) 0 0)

>>=-ne :
    {A B : Type 0} (m : Stage A) (f : A → Stage B)
    → m ≢ fail none
    → ((a : A) → f a ≢ fail none)
    → (m >>= f) ≢ fail none
>>=-ne (fail x) f h k e = h (cc)
>>=-ne (continue a) f h k e = k a e

combine-ne : (w f : ℕ) → combine w f ≢ fail none
unfolding combine
combine-ne w f e = ground arith

result_of-continue :
    (m : Stage ℕ) → m ≢ fail none → (result_of m).error ≡ none → m ≡ continue (result_of m).value
result_of-continue (fail x) h e = absurd (h (ap fail e))
result_of-continue (continue v) h e = refl

parse_parts-ne : (s : List ℕ) → parse_parts s ≢ fail none
unfolding parse_parts
parse_parts-ne s =
    >>=-ne (scan_whole s 0) _ (scan_whole-ne s 0)
      λ r. >>=-ne (parse_fraction r.1) _ (parse_fraction-ne r.1) (combine-ne r.0)

pub parse_decimal_1e8_parts :
    (s : List ℕ)
    → (parse_decimal_1e8 s).error ≡ none
    → (before_point s ≢ []) × (parse_parts s ≡ continue (parse_decimal_1e8 s).value)
unfolding parse_decimal_1e8
parse_decimal_1e8_parts [] e = cc
parse_decimal_1e8_parts (c ∷ s) e =
    ground (arith, result_of-continue (parse_parts (c ∷ s)) (parse_parts-ne (c ∷ s)))

-- A text is accepted only if it spells a decimal, and then the value is exactly 10^8 times the
-- number that it spells, and an int64.
pub parse_decimal_1e8_sound :
    (s : List ℕ)
    → (parse_decimal_1e8 s).error ≡ none
    → IsDecimal s
      × ((parse_decimal_1e8 s).value * ten_to (precision s) ≡ numerator s * decimal_scale)
      × ((parse_decimal_1e8 s).value ≤ int64_max)
parse_decimal_1e8_sound s e =
    let (present, parts) = parse_decimal_1e8_parts s e in
    let (whole, fraction, point, exact, fits) = parse_parts_sound s parts in
    (
      record {
        whole_present = present;
        whole_digits = whole;
        fraction_present = point;
        fraction_digits = fraction;
      },
      exact,
      fits,
    )

le-value : (s : List ℕ) (n : ℕ) → n ≤ value n s
le-value [] n = omega arith
le-value (c ∷ s) n = omega (arith, le-value s (n * 10 + (c - b'0')))

scan_whole_complete :
    (s : List ℕ) (n : ℕ)
    → All IsDigit (before_point s)
    → value n (before_point s) ≤ maximum_whole
    → scan_whole s n ≡ continue (value n (before_point s), from_point s)
unfolding scan_whole
scan_whole_complete [] n digits fits = refl
scan_whole_complete (c ∷ s) n digits fits = ground (
  arith,
  scan_whole_complete s (n * 10 + (c - b'0')),
  le-value (before_point s) (n * 10 + (c - b'0')),
)

value-split : (s : List ℕ) (n : ℕ) → value n s ≡ n * ten_to (length s) + value 0 s
value-split [] n = omega arith
value-split (c ∷ s) n =
    rw (value-split s (n * 10 + (c - b'0')), value-split s (0 + (c - b'0'))) (omega arith)

zeros_of_value : (s : List ℕ) → All IsDigit s → value 0 s ≡ 0 → All IsZero s
zeros_of_value [] h e = tt
zeros_of_value (c ∷ s) (d, h) e =
    let first : c ≡ b'0' = omega (arith, le-value s (0 + (c - b'0'))) in
    (first, zeros_of_value s h (omega (arith, value-split s (0 + (c - b'0')))))

scan_fraction_zeros :
    (s : List ℕ) (f n : ℕ) → 8 ≤ n → All IsZero s → scan_fraction s f n ≡ continue (f, n + length s)
unfolding scan_fraction
scan_fraction_zeros [] f n h z = ground arith
scan_fraction_zeros (c ∷ s) f n h (z, zs) = ground (arith, scan_fraction_zeros s f (n + 1))

scan_fraction_step :
    (c : ℕ) (s : List ℕ) (f n : ℕ)
    → n < 8
    → IsDigit c
    → scan_fraction (c ∷ s) f n ≡ scan_fraction s (f * 10 + (c - b'0')) (n + 1)
unfolding scan_fraction
scan_fraction_step c s f n h d = ground arith

zeros_of_multiple :
    (s : List ℕ) (f q : ℕ) → All IsDigit s → value f s ≡ q * ten_to (length s) → All IsZero s
zeros_of_multiple s f q digits e = zeros_of_value s digits (
    remainder-zero q f (value 0 s) (ten_to (length s)) (sym e ∙ value-split s f)
      (value-lt s 0 digits))

-- If the digits are a whole number of 10^-8, the loop accepts them.
scan_fraction_complete :
    (s : List ℕ) (f n q : ℕ)
    → n ≤ 8
    → All IsDigit s
    → value f s * ten_to (8 - n) ≡ q * ten_to (length s)
    → (r : ℕ × ℕ) × (scan_fraction s f n ≡ continue r)
unfolding scan_fraction
scan_fraction_complete [] f n q h digits e = ((f, n), refl)
scan_fraction_complete (c ∷ s) f n q h digits e = elim (dec_lt n 8) [
  | yes small ↦
      let e' : value f (c ∷ s) * (ten_to (8 - (n + 1)) * 10) ≡ q * (ten_to (length s) * 10) =
        rw (← ten_to-sub n small) e in
      let (r, scanned) =
        scan_fraction_complete s (f * 10 + (c - b'0')) (n + 1) q (omega arith) digits.1
          (omega (arith, e')) in
      (r, scan_fraction_step c s f n small digits.0 ∙ scanned)
  | no big ↦ (
    (f, n + length (c ∷ s)),
    scan_fraction_zeros (c ∷ s) f n (omega arith) (
        zeros_of_multiple (c ∷ s) f q digits
          (omega (arith, ap (λ t. value f (c ∷ s) * t) (sym (no_rounds n (omega arith))) ∙ e))),
  )
]

parse_fraction_complete :
    (s : List ℕ) (q : ℕ)
    → s ≢ b'.' ∷ []
    → StartsAtPoint s
    → All IsDigit (behind_point s)
    → value 0 (behind_point s) * decimal_scale ≡ q * ten_to (length (behind_point s))
    → (f : ℕ) × (parse_fraction s ≡ continue f)
unfolding parse_fraction
parse_fraction_complete [] q present starts digits e = (0, refl)
parse_fraction_complete (p ∷ []) q present starts digits e = absurd (present (rw starts))
parse_fraction_complete (p ∷ c ∷ s) q present starts digits e =
    let ((f, n), scanned) = scan_fraction_complete (c ∷ s) 0 0 q (omega arith) digits e in
    (pad (8 - n) f, rw scanned)

pub parse_parts_complete :
    (s : List ℕ) (v : ℕ)
    → IsDecimal s
    → v * ten_to (precision s) ≡ numerator s * decimal_scale
    → v ≤ int64_max
    → parse_parts s ≡ continue v
unfolding parse_parts
parse_parts_complete s v d e fits =
    let tail = from_point s in
    let w = value 0 (before_point s) in
    let pos = ten_to-pos (precision s) in
    let (q, sum, part) =
      split_value v w (value 0 (behind_point tail)) (ten_to (precision s)) pos e in
    let starts = from_point-StartsAtPoint s in
    let (f, read) =
      parse_fraction_complete tail q d.fraction_present starts d.fraction_digits part in
    let (_, _, exact) = parse_fraction_sound tail starts read in
    let same : f ≡ q = cancel-eq f q (ten_to (precision s)) pos (exact ∙ part) in
    let total : v ≡ w * decimal_scale + f = rw same sum in
    rw (scan_whole_complete s 0 d.whole_digits (omega arith), ◌>>=◌)
      (rw (read, ◌>>=◌) (rw total (combine_complete w f (omega arith))))

-- Every decimal whose value is a multiple of 10^-8 and fits an int64 is accepted with that value.
pub parse_decimal_1e8_complete :
    (s : List ℕ) (v : ℕ)
    → IsDecimal s
    → v * ten_to (precision s) ≡ numerator s * decimal_scale
    → v ≤ int64_max
    → parse_decimal_1e8 s ≡ record { value = v; error = none }
unfolding parse_decimal_1e8
parse_decimal_1e8_complete [] v d e fits = absurd (d.whole_present refl)
parse_decimal_1e8_complete (c ∷ s) v d e fits =
    ground (arith, d.whole_present, parse_parts_complete (c ∷ s) v d e fits)
