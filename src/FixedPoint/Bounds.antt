-- ===== src/FixedPoint/Bounds.antt =====
-- src/fixed_point.cpp: the ranges of the parser's variables.
use ir_assignment.Prelude.{ℕ, ◌≤◌, ◌+◌, ◌-◌, ◌*◌, ◌≡◌, List, [], ◌∷◌, arith, All}
use ir_assignment.FixedPoint.{
  int64_max, maximum_whole, decimal_scale, scan_whole, combine, continue,
}
use ir_assignment.FixedPoint.Grammar.{IsDigit, value, before_point, from_point}

-- What the first loop has done when it stops without an error.
pub scan_whole_sound :
    (s : List ℕ) (n : ℕ) {w : ℕ} {rest : List ℕ}
    → n ≤ maximum_whole
    → scan_whole s n ≡ continue (w, rest)
    → (rest ≡ from_point s)
      × All IsDigit (before_point s)
      × (w ≡ value n (before_point s))
      × (w ≤ maximum_whole)
unfolding scan_whole
scan_whole_sound [] n h e = ground arith
scan_whole_sound (c ∷ s) n {w} {rest} h e =
    ground (arith, scan_whole_sound s (n * 10 + (c - b'0')) {w = w} {rest = rest})

pub combine_sound :
    (w f : ℕ) {v : ℕ}
    → f ≤ int64_max
    → combine w f ≡ continue v
    → (v ≡ w * decimal_scale + f) × (v ≤ int64_max)
unfolding combine
combine_sound w f h e = ground arith

pub combine_complete :
    (w f : ℕ) → w * decimal_scale + f ≤ int64_max → combine w f ≡ continue (w * decimal_scale + f)
unfolding combine
combine_complete w f h = ground arith
