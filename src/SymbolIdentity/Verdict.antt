-- ===== src/SymbolIdentity/Verdict.antt =====
-- src/symbol_identity.cpp: what each verdict on a symbol set means.
use mathlib.Core.Option.{some}
use mathlib.Core.Path.{subst}
use native.Mathlib.Decide.{dec_lt, ℕ_discrete}
use mathlib.Core.Bool.{false≢true}
use ir_assignment.Prelude.{
  ℕ, zero, suc, ◌+◌, ◌≤◌, ◌<◌, ◌≡◌, ◌≢◌, ◌⊎◌, refl, sym, ◌∙◌, inl, inr, Bool, true, false,
  Bool-cases, List, [], arith, length, get_or,
}
use ir_assignment.SymbolIdentity.{
  Symbol, none, invalid_symbol, duplicate_symbol, instrument_id_collision, derive_instrument_id,
  bytes_equal, check_previous, check_symbols, validate_symbol_set, SymbolSetValidationResult,
  passed, accepted, rejected,
}
use ir_assignment.SymbolIdentity.Ids.{IsNormalized, bytes_equal_iff, derive_instrument_id_lem}

abbrev name_at : List Symbol → ℕ → Symbol
name_at names i = get_or names i []

abbrev id_at : List Symbol → ℕ → ℕ
id_at names i = (derive_instrument_id (name_at names i)).value

-- What a verdict says of the pair of positions that it names, or of the whole range when it passes.
abbrev pub Explains : List Symbol → ℕ → SymbolSetValidationResult → Type 0
Explains names count r = elim r.error [
  | none ↦
      (i : ℕ)
      → i < count
      → IsNormalized (name_at names i)
        × ((j : ℕ) → j < i → (name_at names j ≢ name_at names i) × (id_at names j ≢ id_at names i))
  | invalid_symbol ↦ (r.second_index < count) × ¬ IsNormalized (name_at names r.second_index)
  | duplicate_symbol ↦
      (r.first_index < r.second_index)
      × (r.second_index < count)
      × (name_at names r.first_index ≡ name_at names r.second_index)
  | instrument_id_collision ↦
      (r.first_index < r.second_index)
      × (r.second_index < count)
      × (name_at names r.first_index ≢ name_at names r.second_index)
      × (id_at names r.first_index ≡ id_at names r.second_index)
  | _ ↦ ⊥
]

abbrev Differ : List Symbol → ℕ → ℕ → Type 0
Differ names i j = (name_at names j ≢ name_at names i) × (id_at names j ≢ id_at names i)

abbrev Good : List Symbol → ℕ → Type 0
Good names i = IsNormalized (name_at names i) × ((j : ℕ) → j < i → Differ names i j)

-- A fact of all numbers below `n` and of `n` is one of all numbers up to `n`.
extend_below : (P : ℕ → Type 0) (n : ℕ) → ((j : ℕ) → j < n → P j) → P n → (j : ℕ) → j < suc n → P j
extend_below P n below at j h = elim (dec_lt j n) [
  | yes less ↦ below j less
  | no more ↦ let e : n ≡ j = omega arith in subst P e at
]

module _ (names : List Symbol) (index rounds previous : ℕ) where
  previous_same :
      bytes_equal (name_at names previous) (name_at names index) ≡ true
      → check_previous names index (suc rounds) previous ≡ rejected duplicate_symbol previous index
  unfolding check_previous
  previous_same h = ground arith

  previous_clash :
      bytes_equal (name_at names previous) (name_at names index) ≡ false
      → id_at names previous ≡ id_at names index
      → check_previous names index (suc rounds) previous
        ≡ rejected instrument_id_collision previous index
  unfolding check_previous
  previous_clash h k = ground arith

  previous_apart :
      bytes_equal (name_at names previous) (name_at names index) ≡ false
      → id_at names previous ≢ id_at names index
      → check_previous names index (suc rounds) previous
        ≡ check_previous names index rounds (suc previous)
  unfolding check_previous
  previous_apart h k = ground arith

module _ (names : List Symbol) (count index : ℕ) (inside : index < count) where
  abbrev Previous : SymbolSetValidationResult → Type 0
  Previous r =
      ((r ≡ accepted) × ((j : ℕ) → j < index → Differ names index j))
      ⊎ ((passed r ≡ false) × Explains names count r)

  check_previous_cases :
      (rounds previous : ℕ)
      → previous + rounds ≡ index
      → ((j : ℕ) → j < previous → Differ names index j)
      → Previous (check_previous names index rounds previous)
  check_previous_cases zero previous e below =
      inl (unfold check_previous in refl, λ j h. below j (omega arith))
  check_previous_cases (suc rounds) previous e below = elim (Bool-cases same_name) [
    | inl same ↦
        rw (previous_same names index rounds previous same)
          (inr (refl, (omega arith, inside, (bytes_equal_iff _ _).0 same)))
    | inr other ↦
        let differ : name_at names previous ≢ name_at names index =
          λ h. false≢true (sym other ∙ (bytes_equal_iff _ _).1 h) in
        elim (ℕ_discrete (id_at names previous) (id_at names index)) [
          | yes clash ↦
              rw (previous_clash names index rounds previous other clash)
                (inr (refl, (omega arith, inside, differ, clash)))
          | no apart ↦ rw (previous_apart names index rounds previous other apart) (
              check_previous_cases rounds (suc previous) (omega arith)
                (extend_below (Differ names index) previous below (differ, apart)))
        ]
  ]
    where
      same_name : Bool
      same_name = bytes_equal (name_at names previous) (name_at names index)

module _ (names : List Symbol) (rounds index : ℕ) where
  symbol_rejected :
      derive_instrument_id (name_at names index) ≡ record { value = 0; error = invalid_symbol }
      → check_symbols names (suc rounds) index ≡ rejected invalid_symbol index index
  unfolding check_symbols
  symbol_rejected h = rw (h, check_symbols)

  symbol_earlier :
      (derive_instrument_id (name_at names index)).error ≡ none
      → passed (check_previous names index index 0) ≡ false
      → check_symbols names (suc rounds) index ≡ check_previous names index index 0
  unfolding check_symbols
  symbol_earlier h k = rw (h, k, check_symbols)

  symbol_passed :
      (derive_instrument_id (name_at names index)).error ≡ none
      → check_previous names index index 0 ≡ accepted
      → check_symbols names (suc rounds) index ≡ check_symbols names rounds (suc index)
  unfolding check_symbols
  symbol_passed h k = rw (h, k, check_symbols)

module _ (names : List Symbol) (count : ℕ) where
  check_symbols-Explains :
      (rounds index : ℕ)
      → index + rounds ≡ count
      → ((i : ℕ) → i < index → Good names i)
      → Explains names count (check_symbols names rounds index)
  check_symbols-Explains zero index e below = unfold check_symbols in λ i h. below i (omega arith)
  check_symbols-Explains (suc rounds) index e below =
      elim (derive_instrument_id_lem (name_at names index)) [
        | inl (normal, derived, _, _) ↦
            elim (check_previous_cases names count index (omega arith) index 0 (omega arith)
              (λ j h. absurd (omega arith))) [
                | inl (fine, apart) ↦ rw (symbol_passed names rounds index derived fine) (
                    check_symbols-Explains rounds (suc index) (omega arith)
                      (extend_below (Good names) index below (normal, apart)))
                | inr (stopped, why) ↦ rw (symbol_earlier names rounds index derived stopped) why
              ]
        | inr (bad, derived) ↦ rw (symbol_rejected names rounds index derived) (omega arith, bad)
      ]

in_range :
    (names : List Symbol) (count : ℕ)
    → 1 ≤ count
    → count ≤ 32
    → validate_symbol_set (some names) count ≡ check_symbols names count 0
unfolding validate_symbol_set
in_range names count present few = ground arith

-- Every verdict on a set of 1 to 32 names tells the truth: acceptance means that all are normalized
-- and that no two are equal or share an id; a refusal names a position or a pair that breaks this.
pub validate_symbol_set_lem :
    (names : List Symbol)
    → 1 ≤ length names
    → length names ≤ 32
    → Explains names (length names) (validate_symbol_set (some names) (length names))
validate_symbol_set_lem names present few = rw (in_range names (length names) present few) (
    check_symbols-Explains names (length names) (length names) 0 (omega arith)
      (λ i h. absurd (omega arith)))
