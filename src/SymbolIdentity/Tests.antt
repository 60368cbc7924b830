-- ===== src/SymbolIdentity/Tests.antt =====
-- Runs of the symbol functions, as in tests/symbol_identity_test.cpp, and their theorems at an input.
use mathlib.Core.Option.{some}
use ir_assignment.Prelude.{◌<◌, ◌^◌, ◌≡◌, ◌⊎◌, refl, List, [], ◌∷◌, arith}
use ir_assignment.SymbolIdentity.{
  Symbol, derive_instrument_id, bytes_equal, validate_symbol_set, duplicate_symbol, none,
  invalid_symbol, rejected, accepted,
}
use ir_assignment.SymbolIdentity.Ids.{IsNormalized, derive_instrument_id_lem}
use ir_assignment.SymbolIdentity.Verdict.{Explains, validate_symbol_set_lem}

abbrev btc : Symbol
btc = b'B' ∷ b'T' ∷ b'C' ∷ []

abbrev eth : Symbol
eth = b'E' ∷ b'T' ∷ b'H' ∷ []

abbrev pair : List Symbol
pair = btc ∷ eth ∷ []

accepts_pair : validate_symbol_set (some pair) 2 ≡ accepted
unfolding validate_symbol_set derive_instrument_id bytes_equal
accepts_pair = refl

refuses_duplicate :
    validate_symbol_set (some (btc ∷ eth ∷ btc ∷ [])) 3 ≡ rejected duplicate_symbol 0 2
unfolding validate_symbol_set derive_instrument_id bytes_equal
refuses_duplicate = refl

lower_case_has_no_id : (derive_instrument_id (b'b' ∷ [])).error ≡ invalid_symbol
unfolding derive_instrument_id
lower_case_has_no_id = refl

derive_instrument_id_lem_example :
    (IsNormalized btc
      × ((derive_instrument_id btc).error ≡ none)
      × (0 < (derive_instrument_id btc).value)
      × ((derive_instrument_id btc).value < 2 ^ 31))
    ⊎ (¬ IsNormalized btc
        × (derive_instrument_id btc ≡ record { value = 0; error = invalid_symbol }))
derive_instrument_id_lem_example = derive_instrument_id_lem btc

validate_symbol_set_lem_example : Explains pair 2 (validate_symbol_set (some pair) 2)
validate_symbol_set_lem_example = validate_symbol_set_lem pair (omega arith) (omega arith)
