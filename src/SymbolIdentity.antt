-- ===== src/SymbolIdentity.antt =====
-- include/hft/symbol_identity.h and src/symbol_identity.cpp: which symbol names are normalized, the
-- instrument id that is hashed from one, and the test of a configured symbol set.
-- A name is a list of bytes. `uint32_t` arithmetic wraps by `% 2 ^ 32`.
pub mod Ids
pub mod Verdict
mod Tests
use Prim.Native.Nat.{bit_xor}
use mathlib.Core.Option.{Option, some}
use mathlib.Core.Option
use ir_assignment.Prelude.{
  ℕ, zero, suc, ◌-◌, ◌*◌, ◌%◌, ◌^◌, Bool, true, false, not, ◌&&◌, ◌||◌, List, [], ◌∷◌, ltb, leb,
  ◌==◌, if◌then◌else◌, length, get_or,
}

abbrev pub Symbol : Type 0
Symbol = List ℕ

abbrev pub max_normalized_symbol_bytes : ℕ
max_normalized_symbol_bytes = 32

abbrev pub max_configured_symbols : ℕ
max_configured_symbols = 32

-- `static_cast<std::size_t>(-1)`
abbrev pub no_symbol_index : ℕ
no_symbol_index = 2 ^ 64 - 1

pub data SymbolValidationError : Type 0 where
  none invalid_input empty_symbol_set too_many_symbols : SymbolValidationError
  invalid_symbol duplicate_symbol instrument_id_collision : SymbolValidationError

pub record InstrumentIdResult : Type 0 where
  pub value : ℕ
  pub error : SymbolValidationError

pub record SymbolSetValidationResult : Type 0 where
  pub error : SymbolValidationError
  pub first_index : ℕ
  pub second_index : ℕ

abbrev pub fnv_offset_basis : ℕ
fnv_offset_basis = 2_166_136_261

abbrev pub fnv_prime : ℕ
fnv_prime = 16_777_619

abbrev pub is_symbol_byte : ℕ → Bool
is_symbol_byte c = (leb b'A' c && leb c b'Z') || (leb b'0' c && leb c b'9')

unfoldable pub all_symbol_bytes : Symbol → Bool
all_symbol_bytes [] = true
all_symbol_bytes (c ∷ rest) = is_symbol_byte c && all_symbol_bytes rest

unfoldable pub is_normalized_symbol : Symbol → Bool
unfolding all_symbol_bytes
is_normalized_symbol symbol =
    if length symbol == 0 || ltb max_normalized_symbol_bytes (length symbol)
    then false
    else all_symbol_bytes symbol

unfoldable pub fnv_hash : Symbol → ℕ → ℕ
fnv_hash [] hash = hash
fnv_hash (c ∷ rest) hash = fnv_hash rest (bit_xor hash c * fnv_prime % 2 ^ 32)

-- `hash & 0x7fffffff` is the hash without its top bit, and the id zero is not given out.
unfoldable pub positive_id : ℕ → ℕ
positive_id hash = let value = hash % 2 ^ 31 in if value == 0 then 1 else value

unfoldable pub derive_instrument_id : Symbol → InstrumentIdResult
unfolding is_normalized_symbol fnv_hash positive_id
derive_instrument_id symbol =
    if not (is_normalized_symbol symbol)
    then record { value = 0; error = invalid_symbol }
    else record { value = positive_id (fnv_hash symbol fnv_offset_basis); error = none }

abbrev pub is_none : SymbolValidationError → Bool
is_none none = true
is_none _ = false

-- `string_view` equality.
unfoldable pub bytes_equal : Symbol → Symbol → Bool
bytes_equal [] [] = true
bytes_equal [] (d ∷ t) = false
bytes_equal (c ∷ s) [] = false
bytes_equal (c ∷ s) (d ∷ t) = c == d && bytes_equal s t

abbrev rejected : SymbolValidationError → ℕ → ℕ → SymbolSetValidationResult
rejected e i j = record { error = e; first_index = i; second_index = j }

abbrev accepted : SymbolSetValidationResult
accepted = rejected none no_symbol_index no_symbol_index

-- The inner loop, from `previous` on with `rounds` to go; `accepted` lets the outer loop go on.
unfoldable pub check_previous : List Symbol → ℕ → ℕ → ℕ → SymbolSetValidationResult
check_previous symbols index zero previous = accepted
check_previous symbols index (suc rounds) previous =
    let rest = check_previous symbols index rounds (suc previous) in
    if bytes_equal (get_or symbols previous []) (get_or symbols index [])
    then rejected duplicate_symbol previous index
    else if (derive_instrument_id (get_or symbols previous [])).value
        == (derive_instrument_id (get_or symbols index [])).value
    then rejected instrument_id_collision previous index
    else rest

abbrev pub passed : SymbolSetValidationResult → Bool
passed r = is_none r.error

-- The outer loop, from `index` on with `rounds` to go.
unfoldable pub check_symbols : List Symbol → ℕ → ℕ → SymbolSetValidationResult
unfolding check_previous
check_symbols symbols zero index = accepted
check_symbols symbols (suc rounds) index =
    let rest = check_symbols symbols rounds (suc index) in
    let current = derive_instrument_id (get_or symbols index []) in
    let earlier = check_previous symbols index index 0 in
    if not (is_none current.error)
    then rejected current.error index index
    else if passed earlier
    then rest
    else earlier

-- `none` is the null pointer.
unfoldable pub validate_symbol_set : Option (List Symbol) → ℕ → SymbolSetValidationResult
unfolding check_symbols
validate_symbol_set symbols count =
    if count == 0
    then rejected empty_symbol_set no_symbol_index no_symbol_index
    else if ltb max_configured_symbols count
    then rejected too_many_symbols no_symbol_index no_symbol_index
    else elim symbols [
      | Option.none ↦ rejected invalid_input no_symbol_index no_symbol_index
      | some names ↦ check_symbols names count 0
    ]
