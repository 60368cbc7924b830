-- ===== src/SymbolIdentity/Ids.antt =====
-- src/symbol_identity.cpp: normalized names and their ids.
use mathlib.Core.Bool.{false≢true}
use ir_assignment.Prelude.{
  ℕ, ◌≤◌, ◌<◌, ◌^◌, ◌≡◌, ◌↔◌, ◌⊎◌, refl, sym, ◌∙◌, inl, inr, Bool-cases, true, [], ◌∷◌, arith, All,
  length,
}
use ir_assignment.SymbolIdentity.{
  Symbol, none, invalid_symbol, is_normalized_symbol, all_symbol_bytes, derive_instrument_id,
  positive_id, fnv_hash, fnv_offset_basis, bytes_equal,
}

abbrev pub IsSymbolByte : ℕ → Type 0
IsSymbolByte c = ((b'A' ≤ c) × (c ≤ b'Z')) ⊎ ((b'0' ≤ c) × (c ≤ b'9'))

-- A normalized name has 1 to 32 bytes, each an upper-case letter or a digit.
abbrev pub IsNormalized : Symbol → Type 0
IsNormalized s = (0 < length s) × (length s ≤ 32) × All IsSymbolByte s

all_symbol_bytes_sound : (s : Symbol) → all_symbol_bytes s ≡ true → All IsSymbolByte s
unfolding all_symbol_bytes
all_symbol_bytes_sound [] h = tt
all_symbol_bytes_sound (c ∷ s) h = ground (arith, all_symbol_bytes_sound s)

all_symbol_bytes_complete : (s : Symbol) → All IsSymbolByte s → all_symbol_bytes s ≡ true
unfolding all_symbol_bytes
all_symbol_bytes_complete [] h = refl
all_symbol_bytes_complete (c ∷ s) (p, h) = ground (arith, all_symbol_bytes_complete s h)

is_normalized_symbol_sound : (s : Symbol) → is_normalized_symbol s ≡ true → IsNormalized s
unfolding is_normalized_symbol
is_normalized_symbol_sound s h = ground (arith, all_symbol_bytes_sound s)

is_normalized_symbol_complete : (s : Symbol) → IsNormalized s → is_normalized_symbol s ≡ true
unfolding is_normalized_symbol
is_normalized_symbol_complete s (present, short, bytes) =
    ground (arith, all_symbol_bytes_complete s bytes)

pub is_normalized_symbol_iff : (s : Symbol) → (is_normalized_symbol s ≡ true) ↔ IsNormalized s
is_normalized_symbol_iff s = (is_normalized_symbol_sound s, is_normalized_symbol_complete s)

pub positive_id_bounds : (h : ℕ) → (0 < positive_id h) × (positive_id h < 2 ^ 31)
unfolding positive_id
positive_id_bounds h = ground arith

-- Exactly the normalized names have an id, and an id is a positive `int32_t`.
pub derive_instrument_id_lem :
    (s : Symbol)
    → (IsNormalized s
        × ((derive_instrument_id s).error ≡ none)
        × (0 < (derive_instrument_id s).value)
        × ((derive_instrument_id s).value < 2 ^ 31))
      ⊎ (¬ (IsNormalized s)
          × (derive_instrument_id s ≡ record { value = 0; error = invalid_symbol }))
unfolding derive_instrument_id
derive_instrument_id_lem s = elim (Bool-cases (is_normalized_symbol s)) [
  | inl yes_normal ↦
      let (low, high) = positive_id_bounds (fnv_hash s fnv_offset_basis) in
      inl (
        is_normalized_symbol_sound s yes_normal,
        rw (yes_normal, derive_instrument_id),
        rw (yes_normal, derive_instrument_id) low,
        rw (yes_normal, derive_instrument_id) high,
      )
  | inr not_normal ↦ inr (
    λ h. false≢true (sym not_normal ∙ is_normalized_symbol_complete s h),
    rw (not_normal, derive_instrument_id),
  )
]

bytes_equal_sound : (s t : Symbol) → bytes_equal s t ≡ true → s ≡ t
unfolding bytes_equal
bytes_equal_sound [] [] h = refl
bytes_equal_sound [] (d ∷ t) h = cc
bytes_equal_sound (c ∷ s) [] h = cc
bytes_equal_sound (c ∷ s) (d ∷ t) h = ground (arith, bytes_equal_sound s t)

bytes_equal_refl : (s : Symbol) → bytes_equal s s ≡ true
unfolding bytes_equal
bytes_equal_refl [] = refl
bytes_equal_refl (c ∷ s) = ground (arith, bytes_equal_refl s)

pub bytes_equal_iff : (s t : Symbol) → (bytes_equal s t ≡ true) ↔ (s ≡ t)
bytes_equal_iff s t = (bytes_equal_sound s t, λ e. rw (← e) (bytes_equal_refl s))
