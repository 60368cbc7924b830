-- ===== src/Csv/Limit.antt =====
-- src/csv_formatter.cpp: the length of what the appends write.
use ir_assignment.Prelude.{ℕ, ◌≤◌, Bool, arith, List, [], ◌∷◌, length, length-append}
use ir_assignment.Csv.Numbers.{print_int}
use ir_assignment.Csv.Format.{
  Append, written, refused, no_memory, ◌>>=◌, Piece, integer, byte, bytes, quoted,
  max_csv_record_bytes, append_bytes, append_byte, append_escaped, append_quoted_field,
  append_piece, append_pieces,
}

-- What is written has at most 3 MiB.
abbrev pub IsWithin : Append → Type 0
IsWithin (written s) = length s ≤ max_csv_record_bytes
IsWithin refused = Unit
IsWithin no_memory = Unit

bind-IsWithin :
    (a : Append) (f : List ℕ → Append)
    → IsWithin a
    → ((s : List ℕ) → length s ≤ max_csv_record_bytes → IsWithin (f s))
    → IsWithin (a >>= f)
bind-IsWithin (written s) f h k = k s h
bind-IsWithin refused f h k = tt
bind-IsWithin no_memory f h k = tt

module _ (memory : ℕ → Bool) where
  append_bytes-IsWithin :
      (output s : List ℕ)
      → length output ≤ max_csv_record_bytes
      → IsWithin (append_bytes memory output s)
  unfolding append_bytes
  append_bytes-IsWithin output s h = ground (arith, h, length-append output s)

  append_byte-IsWithin :
      (output : List ℕ) (c : ℕ)
      → length output ≤ max_csv_record_bytes
      → IsWithin (append_byte memory output c)
  unfolding append_byte
  append_byte-IsWithin output c h = ground (arith, h, length-append output (c ∷ []))

  append_escaped-IsWithin :
      (output field : List ℕ)
      → length output ≤ max_csv_record_bytes
      → IsWithin (append_escaped memory output field)
  unfolding append_escaped
  append_escaped-IsWithin output [] h = h
  append_escaped-IsWithin output (c ∷ field) h =
      bind-IsWithin _ (λ next. append_escaped memory next field)
        (ground (
          arith,
          append_bytes-IsWithin output (b'"' ∷ b'"' ∷ []) h,
          append_byte-IsWithin output c h,
        ))
        (λ next k. append_escaped-IsWithin next field k)

  append_piece-IsWithin :
      (output : List ℕ) (p : Piece)
      → length output ≤ max_csv_record_bytes
      → IsWithin (append_piece memory output p)
  unfolding append_piece append_quoted_field
  append_piece-IsWithin output (integer z) h = append_bytes-IsWithin output (print_int z) h
  append_piece-IsWithin output (byte c) h = append_byte-IsWithin output c h
  append_piece-IsWithin output (bytes s) h = append_bytes-IsWithin output s h
  append_piece-IsWithin output (quoted s) h =
      bind-IsWithin (append_byte memory output b'"') _ (append_byte-IsWithin output b'"' h)
        (λ opened k.
          bind-IsWithin (append_escaped memory opened s) _ (append_escaped-IsWithin opened s k)
            (λ filled l. append_byte-IsWithin filled b'"' l))

  pub append_pieces-IsWithin :
      (output : List ℕ) (ps : List Piece)
      → length output ≤ max_csv_record_bytes
      → IsWithin (append_pieces memory output ps)
  unfolding append_pieces
  append_pieces-IsWithin output [] h = h
  append_pieces-IsWithin output (p ∷ ps) h =
      bind-IsWithin (append_piece memory output p) _ (append_piece-IsWithin output p h)
        (λ next k. append_pieces-IsWithin next ps k)
