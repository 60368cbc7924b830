-- ===== src/Replay/Rows/Texts.antt =====
-- src/csv_formatter.cpp, src/market_data_replay.cpp: the bytes of a row, and taking its fields off it.
use mathlib.Core.Option.{some}
use ir_assignment.Prelude.{
  ℕ, suc, ◌≡◌, refl, ap, ◌∙◌, Bool, true, false, arith, List, [], ◌∷◌, ◌++◌, ◌==◌, All, All-map,
  inl, inr,
}
use ir_assignment.SymbolIdentity.{is_normalized_symbol}
use ir_assignment.SymbolIdentity.Ids.{IsSymbolByte, is_normalized_symbol_iff}
use ir_assignment.Payload.{PayloadVenue, spot, usdm, SpotStreamKind, depth_diff, depth5, trade}
use ir_assignment.FixedPoint.Grammar.{IsDigit}
use ir_assignment.Csv.Numbers.{ℤ, pos, negsuc, print_int}
use ir_assignment.Csv.Numbers.ReadBack.{print_nat-IsDigit}
use ir_assignment.Csv.Format.{
  written, Piece, integer, byte, bytes, quoted, append_bytes, append_byte, append_quoted_field,
  append_escaped, append_piece, append_pieces, venue_text, stream_kind_text,
}
use ir_assignment.Replay.{
  ReplayColumn, good, take_field, kept_byte, forbidden_unquoted_byte, split_last,
}
use ir_assignment.Replay.Quoting.{
  escape, append-nil, append_assoc, bind_written, append_bytes_written, append_byte_written,
  append_escaped_written,
}

-- The bytes of the arguments of the appends.
abbrev pub piece_text : Piece → List ℕ
piece_text (integer z) = print_int z
piece_text (byte c) = c ∷ []
piece_text (bytes s) = s
piece_text (quoted s) = b'"' ∷ escape s ++ (b'"' ∷ [])

abbrev pub pieces_text : List Piece → List ℕ
pieces_text [] = []
pieces_text (p ∷ ps) = piece_text p ++ pieces_text ps

module _ (memory : ℕ → Bool) where
  bytes_written : (out s r : List ℕ) → append_bytes memory out s ≡ written r → r ≡ out ++ s
  unfolding append_bytes
  bytes_written out [] r e = ground (arith, e, append-nil out)
  bytes_written out (c ∷ s) r e = append_bytes_written memory out c s r e

  quoted_written :
      (out s r : List ℕ)
      → append_quoted_field memory out s ≡ written r
      → r ≡ out ++ (b'"' ∷ escape s ++ (b'"' ∷ []))
  unfolding append_quoted_field
  quoted_written out s r e =
      let (opened, first, more) = bind_written (append_byte memory out b'"') _ r e in
      let (filled, second, last) = bind_written (append_escaped memory opened s) _ r more in
      append_byte_written memory filled b'"' r last
      ∙ ap (λ t. t ++ (b'"' ∷ []))
          (append_escaped_written memory opened s filled second
            ∙ ap (λ t. t ++ escape s) (append_byte_written memory out b'"' opened first))
      ∙ ap (λ t. t ++ (b'"' ∷ [])) (append_assoc out (b'"' ∷ []) (escape s))
      ∙ append_assoc out (b'"' ∷ escape s) (b'"' ∷ [])

  piece_written :
      (out : List ℕ) (p : Piece) (r : List ℕ)
      → append_piece memory out p ≡ written r
      → r ≡ out ++ piece_text p
  unfolding append_piece
  piece_written out (integer z) r e = bytes_written out (print_int z) r e
  piece_written out (byte c) r e = append_byte_written memory out c r e
  piece_written out (bytes s) r e = bytes_written out s r e
  piece_written out (quoted s) r e = quoted_written out s r e

  -- What is written of some pieces is their bytes.
  pub pieces_written :
      (out : List ℕ) (ps : List Piece) (r : List ℕ)
      → append_pieces memory out ps ≡ written r
      → r ≡ out ++ pieces_text ps
  unfolding append_pieces
  pieces_written out [] r e = ground (arith, e, append-nil out)
  pieces_written out (p ∷ ps) r e =
      let (next, first, rest) = bind_written (append_piece memory out p) _ r e in
      pieces_written next ps r rest
      ∙ ap (λ t. t ++ pieces_text ps) (piece_written out p next first)
      ∙ append_assoc out (piece_text p) (pieces_text ps)

-- A byte that may stand in a field without quotes.
abbrev pub IsPlain : ℕ → Type 0
IsPlain c = ((c == b',') ≡ false) × (forbidden_unquoted_byte c ≡ false)

pub take_field-plain :
    (column : ReplayColumn) (field row : List ℕ)
    → All IsPlain field
    → take_field column (field ++ (b',' ∷ row)) ≡ good (field, row)
unfolding take_field
take_field-plain column [] row h = refl
take_field-plain column (c ∷ field) row ((no_comma, allowed), h) =
    rw (no_comma, allowed) (ap (kept_byte c) (take_field-plain column field row h))

digit-IsPlain : (c : ℕ) → IsDigit c → IsPlain c
digit-IsPlain c h = ground (arith, h)

pub print_int-IsPlain : (z : ℤ) → All IsPlain (print_int z)
unfolding print_int
print_int-IsPlain (pos n) = All-map digit-IsPlain _ (print_nat-IsDigit n)
print_int-IsPlain (negsuc n) = ((refl, refl), All-map digit-IsPlain _ (print_nat-IsDigit (suc n)))

symbol_byte-IsPlain : (c : ℕ) → IsSymbolByte c → IsPlain c
symbol_byte-IsPlain c (inl h) = ground (arith, h)
symbol_byte-IsPlain c (inr h) = ground (arith, h)

pub symbol-IsPlain : (s : List ℕ) → is_normalized_symbol s ≡ true → All IsPlain s
symbol-IsPlain s h =
    let (_, _, all) = (is_normalized_symbol_iff s).0 h in All-map symbol_byte-IsPlain s all

pub venue_text-IsPlain : (venue : PayloadVenue) → All IsPlain (venue_text venue)
venue_text-IsPlain spot = ground arith
venue_text-IsPlain usdm = ground arith

pub stream_kind_text-IsPlain : (kind : SpotStreamKind) → All IsPlain (stream_kind_text kind)
stream_kind_text-IsPlain depth_diff = ground arith
stream_kind_text-IsPlain depth5 = ground arith
stream_kind_text-IsPlain trade = ground arith

-- The last byte of a text.
pub split_last-append : (s : List ℕ) (c : ℕ) → split_last (s ++ (c ∷ [])) ≡ some (s, c)
unfolding split_last
split_last-append [] c = refl
split_last-append (d ∷ s) c = rw (split_last-append s c) refl
