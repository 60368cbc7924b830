-- ===== src/Csv/Format.antt =====
-- src/csv_formatter.cpp: the row formatters. The buffer's storage is the list of its bytes. Whether
-- the string can grow to a size without `std::bad_alloc` is the argument `memory`; the capacity that a
-- buffer keeps is not modelled. An instrument id is a natural number, so `<= 0` is the test for zero.
use ir_assignment.Prelude.{
  ℕ, zero, suc, ◌-◌, ◌*◌, Bool, true, false, not, ◌||◌, List, [], ◌∷◌, ◌++◌, ltb, leb, ◌==◌,
  if◌then◌else◌, length,
}
use ir_assignment.Payload.{
  PayloadVenue, spot, usdm, SpotStreamKind, depth_diff, depth5, trade, BookSide,
}
use ir_assignment.SymbolIdentity.{is_normalized_symbol}
use ir_assignment.Book.Side.{BookLevel, level_at, visible_book_depth}
use ir_assignment.Book.Core.{BookRowSide}
use ir_assignment.Csv.Numbers.{ℤ, pos, negsuc, print_int}

abbrev pub max_csv_record_bytes : ℕ
max_csv_record_bytes = 3 * 1024 * 1024

abbrev pub nanoseconds_per_second : ℕ
nanoseconds_per_second = 1_000_000_000

pub data BookRowType : Type 0 where
  differential partial_refresh : BookRowType

pub data CsvFormatError : Type 0 where
  none invalid_timestamp invalid_sequence invalid_symbol invalid_instrument_id : CsvFormatError
  invalid_enum invalid_book record_too_large allocation_failure : CsvFormatError

pub record CsvTimestamp : Type 0 where
  pub seconds : ℤ
  pub nanoseconds : ℤ

pub record MarketDataCsvRow : Type 0 where
  pub timestamp : CsvTimestamp
  pub venue : PayloadVenue
  pub stream_kind : SpotStreamKind
  pub shard_id : ℕ
  pub connection_epoch : ℕ
  pub connection_sequence : ℕ
  pub symbol : List ℕ
  pub payload_json : List ℕ

pub record OrderBookCsvRow : Type 0 where
  pub timestamp : CsvTimestamp
  pub sequence_number : ℕ
  pub instrument_id : ℕ
  pub row_type : BookRowType
  pub side : BookRowSide
  pub bids : List BookLevel
  pub asks : List BookLevel

-- An append grows the string, or refuses, or throws.
pub data Append : Type 0 where
  written : List ℕ → Append
  refused no_memory : Append

infixl 5 ◌>>=◌
abbrev pub ◌>>=◌ : Append → (List ℕ → Append) → Append
written s >>= f = f s
refused >>= f = refused
no_memory >>= f = no_memory

module _ (memory : ℕ → Bool) where
  abbrev grown : List ℕ → Append
  grown s = if memory (length s) then written s else no_memory

  unfoldable pub append_bytes : List ℕ → List ℕ → Append
  append_bytes output bytes =
      if ltb max_csv_record_bytes (length output)
        || ltb (max_csv_record_bytes - length output) (length bytes)
      then refused
      else if length bytes == 0
      then written output
      else grown (output ++ bytes)

  unfoldable pub append_byte : List ℕ → ℕ → Append
  append_byte output byte =
      if length output == max_csv_record_bytes then refused else grown (output ++ (byte ∷ []))

  -- The loop of `append_quoted_field`.
  unfoldable pub append_escaped : List ℕ → List ℕ → Append
  unfolding append_bytes append_byte
  append_escaped output [] = written output
  append_escaped output (c ∷ field) = do
    next ← if c == b'"' then append_bytes output (b'"' ∷ b'"' ∷ []) else append_byte output c
    append_escaped next field

  unfoldable pub append_quoted_field : List ℕ → List ℕ → Append
  unfolding append_escaped append_byte
  append_quoted_field output field = do
    opened ← append_byte output b'"'
    filled ← append_escaped opened field
    append_byte filled b'"'

-- The arguments of the appends that a row is made of, in order.
pub data Piece : Type 0 where
  integer : ℤ → Piece
  byte : ℕ → Piece
  bytes quoted : List ℕ → Piece

abbrev pub comma : Piece
comma = byte b','

module _ (memory : ℕ → Bool) where
  unfoldable pub append_piece : List ℕ → Piece → Append
  append_piece output (integer z) = append_bytes memory output (print_int z)
  append_piece output (byte c) = append_byte memory output c
  append_piece output (bytes s) = append_bytes memory output s
  append_piece output (quoted s) = append_quoted_field memory output s

  -- `a && b && ...`: the first append that fails ends the row.
  unfoldable pub append_pieces : List ℕ → List Piece → Append
  unfolding append_piece
  append_pieces output [] = written output
  append_pieces output (p ∷ ps) = do next ← append_piece output p; append_pieces next ps

abbrev pub valid_timestamp : CsvTimestamp → Bool
valid_timestamp t = elim t.nanoseconds [ pos n ↦ ltb n nanoseconds_per_second | negsuc n ↦ false ]

-- "spot", "usdm"
abbrev pub venue_text : PayloadVenue → List ℕ
venue_text spot = b's' ∷ b'p' ∷ b'o' ∷ b't' ∷ []
venue_text usdm = b'u' ∷ b's' ∷ b'd' ∷ b'm' ∷ []

-- "depth_diff", "depth5", "trade"
abbrev pub stream_kind_text : SpotStreamKind → List ℕ
stream_kind_text depth_diff =
    b'd' ∷ b'e' ∷ b'p' ∷ b't' ∷ b'h' ∷ b'_' ∷ b'd' ∷ b'i' ∷ b'f' ∷ b'f' ∷ []
stream_kind_text depth5 = b'd' ∷ b'e' ∷ b'p' ∷ b't' ∷ b'h' ∷ b'5' ∷ []
stream_kind_text trade = b't' ∷ b'r' ∷ b'a' ∷ b'd' ∷ b'e' ∷ []

abbrev pub row_type_text : BookRowType → ℕ
row_type_text differential = b'D'
row_type_text partial_refresh = b'P'

abbrev pub side_text : BookRowSide → ℕ
side_text BookRowSide.bid = b'B'
side_text BookRowSide.ask = b'S'
side_text BookRowSide.neutral = b'N'

-- The test of a level against the one before it.
abbrev pub misplaced : BookSide → BookLevel → BookLevel → Bool
misplaced BookSide.bid previous level = leb previous.price level.price
misplaced BookSide.ask previous level = leb level.price previous.price

-- The loop of `valid_side` behind a level.
unfoldable pub valid_behind : BookSide → BookLevel → List BookLevel → Bool
valid_behind side previous [] = true
valid_behind side previous (l ∷ levels) =
    if l.price == 0 || l.quantity == 0 || misplaced side previous l
    then false
    else valid_behind side l levels

unfoldable pub valid_levels : BookSide → List BookLevel → Bool
unfolding valid_behind
valid_levels side [] = true
valid_levels side (l ∷ levels) =
    if l.price == 0 || l.quantity == 0 then false else valid_behind side l levels

unfoldable pub valid_side : List BookLevel → BookSide → Bool
unfolding valid_levels
valid_side levels side =
    if ltb visible_book_depth (length levels) then false else valid_levels side levels

unfoldable pub valid_book : List BookLevel → List BookLevel → Bool
unfolding valid_side
valid_book bids asks =
    if not (valid_side bids BookSide.bid) || not (valid_side asks BookSide.ask)
    then false
    else length bids == 0 || length asks == 0 || ltb (level_at bids 0).price (level_at asks 0).price

abbrev pub level_component : List BookLevel → Bool → ℕ → List Piece
level_component side quantity index =
    comma
    ∷ (if leb (length side) index
        then byte b'0'
        else integer (
            pos (if quantity then (level_at side index).quantity else (level_at side index).price)))
    ∷ []

-- The loop of `append_book_side` over the visible depth.
abbrev pub book_side_from : List BookLevel → Bool → ℕ → ℕ → List Piece
book_side_from side quantity zero index = []
book_side_from side quantity (suc rounds) index =
    level_component side quantity index ++ book_side_from side quantity rounds (suc index)

abbrev pub book_side_pieces : List BookLevel → Bool → List Piece
book_side_pieces side quantity = book_side_from side quantity visible_book_depth 0

abbrev pub market_data_pieces : MarketDataCsvRow → List Piece
market_data_pieces row =
    integer row.timestamp.seconds
    ∷ comma
    ∷ integer row.timestamp.nanoseconds
    ∷ comma
    ∷ bytes (venue_text row.venue)
    ∷ comma
    ∷ bytes (stream_kind_text row.stream_kind)
    ∷ comma
    ∷ integer (pos row.shard_id)
    ∷ comma
    ∷ integer (pos row.connection_epoch)
    ∷ comma
    ∷ integer (pos row.connection_sequence)
    ∷ comma
    ∷ bytes row.symbol
    ∷ comma
    ∷ quoted row.payload_json
    ∷ byte b'\n'
    ∷ []

abbrev pub order_book_pieces : OrderBookCsvRow → List Piece
order_book_pieces row =
    (integer row.timestamp.seconds
      ∷ comma
      ∷ integer row.timestamp.nanoseconds
      ∷ comma
      ∷ integer (pos row.sequence_number)
      ∷ comma
      ∷ integer (pos row.instrument_id)
      ∷ comma
      ∷ byte (row_type_text row.row_type)
      ∷ comma
      ∷ byte (side_text row.side)
      ∷ [])
    ++ (book_side_pieces row.bids false
        ++ (book_side_pieces row.bids true
            ++ (book_side_pieces row.asks false
                ++ (book_side_pieces row.asks true ++ (byte b'\n' ∷ [])))))

-- The error, with the storage that the buffer is left with.
abbrev pub finished : Append → CsvFormatError × List ℕ
finished (written s) = (none, s)
finished refused = (record_too_large, [])
finished no_memory = (allocation_failure, [])

unfoldable pub format_market_data_csv_row :
    (memory : ℕ → Bool) → MarketDataCsvRow → CsvFormatError × List ℕ
format_market_data_csv_row memory row =
    if not (valid_timestamp row.timestamp)
    then (invalid_timestamp, [])
    else if row.connection_sequence == 0
    then (invalid_sequence, [])
    else if not (is_normalized_symbol row.symbol)
    then (invalid_symbol, [])
    else finished (append_pieces memory [] (market_data_pieces row))

unfoldable pub format_order_book_csv_row :
    (memory : ℕ → Bool) → OrderBookCsvRow → CsvFormatError × List ℕ
format_order_book_csv_row memory row =
    if not (valid_timestamp row.timestamp)
    then (invalid_timestamp, [])
    else if row.sequence_number == 0
    then (invalid_sequence, [])
    else if row.instrument_id == 0
    then (invalid_instrument_id, [])
    else if not (valid_book row.bids row.asks)
    then (invalid_book, [])
    else finished (append_pieces memory [] (order_book_pieces row))
