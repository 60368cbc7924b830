-- ===== src/Event/Tests.antt =====
-- Runs of `process`, as in tests/event_processor_test.cpp, and the theorems at an input.
use mathlib.Core.Option.{some}
use ir_assignment.Prelude.{ℕ, ◌+◌, ◌≡◌, refl, ◌⊎◌, Bool, true, false, List, [], ◌∷◌, arith}
use ir_assignment.Payload.{
  spot, SpotStreamKind, depth_diff, depth5, trade, BookSide, LevelUpdate, SpotDepthEvent,
  SpotParseResult, SpotParseError, SpotField, PaddedJsonView,
}
use ir_assignment.FixedPoint
use ir_assignment.SymbolIdentity.{derive_instrument_id, bytes_equal}
use ir_assignment.Book.Core
use ir_assignment.Book.Core.Events.{IsRefresh, IsDiff}
use ir_assignment.Csv.Numbers.{pos, print_int}
use ir_assignment.Csv.Format.{
  format_order_book_csv_row, valid_book, append_pieces, append_bytes, append_byte,
}
use ir_assignment.Book.Side.{apply_updates, crossed, make_refresh_side}
use ir_assignment.Book.Spot
use ir_assignment.Event.{
  SymbolState, EventContext, replay, live_capture, created, create, process, book_valid,
  epoch_changed, success, EventProcessStatus, context_is_valid, process_eligible, process_audited,
  process_parsed, process_depth, with_candidate, candidate_for, publish,
}
use ir_assignment.Event.Atomic.{IsTransaction, process-IsTransaction}
use ir_assignment.Event.Context.{
  Call, accepted, final, rows, IsInOrder, process-IsInOrder, process_counts_rows,
}
use ir_assignment.Event.Books.{Parse, IsParser, IsWellFormed, process-IsWellFormed}
use ir_assignment.Event.Reconnect.{reconnect_lem, refused_diff_lem}

abbrev bid_of : ℕ → ℕ → LevelUpdate
bid_of p q = record { price = p; quantity = q; side = BookSide.bid }

abbrev ask_of : ℕ → ℕ → LevelUpdate
ask_of p q = record { price = p; quantity = q; side = BookSide.ask }

abbrev refresh_event : SpotDepthEvent
refresh_event = record {
  has_event_time = false;
  event_time_ms = 0;
  has_transaction_time = false;
  transaction_time_ms = 0;
  has_previous_update_id = false;
  previous_update_id = 0;
  first_update_id = 7;
  final_update_id = 7;
  bids = bid_of 100 1 ∷ bid_of 98 2 ∷ [];
  asks = ask_of 103 4 ∷ [];
}

-- The bid at 100 is gone, and one at 99 comes.
abbrev diff_event : SpotDepthEvent
diff_event = record refresh_event {
  first_update_id = 8;
  final_update_id = 9;
  bids = bid_of 100 0 ∷ bid_of 99 3 ∷ [];
  asks = [];
}

abbrev parsed_as : SpotStreamKind → SpotDepthEvent → SpotParseError → SpotParseResult
parsed_as kind depth error = record {
  event = record {
    kind = kind;
    depth = depth;
    trade = record {
      event_type_present = true;
      event_type_matches = true;
      symbol_present = true;
      symbol_matches = true;
    };
  };
  error = error;
  field = SpotField.none;
  decimal_error = FixedPoint.none;
}

abbrev error_of : List ℕ → SpotParseError
error_of [] = SpotParseError.missing_field
error_of (c ∷ s) = SpotParseError.none

-- A parser that knows one refresh and one diff; an empty payload lacks its fields.
abbrev parse : Parse
parse venue depth5 symbol payload = parsed_as depth5 refresh_event (error_of payload.bytes)
parse venue depth_diff symbol payload = parsed_as depth_diff diff_event (error_of payload.bytes)
parse venue trade symbol payload = parsed_as trade diff_event (error_of payload.bytes)

event-IsRefresh : IsRefresh refresh_event
event-IsRefresh = record {
  few_bids = omega arith;
  few_asks = omega arith;
  bids_orderly = (((refl, tt), (tt, tt)), omega arith);
  asks_orderly = ((tt, tt), omega arith);
  uncrossed = omega arith;
}

event-IsDiff : IsDiff diff_event
event-IsDiff = record {
  bid_prices = omega arith;
  ask_prices = tt;
  bids_distinct = omega arith;
  asks_distinct = tt;
}

parse-IsParser : IsParser parse
parse-IsParser = record {
  refreshes = λ venue symbol payload e. event-IsRefresh;
  diffs = λ venue symbol payload e. event-IsDiff;
}

abbrev memory : ℕ → Bool
memory size = true

-- "BTCUSDT"
abbrev btcusdt : List ℕ
btcusdt = b'B' ∷ b'T' ∷ b'C' ∷ b'U' ∷ b'S' ∷ b'D' ∷ b'T' ∷ []

abbrev context_of : SpotStreamKind → ℕ → ℕ → EventContext
context_of kind epoch sequence = record {
  timestamp = record { seconds = pos 1_700_000_000; nanoseconds = pos 42 };
  venue = spot;
  stream_kind = kind;
  shard_id = 0;
  connection_epoch = epoch;
  connection_sequence = sequence;
  symbol = btcusdt;
}

abbrev text : PaddedJsonView
text = record { bytes = b'{' ∷ b'}' ∷ []; capacity = 66 }

abbrev call_of : SpotStreamKind → ℕ → ℕ → Call
call_of kind epoch sequence = record {
  context = context_of kind epoch sequence;
  payload = text;
  mode = replay;
}

abbrev fresh : SymbolState
fresh = created spot btcusdt (derive_instrument_id btcusdt).value

fresh_is_created : create spot btcusdt ≡ some fresh
unfolding derive_instrument_id
fresh_is_created = refl

abbrev session : List Call
session =
    call_of depth5 1 1 ∷ call_of depth_diff 1 2 ∷ call_of depth_diff 1 2 ∷ call_of depth5 2 1 ∷ []

process-IsTransaction_example :
    IsTransaction fresh
      (context_of depth5 1 1)
      (process parse memory memory fresh (context_of depth5 1 1) text live_capture)
process-IsTransaction_example =
    process-IsTransaction parse memory memory fresh (context_of depth5 1 1) text live_capture

process-IsInOrder_example : IsInOrder (accepted parse memory memory fresh session)
process-IsInOrder_example = process-IsInOrder parse memory memory fresh session

process_counts_rows_example :
    (final parse memory memory fresh session).sequence_number
    ≡ 0 + rows parse memory memory fresh session
process_counts_rows_example = process_counts_rows parse memory memory fresh session

process-IsWellFormed_example : IsWellFormed (final parse memory memory fresh session)
process-IsWellFormed_example =
    process-IsWellFormed parse parse-IsParser memory memory spot btcusdt fresh session
      fresh_is_created

abbrev refreshed : SymbolState
refreshed = (process parse memory memory fresh (context_of depth5 1 1) text replay).state

abbrev no_text : PaddedJsonView
no_text = record { bytes = []; capacity = 64 }

-- The third call of the session repeats a context, and emits nothing. A diff on the next connection
-- and a diff without its fields succeed behind the refresh.
runs :
    (rows parse memory memory fresh session ≡ 3)
    × (book_valid refreshed ≡ true)
    × (epoch_changed refreshed (context_of depth_diff 2 1) ≡ true)
    × (success
          (process parse memory memory refreshed (context_of depth_diff 2 1) text replay).result
        ≡ true)
    × (success
          (process parse memory memory refreshed (context_of depth_diff 1 2) no_text replay).result
        ≡ true)
unfolding process context_is_valid bytes_equal process_eligible process_audited process_parsed
    process_depth with_candidate candidate_for publish Spot.apply_refresh Spot.apply_diff
    Core.apply_refresh Core.apply_accepted_diff apply_updates crossed make_refresh_side
    format_order_book_csv_row valid_book append_pieces append_bytes append_byte print_int
    derive_instrument_id
runs = (refl, refl, refl, refl, refl)

reconnect_lem_example :
    book_valid (process parse memory memory refreshed (context_of depth_diff 2 1) text replay).state
      ≡ false
    ⊎ ((process parse memory memory refreshed (context_of depth_diff 2 1) text replay).result.status
        ≡ EventProcessStatus.applied_refresh)
reconnect_lem_example =
    reconnect_lem parse memory memory refreshed (context_of depth_diff 2 1) text replay runs.2
      runs.3

refused_diff_lem_example :
    book_valid
      (process parse memory memory refreshed (context_of depth_diff 1 2) no_text replay).state
    ≡ false
refused_diff_lem_example =
    refused_diff_lem parse memory memory refreshed (context_of depth_diff 1 2) no_text replay refl
      refl runs.4
