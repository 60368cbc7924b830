-- ===== src/Payload.antt =====
-- include/hft/spot_payload_parser.h: the data that a parsed payload hands on.
-- Prices and quantities are `int64_t` in the source; every one comes from `parse_decimal_1e8`, whose
-- values are not negative (FixedPoint), so they are natural numbers here. A `LevelUpdateRange`, a
-- pointer and a length, is the list of its updates.
use mathlib.Core.Bool.{Bool}
use mathlib.Core.List.{List}
use Prim.Native.Nat.{ℕ, ◌*◌}
use ir_assignment.FixedPoint.{DecimalParseError}

abbrev pub max_payload_bytes : ℕ
max_payload_bytes = 1024 * 1024

abbrev pub json_padding_bytes : ℕ
json_padding_bytes = 64

pub data PayloadVenue : Type 0 where
  spot usdm : PayloadVenue

pub data SpotStreamKind : Type 0 where
  depth_diff depth5 trade : SpotStreamKind

pub data BookSide : Type 0 where
  bid ask : BookSide

pub data SpotParseError : Type 0 where
  none invalid_input_buffer payload_too_large json_nesting_too_deep malformed_json : SpotParseError
  root_not_object missing_field duplicate_field wrong_type unexpected_event_type : SpotParseError
  symbol_mismatch invalid_decimal non_positive_price invalid_quantity : SpotParseError
  invalid_update_range too_many_levels invalid_level_shape duplicate_price : SpotParseError
  invalid_level_order crossed_book internal_capacity_error : SpotParseError

pub data SpotField : Type 0 where
  none root event_type event_time transaction_time symbol first_update_id : SpotField
  final_update_id previous_update_id last_update_id bids asks price quantity level : SpotField

pub record LevelUpdate : Type 0 where
  pub price : ℕ
  pub quantity : ℕ
  pub side : BookSide

pub record SpotDepthEvent : Type 0 where
  pub has_event_time : Bool
  pub event_time_ms : ℕ
  pub has_transaction_time : Bool
  pub transaction_time_ms : ℕ
  pub has_previous_update_id : Bool
  pub previous_update_id : ℕ
  pub first_update_id : ℕ
  pub final_update_id : ℕ
  pub bids : List LevelUpdate
  pub asks : List LevelUpdate

pub record SpotTradeAuditEvent : Type 0 where
  pub event_type_present : Bool
  pub event_type_matches : Bool
  pub symbol_present : Bool
  pub symbol_matches : Bool

pub record SpotEvent : Type 0 where
  pub kind : SpotStreamKind
  pub depth : SpotDepthEvent
  pub trade : SpotTradeAuditEvent

pub record SpotParseResult : Type 0 where
  pub event : SpotEvent
  pub error : SpotParseError
  pub field : SpotField
  pub decimal_error : DecimalParseError

-- A buffer: the payload in front of its padding, and the bytes that may be read.
pub record PaddedJsonView : Type 0 where
  pub bytes : List ℕ
  pub capacity : ℕ
