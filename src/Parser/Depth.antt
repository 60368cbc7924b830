-- ===== src/Parser/Depth.antt =====
-- src/spot_payload_parser.cpp: `parse_depth`. The bit set of the fields that were seen is a function
-- on the fields. The chain of tests on the key picks a field; what follows is the same for all but for
-- how the value is read.
pub mod Reads
pub mod Events
pub mod Accept
pub mod Suits
pub mod Clean
pub mod Once
use mathlib.Core.Option.{Option, some}
use mathlib.Core.Option
use ir_assignment.Prelude.{
  ℕ, Bool, true, false, not, ◌&&◌, ◌||◌, List, [], ◌∷◌, ltb, leb, ◌==◌, if◌then◌else◌, length,
}
use ir_assignment.Payload.{
  PayloadVenue, SpotStreamKind, SpotParseError, SpotField, SpotDepthEvent, SpotParseResult,
  BookSide, LevelUpdate,
}
use ir_assignment.Payload
use ir_assignment.FixedPoint
use ir_assignment.SymbolIdentity.{bytes_equal}
use ir_assignment.Json.{
  JsonError, Read, got, lacks, Value, Fields, end_of_object, object_breaks, member,
  validate_json_value,
}
use ir_assignment.Parser.{
  ParseFailure, fail, fail_json, is_none, Field, value, failed, is_fatal_document_error,
  is_internal, classify_json_error, equals_ascii_case_insensitive, read_json_string,
  read_json_uint64, root_field_container_depth,
}
use ir_assignment.Parser.Levels.{Impl, SideResult, parse_levels}
use ir_assignment.Parser.Trade.{start_result, with_error, root_error}

-- The bits of the source.
pub data Bit : Type 0 where
  event_type event_time transaction_time symbol first_update_id final_update_id : Bit
  previous_update_id last_update_id bids asks : Bit

abbrev pub bit_equal : Bit → Bit → Bool
bit_equal event_type event_type = true
bit_equal event_time event_time = true
bit_equal transaction_time transaction_time = true
bit_equal symbol symbol = true
bit_equal first_update_id first_update_id = true
bit_equal final_update_id final_update_id = true
bit_equal previous_update_id previous_update_id = true
bit_equal last_update_id last_update_id = true
bit_equal bids bids = true
bit_equal asks asks = true
bit_equal _ _ = false

abbrev pub field_of : Bit → SpotField
field_of event_type = SpotField.event_type
field_of event_time = SpotField.event_time
field_of transaction_time = SpotField.transaction_time
field_of symbol = SpotField.symbol
field_of first_update_id = SpotField.first_update_id
field_of final_update_id = SpotField.final_update_id
field_of previous_update_id = SpotField.previous_update_id
field_of last_update_id = SpotField.last_update_id
field_of bids = SpotField.bids
field_of asks = SpotField.asks

-- What the message is, and of which symbol it has to be.
pub record Shape : Type 0 where
  pub venue : PayloadVenue
  pub kind : SpotStreamKind
  pub expected_symbol : List ℕ

abbrev pub is_usdm : Shape → Bool
is_usdm m = elim m.venue [ Payload.usdm ↦ true | _ ↦ false ]

abbrev pub is_depth_diff : Shape → Bool
is_depth_diff m = elim m.kind [ Payload.depth_diff ↦ true | _ ↦ false ]

abbrev pub is_depth5 : Shape → Bool
is_depth5 m = elim m.kind [ Payload.depth5 ↦ true | _ ↦ false ]

abbrev pub uses_depth_update_shape : Shape → Bool
uses_depth_update_shape m = is_usdm m || is_depth_diff m

-- "lastUpdateId", "bids", "asks", "depthUpdate"
abbrev last_update_id_text : List ℕ
last_update_id_text =
    b'l' ∷ b'a' ∷ b's' ∷ b't' ∷ b'U' ∷ b'p' ∷ b'd' ∷ b'a' ∷ b't' ∷ b'e' ∷ b'I' ∷ b'd' ∷ []

abbrev bids_text : List ℕ
bids_text = b'b' ∷ b'i' ∷ b'd' ∷ b's' ∷ []

abbrev asks_text : List ℕ
asks_text = b'a' ∷ b's' ∷ b'k' ∷ b's' ∷ []

abbrev pub depth_update_text : List ℕ
depth_update_text = b'd' ∷ b'e' ∷ b'p' ∷ b't' ∷ b'h' ∷ b'U' ∷ b'p' ∷ b'd' ∷ b'a' ∷ b't' ∷ b'e' ∷ []

-- The chain of tests on the key.
unfoldable pub field_of_key : Shape → List ℕ → Option Bit
field_of_key m key =
    let update = uses_depth_update_shape m in
    if update && bytes_equal key (b'e' ∷ [])
    then some event_type
    else if update && bytes_equal key (b'E' ∷ [])
    then some event_time
    else if is_usdm m && bytes_equal key (b'T' ∷ [])
    then some transaction_time
    else if update && bytes_equal key (b's' ∷ [])
    then some symbol
    else if update && bytes_equal key (b'U' ∷ [])
    then some first_update_id
    else if update && bytes_equal key (b'u' ∷ [])
    then some final_update_id
    else if is_usdm m && bytes_equal key (b'p' ∷ b'u' ∷ [])
    then some previous_update_id
    else if not (is_usdm m) && is_depth5 m && bytes_equal key last_update_id_text
    then some last_update_id
    else if (update && bytes_equal key (b'b' ∷ [])) || (not update && bytes_equal key bids_text)
    then some bids
    else if (update && bytes_equal key (b'a' ∷ [])) || (not update && bytes_equal key asks_text)
    then some asks
    else Option.none

-- The local variables of the loop over the fields.
pub record Depth : Type 0 where
  pub impl : Impl
  pub result : SpotParseResult
  pub fields : Bit → Bool

pub data Walk : Type 0 where
  ends goes_on : Depth → Walk

abbrev pub record_error : Depth → ParseFailure → Depth
record_error d f =
    if is_none d.result.error
    then record d {
      result = record d.result {
        error = f.error;
        field = f.field;
        decimal_error = f.decimal_error;
      };
    }
    else d

-- A failure in place of what was recorded.
abbrev pub overruled : Depth → ParseFailure → Depth
overruled d f = record d {
  result = record d.result { error = f.error; field = f.field; decimal_error = f.decimal_error };
}

abbrev pub with_depth : Depth → SpotDepthEvent → Depth
with_depth d depth = record d {
  result = record d.result { event = record d.result.event { depth = depth } };
}

abbrev pub depth_of : Depth → SpotDepthEvent
depth_of d = d.result.event.depth

-- `apply_failure`, and the return that follows where the document is at fault.
abbrev pub after_failure : Depth → ParseFailure → Walk
after_failure d f =
    if is_fatal_document_error f.error then ends (overruled d f) else goes_on (record_error d f)

abbrev pub after_read {ℓ} : {A : Type ℓ} → Depth → (A → Depth) → Field A → Walk
after_read d assign (value x) = goes_on (assign x)
after_read d assign (failed f) = after_failure d f

abbrev unless : Bool → Depth → ParseFailure → Depth
unless ok d f = if ok then d else record_error d f

-- The state of the table, and the levels if any were assigned.
abbrev pub assigned : Depth → (List LevelUpdate → SpotDepthEvent) → SideResult → Depth
assigned d assign r = elim r.output [
  | Option.none ↦ record d { impl = r.impl }
  | some levels ↦ with_depth (record d { impl = r.impl }) (assign levels)
]

-- Behind `parse_levels`: a fault of the document or of the table ends the walk.
abbrev pub after_levels : Depth → (List LevelUpdate → SpotDepthEvent) → SideResult → Walk
after_levels d assign r =
    if is_none r.failure.error
    then goes_on (assigned d assign r)
    else if is_fatal_document_error r.failure.error || is_internal r.failure.error
    then ends (overruled (assigned d assign r) r.failure)
    else goes_on (record_error (assigned d assign r) r.failure)

-- The value of a field that is seen for the first time.
unfoldable pub read_field : Shape → Depth → Bit → Value → Walk
read_field m d event_type v =
    after_read d
      (λ s.
        unless (bytes_equal s depth_update_text) d
          (fail SpotParseError.unexpected_event_type SpotField.event_type))
      (read_json_string v SpotField.event_type)
read_field m d event_time v =
    after_read d
      (λ n. with_depth d (record (depth_of d) { event_time_ms = n; has_event_time = true }))
      (read_json_uint64 v SpotField.event_time)
read_field m d transaction_time v =
    after_read d
      (λ n.
        with_depth d (record (depth_of d) { transaction_time_ms = n; has_transaction_time = true }))
      (read_json_uint64 v SpotField.transaction_time)
read_field m d symbol v =
    after_read d
      (λ s.
        unless (equals_ascii_case_insensitive s m.expected_symbol) d
          (fail SpotParseError.symbol_mismatch SpotField.symbol))
      (read_json_string v SpotField.symbol)
read_field m d first_update_id v =
    after_read d (λ n. with_depth d (record (depth_of d) { first_update_id = n }))
      (read_json_uint64 v SpotField.first_update_id)
read_field m d final_update_id v =
    after_read d (λ n. with_depth d (record (depth_of d) { final_update_id = n }))
      (read_json_uint64 v SpotField.final_update_id)
read_field m d previous_update_id v =
    after_read d
      (λ n.
        with_depth d
          (record (depth_of d) { previous_update_id = n; has_previous_update_id = true }))
      (read_json_uint64 v SpotField.previous_update_id)
read_field m d last_update_id v =
    after_read d
      (λ n. with_depth d (record (depth_of d) { final_update_id = n; first_update_id = n }))
      (read_json_uint64 v SpotField.last_update_id)
read_field m d bids v =
    after_levels d (λ levels. record (depth_of d) { bids = levels })
      (parse_levels BookSide.bid (is_depth5 m) d.impl v)
read_field m d asks v =
    after_levels d (λ levels. record (depth_of d) { asks = levels })
      (parse_levels BookSide.ask (is_depth5 m) d.impl v)

abbrev pub marked : Depth → Bit → Depth
marked d bit = record d { fields = λ b. if bit_equal bit b then true else d.fields b }

-- The value of a field that was seen before, or that the source has no use for: checked, and only a
-- fault of the document ends the walk.
abbrev pub checked_field : Depth → Option JsonError → Walk
checked_field d Option.none = goes_on d
checked_field d (some e) = ends (overruled d (fail_json e))

-- The body of the loop over the fields.
unfoldable pub depth_field : Shape → Depth → List ℕ → Value → Walk
unfolding read_field
depth_field m d key v = elim (field_of_key m key) [
  | Option.none ↦ checked_field d (validate_json_value v root_field_container_depth)
  | some bit ↦
      if d.fields bit
      then checked_field (record_error d (fail SpotParseError.duplicate_field (field_of bit)))
          (validate_json_value v root_field_container_depth)
      else read_field m (marked d bit) bit v
]

-- The loop over the fields: whether it returned at once, and with what.
unfoldable pub depth_fields : Shape → Fields → Depth → Walk
unfolding depth_field
depth_fields m end_of_object d = goes_on d
depth_fields m (object_breaks e) d = ends (record d { result = root_error d.result e })
depth_fields m (member (lacks e) v fields) d = ends (record d { result = root_error d.result e })
depth_fields m (member (got key) v fields) d = elim (depth_field m d key v) [
  | ends after ↦ ends after
  | goes_on after ↦ depth_fields m fields after
]

abbrev pub required : Shape → List Bit
required m =
    if is_usdm m
    then event_type ∷ event_time ∷ transaction_time ∷ symbol ∷ first_update_id ∷ final_update_id
      ∷ previous_update_id ∷ bids ∷ asks ∷ []
    else if is_depth_diff m
    then event_type ∷ event_time ∷ symbol ∷ first_update_id ∷ final_update_id ∷ bids ∷ asks ∷ []
    else last_update_id ∷ bids ∷ asks ∷ []

unfoldable pub has_all : (Bit → Bool) → List Bit → Bool
has_all fields [] = true
has_all fields (bit ∷ bits) = fields bit && has_all fields bits

-- The chain that names the first field that is missing.
abbrev pub missing_field : Shape → (Bit → Bool) → SpotField
missing_field m fields =
    let update = uses_depth_update_shape m in
    if not (fields event_type) && update
    then SpotField.event_type
    else if not (fields event_time) && update
    then SpotField.event_time
    else if not (fields transaction_time) && is_usdm m
    then SpotField.transaction_time
    else if not (fields symbol) && update
    then SpotField.symbol
    else if not (fields first_update_id) && update
    then SpotField.first_update_id
    else if not (fields final_update_id) && update
    then SpotField.final_update_id
    else if not (fields previous_update_id) && is_usdm m
    then SpotField.previous_update_id
    else if not (fields last_update_id) && not (is_usdm m) && is_depth5 m
    then SpotField.last_update_id
    else if not (fields bids)
    then SpotField.bids
    else SpotField.asks

abbrev pub crossed_levels : List LevelUpdate → List LevelUpdate → Bool
crossed_levels [] others = false
crossed_levels (b ∷ more) [] = false
crossed_levels (b ∷ more) (a ∷ others) = leb a.price b.price

-- Behind the loop.
unfoldable pub finish_depth : Shape → Depth → SpotParseResult
finish_depth m d =
    let result = d.result in
    let depth = depth_of d in
    if not (is_none result.error)
    then result
    else if not (has_all d.fields (required m))
    then with_error result SpotParseError.missing_field (missing_field m d.fields)
    else if uses_depth_update_shape m && ltb depth.final_update_id depth.first_update_id
    then with_error result SpotParseError.invalid_update_range SpotField.first_update_id
    else if is_usdm m && leb depth.final_update_id depth.previous_update_id
    then with_error result SpotParseError.invalid_update_range SpotField.previous_update_id
    else if is_depth5 m && crossed_levels depth.bids depth.asks
    then with_error result SpotParseError.crossed_book SpotField.level
    else result

abbrev pub finish_walk : Shape → Walk → Impl × SpotParseResult
finish_walk m (ends d) = (d.impl, d.result)
finish_walk m (goes_on d) = (d.impl, finish_depth m d)

abbrev pub depth_start : Impl → SpotStreamKind → Depth
depth_start impl kind = record { impl = impl; result = start_result kind; fields = λ bit. false }

unfoldable pub parse_depth : Shape → Impl → Fields → Impl × SpotParseResult
unfolding depth_fields finish_depth
parse_depth m impl object = finish_walk m (depth_fields m object (depth_start impl m.kind))
