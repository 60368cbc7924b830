-- ===== src/Parser/Depth/Events.antt =====
-- src/spot_payload_parser.cpp: the events that `parse_depth` returns without an error are as the books
-- expect them.
use mathlib.Core.Option.{Option, some}
use ir_assignment.Prelude.{ℕ, ◌≡◌, refl, Bool, false, ◌||◌, if◌then◌else◌, if_cases, List}
use ir_assignment.Payload.{
  BookSide, bid, ask, LevelUpdate, SpotParseError, SpotField, SpotDepthEvent,
}
use ir_assignment.Json.{
  JsonError, got, lacks, Value, Fields, end_of_object, object_breaks, member, validate_json_value,
}
use ir_assignment.Parser.{
  ParseFailure, fail, Field, value, failed, is_none, is_fatal_document_error, is_internal,
  root_field_container_depth,
}
use ir_assignment.Parser.Levels.{Impl, SideResult, parse_levels}
use ir_assignment.Parser.Levels.Kept.{
  IsOutput, IsSideResult, IsReadyImpl, parse_levels-IsSideResult,
}
use ir_assignment.Parser.Depth.{
  Shape, Bit, event_type, event_time, transaction_time, symbol, first_update_id, final_update_id,
  previous_update_id, last_update_id, bids, asks, Depth, Walk, ends, goes_on, record_error,
  with_depth, depth_of, after_failure, after_read, after_levels, assigned, read_field, depth_field,
  depth_fields, marked, checked_field, field_of, field_of_key, is_depth5,
}
use ir_assignment.Parser.Depth.Reads.{
  IsDepth, IsWalk, IsMildField, json_mild, json_not_none, fatal_not_none, none_not_fatal,
  harmless_not_fatal, read_json_string-IsMildField, read_json_uint64-IsMildField, assigned_kept,
}

module _ (m : Shape) where
  record_error-IsDepth :
      (d : Depth) (f : ParseFailure)
      → IsDepth m d
      → is_internal f.error ≡ false
      → IsDepth m (record_error d f)
  record_error-IsDepth d f k h =
      if_cases (IsDepth m) (is_none d.result.error)
        (λ _. record {
          ready = k.ready;
          bids_kept = k.bids_kept;
          asks_kept = k.asks_kept;
          mild = h;
        })
        (λ _. k)

  after_failure-IsWalk :
      (d : Depth) (f : ParseFailure)
      → IsDepth m d
      → is_internal f.error ≡ false
      → IsWalk m (after_failure d f)
  after_failure-IsWalk d f k h =
      if_cases (IsWalk m) (is_fatal_document_error f.error)
        (λ fatal. ((d.impl.encountered_levels, k.ready), fatal_not_none f.error fatal, h))
        (λ _. record_error-IsDepth d f k h)

  after_read-IsWalk {ℓ} :
      {A : Type ℓ} (d : Depth) (assign : A → Depth) (r : Field A)
      → IsDepth m d
      → IsMildField r
      → ((x : A) → IsDepth m (assign x))
      → IsWalk m (after_read d assign r)
  after_read-IsWalk d assign (value x) k h f = f x
  after_read-IsWalk d assign (failed e) k h f = after_failure-IsWalk d e k h

  -- Fields other than the levels.
  with_depth-IsDepth :
      (d : Depth) (depth : SpotDepthEvent)
      → depth.bids ≡ (depth_of d).bids
      → depth.asks ≡ (depth_of d).asks
      → IsDepth m d
      → IsDepth m (with_depth d depth)
  with_depth-IsDepth d depth b a k = record {
    ready = k.ready;
    bids_kept = rw b k.bids_kept;
    asks_kept = rw a k.asks_kept;
    mild = k.mild;
  }

  unless-IsDepth :
      (ok : Bool) (d : Depth) (f : ParseFailure)
      → IsDepth m d
      → is_internal f.error ≡ false
      → IsDepth m (if ok then d else record_error d f)
  unless-IsDepth ok d f k h = if_cases (IsDepth m) ok (λ _. k) (λ _. record_error-IsDepth d f k h)

  after_levels-IsWalk :
      (side : BookSide) (d : Depth) (assign : List LevelUpdate → SpotDepthEvent) (r : SideResult)
      → IsSideResult side (is_depth5 m) r
      → is_internal d.result.error ≡ false
      → (IsReadyImpl r.impl → IsDepth m (assigned d assign r))
      → IsWalk m (after_levels d assign r)
  after_levels-IsWalk side d assign r h mild k =
      if_cases (IsWalk m) (is_none r.failure.error)
        (λ none. k (h.ready (none_not_fatal r.failure.error none)))
        (λ some_error.
          if_cases (IsWalk m)
            (is_fatal_document_error r.failure.error || is_internal r.failure.error)
            (λ _. (assigned_kept d assign r h.impl_kept, some_error, h.mild))
            (λ harmless.
              record_error-IsDepth (assigned d assign r) r.failure
                (k (h.ready (harmless_not_fatal r.failure.error harmless))) h.mild))

  bids_assigned-IsDepth :
      (d : Depth) (impl : Impl) (f : ParseFailure) (output : Option (List LevelUpdate))
      → IsDepth m d
      → IsReadyImpl impl
      → IsOutput bid (is_depth5 m) output
      → IsDepth m (
          assigned d
            (λ levels. record (depth_of d) { bids = levels })
            (record { impl = impl; output = output; failure = f }))
  bids_assigned-IsDepth d impl f Option.none k i o = record {
    ready = i;
    bids_kept = k.bids_kept;
    asks_kept = k.asks_kept;
    mild = k.mild;
  }
  bids_assigned-IsDepth d impl f (some levels) k i o = record {
    ready = i;
    bids_kept = o;
    asks_kept = k.asks_kept;
    mild = k.mild;
  }

  asks_assigned-IsDepth :
      (d : Depth) (impl : Impl) (f : ParseFailure) (output : Option (List LevelUpdate))
      → IsDepth m d
      → IsReadyImpl impl
      → IsOutput ask (is_depth5 m) output
      → IsDepth m (
          assigned d
            (λ levels. record (depth_of d) { asks = levels })
            (record { impl = impl; output = output; failure = f }))
  asks_assigned-IsDepth d impl f Option.none k i o = record {
    ready = i;
    bids_kept = k.bids_kept;
    asks_kept = k.asks_kept;
    mild = k.mild;
  }
  asks_assigned-IsDepth d impl f (some levels) k i o = record {
    ready = i;
    bids_kept = k.bids_kept;
    asks_kept = o;
    mild = k.mild;
  }

  read_field-IsWalk :
      (d : Depth) (bit : Bit) (v : Value) → IsDepth m d → IsWalk m (read_field m d bit v)
  unfolding read_field
  read_field-IsWalk d event_type v k =
      after_read-IsWalk d _ _ k (read_json_string-IsMildField v SpotField.event_type) (λ s.
        unless-IsDepth _ d (fail SpotParseError.unexpected_event_type SpotField.event_type) k refl)
  read_field-IsWalk d symbol v k =
      after_read-IsWalk d _ _ k (read_json_string-IsMildField v SpotField.symbol)
        (λ s. unless-IsDepth _ d (fail SpotParseError.symbol_mismatch SpotField.symbol) k refl)
  read_field-IsWalk d event_time v k =
      after_read-IsWalk d _ _ k (read_json_uint64-IsMildField v SpotField.event_time)
        (λ n. with_depth-IsDepth d _ refl refl k)
  read_field-IsWalk d transaction_time v k =
      after_read-IsWalk d _ _ k (read_json_uint64-IsMildField v SpotField.transaction_time)
        (λ n. with_depth-IsDepth d _ refl refl k)
  read_field-IsWalk d first_update_id v k =
      after_read-IsWalk d _ _ k (read_json_uint64-IsMildField v SpotField.first_update_id)
        (λ n. with_depth-IsDepth d _ refl refl k)
  read_field-IsWalk d final_update_id v k =
      after_read-IsWalk d _ _ k (read_json_uint64-IsMildField v SpotField.final_update_id)
        (λ n. with_depth-IsDepth d _ refl refl k)
  read_field-IsWalk d previous_update_id v k =
      after_read-IsWalk d _ _ k (read_json_uint64-IsMildField v SpotField.previous_update_id)
        (λ n. with_depth-IsDepth d _ refl refl k)
  read_field-IsWalk d last_update_id v k =
      after_read-IsWalk d _ _ k (read_json_uint64-IsMildField v SpotField.last_update_id)
        (λ n. with_depth-IsDepth d _ refl refl k)
  read_field-IsWalk d bids v k =
      let r = parse_levels bid (is_depth5 m) d.impl v in
      let h = parse_levels-IsSideResult bid (is_depth5 m) d.impl v k.ready in
      after_levels-IsWalk bid d _ r h k.mild
        (λ i. bids_assigned-IsDepth d r.impl r.failure r.output k i h.output_kept)
  read_field-IsWalk d asks v k =
      let r = parse_levels ask (is_depth5 m) d.impl v in
      let h = parse_levels-IsSideResult ask (is_depth5 m) d.impl v k.ready in
      after_levels-IsWalk ask d _ r h k.mild
        (λ i. asks_assigned-IsDepth d r.impl r.failure r.output k i h.output_kept)

  marked-IsDepth : (d : Depth) (bit : Bit) → IsDepth m d → IsDepth m (marked d bit)
  marked-IsDepth d bit k = record {
    ready = k.ready;
    bids_kept = k.bids_kept;
    asks_kept = k.asks_kept;
    mild = k.mild;
  }

  checked_field-IsWalk :
      (d : Depth) (e : Option JsonError) → IsDepth m d → IsWalk m (checked_field d e)
  checked_field-IsWalk d Option.none k = k
  checked_field-IsWalk d (some e) k =
      ((d.impl.encountered_levels, k.ready), json_not_none e, json_mild e)

  depth_field-IsWalk :
      (d : Depth) (key : List ℕ) (v : Value) → IsDepth m d → IsWalk m (depth_field m d key v)
  unfolding depth_field
  depth_field-IsWalk d key v k =
      elim (field_of_key m key)
        as (λ (o : Option Bit). IsWalk m (elim o [
          | Option.none ↦ checked_field d (validate_json_value v root_field_container_depth)
          | some bit ↦
              if d.fields bit
              then checked_field
                  (record_error d (fail SpotParseError.duplicate_field (field_of bit)))
                  (validate_json_value v root_field_container_depth)
              else read_field m (marked d bit) bit v
        ])) [
          | Option.none ↦ checked_field-IsWalk d _ k
          | some bit ↦
              if_cases (IsWalk m) (d.fields bit)
                (λ _. checked_field-IsWalk _ _ (
                  record_error-IsDepth d (fail SpotParseError.duplicate_field (field_of bit)) k
                    refl))
                (λ _. read_field-IsWalk (marked d bit) bit v (marked-IsDepth d bit k))
        ]

  walk_on :
      (w : Walk) (f : Depth → Walk)
      → IsWalk m w
      → ((d : Depth) → IsDepth m d → IsWalk m (f d))
      → IsWalk m (elim w [ ends after ↦ ends after | goes_on after ↦ f after ])
  walk_on (ends d) f k h = k
  walk_on (goes_on d) f k h = h d k

  pub depth_fields-IsWalk :
      (fields : Fields) (d : Depth) → IsDepth m d → IsWalk m (depth_fields m fields d)
  unfolding depth_fields
  depth_fields-IsWalk end_of_object d k = k
  depth_fields-IsWalk (object_breaks e) d k =
      ((d.impl.encountered_levels, k.ready), json_not_none e, json_mild e)
  depth_fields-IsWalk (member (lacks e) v fields) d k =
      ((d.impl.encountered_levels, k.ready), json_not_none e, json_mild e)
  depth_fields-IsWalk (member (got key) v fields) d k =
      walk_on (depth_field m d key v) (depth_fields m fields) (depth_field-IsWalk d key v k)
        (λ after. depth_fields-IsWalk fields after)
