-- ===== src/Parser/Trade/Audit.antt =====
-- src/spot_payload_parser.cpp: the answer of `parse_trade`, next to the walk of src/json_validation.h and
-- the notes on its two fields.
pub mod Walk
use mathlib.Core.Path.{subst}
use mathlib.Core.Option.{Option, some}
use ir_assignment.Prelude.{
  ℕ, ◌≡◌, refl, sym, ap, ◌∙◌, Bool, true, false, ◌&&◌, ◌||◌, arith, List, [], ◌∷◌, if◌then◌else◌,
  Bool-cases, inl, inr,
}
use ir_assignment.Payload.{
  SpotParseError, SpotField, SpotStreamKind, SpotParseResult, SpotTradeAuditEvent,
}
use ir_assignment.Json.{
  JsonError, got, lacks, Value, untyped, array, object, number, string, boolean, null, Fields,
  end_of_object, object_breaks, member, and_then, validate_json_value, validate_fields,
}
use ir_assignment.SymbolIdentity.{bytes_equal}
use ir_assignment.SymbolIdentity.Ids.{bytes_equal_iff}
use ir_assignment.Parser.{
  equals_ascii_case_insensitive, fail, fail_json, Field, value, failed, is_internal,
  is_fatal_document_error, classify_json_error, read_json_string, root_field_container_depth,
}
use ir_assignment.Parser.Depth.Suits.{is_text}
use ir_assignment.Parser.Trade.{
  start_result, with_trade, trade_text, seen_event_type, note_event_type, seen_symbol, note_symbol,
  Scan, ends, goes_on, after_string, other_field, trade_field, scan_then, trade_fields, parse_trade,
}
use ir_assignment.Parser.Trade.Audit.Walk.{
  IsVerdict, noted, audited, json_mild, trade_fields-IsVerdict,
}

-- Whether a key is in an object.
unfoldable pub has_key : List ℕ → Fields → Bool
has_key name end_of_object = false
has_key name (object_breaks e) = false
has_key name (member (lacks e) v fields) = has_key name fields
has_key name (member (got key) v fields) = bytes_equal key name || has_key name fields

-- Whether every value of a key is a text that passes a test.
unfoldable pub all_texts : List ℕ → (List ℕ → Bool) → Fields → Bool
all_texts name test end_of_object = true
all_texts name test (object_breaks e) = true
all_texts name test (member (lacks e) v fields) = all_texts name test fields
all_texts name test (member (got key) v fields) =
    (if bytes_equal key name then is_text test v else true) && all_texts name test fields

-- What is noted of an object: which of the two fields are there, and whether they are as expected.
abbrev pub audit_of : Fields → List ℕ → SpotTradeAuditEvent
audit_of fields expected_symbol = record {
  event_type_present = has_key (b'e' ∷ []) fields;
  event_type_matches = all_texts (b'e' ∷ []) (λ s. bytes_equal s trade_text) fields;
  symbol_present = has_key (b's' ∷ []) fields;
  symbol_matches =
      all_texts (b's' ∷ []) (λ s. equals_ascii_case_insensitive s expected_symbol) fields;
}

-- Notes on top of those of a result.
abbrev joined : SpotParseResult → SpotTradeAuditEvent → SpotParseResult
joined r t = with_trade r (record {
  event_type_present = r.event.trade.event_type_present || t.event_type_present;
  event_type_matches = r.event.trade.event_type_matches && t.event_type_matches;
  symbol_present = r.event.trade.symbol_present || t.symbol_present;
  symbol_matches = r.event.trade.symbol_matches && t.symbol_matches;
})

or_false : (b : Bool) → b || false ≡ b
or_false b = ground arith

and_true : (b : Bool) → b && true ≡ b
and_true b = ground arith

and_assoc : (a b c : Bool) → (a && b) && c ≡ a && (b && c)
and_assoc a b c = ground arith

or_true : (b : Bool) → b || true ≡ true
or_true b = ground arith

not_both_keys :
    (key : List ℕ) → bytes_equal key (b'e' ∷ []) ≡ true → bytes_equal key (b's' ∷ []) ≡ false
unfolding bytes_equal
not_both_keys key h = rw ((bytes_equal_iff key (b'e' ∷ [])).0 h) refl

joined_nothing :
    (r : SpotParseResult)
    → r
      ≡ joined r (record {
        event_type_present = false;
        event_type_matches = true;
        symbol_present = false;
        symbol_matches = true;
      })
joined_nothing r =
    let t = r.event.trade in
    rw
      (
        or_false t.event_type_present,
        or_false t.symbol_present,
        and_true t.event_type_matches,
        and_true t.symbol_matches,
      )
      refl

noted-joined :
    (expected_symbol : List ℕ) (r : SpotParseResult) (key : List ℕ) (v : Value) (fields : Fields)
    → joined (noted expected_symbol r key v) (audit_of fields expected_symbol)
      ≡ joined r (audit_of (member (got key) v fields) expected_symbol)
unfolding has_key all_texts
noted-joined expected_symbol r key v fields =
    let t = r.event.trade in
    elim (Bool-cases (bytes_equal key (b'e' ∷ []))) [
      | inl is_e ↦
          rw
            (
              is_e,
              not_both_keys key is_e,
              or_true t.event_type_present,
              and_assoc t.event_type_matches (is_text (λ s. bytes_equal s trade_text) v)
                  (all_texts (b'e' ∷ []) (λ s. bytes_equal s trade_text) fields),
            )
            refl
      | inr no_e ↦ elim (Bool-cases (bytes_equal key (b's' ∷ []))) [
        | inl is_s ↦
            rw
              (
                no_e,
                is_s,
                or_true t.symbol_present,
                and_assoc t.symbol_matches
                    (is_text (λ s. equals_ascii_case_insensitive s expected_symbol) v)
                    (all_texts (b's' ∷ []) (λ s. equals_ascii_case_insensitive s expected_symbol)
                      fields),
              )
              refl
        | inr no_s ↦ rw (no_e, no_s) refl
      ]
    ]

audited-joined :
    (expected_symbol : List ℕ) (fields : Fields) (r : SpotParseResult)
    → audited expected_symbol fields r ≡ joined r (audit_of fields expected_symbol)
unfolding audited has_key all_texts
audited-joined expected_symbol end_of_object r = joined_nothing r
audited-joined expected_symbol (object_breaks e) r = joined_nothing r
audited-joined expected_symbol (member (lacks e) v fields) r =
    audited-joined expected_symbol fields r
audited-joined expected_symbol (member (got key) v fields) r =
    audited-joined expected_symbol fields (noted expected_symbol r key v)
    ∙ noted-joined expected_symbol r key v fields

-- The answer to a trade whose notes are on its two fields.
abbrev pub trade_result : Fields → List ℕ → SpotParseResult
trade_result fields expected_symbol =
    with_trade (start_result SpotStreamKind.trade) (audit_of fields expected_symbol)

pub parse_trade-IsVerdict :
    (fields : Fields) (expected_symbol : List ℕ)
    → IsVerdict
        (validate_fields fields root_field_container_depth)
        (trade_result fields expected_symbol)
        (parse_trade fields expected_symbol)
unfolding parse_trade
parse_trade-IsVerdict fields expected_symbol =
    let start = start_result SpotStreamKind.trade in
    subst
      (λ (wanted : SpotParseResult).
        IsVerdict (validate_fields fields root_field_container_depth) wanted
          (trade_fields expected_symbol fields start))
      (audited-joined expected_symbol fields start)
      (trade_fields-IsVerdict expected_symbol fields start)

verdict_mild :
    (o : Option JsonError) (wanted r : SpotParseResult)
    → is_internal wanted.error ≡ false
    → IsVerdict o wanted r
    → is_internal r.error ≡ false
verdict_mild Option.none wanted r h k = rw k h
verdict_mild (some e) wanted r h (k, _) = rw k (json_mild e)

-- A trade is not refused for the table.
pub parse_trade-mild :
    (fields : Fields) (expected_symbol : List ℕ)
    → is_internal (parse_trade fields expected_symbol).error ≡ false
parse_trade-mild fields expected_symbol =
    verdict_mild (validate_fields fields root_field_container_depth) _ _ refl
      (parse_trade-IsVerdict fields expected_symbol)
