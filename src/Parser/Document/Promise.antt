-- ===== src/Parser/Document/Promise.antt =====
-- src/spot_payload_parser.cpp: what `SpotPayloadParser::parse` promises to the books, for a parser that
-- has seen any messages before.
use ir_assignment.Prelude.{
  ℕ, ◌≤◌, ◌≡◌, ◌≢◌, refl, false, ◌||◌, ◌-◌, arith, ltb, List, [], ◌∷◌, if_cases, length,
  true_ne_false,
}
use mathlib.Core.Option.{Option, some}
use ir_assignment.Payload.{
  PayloadVenue, SpotStreamKind, depth_diff, depth5, trade, SpotParseError, SpotField,
  SpotParseResult, PaddedJsonView, json_padding_bytes, max_payload_bytes,
}
use ir_assignment.Json.{
  JsonError, Read, got, lacks, Value, untyped, array, object, number, string, boolean, null, Fields,
}
use ir_assignment.Event.Books.{IsParser}
use ir_assignment.Parser.{is_none, is_internal, classify_json_error}
use ir_assignment.Parser.Duplicates.{next_generation}
use ir_assignment.Parser.Duplicates.Room.{
  IsPast, next_generation-IsEmpty, next_generation-IsPast, empty-IsTable, occupied_none,
}
use ir_assignment.Parser.Levels.{Impl, max_depth_updates}
use ir_assignment.Parser.Levels.Kept.{IsReadyImpl}
use ir_assignment.Parser.Trade.{start_result, with_error, root_error, parse_trade}
use ir_assignment.Parser.Trade.Audit.{parse_trade-mild}
use ir_assignment.Parser.Depth.{Shape, parse_depth}
use ir_assignment.Parser.Depth.Accept.{
  IsAccepted, parse_depth-IsAccepted, parse_depth-mild, parse_depth-IsImpl, accepted-IsRefresh,
  accepted-IsDiff,
}
use ir_assignment.Parser.Document.{initial_impl, begin_message, parse_object, parse_document, parse}

-- No slot of the table is of a later message.
abbrev pub IsOpen : Impl → Type 0
IsOpen impl = IsPast impl.duplicates impl.generation

pub begin_message-IsReadyImpl : (impl : Impl) → IsOpen impl → IsReadyImpl (begin_message impl)
unfolding begin_message
begin_message-IsReadyImpl impl past =
    let empty = next_generation-IsEmpty impl.duplicates impl.generation past in
    let (slots, generation) = next_generation impl.duplicates impl.generation in
    let none = occupied_none slots generation empty in
    record {
      past = next_generation-IsPast impl.duplicates impl.generation past;
      table = empty-IsTable slots generation empty;
      prices = omega (arith, none);
      updates = omega arith;
      prices_fit = omega (arith, none);
      updates_fit = omega arith;
    }

-- What a message leaves, and how it is answered.
pub record IsAnswer (m : Shape) (r : Impl × SpotParseResult) : Type 0 where
  pub left_open : IsOpen r.0
  pub bounded : r.0.update_count ≤ max_depth_updates
  pub mild : is_internal r.1.error ≡ false
  pub accepted :
      (kind_is_depth : SpotStreamKind.trade ≢ m.kind)
      → r.1.error ≡ SpotParseError.none
      → IsAccepted m r.1.event.depth

refused-IsAnswer :
    (m : Shape) (impl : Impl) (r : SpotParseResult)
    → IsOpen impl
    → impl.update_count ≤ max_depth_updates
    → is_internal r.error ≡ false
    → is_none r.error ≡ false
    → IsAnswer m (impl, r)
refused-IsAnswer m impl r past bound mild some_error = record {
  left_open = past;
  bounded = bound;
  mild = mild;
  accepted = λ _ e. absurd (true_ne_false (ground (arith, some_error, e)));
}

depth-IsAnswer :
    (m : Shape) (impl : Impl) (fields : Fields)
    → IsReadyImpl impl
    → IsAnswer m (parse_depth m impl fields)
depth-IsAnswer m impl fields r =
    let (n, k) = parse_depth-IsImpl m impl fields r in
    record {
      left_open = k.past;
      bounded = k.updates_fit;
      mild = parse_depth-mild m impl fields r;
      accepted = λ _ e. parse_depth-IsAccepted m impl fields r e;
    }

document_error :
    (e : JsonError)
    → (is_internal (classify_json_error e) ≡ false) × (is_none (classify_json_error e) ≡ false)
document_error e = ground arith

broken-IsAnswer :
    (m : Shape) (impl : Impl) (e : JsonError)
    → IsReadyImpl impl
    → IsAnswer m (impl, root_error (start_result m.kind) e)
broken-IsAnswer m impl e r =
    refused-IsAnswer m impl _ r.past r.updates_fit (document_error e).0 (document_error e).1

-- The answer to a document that is no object.
not_object-IsAnswer :
    (m : Shape) (impl : Impl) (o : Option JsonError)
    → IsReadyImpl impl
    → IsAnswer m (
      impl,
      elim o [
        | Option.none ↦
            with_error (start_result m.kind) SpotParseError.root_not_object SpotField.root
        | some e ↦ root_error (start_result m.kind) e
      ],
    )
not_object-IsAnswer m impl Option.none r = refused-IsAnswer m impl _ r.past r.updates_fit refl refl
not_object-IsAnswer m impl (some e) r = broken-IsAnswer m impl e r

trade-IsAnswer :
    (m : Shape) (impl : Impl) (fields : Fields)
    → SpotStreamKind.trade ≡ m.kind
    → IsReadyImpl impl
    → IsAnswer m (impl, parse_trade fields m.expected_symbol)
trade-IsAnswer m impl fields is r = record {
  left_open = r.past;
  bounded = r.updates_fit;
  mild = parse_trade-mild fields m.expected_symbol;
  accepted = λ no_trade e. absurd (no_trade is);
}

object-IsAnswer :
    (venue : PayloadVenue) (kind : SpotStreamKind) (expected_symbol : List ℕ) (impl : Impl)
    (fields : Fields) (payload : List ℕ)
    → IsReadyImpl impl
    → let m : Shape = record { venue = venue; kind = kind; expected_symbol = expected_symbol } in
      IsAnswer m (parse_object m impl (object fields) payload)
object-IsAnswer venue trade expected_symbol impl fields payload r =
    trade-IsAnswer _ impl fields refl r
object-IsAnswer venue depth5 expected_symbol impl fields payload r = depth-IsAnswer _ impl fields r
object-IsAnswer venue depth_diff expected_symbol impl fields payload r =
    depth-IsAnswer _ impl fields r

value-IsAnswer :
    (m : Shape) (impl : Impl) (v : Value) (payload : List ℕ)
    → IsReadyImpl impl
    → IsAnswer m (parse_object m impl v payload)
value-IsAnswer m impl (object fields) payload r =
    object-IsAnswer m.venue m.kind m.expected_symbol impl fields payload r
value-IsAnswer m impl (untyped e) payload r = not_object-IsAnswer m impl _ r
value-IsAnswer m impl (array x) payload r = not_object-IsAnswer m impl _ r
value-IsAnswer m impl (number t n) payload r = not_object-IsAnswer m impl _ r
value-IsAnswer m impl (string t) payload r = not_object-IsAnswer m impl _ r
value-IsAnswer m impl (boolean b) payload r = not_object-IsAnswer m impl _ r
value-IsAnswer m impl (null t) payload r = not_object-IsAnswer m impl _ r

document-IsAnswer :
    (m : Shape) (impl : Impl) (v : Read Value) (payload : List ℕ)
    → IsReadyImpl impl
    → IsAnswer m (parse_document m impl v payload)
document-IsAnswer m impl (lacks e) payload r = broken-IsAnswer m impl e r
document-IsAnswer m impl (got v) payload r = value-IsAnswer m impl v payload r

-- A message.
pub record Message : Type 0 where
  pub venue : PayloadVenue
  pub kind : SpotStreamKind
  pub expected_symbol : List ℕ
  pub payload : PaddedJsonView

abbrev pub shape_of : Message → Shape
shape_of x = record { venue = x.venue; kind = x.kind; expected_symbol = x.expected_symbol }

module _ (iterate : List ℕ → Read Value) where
  abbrev pub answer : Impl → Message → Impl × SpotParseResult
  answer impl x = parse iterate impl x.venue x.kind x.expected_symbol x.payload

  -- The parser behind a sequence of messages.
  abbrev pub behind : Impl → List Message → Impl
  behind impl [] = impl
  behind impl (x ∷ xs) = behind (answer impl x).0 xs

  pub parse-IsAnswer :
      (impl : Impl) (x : Message)
      → IsOpen impl
      → impl.update_count ≤ max_depth_updates
      → IsAnswer (shape_of x) (answer impl x)
  unfolding parse
  parse-IsAnswer impl x past bound =
      let size = length x.payload.bytes in
      if_cases (IsAnswer (shape_of x))
        (ltb x.payload.capacity size || ltb (x.payload.capacity - size) json_padding_bytes)
        (λ _. refused-IsAnswer (shape_of x) impl _ past bound refl refl)
        (λ _.
          if_cases (IsAnswer (shape_of x)) (ltb max_payload_bytes size)
            (λ _. refused-IsAnswer (shape_of x) impl _ past bound refl refl)
            (λ _.
              document-IsAnswer (shape_of x) (begin_message impl) _ x.payload.bytes
                (begin_message-IsReadyImpl impl past)))

  behind-IsOpen :
      (impl : Impl) (xs : List Message)
      → IsOpen impl
      → impl.update_count ≤ max_depth_updates
      → IsOpen (behind impl xs) × ((behind impl xs).update_count ≤ max_depth_updates)
  behind-IsOpen impl [] past bound = (past, bound)
  behind-IsOpen impl (x ∷ xs) past bound =
      let a = parse-IsAnswer impl x past bound in
      behind-IsOpen (answer impl x).0 xs a.left_open a.bounded

  -- Whatever messages a parser was given since it was made, it answers the next one as follows: it
  -- never reports its own table as full; the updates of the message are at most 16384; no slot of
  -- the table is of a later message; and a depth event without an error has ids in
  -- order (the previous id below the last one at the futures venue), levels with positive prices,
  -- none twice on a side, and if it is a partial depth at most five a side, best first, and not
  -- crossed.
  pub messages-IsAnswer :
      (seen : List Message) (x : Message)
      → IsAnswer (shape_of x) (answer (behind initial_impl seen) x)
  messages-IsAnswer seen x =
      let (past, bound) = behind-IsOpen initial_impl seen (λ j. omega arith) (omega arith) in
      parse-IsAnswer (behind initial_impl seen) x past bound

  -- Whatever messages a parser was given since it was made, the depth events that it returns without
  -- an error are those that the books expect: what `process` needs of its parser holds of this one.
  pub parse-IsParser :
      (seen : List Message)
      → IsParser (λ venue kind symbol payload.
        (parse iterate (behind initial_impl seen) venue kind symbol payload).1)
  parse-IsParser seen = record {
    refreshes = λ venue symbol payload e.
        let x : Message = record {
          venue = venue;
          kind = depth5;
          expected_symbol = symbol;
          payload = payload;
        } in
        accepted-IsRefresh (shape_of x) _ refl
          ((messages-IsAnswer seen x).accepted (ground arith) e);
    diffs = λ venue symbol payload e.
        let x : Message = record {
          venue = venue;
          kind = depth_diff;
          expected_symbol = symbol;
          payload = payload;
        } in
        accepted-IsDiff (shape_of x) _ ((messages-IsAnswer seen x).accepted (ground arith) e);
  }
