-- ===== src/Parser/Levels/Steps.antt =====
-- src/spot_payload_parser.cpp: what one level does to the state of `parse_levels`.
use mathlib.Core.Option.{Option, some}
use ir_assignment.Prelude.{
  ℕ, suc, ◌<◌, ◌≡◌, refl, sym, ◌∙◌, Bool, false, not, ◌&&◌, arith, ◌==◌, if_cases, true_ne_false,
  List,
}
use ir_assignment.Payload.{BookSide}
use ir_assignment.FixedPoint.{parse_decimal_1e8}
use ir_assignment.Json.{
  JsonError, Read, got, lacks, Value, untyped, array, object, number, string, boolean, null,
  validate_json_value,
}
use ir_assignment.Parser.{ParseFailure, fail_json, is_internal}
use ir_assignment.Parser.Duplicates.Probe.{insert_unique-Insert}
use ir_assignment.Parser.Levels.{
  Levels, Flow, goes, returns, Pair, max_depth_updates, accept_level, record_error, finish_pair,
  level_of_type, refuse_level, step_level, counted, over_capacity, is_parsed, level_container_depth,
  empty_pair,
}
use ir_assignment.Parser.Levels.Loop.{
  none_written, one_written, IsImpl, Step, IsLoop, Level, Ends, IsReady, raised, refused_loop,
  after_insert-Ends,
}
use ir_assignment.Parser.Levels.Mild.{
  IsMild, scan_pair-IsMild, not_zero, not_zero_if, fail_json_fatal,
}

-- The branches of the loop's body.
module _ (side : BookSide) (is_partial : Bool) (n count : ℕ) where
  refused-Ends :
      (s : Levels) (failure : ParseFailure)
      → IsReady n count s
      → is_internal failure.error ≡ false
      → Ends (suc n) count (Step side is_partial s) (goes (record_error s failure))
  refused-Ends s failure r k =
      (refused_loop n count s failure r k, none_written refl refl refl (λ q b seen. seen))

  accept_level-Ends :
      (s : Levels) (price_text quantity_text : List ℕ)
      → n < max_depth_updates
      → IsReady n count s
      → Ends
          (suc n)
          count
          (Step side is_partial s)
          (accept_level side is_partial s price_text quantity_text)
  unfolding accept_level
  accept_level-Ends s price_text quantity_text below r =
      let P = Ends (suc n) count (Step side is_partial s) in
      let price = parse_decimal_1e8 price_text in
      let quantity = parse_decimal_1e8 quantity_text in
      if_cases P (not (is_parsed price)) (λ _. refused-Ends s _ r refl)
        (λ _.
          if_cases P (price.value == 0) (λ _. refused-Ends s _ r refl)
            (λ positive.
              if_cases P (not (is_parsed quantity)) (λ _. refused-Ends s _ r refl)
                (λ _.
                  if_cases P (is_partial && quantity.value == 0) (λ _. refused-Ends s _ r refl)
                    (λ sized.
                      after_insert-Ends side is_partial n count s price.value quantity.value _
                        (insert_unique-Insert s.impl.duplicates s.impl.generation price.value side
                          r.impl_kept.table)
                        r below (not_zero price.value positive)
                        (λ is. not_zero_if is_partial quantity.value sized is)))))

  -- The failure on record is no part of what a step is about.
  forget_error :
      (s : Levels) (failure : ParseFailure) (x : Flow Levels)
      → Ends (suc n) count (Step side is_partial (record s { first_error = failure })) x
      → Ends (suc n) count (Step side is_partial s) x
  forget_error s failure (goes after) (l, none_written w p h k) = (l, none_written w p h k)
  forget_error s failure (goes after) (l, one_written u i w p h k y) = (
    l,
    one_written u
        (record {
          of_side = i.of_side;
          priced = i.priced;
          sized = i.sized;
          ordered = i.ordered;
          unknown = i.unknown;
        })
        w p h k y,
  )
  forget_error s failure (returns impl f) e = e

  passed : (s : Levels) → IsReady n count s → IsLoop (suc n) count s
  passed s r = record {
    impl_kept = raised n s.impl r.impl_kept;
    mild = r.mild;
    encountered = r.encountered;
    side_count = r.side_count;
  }

  finish_pair-Ends :
      (s : Levels) (pair : Read Pair)
      → n < max_depth_updates
      → IsReady n count s
      → IsMild pair
      → Ends (suc n) count (Step side is_partial s) (finish_pair side is_partial s pair)
  finish_pair-Ends s (lacks e) below r m = (raised n s.impl r.impl_kept, fail_json_fatal e)
  finish_pair-Ends s (got p) below r m =
      let seen : Levels = record s { first_error = p.first_error } in
      let ready : IsReady n count seen = record {
        impl_kept = r.impl_kept;
        mild = m;
        encountered = r.encountered;
        side_count = r.side_count;
      } in
      let Q = Ends (suc n) count (Step side is_partial seen) in
      forget_error s p.first_error _ (
        if_cases Q (not (p.component_count == 2)) (λ _. refused-Ends seen _ ready refl)
          (λ _.
            if_cases Q (not p.components_valid)
              (λ _. (passed seen ready, none_written refl refl refl (λ q b k. k)))
              (λ _. accept_level-Ends seen p.price_text p.quantity_text below ready)))

  refuse_level-Ends :
      (s : Levels) (failure : ParseFailure) (v : Value)
      → IsReady n count s
      → is_internal failure.error ≡ false
      → Ends (suc n) count (Step side is_partial s) (refuse_level s failure v)
  refuse_level-Ends s failure v r k =
      elim (validate_json_value v level_container_depth)
        as (λ (o : Option JsonError). Ends (suc n) count (Step side is_partial s) (elim o [
          | some e ↦ returns s.impl (fail_json e)
          | Option.none ↦ goes (record_error s failure)
        ])) [
          | some e ↦ (raised n s.impl r.impl_kept, fail_json_fatal e)
          | Option.none ↦ refused-Ends s failure r k
        ]

  level_of_type-Ends :
      (s : Levels) (v : Value)
      → n < max_depth_updates
      → IsReady n count s
      → Ends (suc n) count (Step side is_partial s) (level_of_type side is_partial s v)
  level_of_type-Ends s (untyped e) below r = (raised n s.impl r.impl_kept, fail_json_fatal e)
  level_of_type-Ends s (array elements) below r =
      finish_pair-Ends s _ below r (scan_pair-IsMild elements (empty_pair s.first_error) r.mild)
  level_of_type-Ends s (object fields) below r = refuse_level-Ends s _ (object fields) r refl
  level_of_type-Ends s (number token k) below r = refuse_level-Ends s _ (number token k) r refl
  level_of_type-Ends s (string t) below r = refuse_level-Ends s _ (string t) r refl
  level_of_type-Ends s (boolean b) below r = refuse_level-Ends s _ (boolean b) r refl
  level_of_type-Ends s (null token) below r = refuse_level-Ends s _ (null token) r refl

  within_capacity :
      (s : Levels) (x : Flow Levels)
      → over_capacity is_partial s ≡ false
      → Ends (suc n) count (Step side is_partial (counted s)) x
      → Ends (suc n) count (Level side is_partial s) x
  within_capacity s (goes after) o (l, none_written w p h k) =
      (l, (none_written w p h k, λ t. absurd (true_ne_false (sym t ∙ o))))
  within_capacity s (goes after) o (l, one_written u i w p h k y) = (
    l,
    (
      one_written u
          (record {
            of_side = i.of_side;
            priced = i.priced;
            sized = i.sized;
            ordered = i.ordered;
            unknown = i.unknown;
          })
          w p h k y,
      λ t. absurd (true_ne_false (sym t ∙ o)),
    ),
  )
  within_capacity s (returns impl f) o e = e

  beyond_capacity :
      (s : Levels) (failure : ParseFailure) (v : Value)
      → IsReady n count (counted s)
      → is_internal failure.error ≡ false
      → Ends (suc n) count (Level side is_partial s) (refuse_level (counted s) failure v)
  beyond_capacity s failure v r k =
      elim (validate_json_value v level_container_depth)
        as (λ (o : Option JsonError). Ends (suc n) count (Level side is_partial s) (elim o [
          | some e ↦ returns (counted s).impl (fail_json e)
          | Option.none ↦ goes (record_error (counted s) failure)
        ])) [
          | some e ↦ (raised n (counted s).impl r.impl_kept, fail_json_fatal e)
          | Option.none ↦ (
            refused_loop n count (counted s) failure r k,
            (none_written refl refl refl (λ q b seen. seen), λ _. refl),
          )
        ]

counted-IsImpl : (n : ℕ) (s : Levels) → IsImpl n s.impl → IsImpl n (counted s).impl
counted-IsImpl n s v = record {
  past = v.past;
  table = v.table;
  prices = v.prices;
  updates = v.updates;
  prices_fit = v.prices_fit;
  updates_fit = v.updates_fit;
}

capacity_left :
    (is_partial : Bool) (s : Levels) {n : ℕ}
    → over_capacity is_partial s ≡ false
    → s.impl.encountered_levels ≡ n
    → n < max_depth_updates
capacity_left is_partial s o e = ground (arith, o, e)

-- One level, whatever it is: the counts go up by one, and it is written or not.
pub step_level-Ends :
    (side : BookSide) (is_partial : Bool) (n count : ℕ) (s : Levels) (v : Value)
    → IsLoop n count s
    → Ends (suc n) (suc count) (Level side is_partial s) (step_level side is_partial s v)
unfolding step_level
step_level-Ends side is_partial n count s v l =
    let ready : IsReady n (suc count) (counted s) = record {
      impl_kept = counted-IsImpl n s l.impl_kept;
      mild = l.mild;
      encountered = omega (arith, l.encountered);
      side_count = omega (arith, l.side_count);
    } in
    if_cases (Ends (suc n) (suc count) (Level side is_partial s)) (over_capacity is_partial s)
      (λ _. beyond_capacity side is_partial n (suc count) s _ v ready refl)
      (λ within. within_capacity side is_partial n (suc count) s _ within (
        level_of_type-Ends side is_partial n (suc count) (counted s) v
          (capacity_left is_partial s within l.encountered) ready))
