-- ===== src/Parser/Depth/Once.antt =====
-- src/spot_payload_parser.cpp: which objects `parse_depth` takes without an error.
use mathlib.Core.Option.{Option, some}
use ir_assignment.Prelude.{
  ℕ, suc, ◌+◌, ◌≤◌, ◌≡◌, refl, sym, ap, ◌∙◌, Bool, true, false, arith, if◌then◌else◌, if_cases,
  true_ne_false, List, [], ◌∷◌, All,
}
use ir_assignment.Payload.{SpotParseError}
use ir_assignment.Json.{
  JsonError, got, lacks, Value, Fields, end_of_object, object_breaks, member, validate_json_value,
}
use ir_assignment.Parser.{fail, root_field_container_depth}
use ir_assignment.Parser.Levels.{Impl}
use ir_assignment.Parser.Depth.{
  Shape, Bit, bit_equal, Depth, Walk, ends, goes_on, record_error, read_field, depth_field,
  depth_fields, marked, checked_field, field_of, field_of_key, finish_walk, depth_start,
  parse_depth, has_all, required,
}
use ir_assignment.Parser.Depth.Accept.{finish_depth-IsFinished, from_start-IsWalk}
use ir_assignment.Parser.Depth.Reads.{IsWalk}
use ir_assignment.Parser.Levels.Kept.{IsReadyImpl}
use ir_assignment.Parser.Depth.Suits.{suits, names, times, SuitsAt, AllSuit}
use ir_assignment.Parser.Depth.Clean.{Clean, record_error_lem, read_field-Clean}

-- What a field without an error does to the set of fields.
record Took (m : Shape) (before after : Bit → Bool) (o : Option Bit) (v : Value) : Type 0 where
  fresh : (b : Bit) → names o b ≡ true → before b ≡ false
  marks : (b : Bit) → after b ≡ (if names o b then true else before b)
  suited : SuitsAt m o v

abbrev Takes : Shape → Depth → Option Bit → Value → Walk → Type 0
Takes m d o v (ends a) = Unit
Takes m d o v (goes_on a) =
    a.result.error ≡ SpotParseError.none
    → (d.result.error ≡ SpotParseError.none) × Took m d.fields a.fields o v

bit_equal_lem : (a b : Bit) → bit_equal a b ≡ true → a ≡ b
bit_equal_lem a b h = ground (arith, h)

checked_none :
    (m : Shape) (d : Depth) (v : Value) (e : Option JsonError)
    → Takes m d Option.none v (checked_field d e)
checked_none m d v Option.none = λ e.
    (e, record { fresh = λ b h. absurd (true_ne_false (sym h)); marks = λ b. refl; suited = tt })
checked_none m d v (some x) = tt

checked_again :
    (m : Shape) (d : Depth) (bit : Bit) (v : Value) (e : Option JsonError)
    → Takes m d
        (some bit)
        v
        (checked_field (record_error d (fail SpotParseError.duplicate_field (field_of bit))) e)
checked_again m d bit v Option.none =
    λ e. absurd (record_error_lem d (fail SpotParseError.duplicate_field (field_of bit)) refl e)
checked_again m d bit v (some x) = tt

first_time :
    (m : Shape) (d : Depth) (bit : Bit) (v : Value) (w : Walk)
    → d.fields bit ≡ false
    → Clean (marked d bit) (marked d bit).fields (suits m bit v ≡ true) w
    → Takes m d (some bit) v w
first_time m d bit v (ends a) absent k = tt
first_time m d bit v (goes_on a) absent k = λ e.
    let (clean, same, suited) = k e in
    (
      clean,
      record {
        fresh = λ b h. ap d.fields (sym (bit_equal_lem bit b h)) ∙ absent;
        marks = same;
        suited = suited;
      },
    )

depth_field-Takes :
    (m : Shape) (d : Depth) (key : List ℕ) (v : Value)
    → Takes m d (field_of_key m key) v (depth_field m d key v)
unfolding depth_field
depth_field-Takes m d key v =
    elim (field_of_key m key)
      as (λ (o : Option Bit). Takes m d o v (elim o [
        | Option.none ↦ checked_field d (validate_json_value v root_field_container_depth)
        | some bit ↦
            if d.fields bit
            then checked_field (record_error d (fail SpotParseError.duplicate_field (field_of bit)))
                (validate_json_value v root_field_container_depth)
            else read_field m (marked d bit) bit v
      ])) [
        | Option.none ↦ checked_none m d v _
        | some bit ↦
            if_cases (Takes m d (some bit) v) (d.fields bit) (λ _. checked_again m d bit v _)
              (λ absent. first_time m d bit v _ absent (read_field-Clean m (marked d bit) bit v))
      ]

abbrev mark : Bool → ℕ
mark true = 1
mark false = 0

-- The fields of the rest of the object, next to those that were seen before.
abbrev Counted : Shape → Depth → Fields → Walk → Type 0
Counted m d fields (ends a) = Unit
Counted m d fields (goes_on a) =
    a.result.error ≡ SpotParseError.none
    → (d.result.error ≡ SpotParseError.none)
      × ((b : Bit) → times m b fields + mark (d.fields b) ≡ mark (a.fields b))
      × AllSuit m fields

tally :
    (named before after last : Bool) (n : ℕ)
    → (named ≡ true → before ≡ false)
    → after ≡ (if named then true else before)
    → n + mark after ≡ mark last
    → (if named then suc n else n) + mark before ≡ mark last
tally named before after last n fresh marks h = ground (arith, fresh, marks, h)

tally_then :
    (m : Shape) (d after : Depth) (key : List ℕ) (v : Value) (fields : Fields) (w : Walk)
    → Takes m d (field_of_key m key) v (goes_on after)
    → Counted m after fields w
    → Counted m d (member (got key) v fields) w
unfolding times AllSuit
tally_then m d after key v fields (ends a) t k = tt
tally_then m d after key v fields (goes_on a) t k = λ e.
    let (clean_after, counts, suited) = k e in
    let (clean, took) = t clean_after in
    (
      clean,
      λ b.
          tally (names (field_of_key m key) b) (d.fields b) (after.fields b) (a.fields b)
            (times m b fields) (took.fresh b) (took.marks b) (counts b),
      (took.suited, suited),
    )

tally_on :
    (m : Shape) (d : Depth) (key : List ℕ) (v : Value) (fields : Fields) (w : Walk)
    → Takes m d (field_of_key m key) v w
    → ((after : Depth) → Counted m after fields (depth_fields m fields after))
    → Counted m d
        (member (got key) v fields)
        (elim w [ ends after ↦ ends after | goes_on after ↦ depth_fields m fields after ])
tally_on m d key v fields (ends a) t k = tt
tally_on m d key v fields (goes_on a) t k =
    tally_then m d a key v fields (depth_fields m fields a) t (k a)

depth_fields-Counted :
    (m : Shape) (fields : Fields) (d : Depth) → Counted m d fields (depth_fields m fields d)
unfolding depth_fields times AllSuit
depth_fields-Counted m end_of_object d = λ e. (e, (λ b. omega arith), tt)
depth_fields-Counted m (object_breaks e) d = tt
depth_fields-Counted m (member (lacks e) v fields) d = tt
depth_fields-Counted m (member (got key) v fields) d =
    tally_on m d key v fields (depth_field m d key v) (depth_field-Takes m d key v)
      (depth_fields-Counted m fields)

-- Every field at most once, those that are required once, and values that suit them.
pub record IsComplete (m : Shape) (fields : Fields) : Type 0 where
  pub at_most_once : (b : Bit) → times m b fields ≤ 1
  pub required_once : All (λ b. times m b fields ≡ 1) (required m)
  pub suited : AllSuit m fields

at_most_lem : (n : ℕ) (b : Bool) → n + 0 ≡ mark b → n ≤ 1
at_most_lem n b h = ground (arith, h)

once_lem : (n : ℕ) (b : Bool) → n + 0 ≡ mark b → b ≡ true → n ≡ 1
once_lem n b h t = ground (arith, h, t)

every_one_lem :
    (m : Shape) (fields : Fields) (seen : Bit → Bool) (bits : List Bit)
    → ((b : Bit) → times m b fields + 0 ≡ mark (seen b))
    → has_all seen bits ≡ true
    → All (λ b. times m b fields ≡ 1) bits
unfolding has_all
every_one_lem m fields seen [] counts h = tt
every_one_lem m fields seen (b ∷ bits) counts h = (
  once_lem (times m b fields) (seen b) (counts b) (ground (arith, h)),
  every_one_lem m fields seen bits counts (ground (arith, h)),
)

finish_walk-IsComplete :
    (m : Shape) (impl : Impl) (fields : Fields) (w : Walk)
    → Counted m (depth_start impl m.kind) fields w
    → IsWalk m w
    → (finish_walk m w).1.error ≡ SpotParseError.none
    → IsComplete m fields
finish_walk-IsComplete m impl fields (ends a) k (_, some_error, _) e =
    absurd (true_ne_false (ground (arith, some_error, e)))
finish_walk-IsComplete m impl fields (goes_on a) k walk e =
    let f = finish_depth-IsFinished m a e in
    let (_, counts, suited) = k f.clean in
    record {
      at_most_once = λ b. at_most_lem (times m b fields) (a.fields b) (counts b);
      required_once = every_one_lem m fields a.fields (required m) counts f.complete;
      suited = suited;
    }

-- A depth message is taken without an error only if its object has every field that the venue and the
-- kind of stream require exactly once, no other field that they know more than once, and all of them
-- with values of their types: an array for each side, unsigned numbers for the ids and the times, the
-- type of the event and the symbol that were expected.
pub parse_depth-IsComplete :
    (m : Shape) (impl : Impl) (fields : Fields)
    → IsReadyImpl impl
    → (parse_depth m impl fields).1.error ≡ SpotParseError.none
    → IsComplete m fields
unfolding parse_depth
parse_depth-IsComplete m impl fields r e =
    finish_walk-IsComplete m impl fields _ (depth_fields-Counted m fields (depth_start impl m.kind))
      (from_start-IsWalk m impl fields r) e
