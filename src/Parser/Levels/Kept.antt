-- ===== src/Parser/Levels/Kept.antt =====
-- src/spot_payload_parser.cpp: what the levels that `parse_levels` has written have in common. These
-- are the facts that the book relies on.
use mathlib.Core.Path.{subst}
use mathlib.Core.Option.{Option, some}
use ir_assignment.Prelude.{
  ℕ, suc, ◌≤◌, ◌≡◌, refl, sym, ◌∙◌, Bool, true, false, arith, true_ne_false, List, [], ◌∷◌, All,
  length,
}
use ir_assignment.Payload.{BookSide, LevelUpdate, SpotParseError}
use ir_assignment.Json.{
  JsonError, Value, untyped, array, object, number, string, boolean, null, validate_json_value,
  Elements, end_of_array, array_breaks, element,
}
use ir_assignment.Book.Side.Order.{IsPositive}
use ir_assignment.Book.Side.Reference.{IsDistinct, HasPrice, IsOrderly}
use ir_assignment.Book.Core.Events.{levels_of}
use ir_assignment.Parser.{
  ParseFailure, is_internal, fail, root_field_container_depth, fail_json, is_fatal_document_error,
}
use ir_assignment.Parser.Levels.{
  Impl, Levels, Flow, goes, returns, step_level, walk_levels, flow_then, SideResult, side_result,
  levels_start, not_levels, parse_levels, side_field,
}
use ir_assignment.Parser.Levels.Steps.{step_level-Ends}
use ir_assignment.Parser.Levels.Mild.{fail_json_fatal}
use ir_assignment.Parser.Levels.Loop.{Level, Ends, IsLoop, IsImpl}
use ir_assignment.Parser.Levels.Invariant.{HasQuantity, IsKept, after_one-IsKept}

-- The whole walk: it goes on to the end with such levels, or returns for a fault of the document.
abbrev pub Walked : BookSide → Bool → Flow Levels → Type 0
Walked side is_partial (goes s) =
    IsKept side is_partial s × ((n : ℕ) × IsLoop n s.side_level_count s)
Walked side is_partial (returns impl f) =
    ((n : ℕ) × IsImpl n impl) × (is_fatal_document_error f.error ≡ true)

walk_on :
    (side : BookSide) (is_partial : Bool) (n : ℕ) (s : Levels) (x : Flow Levels)
    (f : Levels → Flow Levels)
    → IsKept side is_partial s
    → Ends n (suc s.side_level_count) (Level side is_partial s) x
    → ((after : Levels)
        → IsLoop n after.side_level_count after
        → IsKept side is_partial after
        → Walked side is_partial (f after))
    → Walked side is_partial (flow_then x f)
walk_on side is_partial n s (goes after) f k (l, level) next =
    next after
      (record {
        impl_kept = l.impl_kept;
        mild = l.mild;
        encountered = l.encountered;
        side_count = refl;
      })
      (after_one-IsKept side is_partial s after l.side_count level k)
walk_on side is_partial n s (returns impl failure) f k (v, fatal) next = ((n, v), fatal)

walk_levels-Walked :
    (side : BookSide) (is_partial : Bool) (levels : Elements) (n : ℕ) (s : Levels)
    → IsLoop n s.side_level_count s
    → IsKept side is_partial s
    → Walked side is_partial (walk_levels side is_partial levels s)
unfolding walk_levels
walk_levels-Walked side is_partial end_of_array n s l k = (k, (n, l))
walk_levels-Walked side is_partial (array_breaks e) n s l k = ((n, l.impl_kept), fail_json_fatal e)
walk_levels-Walked side is_partial (element v levels) n s l k =
    walk_on side is_partial (suc n) s (step_level side is_partial s v)
      (walk_levels side is_partial levels) k
      (step_level-Ends side is_partial n s.side_level_count s v l)
      (λ after l' k'. walk_levels-Walked side is_partial levels (suc n) after l' k')

-- The levels of a side as the book wants them.
pub record IsLevelList (side : BookSide) (is_partial : Bool) (levels : List LevelUpdate)
    : Type 0 where
  pub priced : All HasPrice levels
  pub distinct : IsDistinct levels
  pub few : is_partial ≡ true → length levels ≤ 5
  pub orderly : is_partial ≡ true → IsOrderly side (levels_of levels)

abbrev pub IsOutput : BookSide → Bool → Option (List LevelUpdate) → Type 0
IsOutput side is_partial Option.none = Unit
IsOutput side is_partial (some levels) = IsLevelList side is_partial levels

-- A state between two sides of a message.
abbrev pub IsReadyImpl : Impl → Type 0
IsReadyImpl impl = IsImpl impl.encountered_levels impl

-- `parse_levels` assigns such levels or none, never reports a full table, and leaves a state for the
-- other side unless the document is at fault.
pub record IsSideResult (side : BookSide) (is_partial : Bool) (r : SideResult) : Type 0 where
  pub output_kept : IsOutput side is_partial r.output
  pub impl_kept : (n : ℕ) × IsImpl n r.impl
  pub ready : is_fatal_document_error r.failure.error ≡ false → IsReadyImpl r.impl
  pub mild : is_internal r.failure.error ≡ false

all_positive_lem :
    (levels : List LevelUpdate)
    → All HasPrice levels
    → All HasQuantity levels
    → All IsPositive (levels_of levels)
all_positive_lem [] p q = tt
all_positive_lem (u ∷ levels) (p, ps) (q, qs) = ((p, q), all_positive_lem levels ps qs)

fatal_mild : (e : SpotParseError) → is_fatal_document_error e ≡ true → is_internal e ≡ false
fatal_mild e h = ground (arith, h)

side_result-IsSideResult :
    (side : BookSide) (is_partial : Bool) (x : Flow Levels)
    → Walked side is_partial x
    → IsSideResult side is_partial (side_result x)
side_result-IsSideResult side is_partial (goes s) (k, (n, l)) = record {
  output_kept = record {
    priced = k.every.priced;
    distinct = k.every.distinct;
    few = λ is. (k.partial is).few;
    orderly = λ is.
        ((k.partial is).sorted, all_positive_lem s.written k.every.priced (k.partial is).sized);
  };
  impl_kept = (n, l.impl_kept);
  ready = λ _. subst (λ (m : ℕ). IsImpl m s.impl) (sym l.encountered) l.impl_kept;
  mild = l.mild;
}
side_result-IsSideResult side is_partial (returns impl f) (v, fatal) = record {
  output_kept = tt;
  impl_kept = v;
  ready = λ e. absurd (true_ne_false (sym fatal ∙ e));
  mild = fatal_mild f.error fatal;
}

unread-IsSideResult :
    (side : BookSide) (is_partial : Bool) (impl : Impl) (f : ParseFailure)
    → IsReadyImpl impl
    → is_internal f.error ≡ false
    → IsSideResult side is_partial (record { impl = impl; output = Option.none; failure = f })
unread-IsSideResult side is_partial impl f v m = record {
  output_kept = tt;
  impl_kept = (impl.encountered_levels, v);
  ready = λ _. v;
  mild = m;
}

not_levels-IsSideResult :
    (side : BookSide) (is_partial : Bool) (impl : Impl) (v : Value)
    → IsReadyImpl impl
    → IsSideResult side is_partial (not_levels impl side v)
not_levels-IsSideResult side is_partial impl v r =
    elim (validate_json_value v root_field_container_depth)
      as (λ (o : Option JsonError). IsSideResult side is_partial (record {
        impl = impl;
        output = Option.none;
        failure = elim o [
          | some e ↦ fail_json e
          | Option.none ↦ fail SpotParseError.wrong_type (side_field side)
        ];
      })) [
        | some e ↦ unread-IsSideResult side is_partial impl _ r (fatal_mild _ (fail_json_fatal e))
        | Option.none ↦ unread-IsSideResult side is_partial impl _ r refl
      ]

pub parse_levels-IsSideResult :
    (side : BookSide) (is_partial : Bool) (impl : Impl) (v : Value)
    → IsReadyImpl impl
    → IsSideResult side is_partial (parse_levels side is_partial impl v)
unfolding parse_levels
parse_levels-IsSideResult side is_partial impl (untyped e) v =
    unread-IsSideResult side is_partial impl _ v (fatal_mild _ (fail_json_fatal e))
parse_levels-IsSideResult side is_partial impl (array levels) v =
    side_result-IsSideResult side is_partial _ (
      walk_levels-Walked side is_partial levels impl.encountered_levels (levels_start impl)
        (record { impl_kept = v; mild = refl; encountered = refl; side_count = refl })
        (record {
          every = record { priced = tt; distinct = tt; known = tt; short = omega arith };
          partial = λ is. record {
            few = omega arith;
            sized = tt;
            sorted = tt;
            none_before = λ e. refl;
            ahead = tt;
          };
        }))
parse_levels-IsSideResult side is_partial impl (object fields) v =
    not_levels-IsSideResult side is_partial impl (object fields) v
parse_levels-IsSideResult side is_partial impl (number token n) v =
    not_levels-IsSideResult side is_partial impl (number token n) v
parse_levels-IsSideResult side is_partial impl (string t) v =
    not_levels-IsSideResult side is_partial impl (string t) v
parse_levels-IsSideResult side is_partial impl (boolean b) v =
    not_levels-IsSideResult side is_partial impl (boolean b) v
parse_levels-IsSideResult side is_partial impl (null token) v =
    not_levels-IsSideResult side is_partial impl (null token) v
