-- ===== src/Parser/Levels/Loop.antt =====
-- src/spot_payload_parser.cpp: what the loop of `parse_levels` keeps, and writing one level.
use ir_assignment.Prelude.{
  ℕ, suc, ◌+◌, ◌≤◌, ◌<◌, ◌≡◌, refl, Bool, true, false, not, ◌&&◌, arith, if_cases, [], ◌∷◌, ◌++◌,
}
use ir_assignment.Payload.{BookSide, LevelUpdate}
use ir_assignment.Parser.{ParseFailure, is_fatal_document_error, is_internal}
use ir_assignment.Parser.Duplicates.{Slots, InsertResult, write}
use ir_assignment.Parser.Duplicates.Probe.{
  IsTable, Seen, Insert, new, old, no_room, slot_of, write-Seen, write_keeps-Seen,
}
use ir_assignment.Parser.Duplicates.Room.{IsPast, occupied, occupied-write, room_left, write-IsPast}
use ir_assignment.Parser.Levels.{
  Impl, Levels, Flow, goes, returns, recorded, max_depth_updates, in_order, after_insert,
  record_error, over_capacity,
}

-- The table is one, and has taken at most `n` prices.
pub record IsImpl (n : ℕ) (impl : Impl) : Type 0 where
  pub past : IsPast impl.duplicates impl.generation
  pub table : IsTable impl.duplicates impl.generation
  pub prices : occupied impl.duplicates impl.generation ≤ n
  pub updates : impl.update_count ≤ n
  pub prices_fit : occupied impl.duplicates impl.generation ≤ max_depth_updates
  pub updates_fit : impl.update_count ≤ max_depth_updates

-- The key has been inserted.
abbrev pub Knows : Impl → BookSide → ℕ → Type 0
Knows impl side price = Seen impl.duplicates impl.generation price side

-- All keys of one state are in the other.
abbrev pub KeepsKeys : Impl → Impl → Type 0
KeepsKeys before after =
    (price : ℕ) (side : BookSide) → Knows before side price → Knows after side price

-- What a level is written as.
pub record IsWritten (side : BookSide) (is_partial : Bool) (s : Levels) (u : LevelUpdate)
    : Type 0 where
  pub of_side : u.side ≡ side
  pub priced : 0 < u.price
  pub sized : is_partial ≡ true → 0 < u.quantity
  pub ordered :
      is_partial ≡ true
      → s.has_previous_price ≡ true
      → in_order side s.previous_price u.price ≡ true
  pub unknown : Knows s.impl side u.price → ⊥

-- One level is written behind those before it, or none.
pub data Step (side : BookSide) (is_partial : Bool) (before after : Levels) : Type 0 where
  none_written :
      after.written ≡ before.written
      → after.previous_price ≡ before.previous_price
      → after.has_previous_price ≡ before.has_previous_price
      → KeepsKeys before.impl after.impl
      → Step side is_partial before after
  one_written :
      (u : LevelUpdate)
      → IsWritten side is_partial before u
      → after.written ≡ before.written ++ (u ∷ [])
      → after.previous_price ≡ u.price
      → after.has_previous_price ≡ true
      → KeepsKeys before.impl after.impl
      → Knows after.impl side u.price
      → Step side is_partial before after

-- What every loop state has: a table with at most `n` prices behind `n` levels, and no failure of the
-- table on record.
pub record IsLoop (n count : ℕ) (s : Levels) : Type 0 where
  pub impl_kept : IsImpl n s.impl
  pub mild : is_internal s.first_error.error ≡ false
  pub encountered : s.impl.encountered_levels ≡ n
  pub side_count : s.side_level_count ≡ count

-- One level: nothing is written beyond the capacity.
abbrev pub Level : BookSide → Bool → Levels → Levels → Type 0
Level side is_partial before after =
    Step side is_partial before after
    × (over_capacity is_partial before ≡ true → after.written ≡ before.written)

-- A loop goes on in such a state that has a property, or returns for a fault of the document.
abbrev pub Ends : ℕ → ℕ → (Levels → Type 0) → Flow Levels → Type 0
Ends n count P (goes s) = IsLoop n count s × P s
Ends n count P (returns impl f) = IsImpl n impl × (is_fatal_document_error f.error ≡ true)

-- A level is counted before it is looked at.
pub record IsReady (n count : ℕ) (s : Levels) : Type 0 where
  pub impl_kept : IsImpl n s.impl
  pub mild : is_internal s.first_error.error ≡ false
  pub encountered : s.impl.encountered_levels ≡ suc n
  pub side_count : s.side_level_count ≡ count

pub recorded_mild :
    (a b : ParseFailure)
    → is_internal a.error ≡ false
    → is_internal b.error ≡ false
    → is_internal (recorded a b).error ≡ false
recorded_mild a b h k = ground (arith, h, k)

in_order_if : (a b c : Bool) → (a && b && not c) ≡ false → a ≡ true → b ≡ true → c ≡ true
in_order_if a b c h k l = ground (arith, h, k, l)

pub raised : (n : ℕ) (impl : Impl) → IsImpl n impl → IsImpl (suc n) impl
raised n impl v = record {
  past = v.past;
  table = v.table;
  prices = omega (arith, v.prices);
  updates = omega (arith, v.updates);
  prices_fit = v.prices_fit;
  updates_fit = v.updates_fit;
}

pub refused_loop :
    (n count : ℕ) (s : Levels) (failure : ParseFailure)
    → IsReady n count s
    → is_internal failure.error ≡ false
    → IsLoop (suc n) count (record_error s failure)
refused_loop n count s failure r k = record {
  impl_kept = raised n s.impl r.impl_kept;
  mild = recorded_mild s.first_error failure r.mild k;
  encountered = r.encountered;
  side_count = r.side_count;
}

module _ (side : BookSide) (is_partial : Bool) (n count : ℕ) (s : Levels) where
  write_impl-IsImpl :
      (i price : ℕ)
      → IsImpl n s.impl
      → n < max_depth_updates
      → IsTable (write s.impl.duplicates i (slot_of s.impl.generation price side)) s.impl.generation
      → IsImpl (suc n) (record s.impl {
        duplicates = write s.impl.duplicates i (slot_of s.impl.generation price side);
        update_count = s.impl.update_count + 1;
      })
  write_impl-IsImpl i price v h t =
      let grown =
        occupied-write s.impl.duplicates i (slot_of s.impl.generation price side)
          s.impl.generation in
      record {
        past = write-IsPast s.impl.duplicates i price side s.impl.generation v.past;
        table = t;
        prices = omega (arith, grown, v.prices);
        updates = omega (arith, v.updates);
        prices_fit = omega (arith, grown, v.prices, h);
        updates_fit = omega (arith, v.updates, h);
      }

  pub after_insert-Ends :
      (price quantity : ℕ) (out : Slots × InsertResult)
      → Insert s.impl.duplicates s.impl.generation price side out
      → IsReady n count s
      → n < max_depth_updates
      → 0 < price
      → (is_partial ≡ true → 0 < quantity)
      → Ends
          (suc n)
          count
          (Step side is_partial s)
          (after_insert side is_partial s price quantity out)
  after_insert-Ends price quantity out (new i dead unknown e t) r h p q =
      let w = write_impl-IsImpl i price r.impl_kept h t in
      let keys : KeepsKeys s.impl (record s.impl {
        duplicates = write s.impl.duplicates i (slot_of s.impl.generation price side);
      }) =
        λ q b. write_keeps-Seen s.impl.duplicates s.impl.generation i price side dead q b in
      rw e (
        if_cases (λ x. Ends (suc n) count (Step side is_partial s) (goes x))
          (is_partial && s.has_previous_price && not (in_order side s.previous_price price))
          (λ _. (
            record {
              impl_kept = record {
                past = w.past;
                table = w.table;
                prices = w.prices;
                updates = omega (arith, r.impl_kept.updates);
                prices_fit = w.prices_fit;
                updates_fit = r.impl_kept.updates_fit;
              };
              mild = recorded_mild s.first_error _ r.mild refl;
              encountered = r.encountered;
              side_count = r.side_count;
            },
            none_written refl refl refl keys,
          ))
          (λ ordered. (
            record {
              impl_kept = w;
              mild = r.mild;
              encountered = r.encountered;
              side_count = r.side_count;
            },
            one_written (record { price = price; quantity = quantity; side = side })
                (record {
                  of_side = refl;
                  priced = p;
                  sized = q;
                  ordered = λ is has. in_order_if is_partial s.has_previous_price _ ordered is has;
                  unknown = unknown;
                })
                refl refl refl keys
                (write-Seen s.impl.duplicates s.impl.generation i price side dead),
          )))
  after_insert-Ends price quantity out (old known e) r h p q =
      rw e (refused_loop n count s _ r refl, none_written refl refl refl (λ q b seen. seen))
  after_insert-Ends price quantity out (no_room f e) r h p q = absurd (
      room_left s.impl.duplicates s.impl.generation price side
        (omega (arith, r.impl_kept.prices, h)) f)
