-- ===== src/Parser/Levels/Invariant.antt =====
-- src/spot_payload_parser.cpp: what the levels that were written have in common, and that one more
-- level keeps it.
use mathlib.Core.Path.{subst}
use ir_assignment.Prelude.{
  ℕ, suc, ◌≤◌, ◌<◌, ◌≡◌, ◌≢◌, refl, sym, ap, ◌∙◌, ◌⊎◌, inl, inr, Bool, true, false, arith,
  Bool-cases, true_ne_false, List, [], ◌∷◌, ◌++◌, All, All-map, All-append, length, length-append,
}
use ir_assignment.Payload.{BookSide, bid, ask, LevelUpdate}
use ir_assignment.Book.Side.{level_of, better_price}
use ir_assignment.Book.Side.Order.{IsBetter, IsSorted}
use ir_assignment.Book.Side.Reference.{IsDistinct, HasPrice}
use ir_assignment.Book.Core.Events.{levels_of}
use ir_assignment.Parser.Levels.{Impl, Levels, in_order, over_capacity}
use ir_assignment.Parser.Levels.Loop.{none_written, one_written}
use ir_assignment.Parser.Levels.Loop.{Knows, KeepsKeys, IsWritten, Level}

-- The price is the one given, or a better one.
abbrev pub IsAhead : BookSide → ℕ → LevelUpdate → Type 0
IsAhead b price u = (u.price ≡ price) ⊎ (better_price b u.price price ≡ true)

abbrev pub HasQuantity : LevelUpdate → Type 0
HasQuantity u = 0 < u.quantity

-- What holds in a partial depth: at most five levels, with quantities, best first.
pub record IsPartialSide (side : BookSide) (previous : ℕ) (has_previous : Bool)
    (written : List LevelUpdate) : Type 0 where
  pub few : length written ≤ 5
  pub sized : All HasQuantity written
  pub sorted : IsSorted side (levels_of written)
  pub none_before : has_previous ≡ false → written ≡ []
  pub ahead : All (IsAhead side previous) written

-- What holds in every message: positive prices that are all different and in the table.
pub record IsSide (side : BookSide) (impl : Impl) (count : ℕ) (written : List LevelUpdate)
    : Type 0 where
  pub priced : All HasPrice written
  pub distinct : IsDistinct written
  pub known : All (λ u. Knows impl side u.price) written
  pub short : length written ≤ count

pub record IsKept (side : BookSide) (is_partial : Bool) (s : Levels) : Type 0 where
  pub every : IsSide side s.impl s.side_level_count s.written
  pub partial :
      is_partial ≡ true → IsPartialSide side s.previous_price s.has_previous_price s.written

IsDistinct-append :
    (xs : List LevelUpdate) (u : LevelUpdate)
    → IsDistinct xs
    → All (λ w. w.price ≢ u.price) xs
    → IsDistinct (xs ++ (u ∷ []))
IsDistinct-append [] u d h = (tt, tt)
IsDistinct-append (x ∷ xs) u (d, ds) (h, hs) =
    (All-append (λ w. x.price ≢ w.price) xs (u ∷ []) d (h, tt), IsDistinct-append xs u ds hs)

levels_of-append :
    (xs : List LevelUpdate) (u : LevelUpdate)
    → levels_of (xs ++ (u ∷ [])) ≡ levels_of xs ++ (level_of u ∷ [])
levels_of-append [] u = refl
levels_of-append (x ∷ xs) u = ap (λ t. level_of x ∷ t) (levels_of-append xs u)

in_front_lem :
    (side : BookSide) (x u : LevelUpdate) (xs : List LevelUpdate)
    → All (IsBetter side (level_of x)) (levels_of xs)
    → IsBetter side (level_of x) (level_of u)
    → All (IsBetter side (level_of x)) (levels_of (xs ++ (u ∷ [])))
in_front_lem side x u [] h k = (k, tt)
in_front_lem side x u (y ∷ ys) (h, hs) k = (h, in_front_lem side x u ys hs k)

IsSorted-append :
    (side : BookSide) (xs : List LevelUpdate) (u : LevelUpdate)
    → IsSorted side (levels_of xs)
    → All (λ w. better_price side w.price u.price ≡ true) xs
    → IsSorted side (levels_of (xs ++ (u ∷ [])))
IsSorted-append side [] u s h = (tt, tt)
IsSorted-append side (x ∷ xs) u (s, ss) (h, hs) =
    (in_front_lem side x u xs s h, IsSorted-append side xs u ss hs)

ahead-better :
    (side : BookSide) (previous price : ℕ) (w : LevelUpdate)
    → in_order side previous price ≡ true
    → IsAhead side previous w
    → better_price side w.price price ≡ true
ahead-better bid previous price w o h = ground (arith, o, h)
ahead-better ask previous price w o h = ground (arith, o, h)

-- The level that is written joins the others.
module _ (side : BookSide) (is_partial : Bool) (before : Levels) (u : LevelUpdate) where
  abbrev longer : List LevelUpdate
  longer = before.written ++ (u ∷ [])

  longer-IsSide :
      (impl : Impl) (count : ℕ)
      → IsWritten side is_partial before u
      → IsSide side before.impl count before.written
      → KeepsKeys before.impl impl
      → Knows impl side u.price
      → IsSide side impl (suc count) longer
  longer-IsSide impl count w k keep new = record {
    priced = All-append HasPrice before.written (u ∷ []) k.priced (w.priced, tt);
    distinct = IsDistinct-append before.written u k.distinct (
        All-map (λ x seen e. w.unknown (subst (λ (p : ℕ). Knows before.impl side p) e seen))
          before.written k.known);
    known =
        All-append (λ x. Knows impl side x.price) before.written (u ∷ [])
          (All-map (λ x seen. keep x.price side seen) before.written k.known) (new, tt);
    short = omega (arith, k.short, length-append before.written (u ∷ []));
  }

  longer-IsPartialSide :
      is_partial ≡ true
      → length before.written < 5
      → IsWritten side is_partial before u
      → IsPartialSide side before.previous_price before.has_previous_price before.written
      → IsPartialSide side u.price true longer
  longer-IsPartialSide is within w k =
      let behind : All (λ x. better_price side x.price u.price ≡ true) before.written =
        elim (Bool-cases before.has_previous_price) [
          | inl has ↦
              All-map
                (λ x a. ahead-better side before.previous_price u.price x (w.ordered is has) a)
                before.written k.ahead
          | inr none ↦ rw (k.none_before none) tt
        ] in
      record {
        few = omega (arith, within, length-append before.written (u ∷ []));
        sized = All-append HasQuantity before.written (u ∷ []) k.sized (w.sized is, tt);
        sorted = IsSorted-append side before.written u k.sorted behind;
        none_before = λ e. absurd (true_ne_false e);
        ahead =
            All-append (IsAhead side u.price) before.written (u ∷ [])
              (All-map (λ x b. inr b) before.written behind) (inl refl, tt);
      }

-- The same levels under a state with more prices and a higher count.
wider-IsSide :
    (side : BookSide) (before after : Impl) (count : ℕ) (written : List LevelUpdate)
    → IsSide side before count written
    → KeepsKeys before after
    → IsSide side after (suc count) written
wider-IsSide side before after count written k keep = record {
  priced = k.priced;
  distinct = k.distinct;
  known = All-map (λ x seen. keep x.price side seen) written k.known;
  short = omega (arith, k.short);
}

module _ (side : BookSide) (is_partial : Bool) (before after : Levels) where
  room_for_one :
      is_partial ≡ true
      → (over_capacity is_partial before ≡ true → after.written ≡ before.written)
      → (u : LevelUpdate) → after.written ≡ before.written ++ (u ∷ [])
      → length before.written ≤ before.side_level_count
      → length before.written < 5
  room_for_one is over u w short = elim (Bool-cases (over_capacity is_partial before)) [
    | inl o ↦
        absurd (omega (arith, ap length (sym (over o) ∙ w), length-append before.written (u ∷ [])))
    | inr o ↦ ground (arith, o, is, short)
  ]

  pub after_one-IsKept :
      after.side_level_count ≡ suc before.side_level_count
      → Level side is_partial before after
      → IsKept side is_partial before
      → IsKept side is_partial after
  after_one-IsKept c (none_written w p h keep, _) k = record {
    every =
        rw (w, c)
          (wider-IsSide side before.impl after.impl before.side_level_count before.written k.every
            keep);
    partial = λ is. rw (w, p, h) (k.partial is);
  }
  after_one-IsKept c (one_written u i w p h keep new, over) k = record {
    every =
        rw (w, c)
          (longer-IsSide side is_partial before u after.impl before.side_level_count i k.every keep
            new);
    partial = λ is.
        rw (w, p, h)
          (longer-IsPartialSide side is_partial before u is (room_for_one is over u w k.every.short)
            i (k.partial is));
  }
