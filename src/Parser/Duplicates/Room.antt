-- ===== src/Parser/Duplicates/Room.antt =====
-- src/spot_payload_parser.cpp: the table has room for every level of a message, and a new message
-- finds it empty.
use ir_assignment.Prelude.{
  ℕ, zero, suc, ◌+◌, ◌-◌, ◌%◌, ◌≤◌, ◌<◌, ◌≡◌, refl, arith, ◌==◌, if◌then◌else◌, Bool-cases, inl,
  inr,
}
use mathlib.Core.Path.{subst}
use native.Mathlib.Decide.{dec_le}
use ir_assignment.Payload.{BookSide}
use ir_assignment.Parser.Duplicates.{
  Slots, DuplicateSlot, write, duplicate_table_size, home, next_generation,
}
use ir_assignment.Parser.Duplicates.Probe.{IsLive, Filled, IsTable, slot_of}

-- The number of live slots below an index.
unfoldable pub live_below : ℕ → Slots → ℕ → ℕ
live_below zero slots g = 0
live_below (suc n) slots g =
    let rest = live_below n slots g in if (slots n).generation == g then suc rest else rest

unfoldable pub occupied : Slots → ℕ → ℕ
occupied slots g = live_below duplicate_table_size slots g

live_below-write_above :
    (n : ℕ) (slots : Slots) (i : ℕ) (slot : DuplicateSlot) (g : ℕ)
    → n ≤ i
    → live_below n (write slots i slot) g ≡ live_below n slots g
unfolding live_below
live_below-write_above zero slots i slot g h = refl
live_below-write_above (suc n) slots i slot g h =
    ground (arith, live_below-write_above n slots i slot g)

live_below-write :
    (n : ℕ) (slots : Slots) (i : ℕ) (slot : DuplicateSlot) (g : ℕ)
    → live_below n (write slots i slot) g ≤ suc (live_below n slots g)
unfolding live_below
live_below-write zero slots i slot g = omega arith
live_below-write (suc n) slots i slot g =
    ground (arith, live_below-write n slots i slot g, live_below-write_above n slots i slot g)

live_below_all :
    (n : ℕ) (slots : Slots) (g : ℕ)
    → ((j : ℕ) → j < n → IsLive slots g j)
    → live_below n slots g ≡ n
unfolding live_below
live_below_all zero slots g h = refl
live_below_all (suc n) slots g h =
    ground (arith, h n (omega arith), live_below_all n slots g (λ j b. h j (omega arith)))

-- Live slots from an index on, up to the end of the array.
none_free_ahead :
    (e d start : ℕ) (slots : Slots) (g : ℕ)
    → e < d
    → start + e < duplicate_table_size
    → Filled duplicate_table_size slots g d start
    → IsLive slots g (start + e)
none_free_ahead e zero start slots g below within f = absurd (omega arith)
none_free_ahead zero (suc d) start slots g below within (live, f) =
    subst (IsLive slots g) (omega arith) live
none_free_ahead (suc e) (suc d) start slots g below within (live, f) =
    subst (IsLive slots g) (omega arith) (
      none_free_ahead e d ((start + 1) % duplicate_table_size) slots g (omega arith) (omega arith)
        f)

-- Behind the end of the array comes its begin.
none_free_around :
    (k d total start : ℕ) (slots : Slots) (g : ℕ)
    → start + suc k ≡ duplicate_table_size
    → total ≡ suc k + d
    → Filled duplicate_table_size slots g total start
    → Filled duplicate_table_size slots g d 0
none_free_around k d zero start slots g e t f = absurd (omega arith)
none_free_around zero d (suc total) start slots g e t (live, f) =
    let size : total ≡ d = omega (arith, t) in
    let around : (start + 1) % duplicate_table_size ≡ 0 = omega (arith, e) in
    subst (λ (s : ℕ). Filled duplicate_table_size slots g d s) around
      (subst (λ (n : ℕ). Filled duplicate_table_size slots g n ((start + 1) % duplicate_table_size))
        size f)
none_free_around (suc k) d (suc total) start slots g e t (live, f) =
    none_free_around k d total ((start + 1) % duplicate_table_size) slots g (omega (arith, e))
      (omega (arith, t)) f

-- A probing that goes once around finds every slot live.
none_free_at_all :
    (start j : ℕ) (slots : Slots) (g : ℕ)
    → start < duplicate_table_size
    → j < duplicate_table_size
    → Filled duplicate_table_size slots g duplicate_table_size start
    → IsLive slots g j
none_free_at_all start j slots g s b f = elim (dec_le start j) [
  | yes above ↦ subst (IsLive slots g) (omega (arith, above)) (
      none_free_ahead (j - start) duplicate_table_size start slots g (omega arith)
        (omega (arith, above)) f)
  | no before ↦ subst (IsLive slots g) (omega arith) (
      none_free_ahead j start 0 slots g (omega (arith, before)) (omega arith) (
        none_free_around (duplicate_table_size - start - 1) start duplicate_table_size start slots g
          (omega arith) (omega arith) f))
]

-- A table that is not full stops every probing.
pub room_left :
    (slots : Slots) (g price : ℕ) (side : BookSide)
    → occupied slots g < duplicate_table_size
    → Filled duplicate_table_size slots g duplicate_table_size (home price side)
    → ⊥
unfolding occupied
room_left slots g price side h f =
    let all =
      live_below_all duplicate_table_size slots g
        (λ j b. none_free_at_all (home price side) j slots g (omega arith) b f) in
    omega (arith, h, all)

pub occupied-write :
    (slots : Slots) (i : ℕ) (slot : DuplicateSlot) (g : ℕ)
    → occupied (write slots i slot) g ≤ suc (occupied slots g)
unfolding occupied
occupied-write slots i slot g = live_below-write duplicate_table_size slots i slot g

-- No slot is of a later generation than the current one.
abbrev pub IsPast : Slots → ℕ → Type 0
IsPast slots g = (j : ℕ) → (slots j).generation ≤ g

abbrev pub IsEmpty : Slots → ℕ → Type 0
IsEmpty slots g = (j : ℕ) → IsLive slots g j → ⊥

pub next_generation-IsEmpty :
    (slots : Slots) (g : ℕ)
    → IsPast slots g
    → IsEmpty (next_generation slots g).0 (next_generation slots g).1
unfolding next_generation
next_generation-IsEmpty slots g h j live = ground (arith, h j, live)

pub next_generation-IsPast :
    (slots : Slots) (g : ℕ)
    → IsPast slots g
    → IsPast (next_generation slots g).0 (next_generation slots g).1
unfolding next_generation
next_generation-IsPast slots g h j = ground (arith, h j)

pub write-IsPast :
    (slots : Slots) (i price : ℕ) (side : BookSide) (g : ℕ)
    → IsPast slots g
    → IsPast (write slots i (slot_of g price side)) g
write-IsPast slots i price side g h j = ground (arith, h j)

pub empty-IsTable : (slots : Slots) (g : ℕ) → IsEmpty slots g → IsTable slots g
empty-IsTable slots g h j live = absurd (h j live)

live_below_none : (n : ℕ) (slots : Slots) (g : ℕ) → IsEmpty slots g → live_below n slots g ≡ 0
unfolding live_below
live_below_none zero slots g h = refl
live_below_none (suc n) slots g h = elim (Bool-cases ((slots n).generation == g)) [
  | inl e ↦ absurd (h n (ground (arith, e)))
  | inr e ↦ rw e (live_below_none n slots g h)
]

pub occupied_none : (slots : Slots) (g : ℕ) → IsEmpty slots g → occupied slots g ≡ 0
unfolding occupied
occupied_none slots g h = live_below_none duplicate_table_size slots g h
