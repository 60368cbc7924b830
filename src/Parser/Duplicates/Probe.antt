-- ===== src/Parser/Duplicates/Probe.antt =====
-- src/spot_payload_parser.cpp: what `insert_unique` finds in the table and what it leaves there. A
-- slot is live if it is of the current generation; a key is where the probing from its home ends,
-- behind live slots only.
use ir_assignment.Prelude.{
  ℕ, zero, suc, ◌+◌, ◌%◌, ◌<◌, ◌≡◌, refl, sym, ap, ◌∙◌, inl, inr, true, false, ◌&&◌, arith, ◌==◌,
  Bool-cases, ==_iff,
}
use mathlib.Core.Path.{subst}
use ir_assignment.Payload.{BookSide, bid, ask}
use ir_assignment.Parser.Duplicates.{
  Slots, DuplicateSlot, InsertResult, inserted, duplicate, table_full, same_side, write, probe_from,
  home, insert_unique, duplicate_table_size,
}

abbrev pub IsLive : Slots → ℕ → ℕ → Type 0
IsLive slots g i = (slots i).generation ≡ g

-- The slot holds the key in this generation.
pub record Holds (slots : Slots) (g price : ℕ) (side : BookSide) (i : ℕ) : Type 0 where
  pub live : IsLive slots g i
  pub price_there : (slots i).price ≡ price
  pub side_there : (slots i).side ≡ side

-- The message has inserted the key.
abbrev pub Seen : Slots → ℕ → ℕ → BookSide → Type 0
Seen slots g price side = (i : ℕ) × Holds slots g price side i

-- From `start` to `target` in `d` steps over live slots.
abbrev pub Reach : ℕ → Slots → ℕ → ℕ → ℕ → ℕ → Type 0
Reach size slots g zero start target = start ≡ target
Reach size slots g (suc d) start target =
    IsLive slots g start × Reach size slots g d ((start + 1) % size) target

-- `d` live slots from `start` on.
abbrev pub Filled : ℕ → Slots → ℕ → ℕ → ℕ → Type 0
Filled size slots g zero start = Unit
Filled size slots g (suc d) start =
    IsLive slots g start × Filled size slots g d ((start + 1) % size)

-- The index is reached from the home of the slot's key.
abbrev pub IsPlaced : Slots → ℕ → DuplicateSlot → ℕ → Type 0
IsPlaced slots g slot j =
    (d : ℕ) × (d < duplicate_table_size)
    × Reach duplicate_table_size slots g d (home slot.price slot.side) j

-- Each live slot is.
abbrev pub IsTable : Slots → ℕ → Type 0
IsTable slots g = (j : ℕ) → IsLive slots g j → IsPlaced slots g (slots j) j

abbrev pub slot_of : ℕ → ℕ → BookSide → DuplicateSlot
slot_of g price side = record { generation = g; price = price; side = side }

-- The three ways in which the probing ends.
pub data Outcome (size : ℕ) (slots : Slots) (g price : ℕ) (side : BookSide) (start rounds : ℕ)
    (out : Slots × InsertResult) : Type 0 where
  fresh :
      (i d : ℕ)
      → d < rounds
      → Reach size slots g d start i
      → (IsLive slots g i → ⊥)
      → out ≡ (write slots i (slot_of g price side), inserted)
      → Outcome size slots g price side start rounds out
  found :
      (i : ℕ)
      → Holds slots g price side i
      → out ≡ (slots, duplicate)
      → Outcome size slots g price side start rounds out
  full :
      Filled size slots g rounds start
      → out ≡ (slots, table_full)
      → Outcome size slots g price side start rounds out

same_side_lem : (a b : BookSide) → same_side a b ≡ true → a ≡ b
same_side_lem bid bid h = refl
same_side_lem ask ask h = refl
same_side_lem bid ask h = cc
same_side_lem ask bid h = cc

same_side_refl : (a : BookSide) → same_side a a ≡ true
same_side_refl bid = refl
same_side_refl ask = refl

module _ (size : ℕ) (slots : Slots) (g price : ℕ) (side : BookSide) where
  probe_empty :
      (rounds start : ℕ)
      → ((slots start).generation == g) ≡ false
      → probe_from size (suc rounds) slots g price side start
        ≡ (write slots start (slot_of g price side), inserted)
  unfolding probe_from
  probe_empty rounds start e = rw e refl

  probe_match :
      (rounds start : ℕ)
      → Holds slots g price side start
      → probe_from size (suc rounds) slots g price side start ≡ (slots, duplicate)
  unfolding probe_from
  probe_match rounds start h = ground (
    arith,
    h.live,
    h.price_there,
    same_side_lem (slots start).side side,
    ap (λ b. same_side b side) h.side_there ∙ same_side_refl side,
  )

  probe_next :
      (rounds start : ℕ)
      → ((slots start).generation == g) ≡ true
      → ((slots start).price == price && same_side (slots start).side side) ≡ false
      → probe_from size (suc rounds) slots g price side start
        ≡ probe_from size rounds slots g price side ((start + 1) % size)
  unfolding probe_from
  probe_next rounds start e k = rw (e, k) refl

  probe_none : (start : ℕ) → probe_from size 0 slots g price side start ≡ (slots, table_full)
  unfolding probe_from
  probe_none start = refl

  matching :
      (start : ℕ)
      → ((slots start).generation == g) ≡ true
      → ((slots start).price == price && same_side (slots start).side side) ≡ true
      → Holds slots g price side start
  matching start e k = record {
    live = ground (arith, e);
    price_there = ground (arith, k);
    side_there = same_side_lem (slots start).side side (ground (arith, k));
  }

  probe-Outcome :
      (rounds start : ℕ)
      → Outcome size slots g price side start rounds
          (probe_from size rounds slots g price side start)
  probe-Outcome zero start = full tt (probe_none start)
  probe-Outcome (suc rounds) start = elim (Bool-cases ((slots start).generation == g)) [
    | inr e ↦ fresh start 0 (omega arith) refl (ground (arith, e)) (probe_empty rounds start e)
    | inl e ↦
        elim (Bool-cases ((slots start).price == price && same_side (slots start).side side)) [
          | inl k ↦ let h = matching start e k in found start h (probe_match rounds start h)
          | inr k ↦
              let next = probe_next rounds start e k in
              let live : IsLive slots g start = ground (arith, e) in
              elim (probe-Outcome rounds ((start + 1) % size)) [
                | fresh i d below reach dead out ↦
                    fresh i (suc d) (omega (arith, below)) (live, reach) dead (next ∙ out)
                | found i h out ↦ found i h (next ∙ out)
                | full filled out ↦ full (live, filled) (next ∙ out)
              ]
        ]
  ]

  -- A key that is reached is found.
  reached-found :
      (d rounds start target : ℕ)
      → d < rounds
      → Reach size slots g d start target
      → Holds slots g price side target
      → probe_from size rounds slots g price side start ≡ (slots, duplicate)
  reached-found d zero start target below reach h = absurd (omega arith)
  reached-found zero (suc rounds) start target below reach h =
      probe_match rounds start (subst (Holds slots g price side) (sym reach) h)
  reached-found (suc d) (suc rounds) start target below (live, reach) h =
      elim (Bool-cases ((slots start).price == price && same_side (slots start).side side)) [
        | inl k ↦ probe_match rounds start (matching start (ground (arith, live)) k)
        | inr k ↦
            probe_next rounds start (ground (arith, live)) k
            ∙ reached-found d rounds ((start + 1) % size) target (omega arith) reach h
      ]

write_self : (slots : Slots) (i : ℕ) (slot : DuplicateSlot) → write slots i slot i ≡ slot
write_self slots i slot = ground arith

-- What was live is live behind a write of a live slot.
write-IsLive :
    (slots : Slots) (g i price : ℕ) (side : BookSide) (j : ℕ)
    → IsLive slots g j
    → IsLive (write slots i (slot_of g price side)) g j
write-IsLive slots g i price side j h = ground (arith, h)

write-Reach :
    (size : ℕ) (slots : Slots) (g i price : ℕ) (side : BookSide) (d start target : ℕ)
    → Reach size slots g d start target
    → Reach size (write slots i (slot_of g price side)) g d start target
write-Reach size slots g i price side zero start target r = r
write-Reach size slots g i price side (suc d) start target (live, r) = (
  write-IsLive slots g i price side start live,
  write-Reach size slots g i price side d ((start + 1) % size) target r,
)

-- A write into a slot that is not live.
module _ (slots : Slots) (g i price : ℕ) (side : BookSide) (dead : IsLive slots g i → ⊥) where
  abbrev pub after : Slots
  after = write slots i (slot_of g price side)

  pub write-Seen : Seen after g price side
  write-Seen = (
    i,
    record {
      live = ap (λ (s : DuplicateSlot). s.generation) (write_self slots i (slot_of g price side));
      price_there = ap (λ (s : DuplicateSlot). s.price) (write_self slots i (slot_of g price side));
      side_there = ap (λ (s : DuplicateSlot). s.side) (write_self slots i (slot_of g price side));
    },
  )

  write_at : (j : ℕ) → i ≡ j → after j ≡ slot_of g price side
  write_at j e = ground (arith, e)

  write_off : (j : ℕ) → (i == j) ≡ false → after j ≡ slots j
  write_off j e = rw e refl

  write_other : (j : ℕ) → IsLive slots g j → after j ≡ slots j
  write_other j h = elim (Bool-cases (i == j)) [
    | inl e ↦ absurd (dead (subst (IsLive slots g) (sym ((==_iff i j).0 e)) h))
    | inr e ↦ rw e refl
  ]

  pub write_keeps-Seen : (q : ℕ) (b : BookSide) → Seen slots g q b → Seen after g q b
  write_keeps-Seen q b (j, h) =
      let same = write_other j h.live in
      (
        j,
        record {
          live = ap (λ (s : DuplicateSlot). s.generation) same ∙ h.live;
          price_there = ap (λ (s : DuplicateSlot). s.price) same ∙ h.price_there;
          side_there = ap (λ (s : DuplicateSlot). s.side) same ∙ h.side_there;
        },
      )

  write-IsTable :
      (d : ℕ)
      → d < duplicate_table_size
      → Reach duplicate_table_size slots g d (home price side) i
      → IsTable slots g
      → IsTable after g
  write-IsTable d below reach t j live = elim (Bool-cases (i == j)) [
    | inl e ↦
        let same = (==_iff i j).0 e in
        subst (λ (slot : DuplicateSlot). IsPlaced after g slot j) (sym (write_at j same))
          (subst (λ (k : ℕ). IsPlaced after g (slot_of g price side) k) same
            (d, below, write-Reach duplicate_table_size slots g i price side d _ i reach))
    | inr e ↦
        let (k, k_below, k_reach) =
          t j (subst (λ (slot : DuplicateSlot). slot.generation ≡ g) (write_off j e) live) in
        subst (λ (slot : DuplicateSlot). IsPlaced after g slot j) (sym (write_off j e))
          (k, k_below, write-Reach duplicate_table_size slots g i price side k _ j k_reach)
  ]

-- What `insert_unique` does to a table: a key that the message has not inserted goes into a slot that
-- is not live; a key that it has is reported, and nothing is written.
pub data Insert (slots : Slots) (g price : ℕ) (side : BookSide) (out : Slots × InsertResult)
    : Type 0 where
  new :
      (i : ℕ)
      → (IsLive slots g i → ⊥)
      → (Seen slots g price side → ⊥)
      → out ≡ (write slots i (slot_of g price side), inserted)
      → IsTable (write slots i (slot_of g price side)) g
      → Insert slots g price side out
  old : Seen slots g price side → out ≡ (slots, duplicate) → Insert slots g price side out
  no_room :
      Filled duplicate_table_size slots g duplicate_table_size (home price side)
      → out ≡ (slots, table_full)
      → Insert slots g price side out

not_both : (a b : Slots × InsertResult) → a.1 ≡ inserted → b.1 ≡ duplicate → a ≡ b → ⊥
not_both a b x y e = cc

module _ (slots : Slots) (g price : ℕ) (side : BookSide) (t : IsTable slots g) where
  homes :
      (j : ℕ) → Holds slots g price side j → home (slots j).price (slots j).side ≡ home price side
  homes j h =
      ap (λ (p : ℕ). home p (slots j).side) h.price_there
      ∙ ap (λ (b : BookSide). home price b) h.side_there

  known_price_lem : Seen slots g price side → insert_unique slots g price side ≡ (slots, duplicate)
  unfolding insert_unique
  known_price_lem (j, h) =
      let (d, below, reach) = t j h.live in
      reached-found duplicate_table_size slots g price side d duplicate_table_size (home price side)
        j below (subst (λ (k : ℕ). Reach duplicate_table_size slots g d k j) (homes j h) reach) h

  -- On a table whose live slots are reached from their homes, `insert_unique` reports a duplicate if the
  -- price was inserted for the side in this message, and writes nothing then. A price that is new to
  -- the side goes into a slot that is not live, and the table stays of that kind. A full table is
  -- reported only if every slot that can be probed is live.
  pub insert_unique-Insert : Insert slots g price side (insert_unique slots g price side)
  unfolding insert_unique
  insert_unique-Insert =
      elim (probe-Outcome duplicate_table_size slots g price side duplicate_table_size
        (home price side)) [
          | fresh i d below reach dead out ↦
              new i dead (λ seen. not_both _ _ refl refl (sym out ∙ known_price_lem seen)) out
                (write-IsTable slots g i price side dead d below reach t)
          | found i h out ↦ old (i, h) out
          | full filled out ↦ no_room filled out
        ]
