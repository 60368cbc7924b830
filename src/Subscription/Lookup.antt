-- ===== src/Subscription/Lookup.antt =====
-- src/live_subscription.cpp: the table finds every route that is in it.
use mathlib.Core.Path.{subst}
use mathlib.Core.Option.{Option, some}
use ir_assignment.Prelude.{
  ℕ, zero, suc, ◌+◌, ◌%◌, ◌≡◌, refl, sym, ap, ◌∙◌, Bool, true, false, arith, if◌then◌else◌, List,
}
use ir_assignment.SymbolIdentity.{bytes_equal}
use ir_assignment.SymbolIdentity.Ids.{bytes_equal_iff}
use ir_assignment.Subscription.{
  LiveRoute, Lookup, fill, home, lookup_slot_count, insert_from, insert_route, find_from,
}

absent_present : (o : Option LiveRoute) → (r : LiveRoute) → o ≡ Option.none → o ≡ some r → ⊥
absent_present o r e f = ground (arith, e, f)

find_from_kept :
    (rounds : ℕ) (lookup : Lookup) (name : List ℕ) (slot i : ℕ) (route r : LiveRoute)
    → lookup i ≡ Option.none
    → find_from rounds lookup name slot ≡ some r
    → find_from rounds (fill lookup i route) name slot ≡ some r
unfolding find_from
find_from_kept zero lookup name slot i route r e h = h
find_from_kept (suc rounds) lookup name slot i route r e h =
    ground
      (arith, e, h, find_from_kept rounds lookup name ((slot + 1) % lookup_slot_count) i route r e)

-- One probe of an insertion, in a slot with `o`.
abbrev probed : Option LiveRoute → Lookup → LiveRoute → ℕ → Option Lookup → Option Lookup
probed o lookup route slot rest = elim o [
  | Option.none ↦ some (fill lookup slot route)
  | some other ↦ if bytes_equal other.stream_name route.stream_name then Option.none else rest
]

some_lem : (a b : Lookup) → some a ≡ some b → a ≡ b
some_lem a b e = cc

no_lookup : (a : Lookup) → Option.none ≡ some a → ⊥
no_lookup a e = cc

passed_by :
    (same : Bool) (rest : Option Lookup) (after : Lookup)
    → (if same then Option.none else rest) ≡ some after
    → (same ≡ false) × (rest ≡ some after)
passed_by true rest after h = absurd (no_lookup after h)
passed_by false rest after h = (refl, h)

-- Inserting fills a slot that was empty.
abbrev IsFilled : Lookup → LiveRoute → Lookup → Type 0
IsFilled lookup route after = (i : ℕ) × (lookup i ≡ Option.none) × (after ≡ fill lookup i route)

probed-IsFilled :
    (o : Option LiveRoute) (lookup after : Lookup) (route : LiveRoute) (slot : ℕ)
    (rest : Option Lookup)
    → lookup slot ≡ o
    → probed o lookup route slot rest ≡ some after
    → (rest ≡ some after → IsFilled lookup route after)
    → IsFilled lookup route after
probed-IsFilled Option.none lookup after route slot rest e h k =
    (slot, e, sym (some_lem (fill lookup slot route) after h))
probed-IsFilled (some other) lookup after route slot rest e h k =
    k (passed_by (bytes_equal other.stream_name route.stream_name) rest after h).1

insert_from-IsFilled :
    (rounds : ℕ) (lookup after : Lookup) (route : LiveRoute) (slot : ℕ)
    → insert_from rounds lookup route slot ≡ some after
    → IsFilled lookup route after
unfolding insert_from
insert_from-IsFilled zero lookup after route slot h = absurd (no_lookup after h)
insert_from-IsFilled (suc rounds) lookup after route slot h =
    probed-IsFilled (lookup slot) lookup after route slot
      (insert_from rounds lookup route ((slot + 1) % lookup_slot_count)) refl h
      (insert_from-IsFilled rounds lookup after route ((slot + 1) % lookup_slot_count))

-- A slot that was taken is as it was.
taken_lem :
    (lookup after : Lookup) (route other : LiveRoute) (slot : ℕ)
    → IsFilled lookup route after
    → lookup slot ≡ some other
    → after slot ≡ some other
taken_lem lookup after route other slot (i, empty, e) h =
    ap (λ (l : Lookup). l slot) e ∙ ground (arith, empty, h)

filled_slot_lem :
    (lookup : Lookup) (route : LiveRoute) (slot : ℕ) → fill lookup slot route slot ≡ some route
filled_slot_lem lookup route slot = ground arith

same_name : (r : LiveRoute) → bytes_equal r.stream_name r.stream_name ≡ true
same_name r = (bytes_equal_iff r.stream_name r.stream_name).1 refl

find_hit :
    (rounds : ℕ) (after : Lookup) (name : List ℕ) (slot : ℕ) (r : LiveRoute)
    → after slot ≡ some r
    → bytes_equal r.stream_name name ≡ true
    → find_from (suc rounds) after name slot ≡ some r
unfolding find_from
find_hit rounds after name slot r e h = ground (arith, e, h)

find_next :
    (rounds : ℕ) (after : Lookup) (name : List ℕ) (slot : ℕ) (other : LiveRoute)
    → after slot ≡ some other
    → bytes_equal other.stream_name name ≡ false
    → find_from (suc rounds) after name slot
      ≡ find_from rounds after name ((slot + 1) % lookup_slot_count)
unfolding find_from
find_next rounds after name slot other e h = ground (arith, e, h)

probed_found :
    (o : Option LiveRoute) (rounds : ℕ) (lookup after : Lookup) (route : LiveRoute) (slot : ℕ)
    (rest : Option Lookup)
    → lookup slot ≡ o
    → probed o lookup route slot rest ≡ some after
    → (rest ≡ some after
        → IsFilled lookup route after
          × (find_from rounds after route.stream_name ((slot + 1) % lookup_slot_count)
              ≡ some route))
    → find_from (suc rounds) after route.stream_name slot ≡ some route
probed_found Option.none rounds lookup after route slot rest e h k =
    let there : after slot ≡ some route =
      ap (λ (l : Lookup). l slot) (sym (some_lem (fill lookup slot route) after h))
      ∙ filled_slot_lem lookup route slot in
    find_hit rounds after route.stream_name slot route there (same_name route)
probed_found (some other) rounds lookup after route slot rest e h k =
    let (differs, more) =
      passed_by (bytes_equal other.stream_name route.stream_name) rest after h in
    let (filled, next) = k more in
    find_next rounds after route.stream_name slot other
      (taken_lem lookup after route other slot filled e) differs
    ∙ next

insert_from_found :
    (rounds : ℕ) (lookup after : Lookup) (route : LiveRoute) (slot : ℕ)
    → insert_from rounds lookup route slot ≡ some after
    → find_from rounds after route.stream_name slot ≡ some route
unfolding insert_from find_from
insert_from_found zero lookup after route slot h = absurd (no_lookup after h)
insert_from_found (suc rounds) lookup after route slot h =
    probed_found (lookup slot) rounds lookup after route slot
      (insert_from rounds lookup route ((slot + 1) % lookup_slot_count)) refl h
      (λ e. (
        insert_from-IsFilled rounds lookup after route ((slot + 1) % lookup_slot_count) e,
        insert_from_found rounds lookup after route ((slot + 1) % lookup_slot_count) e,
      ))

-- The table finds the route.
abbrev pub IsFound : Lookup → LiveRoute → Type 0
IsFound lookup r = find_from lookup_slot_count lookup r.stream_name (home r.stream_name) ≡ some r

pub insert_route-IsFound :
    (lookup after : Lookup) (route : LiveRoute)
    → insert_route lookup route ≡ some after
    → IsFound after route
unfolding insert_route
insert_route-IsFound lookup after route h =
    insert_from_found lookup_slot_count lookup after route (home route.stream_name) h

pub insert_route_keeps-IsFound :
    (lookup after : Lookup) (route r : LiveRoute)
    → insert_route lookup route ≡ some after
    → IsFound lookup r
    → IsFound after r
unfolding insert_route
insert_route_keeps-IsFound lookup after route r h k =
    let (i, empty, e) =
      insert_from-IsFilled lookup_slot_count lookup after route (home route.stream_name) h in
    subst (λ l. IsFound l r) (sym e)
      (find_from_kept lookup_slot_count lookup r.stream_name (home r.stream_name) i route r empty k)

-- What is found has the name that was asked for.
pub find_from_name :
    (rounds : ℕ) (lookup : Lookup) (name : List ℕ) (slot : ℕ) (r : LiveRoute)
    → find_from rounds lookup name slot ≡ some r
    → bytes_equal r.stream_name name ≡ true
unfolding find_from
find_from_name zero lookup name slot r h = ground (arith, h)
find_from_name (suc rounds) lookup name slot r h =
    ground (arith, h, find_from_name rounds lookup name ((slot + 1) % lookup_slot_count) r)
