-- ===== src/Parser/Duplicates.antt =====
-- src/spot_payload_parser.cpp: `insert_unique`, a hash table of the prices of a message with open
-- addressing, and `begin_message`, which empties it by counting up the generation. The array of slots
-- is a function on its indices; the mask is `%` the size, a power of two. Prices are not negative.
pub mod Probe
pub mod Room
use Prim.Native.Nat.{bit_xor}
use ir_assignment.Prelude.{
  ℕ, zero, suc, ◌+◌, ◌-◌, ◌*◌, ◌/◌, ◌%◌, ◌^◌, Bool, true, false, not, ◌&&◌, ◌==◌, if◌then◌else◌,
}
use ir_assignment.Payload.{BookSide, bid, ask}

abbrev pub duplicate_table_size : ℕ
duplicate_table_size = 32_768

abbrev pub max_generation : ℕ
max_generation = 2 ^ 64 - 1

pub data InsertResult : Type 0 where
  inserted duplicate table_full : InsertResult

pub record DuplicateSlot : Type 0 where
  pub generation : ℕ
  pub price : ℕ
  pub side : BookSide

abbrev pub same_side : BookSide → BookSide → Bool
same_side bid bid = true
same_side ask ask = true
same_side _ _ = false

-- A fresh table has slots of generation 0.
abbrev pub empty_slot : DuplicateSlot
empty_slot = record { generation = 0; price = 0; side = bid }

abbrev pub Slots : Type 0
Slots = ℕ → DuplicateSlot

abbrev pub write : Slots → ℕ → DuplicateSlot → Slots
write slots i slot j = if i == j then slot else slots j

abbrev side_key : BookSide → ℕ
side_key bid = 11_400_714_819_323_198_485
side_key ask = 15_111_065_706_836_454_659

-- The finalizer of splitmix64.
unfoldable pub mix_key : ℕ → BookSide → ℕ
mix_key price side =
    let v0 = bit_xor price (side_key side) in
    let v1 = (bit_xor v0 (v0 / 2 ^ 30) * 13_787_848_793_156_543_929) % 2 ^ 64 in
    let v2 = (bit_xor v1 (v1 / 2 ^ 27) * 10_723_151_780_598_845_931) % 2 ^ 64 in
    bit_xor v2 (v2 / 2 ^ 31)

-- The loop of `insert_unique` in a table of `size` slots, with `rounds` probes to go.
unfoldable pub probe_from : (size rounds : ℕ) → Slots → ℕ → ℕ → BookSide → ℕ → Slots × InsertResult
probe_from size zero slots generation price side slot_index = (slots, table_full)
probe_from size (suc rounds) slots generation price side slot_index =
    let rest = probe_from size rounds slots generation price side ((slot_index + 1) % size) in
    let slot = slots slot_index in
    if not (slot.generation == generation)
    then (
      write slots slot_index (record { generation = generation; price = price; side = side }),
      inserted,
    )
    else if slot.price == price && same_side slot.side side
    then (slots, duplicate)
    else rest

abbrev pub home : ℕ → BookSide → ℕ
home price side = mix_key price side % duplicate_table_size

unfoldable pub insert_unique : Slots → ℕ → ℕ → BookSide → Slots × InsertResult
unfolding probe_from
insert_unique slots generation price side =
    probe_from duplicate_table_size duplicate_table_size slots generation price side
      (home price side)

-- The slots and the generation that a message starts with.
unfoldable pub next_generation : Slots → ℕ → Slots × ℕ
next_generation slots generation =
    if generation == max_generation
    then ((λ i. record (slots i) { generation = 0 }), 1)
    else (slots, generation + 1)
