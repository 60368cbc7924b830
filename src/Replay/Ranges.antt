-- ===== src/Replay/Ranges.antt =====
-- src/market_data_replay.cpp: the ranges of what `decode_record` reads.
pub mod Reads
use mathlib.Core.Path.{subst}
use mathlib.Core.Option.{Option, some}
use mathlib.Core.Option
use ir_assignment.Prelude.{
  ℕ, zero, suc, ◌+◌, ◌-◌, ◌≤◌, ◌<◌, ◌^◌, ◌≡◌, refl, sym, ap, ◌∙◌, Bool, true, false, not, arith,
  List, [], ◌∷◌, ◌++◌, ◌==◌, length, leb, if◌then◌else◌, if_cases, Bool-cases, inl, inr,
}
use ir_assignment.Payload.{max_payload_bytes}
use ir_assignment.SymbolIdentity.{is_normalized_symbol}
use ir_assignment.Csv.Numbers.{ℤ, pos, negsuc, read_digits, read_nat, negated, as_int, read_int}
use ir_assignment.Csv.Numbers.ReadBack.{InRange}
use ir_assignment.Csv.Format.{CsvTimestamp, valid_timestamp}
use ir_assignment.Replay
use ir_assignment.Replay.{
  ReplayReadErrorCode, ReplayColumn, ReplayRecord, Checked, good, bad, or_bad, require, escaped,
  decode_payload, decode_record, without_last, split_last, take_field, between_quotes,
  truncated_record, invalid_csv, invalid_integer, invalid_range, invalid_enum, invalid_symbol,
  parse_venue, parse_stream_kind, recv_tsec, recv_tnsec, conn_epoch, conn_seq,
}
use ir_assignment.Replay.Ranges.Reads.{
  read_int_good, read_nat_good, payload_fits, is_zero, is_positive, below_limit, require_good,
}

-- A record in the ranges of its fields.
pub record IsInRanges (r : ReplayRecord) : Type 0 where
  pub seconds : InRange (2 ^ 63) r.context.timestamp.seconds
  pub nanoseconds : valid_timestamp r.context.timestamp ≡ true
  pub shard : r.context.shard_id ≡ 0
  pub epoch : r.context.connection_epoch < 2 ^ 64
  pub sequence : (0 < r.context.connection_sequence) × (r.context.connection_sequence < 2 ^ 64)
  pub symbol : is_normalized_symbol r.context.symbol ≡ true
  pub payload : length r.payload ≤ max_payload_bytes

-- What was decoded, if anything, is in its ranges.
abbrev IsRanged : Checked ReplayRecord → Type 0
IsRanged (good r) = IsInRanges r
IsRanged (bad code column) = Unit

-- A step and what follows it: the record is in its ranges if it is for every value of the step. The
-- value is bound together with the equation on the step.
infixl 5 ◌>>=◌
◌>>=◌ :
    {A : Type 0} (s : Checked A × (A → Checked ReplayRecord))
    → ((x : (value : A) × (s.0 ≡ good value)) → IsRanged (s.1 x.0))
    → IsRanged (Replay.◌>>=◌ s.0 s.1)
(good x, f) >>= h = h (x, refl)
(bad code column, f) >>= h = tt

decode_record-IsRanged : (logical_record : List ℕ) → IsRanged (decode_record logical_record)
unfolding decode_record
decode_record-IsRanged logical_record = do
  row ← (
    or_bad (without_last b'\n' (split_last logical_record)) truncated_record ReplayColumn.none,
    _,
  )
  f0 ← (take_field recv_tsec row.0, _)
  f1 ← (take_field recv_tnsec f0.0.1, _)
  f2 ← (take_field ReplayColumn.venue f1.0.1, _)
  f3 ← (take_field ReplayColumn.stream_kind f2.0.1, _)
  f4 ← (take_field ReplayColumn.shard_id f3.0.1, _)
  f5 ← (take_field conn_epoch f4.0.1, _)
  f6 ← (take_field conn_seq f5.0.1, _)
  f7 ← (take_field ReplayColumn.symbol f6.0.1, _)
  encoded ← (or_bad (between_quotes f7.0.1) invalid_csv ReplayColumn.payload_json, _)
  seconds ← (or_bad (read_int (2 ^ 63) f0.0.0) invalid_integer recv_tsec, _)
  nanoseconds ← (or_bad (read_int (2 ^ 31) f1.0.0) invalid_integer recv_tnsec, _)
  stamp ← (
    require (valid_timestamp (record { seconds = seconds.0; nanoseconds = nanoseconds.0 }))
        invalid_range recv_tnsec,
    _,
  )
  v ← (or_bad (parse_venue f2.0.0) invalid_enum ReplayColumn.venue, _)
  k ← (or_bad (parse_stream_kind f3.0.0) invalid_enum ReplayColumn.stream_kind, _)
  shard ← (or_bad (read_nat (2 ^ 32 - 1) f4.0.0) invalid_integer ReplayColumn.shard_id, _)
  zero_shard ← (require (shard.0 == 0) invalid_range ReplayColumn.shard_id, _)
  epoch ← (or_bad (read_nat (2 ^ 64 - 1) f5.0.0) invalid_integer conn_epoch, _)
  sequence ← (or_bad (read_nat (2 ^ 64 - 1) f6.0.0) invalid_integer conn_seq, _)
  numbered ← (require (not (sequence.0 == 0)) invalid_range conn_seq, _)
  normalized ← (require (is_normalized_symbol f7.0.0) invalid_symbol ReplayColumn.symbol, _)
  payload ← (decode_payload 0 encoded.0, _)
  record {
    seconds = read_int_good (2 ^ 63) f0.0.0 seconds.0 recv_tsec (omega arith) seconds.1;
    nanoseconds = require_good _ _ _ _ stamp.1;
    shard = is_zero shard.0 (require_good _ _ _ _ zero_shard.1);
    epoch = below_limit epoch.0 (read_nat_good (2 ^ 64 - 1) f5.0.0 epoch.0 conn_epoch epoch.1);
    sequence = (
      is_positive sequence.0 (require_good _ _ _ _ numbered.1),
      below_limit sequence.0 (read_nat_good (2 ^ 64 - 1) f6.0.0 sequence.0 conn_seq sequence.1),
    );
    symbol = require_good _ _ _ _ normalized.1;
    payload = payload_fits encoded.0 payload.0 payload.1;
  }

-- What `decode_record` reads from any bytes is in the ranges of its fields: the seconds are those of
-- a signed integer of 64 bits, the nanoseconds are at least 0 and below 10 ^ 9, the shard is 0, the
-- epoch is below 2 ^ 64, the sequence is positive and below 2 ^ 64, the symbol is normalized, and the
-- payload is at most 1 MiB.
pub decode_record-IsInRanges :
    (logical_record : List ℕ) (r : ReplayRecord)
    → decode_record logical_record ≡ good r
    → IsInRanges r
decode_record-IsInRanges logical_record r e =
    subst IsRanged e (decode_record-IsRanged logical_record)
