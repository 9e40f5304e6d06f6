-- ===== src/RecordLog.antt =====
-- crates/lionfs/src/recordlog/mod.rs: the log of small writes. A byte string is a list of numbers;
-- the sink is a byte string that takes every write, as the batch buffer does. The checksum of the
-- crate crc32fast is a parameter.
pub mod Wire
pub mod Torn
pub mod Appends
mod Examples
use lion_fs.Base.{
  ℕ, zero, suc, ◌+◌, ◌-◌, Bool, true, false, not, ◌&&◌, ◌||◌, Option, none, some, List, [], ◌∷◌,
  ◌++◌, ltb, leb, ◌==◌, if◌then◌else◌, length, take, drop, add_u64, u32_mod, to_le_bytes,
  from_le_bytes, slice, Bytes,
}

-- "LFSR"
abbrev pub log_magic : Bytes
log_magic = 76 ∷ 70 ∷ 83 ∷ 82 ∷ []

abbrev pub log_version : ℕ
log_version = 1

abbrev pub header_bytes : ℕ
header_bytes = 40

abbrev pub small_file_max : ℕ
small_file_max = 4032

pub data RecordType : Type 0 where
  create write delete truncate commit checkpoint : RecordType

unfoldable pub tag : RecordType → ℕ
tag create = 1
tag write = 2
tag delete = 3
tag truncate = 4
tag commit = 5
tag checkpoint = 6

unfoldable pub from_tag : ℕ → Option RecordType
from_tag t =
    if t == 1
    then some create
    else if t == 2
    then some write
    else if t == 3
    then some delete
    else if t == 4
    then some truncate
    else if t == 5
    then some commit
    else if t == 6
    then some checkpoint
    else none

pub record LogEntry : Type 0 where
  pub kind : RecordType
  pub file_id : ℕ
  pub offset : ℕ
  pub sequence : ℕ
  pub payload : Bytes

pub data TailState : Type 0 where
  torn corrupt : TailState

pub record DecodedHeader : Type 0 where
  pub kind : RecordType
  pub file_id : ℕ
  pub offset : ℕ
  pub sequence : ℕ
  pub payload_len : ℕ
  pub total : ℕ

-- `Result<Option<DecodedHeader>, TailState>`
pub data Decoded : Type 0 where
  end_of_log : Decoded
  header : DecodedHeader → Decoded
  stopped : TailState → Decoded

pub record ReplayStats : Type 0 where
  pub applied : ℕ
  pub bytes : ℕ
  pub last_sequence : ℕ
  pub tail : Option TailState

unfoldable pub encode_header : LogEntry → Bytes
unfolding tag to_le_bytes
encode_header e =
    log_magic
    ++ (log_version ∷ tag e.kind ∷ 0 ∷ 0 ∷ 0 ∷ 0 ∷ 0 ∷ 0 ∷ [])
    ++ to_le_bytes 8 e.file_id
    ++ to_le_bytes 8 e.offset
    ++ to_le_bytes 8 e.sequence
    ++ to_le_bytes 4 (length e.payload)

abbrev pub bytes_equal : Bytes → Bytes → Bool
bytes_equal [] [] = true
bytes_equal [] (y ∷ ys) = false
bytes_equal (x ∷ xs) [] = false
bytes_equal (x ∷ xs) (y ∷ ys) = (x == y) && bytes_equal xs ys

abbrev pub byte_at : ℕ → Bytes → ℕ
byte_at i [] = 0
byte_at zero (b ∷ bs) = b
byte_at (suc i) (b ∷ bs) = byte_at i bs

-- The header's fields, from a source of 40 bytes at least.
unfoldable pub read_fields : Bytes → RecordType → DecodedHeader
read_fields src kind = record {
  kind = kind;
  file_id = from_le_bytes (slice 12 20 src);
  offset = from_le_bytes (slice 20 28 src);
  sequence = from_le_bytes (slice 28 36 src);
  payload_len = from_le_bytes (slice 36 40 src);
  total = header_bytes + from_le_bytes (slice 36 40 src) + 4;
}

unfoldable pub decode_header : Bytes → Decoded
unfolding from_tag read_fields
decode_header src =
    if length src == 0
    then end_of_log
    else if ltb (length src) header_bytes
    then stopped torn
    else if not (bytes_equal (slice 0 4 src) log_magic) || not (byte_at 4 src == log_version)
    then stopped corrupt
    else elim (from_tag (byte_at 5 src)) [
      | none ↦ stopped corrupt
      | some kind ↦
          if ltb (length src) (read_fields src kind).total
          then stopped torn
          else header (read_fields src kind)
    ]

pub record RecordLog : Type 0 where
  pub sink : Bytes
  pub next_sequence : ℕ
  pub bytes_since_checkpoint : ℕ
  pub records_since_checkpoint : ℕ
  pub last_kind : Option RecordType

unfoldable pub new : Bytes → RecordLog
new sink = record {
  sink = sink;
  next_sequence = 0;
  bytes_since_checkpoint = 0;
  records_since_checkpoint = 0;
  last_kind = none;
}

-- The payload is refused.
unfoldable pub is_refused : RecordType → ℕ → Bool
is_refused create len = ltb small_file_max len
is_refused write len = ltb small_file_max len
is_refused delete len = not (len == 0)
is_refused truncate len = not (len == 0)
is_refused commit len = false
is_refused checkpoint len = false

unfoldable pub entry_of : Bytes → DecodedHeader → LogEntry
entry_of rest h = record {
  kind = h.kind;
  file_id = h.file_id;
  offset = h.offset;
  sequence = h.sequence;
  payload = slice header_bytes (header_bytes + h.payload_len) rest;
}

unfoldable pub count_entry : ReplayStats → DecodedHeader → ReplayStats
unfolding add_u64
count_entry stats h = record {
  applied = add_u64 stats.applied 1;
  bytes = add_u64 stats.bytes h.total;
  last_sequence = h.sequence;
  tail = stats.tail;
}

abbrev pub no_stats : ReplayStats
no_stats = record { applied = 0; bytes = 0; last_sequence = 0; tail = none }

module _ (crc : Bytes → ℕ) where
  unfoldable pub encode_record : LogEntry → Bytes
  encode_record e =
      let framed = encode_header e ++ e.payload in framed ++ to_le_bytes 4 (crc framed)

  -- `none` for an error.
  unfoldable pub append : RecordLog → RecordType → ℕ → ℕ → Bytes → RecordLog × Option ℕ
  unfolding is_refused add_u64
  append log kind file_id offset payload =
      if is_refused kind (length payload)
      then (log, none)
      else let wire = encode_record record {
        kind = kind;
        file_id = file_id;
        offset = offset;
        sequence = log.next_sequence;
        payload = payload;
      } in
        (
          record {
            sink = log.sink ++ wire;
            next_sequence = add_u64 log.next_sequence 1;
            bytes_since_checkpoint = add_u64 log.bytes_since_checkpoint (length wire);
            records_since_checkpoint = add_u64 log.records_since_checkpoint 1;
            last_kind = some kind;
          },
          some log.next_sequence,
        )

  unfoldable pub commit_window : RecordLog → RecordLog × Option ℕ
  unfolding append
  commit_window log = append log commit 0 0 []

  unfoldable pub mark_checkpoint : RecordLog → ℕ → RecordLog × Option ℕ
  unfolding append
  mark_checkpoint log drained_through =
      let (marked, seq) = append log checkpoint 0 drained_through [] in
      (record marked { bytes_since_checkpoint = 0; records_since_checkpoint = 0 }, seq)

  -- The record's checksum is right.
  unfoldable pub is_intact : Bytes → DecodedHeader → Bool
  is_intact rest h =
      crc (take (h.total - 4) rest) == from_le_bytes (slice (h.total - 4) h.total rest)

  -- The loop; `none` means that the fuel ran out.
  unfoldable pub replay_loop :
      ℕ → Bytes → List LogEntry → ReplayStats → Option (List LogEntry × ReplayStats)
  unfolding decode_header is_intact entry_of count_entry
  replay_loop zero rest out stats = none
  replay_loop (suc fuel) rest out stats = elim (decode_header rest) [
    | end_of_log ↦ some (out, stats)
    | stopped state ↦ some (out, record stats { tail = some state })
    | header h ↦ elim (is_intact rest h) [
      | false ↦ some (out, record stats { tail = some torn })
      | true ↦
          replay_loop fuel (drop h.total rest) (out ++ (entry_of rest h ∷ [])) (count_entry stats h)
    ]
  ]

  -- Every round but the last consumes a byte.
  unfoldable pub replay : Bytes → Option (List LogEntry × ReplayStats)
  unfolding replay_loop
  replay image = replay_loop (suc (length image)) image [] no_stats

unfoldable pub checkpoint_due : RecordLog → ℕ → ℕ → Bool
unfolding tag
checkpoint_due log byte_budget record_budget =
    leb byte_budget log.bytes_since_checkpoint
    || leb record_budget log.records_since_checkpoint
    || (elim log.last_kind [ none ↦ false | some kind ↦ tag kind == 5 ]
        && ltb 1 log.records_since_checkpoint
        && ltb 0 log.bytes_since_checkpoint)
