-- ===== src/Journal.antt =====
-- crates/lionfs/src/ondisk/serialization.rs, transaction/transaction.rs, disk: the blocks of the
-- journal, transactions, and a disk as a function from block numbers to blocks. Block numbers do
-- not wrap. The checksum of utils/crc.rs is a parameter, since it is that of the crate crc32fast.
pub mod Commit
pub mod Recover
mod Layout
mod Writes
mod Rounds
pub mod Scanned
mod Ready
mod Committed
mod Torn
mod Sealed
pub mod Crash
pub mod Suffix
pub mod Overlay
pub mod View
pub mod Wrapped
mod Examples
use lion_fs.Base.{
  ℕ, zero, suc, ◌+◌, ◌-◌, Option, none, some, List, [], ◌∷◌, ◌++◌, ltb, ◌==◌, if◌then◌else◌, Bytes,
  to_le_bytes, from_le_bytes, slice,
}

-- "JOURNAL1"
abbrev pub journal_magic : ℕ
journal_magic = 5354592293955390513

pub record JournalHeader : Type 0 where
  pub magic : ℕ
  pub version : ℕ
  pub entry_count : ℕ
  pub tx_id : ℕ
  pub timestamp : ℕ
  pub checksum : ℕ
  pub padding_csum : ℕ
  pub padding : Bytes

pub record JournalRecordHeader : Type 0 where
  pub tx_id : ℕ
  pub physical_block : ℕ
  pub checksum : ℕ
  pub padding : ℕ
  pub padding2 : Bytes

pub record JournalFooter : Type 0 where
  pub magic : ℕ
  pub tx_id : ℕ
  pub total_records : ℕ
  pub checksum : ℕ
  pub padding : Bytes

-- The bytes of the structs, in memory order, and the structs from the bytes of a block.
unfoldable pub bytes_of_header : JournalHeader → Bytes
bytes_of_header h =
    to_le_bytes 8 h.magic
    ++ (to_le_bytes 4 h.version
        ++ (to_le_bytes 4 h.entry_count
            ++ (to_le_bytes 8 h.tx_id
                ++ (to_le_bytes 8 h.timestamp
                    ++ (to_le_bytes 4 h.checksum ++ (to_le_bytes 4 h.padding_csum ++ h.padding))))))

unfoldable pub read_header : Bytes → JournalHeader
read_header buffer = record {
  magic = from_le_bytes (slice 0 8 buffer);
  version = from_le_bytes (slice 8 12 buffer);
  entry_count = from_le_bytes (slice 12 16 buffer);
  tx_id = from_le_bytes (slice 16 24 buffer);
  timestamp = from_le_bytes (slice 24 32 buffer);
  checksum = from_le_bytes (slice 32 36 buffer);
  padding_csum = from_le_bytes (slice 36 40 buffer);
  padding = slice 40 4096 buffer;
}

unfoldable pub bytes_of_record : JournalRecordHeader → Bytes
bytes_of_record r =
    to_le_bytes 8 r.tx_id
    ++ (to_le_bytes 8 r.physical_block
        ++ (to_le_bytes 4 r.checksum ++ (to_le_bytes 4 r.padding ++ r.padding2)))

unfoldable pub read_record : Bytes → JournalRecordHeader
read_record buffer = record {
  tx_id = from_le_bytes (slice 0 8 buffer);
  physical_block = from_le_bytes (slice 8 16 buffer);
  checksum = from_le_bytes (slice 16 20 buffer);
  padding = from_le_bytes (slice 20 24 buffer);
  padding2 = slice 24 4096 buffer;
}

unfoldable pub bytes_of_footer : JournalFooter → Bytes
bytes_of_footer f =
    to_le_bytes 8 f.magic
    ++ (to_le_bytes 8 f.tx_id
        ++ (to_le_bytes 4 f.total_records ++ (to_le_bytes 4 f.checksum ++ f.padding)))

unfoldable pub read_footer : Bytes → JournalFooter
read_footer buffer = record {
  magic = from_le_bytes (slice 0 8 buffer);
  tx_id = from_le_bytes (slice 8 16 buffer);
  total_records = from_le_bytes (slice 16 20 buffer);
  checksum = from_le_bytes (slice 20 24 buffer);
  padding = slice 24 4096 buffer;
}

unfoldable pub zeros : ℕ → Bytes
zeros zero = []
zeros (suc n) = 0 ∷ zeros n

-- What the journal reads of the superblock.
pub record Superblock : Type 0 where
  pub generation : ℕ
  pub journal_start : ℕ
  pub journal_blocks : ℕ

-- A block and where it belongs: an entry of a transaction, a record, a write.
abbrev pub Write : Type 0
Write = ℕ × Bytes

-- The dirty blocks are in ascending order of their numbers.
pub record Transaction : Type 0 where
  pub id : ℕ
  pub dirty_blocks : List Write
  pub timestamp : ℕ
  pub root_cells : List (ℕ × ℕ)

unfoldable pub new_transaction : ℕ → ℕ → Transaction
new_transaction id timestamp = record {
  id = id;
  dirty_blocks = [];
  timestamp = timestamp;
  root_cells = [];
}

abbrev pub insert_block : ℕ → Bytes → List Write → List Write
insert_block b block [] = (b, block) ∷ []
insert_block b block ((k, old) ∷ rest) =
    let later = insert_block b block rest in
    if b == k
    then (b, block) ∷ rest
    else if ltb b k
    then (b, block) ∷ ((k, old) ∷ rest)
    else (k, old) ∷ later

abbrev pub find_block : ℕ → List Write → Option Bytes
find_block b [] = none
find_block b ((k, block) ∷ rest) =
    let later = find_block b rest in if b == k then some block else later

unfoldable pub add_block : Transaction → ℕ → Bytes → Transaction
add_block tx b block = record tx { dirty_blocks = insert_block b block tx.dirty_blocks }

abbrev pub Disk : Type 0
Disk = ℕ → Bytes

unfoldable pub write_block : Disk → ℕ → Bytes → Disk
write_block disk p block q = if q == p then block else disk q

-- The blocks of a contiguous run, one write for each.
abbrev pub contiguous_run : ℕ → List Bytes → List Write
contiguous_run p [] = []
contiguous_run p (b ∷ bs) = (p, b) ∷ contiguous_run (p + 1) bs

-- Writes in order; so are the records of a transaction replayed.
abbrev pub apply_records : Disk → List Write → Disk
apply_records disk [] = disk
apply_records disk (w ∷ ws) = apply_records (write_block disk w.0 w.1) ws
