-- ===== src/Journal/Recover.antt =====
-- crates/lionfs/src/recovery/recovery.rs and replay.rs: the scan of the journal and the replay.
use lion_fs.Base.{
  ℕ, zero, suc, ◌+◌, ◌-◌, Bool, true, false, ◌&&◌, ◌||◌, Option, none, some, List, [], ◌∷◌, ltb,
  leb, ◌==◌, if◌then◌else◌, length, drop, Bytes, from_le_bytes, slice,
}
use lion_fs.Journal.{
  Superblock, Write, Disk, journal_magic, read_header, read_record, read_footer, bytes_of_header,
  bytes_of_footer, apply_records,
}

-- A transaction that the scan found: its id, its records, and the block of its footer.
pub record Found : Type 0 where
  pub tx_id : ℕ
  pub records : List Write
  pub footer_block : ℕ

-- `tx_to_replay`, in ascending order of the ids.
abbrev pub TxMap : Type 0
TxMap = List (ℕ × List Write)

-- `entry(id).or_insert_with(records)`
abbrev pub or_insert : ℕ → List Write → TxMap → TxMap
or_insert id records [] = (id, records) ∷ []
or_insert id records ((k, old) ∷ rest) =
    let later = or_insert id records rest in
    if id == k
    then (k, old) ∷ rest
    else if ltb id k
    then (id, records) ∷ ((k, old) ∷ rest)
    else (k, old) ∷ later

abbrev pub find_records : ℕ → TxMap → Option (List Write)
find_records id [] = none
find_records id ((k, records) ∷ rest) =
    let later = find_records id rest in if id == k then some records else later

module _ (crc : Bytes → ℕ) (sb : Superblock) where
  unfoldable pub is_sealed_header : Bytes → Bool
  unfolding read_header bytes_of_header
  is_sealed_header buffer =
      let header = read_header buffer in
      crc (bytes_of_header (record header { checksum = 0 })) == header.checksum

  -- The records after a header, and the block after them; `none` if they are not valid.
  unfoldable pub read_records : Disk → ℕ → ℕ → Option (List Write × ℕ)
  unfolding read_record
  read_records disk zero temp = some ([], temp)
  read_records disk (suc n) temp =
      let rec_header = read_record (disk (sb.journal_start + temp)) in
      let block = disk (sb.journal_start + (temp + 1)) in
      elim (leb sb.journal_blocks temp || leb sb.journal_blocks (temp + 1)) [
        | true ↦ none
        | false ↦ elim (crc block == rec_header.checksum) [
          | false ↦ none
          | true ↦ elim (read_records disk n (temp + 2)) [
            | none ↦ none
            | some read ↦ some ((rec_header.physical_block, block) ∷ read.0, read.1)
          ]
        ]
      ]

  unfoldable pub is_footer : Bytes → ℕ → Bool
  unfolding read_footer bytes_of_footer
  is_footer buffer tx_id =
      let footer = read_footer buffer in
      (footer.magic == journal_magic)
      && ((footer.tx_id == tx_id)
          && (crc (bytes_of_footer (record footer { checksum = 0 })) == footer.checksum))

  -- One round of the scan: the transaction whose header stands at the block.
  unfoldable pub scan_block : Disk → ℕ → Option Found
  unfolding is_sealed_header read_records is_footer read_header
  scan_block disk current =
      let buffer = disk (sb.journal_start + current) in
      let header = read_header buffer in
      elim (from_le_bytes (slice 0 8 buffer) == journal_magic) [
        | false ↦ none
        | true ↦ elim (is_sealed_header buffer) [
          | false ↦ none
          | true ↦ elim (read_records disk header.entry_count (current + 1)) [
            | none ↦ none
            | some read ↦
                if ltb read.1 sb.journal_blocks
                  && is_footer (disk (sb.journal_start + read.1)) header.tx_id
                then some (record { tx_id = header.tx_id; records = read.0; footer_block = read.1 })
                else none
          ]
        ]
      ]

  -- The scan from a block on; `none` means that the fuel ran out.
  unfoldable pub scan : Disk → ℕ → ℕ → TxMap → ℕ → Option (TxMap × ℕ)
  unfolding scan_block
  scan disk zero current found highest = none
  scan disk (suc fuel) current found highest = elim (ltb current sb.journal_blocks) [
    | false ↦ some (found, highest)
    | true ↦ elim (scan_block disk current) [
      | none ↦ scan disk fuel (current + 1) found highest
      | some t ↦
          scan disk fuel (t.footer_block + 1) (or_insert t.tx_id t.records found)
            (if ltb highest t.tx_id then t.tx_id else highest)
    ]
  ]

abbrev pub nth : ℕ → List ℕ → ℕ
nth i [] = 0
nth zero (x ∷ xs) = x
nth (suc i) (x ∷ xs) = nth i xs

-- The loop that lowers the cutoff while the ids are consecutive.
unfoldable pub lower_cutoff : List ℕ → ℕ → ℕ
lower_cutoff ids zero = 0
lower_cutoff ids (suc c) =
    let lower = lower_cutoff ids c in if nth c ids + 1 == nth (suc c) ids then lower else suc c

abbrev pub ids_above : ℕ → TxMap → List ℕ
ids_above generation [] = []
ids_above generation ((id, records) ∷ rest) =
    let later = ids_above generation rest in if ltb generation id then id ∷ later else later

unfoldable pub contiguous_suffix : List ℕ → List ℕ
unfolding lower_cutoff
contiguous_suffix ids =
    if length ids == 0 then ids else drop (lower_cutoff ids (length ids - 1)) ids

-- Each id in turn; an id that was replayed is no longer in the map, and none occurs twice.
abbrev pub replay_ids : Disk → TxMap → List ℕ → Disk
replay_ids disk found [] = disk
replay_ids disk found (id ∷ ids) = elim (find_records id found) [
  | none ↦ replay_ids disk found ids
  | some records ↦ replay_ids (apply_records disk records) found ids
]

-- The disk after recovery, and the highest id.
unfoldable pub recover : (Bytes → ℕ) → Disk → Superblock → Option (Disk × ℕ)
unfolding scan contiguous_suffix
recover crc disk sb =
    if sb.journal_blocks == 0
    then some (disk, 0)
    else elim (scan crc sb disk (suc sb.journal_blocks) 0 [] sb.generation) [
      | none ↦ none
      | some read ↦
          some (replay_ids disk read.0 (contiguous_suffix (ids_above sb.generation read.0)), read.1)
    ]
