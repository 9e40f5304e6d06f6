-- ===== src/Journal/Commit.antt =====
-- crates/lionfs/src/transaction/manager.rs. What a commit does to the disk is the list of its block
-- writes in their order, so that a crash is a prefix of it. `none` stands for a panic.
use lion_fs.Base.{
  ℕ, zero, suc, ◌+◌, ◌-◌, ◌*◌, ◌/◌, ◌%◌, true, false, Option, none, some, List, [], ◌∷◌, ◌++◌, ltb,
  leb, ◌==◌, if◌then◌else◌, length, take, drop, map, Bytes, add_u64, u32_mod,
}
use lion_fs.Journal.{
  Transaction, new_transaction, Superblock, Write, JournalHeader, JournalFooter, journal_magic,
  zeros, bytes_of_header, bytes_of_record, bytes_of_footer, contiguous_run,
}

pub record TransactionManager : Type 0 where
  pub current_tx_id : ℕ
  pub next_journal_block : ℕ

unfoldable pub new : Superblock → TransactionManager
unfolding add_u64
new sb = record { current_tx_id = add_u64 sb.generation 1; next_journal_block = 0 }

unfoldable pub begin : TransactionManager → ℕ → TransactionManager × Transaction
unfolding add_u64 new_transaction
begin m timestamp = (
  record m { current_tx_id = add_u64 m.current_tx_id 1 },
  new_transaction m.current_tx_id timestamp,
)

unfoldable pub max_records : Superblock → ℕ
max_records sb = if ltb 2 sb.journal_blocks then (sb.journal_blocks - 2) / 2 else 1

-- `xs.chunks(n)`, for `n` that is not 0; a chunk holds one element at least, so the length of the
-- list is fuel enough.
unfoldable pub chunks {ℓ} : {A : Type ℓ} → ℕ → ℕ → List A → List (List A)
chunks zero n xs = []
chunks (suc fuel) n [] = []
chunks (suc fuel) n (x ∷ xs) = take n (x ∷ xs) ∷ chunks fuel n (drop n (x ∷ xs))

module _ (crc : Bytes → ℕ) where
  -- The checksum is that of the struct with the checksum 0.
  unfoldable pub sealed_header : JournalHeader → JournalHeader
  unfolding bytes_of_header
  sealed_header h = record h { checksum = crc (bytes_of_header h) }

  unfoldable pub header_block : Transaction → ℕ → Bytes
  unfolding sealed_header bytes_of_header zeros
  header_block tx count = bytes_of_header (
      sealed_header (record {
        magic = journal_magic;
        version = 1;
        entry_count = count;
        tx_id = tx.id;
        timestamp = tx.timestamp;
        checksum = 0;
        padding_csum = 0;
        padding = zeros 4056;
      }))

  unfoldable pub record_block : Transaction → Write → Bytes
  unfolding bytes_of_record zeros
  record_block tx w = bytes_of_record (record {
    tx_id = tx.id;
    physical_block = w.0;
    checksum = crc w.1;
    padding = 0;
    padding2 = zeros 4072;
  })

  unfoldable pub sealed_footer : JournalFooter → JournalFooter
  unfolding bytes_of_footer
  sealed_footer f = record f { checksum = crc (bytes_of_footer f) }

  unfoldable pub footer_block : Transaction → ℕ → Bytes
  unfolding sealed_footer bytes_of_footer zeros
  footer_block tx count = bytes_of_footer (
      sealed_footer (record {
        magic = journal_magic;
        tx_id = tx.id;
        total_records = count;
        checksum = 0;
        padding = zeros 4072;
      }))

  abbrev pub record_blocks : Transaction → List Write → List Bytes
  record_blocks tx [] = []
  record_blocks tx (w ∷ ws) = record_block tx w ∷ (w.1 ∷ record_blocks tx ws)

  -- The journal payload of a chunk, in blocks.
  unfoldable pub chunk_image : Transaction → List Write → List Bytes
  chunk_image tx chunk =
      let count = length chunk % u32_mod in
      header_block tx count ∷ (record_blocks tx chunk ++ (footer_block tx count ∷ []))

  -- The rounds of the loop over the chunks: the position after them, and the writes.
  unfoldable pub journal_chunks : Superblock → Transaction → ℕ → List (List Write) → ℕ × List Write
  unfolding chunk_image
  journal_chunks sb tx current [] = (current, [])
  journal_chunks sb tx current (chunk ∷ more) =
      let image = chunk_image tx chunk in
      let total = (2 * (length chunk % u32_mod) + 2) % u32_mod in
      let start_idx = current % sb.journal_blocks in
      let blocks_to_end = sb.journal_blocks - start_idx in
      let p_start = sb.journal_start + start_idx in
      let written =
        if leb total blocks_to_end
        then contiguous_run p_start image
        else (contiguous_run p_start (take blocks_to_end image)
            ++ contiguous_run sb.journal_start (drop blocks_to_end image)) in
      elim (ltb 0 sb.journal_blocks) [
        | false ↦ journal_chunks sb tx current more
        | true ↦
            let rest = journal_chunks sb tx (current + total) more in (rest.0, written ++ rest.1)
      ]

-- The entries that go on from the block `last`, contiguous, and those after them.
unfoldable pub split_run : ℕ → List Write → List Write × List Write
split_run last [] = ([], [])
split_run last (w ∷ ws) =
    let (run, rest) = split_run w.0 ws in if w.0 == last + 1 then (w ∷ run, rest) else ([], w ∷ ws)

-- The loop that applies contiguous runs; every round takes an entry.
unfoldable pub apply_runs : ℕ → List Write → List Write
unfolding split_run
apply_runs zero ws = []
apply_runs (suc fuel) [] = []
apply_runs (suc fuel) (w ∷ ws) =
    let (run, rest) = split_run w.0 ws in
    contiguous_run w.0 (w.1 ∷ map (λ (v : Write). v.1) run) ++ apply_runs fuel rest

unfoldable pub commit :
    (Bytes → ℕ)
    → TransactionManager
    → Superblock
    → Transaction
    → Option (TransactionManager × List Write)
unfolding journal_chunks apply_runs max_records chunks
commit crc m sb tx =
    let entries = tx.dirty_blocks in
    let parts = chunks (length entries) (max_records sb) entries in
    let (current, journaled) = journal_chunks crc sb tx m.next_journal_block parts in
    let applied = apply_runs (length entries) entries in
    if length entries == 0
    then some (m, [])
    else if max_records sb == 0
    then none
    else some (
      (if ltb 0 sb.journal_blocks
          then record m { next_journal_block = current % sb.journal_blocks }
          else m),
      journaled ++ applied,
    )
