-- ===== src/Journal/Scanned.antt =====
-- What the scan of the journal makes of the blocks that a commit wrote, and of other blocks.
use mathlib.Core.Path.{subst}
use lion_fs.Base.{
  ℕ, zero, suc, ◌+◌, ◌*◌, ◌%◌, ◌≤◌, ◌<◌, ◌≡◌, ◌≢◌, refl, sym, ap, ◌∙◌, true, false, none, some,
  List, [], ◌∷◌, arith, tests, ltb, ◌==◌, Bool-cases, Option-cases, inl, inr, if◌then◌else◌, length,
  Bytes, u64_mod, u32_mod, All,
}
use lion_fs.Journal.{
  Transaction, Superblock, Write, Disk, JournalRecordHeader, JournalHeader, read_header,
  read_record,
}
use lion_fs.Journal.Commit.{header_block, footer_block, record_blocks, chunk_image, sealed_header}
use lion_fs.Journal.Recover.{
  read_records, scan_block, scan, recover, replay_ids, contiguous_suffix, ids_above, Found, TxMap,
  or_insert,
}
use lion_fs.Journal.Layout.{
  IsStorable, read_header-header_block, is_sealed_header-header_block, magic_of_header,
  read_record-record_block, is_footer-footer_block,
}
use lion_fs.Journal.Writes.{Holds, Holds-append}
use lion_fs.Journal.Rounds.{
  length-record_blocks, read_one, scan_valid, scan_block_past_end, scan_block_forward,
  some_not_none,
}

module _ (crc : Bytes → ℕ) (sb : Superblock) where
  module _ (fits : (b : Bytes) → crc b < 4294967296) (tx : Transaction) (v : IsStorable tx) where
    pub read_records-record_blocks :
        (disk : Disk) (ws : List Write) (temp : ℕ)
        → All (λ (w : Write). w.0 < u64_mod) ws
        → temp + 2 * length ws < sb.journal_blocks
        → Holds disk (sb.journal_start + temp) (record_blocks crc tx ws)
        → read_records crc sb disk (length ws) temp ≡ some (ws, temp + 2 * length ws)
    unfolding read_records
    read_records-record_blocks disk [] temp small inside h = ap (λ n. some ([], n)) (omega arith)
    read_records-record_blocks disk (w ∷ ws) temp small inside h =
        let is_block : disk (sb.journal_start + (temp + 1)) ≡ w.1 = ap disk (omega arith) ∙ h.1.0 in
        let is_record = ap read_record h.0 ∙ read_record-record_block crc fits tx v w small.0 in
        let later =
          read_records-record_blocks disk ws (temp + 2) small.1 (omega arith)
            (subst (λ p. Holds disk p (record_blocks crc tx ws)) (omega arith) h.1.1) in
        read_one crc sb disk (length ws) temp w.1 w.0 (ws, temp + 2 + 2 * length ws) (omega arith)
          is_block (ap (λ (r : JournalRecordHeader). r.physical_block) is_record)
          (ap (λ (r : JournalRecordHeader). r.checksum) is_record) later
        ∙ ap (λ n. some (w ∷ ws, n)) (omega arith)

    -- The scan finds the transaction whose image stands on the disk.
    pub scan_block-chunk_image :
        (disk : Disk) (current : ℕ)
        → length tx.dirty_blocks < u32_mod
        → current + 2 * length tx.dirty_blocks + 2 ≤ sb.journal_blocks
        → Holds disk (sb.journal_start + current) (chunk_image crc tx tx.dirty_blocks)
        → scan_block crc sb disk current
          ≡ some (record {
            tx_id = tx.id;
            records = tx.dirty_blocks;
            footer_block = current + 1 + 2 * length tx.dirty_blocks;
          })
    unfolding chunk_image sealed_header
    scan_block-chunk_image disk current few inside h =
        let ws = tx.dirty_blocks in
        let count = length ws % u32_mod in
        let exact : count ≡ length ws = omega arith in
        let small : count < u32_mod = omega arith in
        let parts =
          Holds-append disk (sb.journal_start + current + 1) (record_blocks crc tx ws)
            (footer_block crc tx count ∷ []) h.1 in
        let buffer = h.0 in
        let header = ap read_header buffer ∙ read_header-header_block crc fits tx v count small in
        let after = current + 1 + 2 * length ws in
        let footer : disk (sb.journal_start + after) ≡ footer_block crc tx count =
          ap disk (omega (arith, length-record_blocks crc tx ws)) ∙ parts.1.0 in
        scan_valid crc sb disk current tx.id (ws, after)
          (rw (buffer, magic_of_header crc fits tx v count) refl)
          (rw (buffer) (is_sealed_header-header_block crc fits tx v sb count small))
          (ap (λ (x : JournalHeader). x.tx_id) header)
          (ap (λ (x : JournalHeader). read_records crc sb disk x.entry_count (current + 1)) header
            ∙ ap (λ n. read_records crc sb disk n (current + 1)) exact
            ∙ read_records-record_blocks disk ws (current + 1) v.blocks_fit (omega arith)
                (subst (λ p. Holds disk p (record_blocks crc tx ws)) (omega arith) parts.0))
          (omega arith) (rw (footer) (is_footer-footer_block crc fits tx v sb count small))

    -- The scan finds no transaction at a header whose image goes past the end of the journal,
    -- whatever the other blocks of the disk hold.
    pub scan_block-header_block :
        (disk : Disk) (current : ℕ)
        → length tx.dirty_blocks < u32_mod
        → disk (sb.journal_start + current) ≡ header_block crc tx (length tx.dirty_blocks % u32_mod)
        → sb.journal_blocks < current + 2 * length tx.dirty_blocks + 2
        → scan_block crc sb disk current ≡ none
    unfolding sealed_header
    scan_block-header_block disk current few buffer long =
        let count = length tx.dirty_blocks % u32_mod in
        let header =
          ap read_header buffer ∙ read_header-header_block crc fits tx v count (omega arith) in
        scan_block_past_end crc sb disk current (length tx.dirty_blocks)
          (ap (λ (h : JournalHeader). h.entry_count) header ∙ omega arith) long

module _ (crc : Bytes → ℕ) (sb : Superblock) (disk : Disk) where
  pub more_fuel :
      (f g current : ℕ) (found : TxMap) (highest : ℕ)
      → f ≡ g
      → scan crc sb disk f current found highest ≡ scan crc sb disk g current found highest
  more_fuel f g current found highest e = ap (λ n. scan crc sb disk n current found highest) e

  -- The scan passes over `n` blocks without a transaction.
  pub scan_past :
      (n fuel current : ℕ) (found : TxMap) (highest : ℕ)
      → current + n ≤ sb.journal_blocks
      → ((i : ℕ) → current ≤ i → i < current + n → scan_block crc sb disk i ≡ none)
      → scan crc sb disk (n + fuel) current found highest
        ≡ scan crc sb disk fuel (current + n) found highest
  unfolding scan
  scan_past zero fuel current found highest inside quiet =
      more_fuel (0 + fuel) fuel current found highest (omega arith)
      ∙ ap (λ c. scan crc sb disk fuel c found highest) (omega arith)
  scan_past (suc n) fuel current found highest inside quiet =
      let here : ltb current sb.journal_blocks ≡ true = ground arith in
      let step : scan crc sb disk (suc (n + fuel)) current found highest
          ≡ scan crc sb disk (n + fuel) (current + 1) found highest =
        rw (scan, here, quiet current (omega arith) (omega arith)) refl in
      more_fuel (suc n + fuel) (suc (n + fuel)) current found highest (omega arith)
      ∙ step
      ∙ scan_past n fuel (current + 1) found highest (omega arith)
          (λ i lo hi. quiet i (omega arith) (omega arith))
      ∙ ap (λ c. scan crc sb disk fuel c found highest) (omega arith)

  -- The scan ends at the end of the journal.
  pub scan_end :
      (fuel current : ℕ) (found : TxMap) (highest : ℕ)
      → sb.journal_blocks ≤ current
      → scan crc sb disk (suc fuel) current found highest ≡ some (found, highest)
  unfolding scan
  scan_end fuel current found highest h =
      let out : ltb current sb.journal_blocks ≡ false = ground arith in rw (scan, out) refl

  pub scan_found :
      (fuel current : ℕ) (found : TxMap) (highest : ℕ) (t : Found)
      → current < sb.journal_blocks
      → scan_block crc sb disk current ≡ some t
      → scan crc sb disk (suc fuel) current found highest
        ≡ scan crc sb disk fuel
            (t.footer_block + 1)
            (or_insert t.tx_id t.records found)
            (if ltb highest t.tx_id then t.tx_id else highest)
  unfolding scan
  scan_found fuel current found highest t h e =
      let here : ltb current sb.journal_blocks ≡ true = ground arith in rw (scan, here, e) refl

  -- The scan ends if its fuel is more than the blocks that are left.
  pub scan-returns :
      (fuel current : ℕ) (found : TxMap) (highest : ℕ)
      → current ≤ sb.journal_blocks
      → sb.journal_blocks < current + fuel
      → scan crc sb disk fuel current found highest ≢ none
  unfolding scan
  scan-returns zero current found highest inside enough e = omega arith
  scan-returns (suc fuel) current found highest inside enough e =
      elim (Bool-cases (ltb current sb.journal_blocks)) [
        | inl here ↦ elim (Option-cases (scan_block crc sb disk current)) [
          | inl nothing ↦
              scan-returns fuel (current + 1) found highest (omega (tests, here)) (omega arith)
                (sym (rw (scan, here, nothing) refl) ∙ e)
          | inr (t, got) ↦
              let on = scan_block_forward crc sb disk current t got in
              scan-returns fuel (t.footer_block + 1) (or_insert t.tx_id t.records found)
                (if ltb highest t.tx_id then t.tx_id else highest) (omega (arith, on.1))
                (omega (arith, on.0))
                (sym (scan_found fuel current found highest t (omega (tests, here)) got) ∙ e)
        ]
        | inr out ↦
            some_not_none (sym (scan_end fuel current found highest (omega (tests, out))) ∙ e)
      ]

-- Recovery ends on every disk, whatever the journal holds.
pub recover-returns : (crc : Bytes → ℕ) (disk : Disk) (sb : Superblock) → recover crc disk sb ≢ none
unfolding recover
recover-returns crc disk sb e = elim (Bool-cases (sb.journal_blocks == 0)) [
  | inl without ↦
      some_not_none {A = Disk × ℕ} {x = (disk, 0)} (sym (rw (recover, without) refl) ∙ e)
  | inr with_journal ↦
      elim (Option-cases (scan crc sb disk (suc sb.journal_blocks) 0 [] sb.generation)) [
        | inl nothing ↦
            scan-returns crc sb disk (suc sb.journal_blocks) 0 [] sb.generation (omega arith)
              (omega arith) nothing
        | inr (read, got) ↦
            let done : Disk × ℕ = (
              replay_ids disk read.0 (contiguous_suffix (ids_above sb.generation read.0)),
              read.1,
            ) in
            some_not_none {A = Disk × ℕ} {x = done} (sym (rw (recover, with_journal, got) refl) ∙ e)
      ]
]
