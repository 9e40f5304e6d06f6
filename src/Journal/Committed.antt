-- ===== src/Journal/Committed.antt =====
-- What a commit writes when the transaction is ready.
use native.Mathlib.Nat.{mod-eq_of_lt}
use lion_fs.Base.{
  ℕ, ◌+◌, ◌-◌, ◌*◌, ◌%◌, ◌<◌, ◌≡◌, refl, true, false, List, [], ◌∷◌, ◌++◌, arith, ltb, leb, ◌==◌,
  ==_of_ne, length, length-append, Bytes, u32_mod, append-nil,
}
use lion_fs.Journal.{Transaction, Superblock, Disk, contiguous_run}
use lion_fs.Journal.Commit.{
  TransactionManager, commit, max_records, journal_chunks, footer_block, record_blocks, chunk_image,
}
use lion_fs.Journal.Writes.{apply_runs_lem}
use lion_fs.Journal.Rounds.{length-record_blocks}
use lion_fs.Journal.Ready.{max_records_lem, one_chunk, IsReady, writes_of}

module _ (crc : Bytes → ℕ) (fits : (b : Bytes) → crc b < 4294967296) (disk : Disk) (sb : Superblock)
    (m : TransactionManager) (tx : Transaction) (ready : IsReady disk sb m tx) where
  unfoldable pub image : List Bytes
  image = chunk_image crc tx tx.dirty_blocks

  pub length-image : length image ≡ 2 * length tx.dirty_blocks + 2
  unfolding image chunk_image
  length-image = omega (
    arith,
    length-append (record_blocks crc tx tx.dirty_blocks)
        (footer_block crc tx (length tx.dirty_blocks % u32_mod) ∷ []),
    length-record_blocks crc tx tx.dirty_blocks,
  )

  pub journal_chunks-one :
      (journal_chunks crc sb tx m.next_journal_block (tx.dirty_blocks ∷ [])).1
      ≡ contiguous_run (sb.journal_start + m.next_journal_block) image
  unfolding journal_chunks image
  journal_chunks-one =
      let room = ready.room in
      let journal_fits = ready.journal_fits in
      let some_block = ready.some_block in
      let positive : ltb 0 sb.journal_blocks ≡ true = ground arith in
      let here : m.next_journal_block % sb.journal_blocks ≡ m.next_journal_block =
        mod-eq_of_lt (omega arith) in
      let whole : leb ((2 * (length tx.dirty_blocks % u32_mod) + 2) % u32_mod)
            (sb.journal_blocks - m.next_journal_block)
          ≡ true =
        ground arith in
      rw (journal_chunks, positive, here, whole) (append-nil _)

  pub writes_of-commit :
      writes_of (commit crc m sb tx)
      ≡ contiguous_run (sb.journal_start + m.next_journal_block) image ++ tx.dirty_blocks
  unfolding commit
  writes_of-commit =
      let size =
        max_records_lem sb (length tx.dirty_blocks) (omega (arith, ready.room)) ready.some_block in
      let entries : (length tx.dirty_blocks == 0) ≡ false =
        ==_of_ne (length tx.dirty_blocks) 0 (λ e. omega (arith, e, ready.some_block)) in
      rw
        (
          commit,
          entries,
          size.1,
          one_chunk (length tx.dirty_blocks) (max_records sb) tx.dirty_blocks size.0 (omega arith)
              ready.some_block,
          apply_runs_lem (length tx.dirty_blocks) tx.dirty_blocks (omega arith),
          journal_chunks-one,
        )
        refl
