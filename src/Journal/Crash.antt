-- ===== src/Journal/Crash.antt =====
-- A crash between any two block writes of a commit, and the recovery after it.
use lion_fs.Base.{
  ℕ, ◌+◌, ◌-◌, ◌*◌, ◌<◌, ◌≡◌, ap, ◌∙◌, some, arith, ltb, Bool-cases, lt_of_ltb, le_of_not_ltb, inl,
  inr, if◌then◌else◌, length, take, Bytes, take_past,
}
use lion_fs.Journal.{Transaction, Superblock, Disk, contiguous_run, apply_records}
use lion_fs.Journal.Commit.{TransactionManager, commit}
use lion_fs.Journal.Recover.{recover}
use lion_fs.Journal.Writes.{apply_records-append, take-contiguous_run, length-contiguous_run}
use lion_fs.Journal.Ready.{take_within, IsOutside, IsReady, writes_of, recovered}
use lion_fs.Journal.Committed.{image, length-image, writes_of-commit}
use lion_fs.Journal.Torn.{part, take-image, torn, recover-torn, torn_outside}
use lion_fs.Journal.Sealed.{sealed, recover-sealed, sealed_outside}

module _ (crc : Bytes → ℕ) (fits : (b : Bytes) → crc b < 4294967296) (disk : Disk) (sb : Superblock)
    (m : TransactionManager) (tx : Transaction) (ready : IsReady disk sb m tx) where
  -- A commit of a transaction that is not empty, whose image fits before the journal's end, on a
  -- disk whose journal is blank: whatever the number `n` of block writes before the crash is,
  -- recovery leaves every block outside the journal as it was before the commit if the footer was
  -- not written (2 k + 2 blocks of the journal for k dirty blocks), and as after the whole commit
  -- otherwise, and returns the superblock's generation, or the transaction's id. The dirty blocks
  -- lie outside the journal, and neither they nor the id begin like a journal header.
  pub recover-commit :
      (n q : ℕ)
      → IsOutside sb q
      → recovered q (recover crc (apply_records disk (take n (writes_of (commit crc m sb tx)))) sb)
        ≡ some (
            if ltb n (2 * length tx.dirty_blocks + 2)
            then (disk q, sb.generation)
            else (apply_records disk tx.dirty_blocks q, tx.id))
  unfolding torn part sealed image
  recover-commit n q out =
      let p = sb.journal_start + m.next_journal_block in
      let run = contiguous_run p (image crc fits disk sb m tx ready) in
      let long : length run ≡ 2 * length tx.dirty_blocks + 2 =
        length-contiguous_run p (image crc fits disk sb m tx ready)
        ∙ (length-image crc fits disk sb m tx ready) in
      elim (Bool-cases (ltb n (2 * length tx.dirty_blocks + 2))) [
        | inl early ↦
            let few = lt_of_ltb n _ early in
            let crashed : apply_records disk (take n (writes_of (commit crc m sb tx)))
                ≡ (torn crc fits disk sb m tx ready) n =
              ap (λ ws. apply_records disk (take n ws))
                (writes_of-commit crc fits disk sb m tx ready)
              ∙ ap (apply_records disk) (
                  take_within n run tx.dirty_blocks (omega (arith, long, few))
                  ∙ take-contiguous_run n p (image crc fits disk sb m tx ready)
                  ∙ ap (contiguous_run p) ((take-image crc fits disk sb m tx ready) n few)) in
            rw (early, crashed, (recover-torn crc fits disk sb m tx ready) n)
              (ap (λ b. some (b, sb.generation))
                ((torn_outside crc fits disk sb m tx ready) n q out few))
        | inr late ↦
            let enough = le_of_not_ltb n _ late in
            let after = n - length run in
            let crashed : apply_records disk (take n (writes_of (commit crc m sb tx)))
                ≡ (sealed crc fits disk sb m tx ready) after =
              ap (λ ws. apply_records disk (take n ws))
                (writes_of-commit crc fits disk sb m tx ready)
              ∙ ap (apply_records disk)
                  (take_past n run tx.dirty_blocks (omega (arith, long, enough)))
              ∙ apply_records-append disk run (take after tx.dirty_blocks) in
            rw (late, crashed, (recover-sealed crc fits disk sb m tx ready) after)
              (ap (λ b. some (b, tx.id)) ((sealed_outside crc fits disk sb m tx ready) after q out))
      ]
