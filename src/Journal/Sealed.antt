-- ===== src/Journal/Sealed.antt =====
-- Recovery when the crash came after the footer.
use mathlib.Core.Path.{subst}
use lion_fs.Base.{
  ℕ, suc, ◌+◌, ◌-◌, ◌*◌, ◌≤◌, ◌<◌, ◌≡◌, ◌⊎◌, refl, sym, ap, ◌∙◌, true, none, some, [], ◌∷◌, arith,
  ltb, inl, inr, if◌then◌else◌, length, take, Bytes,
}
use lion_fs.Journal.{Transaction, Superblock, Disk, contiguous_run, apply_records}
use lion_fs.Journal.Commit.{TransactionManager}
use lion_fs.Journal.Recover.{recover, scan, scan_block, TxMap, contiguous_suffix}
use lion_fs.Journal.Writes.{
  Avoids-take, apply_records-Avoids, apply_records_local, apply_records_again,
  contiguous_run-Avoids, Holds-agree, contiguous_run-Holds,
}
use lion_fs.Journal.Rounds.{IsPlain, scan_block-IsPlain}
use lion_fs.Journal.Scanned.{scan_block-chunk_image, more_fuel, scan_past, scan_end, scan_found}
use lion_fs.Journal.Ready.{Avoids-outside, replay_one, IsOutside, IsReady}
use lion_fs.Journal.Committed.{image, length-image}
use lion_fs.Journal.Torn.{has_journal, outside_run}

module _ (crc : Bytes → ℕ) (fits : (b : Bytes) → crc b < 4294967296) (disk : Disk) (sb : Superblock)
    (m : TransactionManager) (tx : Transaction) (ready : IsReady disk sb m tx) where
  -- After the whole image, and the first `n` writes of the dirty blocks.
  unfoldable pub sealed : ℕ → Disk
  sealed n =
      apply_records
        (apply_records disk (
          contiguous_run (sb.journal_start + m.next_journal_block)
            (image crc fits disk sb m tx ready)))
        (take n tx.dirty_blocks)

  pub sealed_journal :
      (n i : ℕ)
      → i < sb.journal_blocks
      → sealed n (sb.journal_start + i)
        ≡ apply_records disk
            (contiguous_run
              (sb.journal_start + m.next_journal_block)
              (image crc fits disk sb m tx ready))
            (sb.journal_start + i)
  unfolding sealed
  sealed_journal n i inside =
      apply_records-Avoids _ (take n tx.dirty_blocks) (sb.journal_start + i) (
        Avoids-take tx.dirty_blocks n _
          (Avoids-outside sb tx.dirty_blocks i inside ready.blocks_outside))

  pub sealed-IsPlain :
      (n i : ℕ)
      → i < sb.journal_blocks
      → (i < m.next_journal_block) ⊎ (m.next_journal_block + 2 * length tx.dirty_blocks + 2 ≤ i)
      → scan_block crc sb (sealed n) i ≡ none
  sealed-IsPlain n i inside apart =
      let p = sb.journal_start + m.next_journal_block in
      let away : (sb.journal_start + i < p)
          ⊎ (p + length (image crc fits disk sb m tx ready) ≤ sb.journal_start + i) =
        elim apart [
          | inl below ↦ inl (omega (arith, below))
          | inr above ↦ inr (omega (arith, above, (length-image crc fits disk sb m tx ready)))
        ] in
      let kept =
        sealed_journal n i inside
        ∙ apply_records-Avoids disk (contiguous_run p (image crc fits disk sb m tx ready))
            (sb.journal_start + i)
            (contiguous_run-Avoids p (image crc fits disk sb m tx ready) (sb.journal_start + i)
              away) in
      scan_block-IsPlain crc sb (sealed n) i (subst IsPlain (sym kept) (ready.blank i inside))

  pub sealed_found :
      (n : ℕ)
      → scan_block crc sb (sealed n) m.next_journal_block
        ≡ some (record {
          tx_id = tx.id;
          records = tx.dirty_blocks;
          footer_block = m.next_journal_block + 1 + 2 * length tx.dirty_blocks;
        })
  unfolding image
  sealed_found n =
      let p = sb.journal_start + m.next_journal_block in
      scan_block-chunk_image crc sb fits tx ready.storable (sealed n) m.next_journal_block
        (omega (arith, ready.room, ready.journal_fits)) ready.room
        (Holds-agree (apply_records disk (contiguous_run p (image crc fits disk sb m tx ready)))
          (sealed n) p (image crc fits disk sb m tx ready)
          (λ q lo hi.
            subst
              (λ r.
                sealed n r
                ≡ apply_records disk (contiguous_run p (image crc fits disk sb m tx ready)) r)
              (omega (arith, lo))
              (sealed_journal n (q - sb.journal_start)
                (omega (arith, lo, hi, (length-image crc fits disk sb m tx ready), ready.room))))
          (contiguous_run-Holds disk p (image crc fits disk sb m tx ready)))

  pub scan-sealed :
      (n : ℕ)
      → scan crc sb (sealed n) (suc sb.journal_blocks) 0 [] sb.generation
        ≡ some ((tx.id, tx.dirty_blocks) ∷ [], tx.id)
  scan-sealed n =
      let newer = ready.newer in
      let higher : ltb sb.generation tx.id ≡ true = ground arith in
      let k = length tx.dirty_blocks in
      let start = m.next_journal_block in
      let rest = sb.journal_blocks - (start + 2 * k + 2) in
      let more = rest + suc (2 * k + 1) in
      let past = start + 1 + 2 * k + 1 in
      let found : TxMap = (tx.id, tx.dirty_blocks) ∷ [] in
      let highest = if ltb sb.generation tx.id then tx.id else sb.generation in
      more_fuel crc sb (sealed n) (suc sb.journal_blocks) (start + suc more) 0 [] sb.generation
        (omega (arith, ready.room))
      ∙ scan_past crc sb (sealed n) start (suc more) 0 [] sb.generation (omega (arith, ready.room))
          (λ i lo hi. sealed-IsPlain n i (omega (arith, hi, ready.room)) (inl (omega (arith, hi))))
      ∙ scan_found crc sb (sealed n) more (0 + start) [] sb.generation _ (omega (arith, ready.room))
          (ap (scan_block crc sb (sealed n)) (omega arith) ∙ sealed_found n)
      ∙ scan_past crc sb (sealed n) rest (suc (2 * k + 1)) past found highest
          (omega (arith, ready.room))
          (λ i lo hi. sealed-IsPlain n i (omega (arith, hi, ready.room)) (inr (omega (arith, lo))))
      ∙ scan_end crc sb (sealed n) (2 * k + 1) (past + rest) found highest
          (omega (arith, ready.room))
      ∙ rw (higher) refl

  pub recover-sealed :
      (n : ℕ) → recover crc (sealed n) sb ≡ some (apply_records (sealed n) tx.dirty_blocks, tx.id)
  unfolding recover contiguous_suffix
  recover-sealed n =
      let newer = ready.newer in
      let higher : ltb sb.generation tx.id ≡ true = ground arith in
      rw (recover, (has_journal crc fits disk sb m tx ready), scan-sealed n, higher)
        (ap (λ d. some (d, tx.id)) (replay_one (sealed n) tx.id tx.dirty_blocks))

  pub sealed_outside :
      (n q : ℕ)
      → IsOutside sb q
      → apply_records (sealed n) tx.dirty_blocks q ≡ apply_records disk tx.dirty_blocks q
  unfolding sealed
  sealed_outside n q out =
      let p = sb.journal_start + m.next_journal_block in
      let journaled = apply_records disk (contiguous_run p (image crc fits disk sb m tx ready)) in
      apply_records_again journaled tx.dirty_blocks n q
      ∙ apply_records_local journaled disk tx.dirty_blocks q (
          (outside_run crc fits disk sb m tx ready) q (image crc fits disk sb m tx ready) out
            (omega (arith, (length-image crc fits disk sb m tx ready))))
