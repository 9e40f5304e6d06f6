-- ===== src/Journal/Torn.antt =====
-- Recovery when the crash came before the footer.
use mathlib.Core.Path.{subst}
use lion_fs.Base.{
  ℕ, zero, suc, ◌+◌, ◌*◌, ◌%◌, ◌≤◌, ◌<◌, ◌≡◌, ◌≢◌, ◌⊎◌, refl, ap, ◌∙◌, false, none, some, List, [],
  ◌∷◌, arith, tests, ◌==◌, ==_of_ne, Bool-cases, eq_of_==, inl, inr, length, length-take, take,
  Bytes, u32_mod,
}
use lion_fs.Journal.{
  JournalHeader, Transaction, Superblock, Disk, read_header, write_block, contiguous_run,
  apply_records,
}
use lion_fs.Journal.Commit.{
  TransactionManager, header_block, record_blocks, chunk_image, sealed_header,
}
use lion_fs.Journal.Recover.{recover, scan, scan_block, contiguous_suffix}
use lion_fs.Journal.Layout.{read_header-header_block}
use lion_fs.Journal.Writes.{apply_records-Avoids, contiguous_run-Avoids, contiguous_run-Holds}
use lion_fs.Journal.Rounds.{
  IsPlain, length-record_blocks, scan_block-IsPlain, scan_block_without_footer,
}
use lion_fs.Journal.Scanned.{more_fuel, scan_past, scan_end}
use lion_fs.Journal.Ready.{
  take_within, All-take, IsPlain-contiguous_run, record_blocks-IsPlain, IsOutside, IsReady,
}
use lion_fs.Journal.Committed.{image, length-image}

module _ (crc : Bytes → ℕ) (fits : (b : Bytes) → crc b < 4294967296) (disk : Disk) (sb : Superblock)
    (m : TransactionManager) (tx : Transaction) (ready : IsReady disk sb m tx) where
  -- A part of the image without the footer.
  unfoldable pub part : ℕ → List Bytes
  part n = take n (
      header_block crc tx (length tx.dirty_blocks % u32_mod) ∷ record_blocks crc tx tx.dirty_blocks)

  pub take-image :
      (n : ℕ)
      → n < 2 * length tx.dirty_blocks + 2
      → take n (image crc fits disk sb m tx ready) ≡ part n
  unfolding image chunk_image part
  take-image zero h = refl
  take-image (suc n) h =
      ap (λ l. header_block crc tx (length tx.dirty_blocks % u32_mod) ∷ l)
        (take_within n (record_blocks crc tx tx.dirty_blocks) _
          (omega (arith, length-record_blocks crc tx tx.dirty_blocks)))

  unfoldable pub torn : ℕ → Disk
  torn n = apply_records disk (contiguous_run (sb.journal_start + m.next_journal_block) (part n))

  pub torn-IsPlain :
      (n i : ℕ)
      → i < sb.journal_blocks
      → i ≢ m.next_journal_block
      → IsPlain (torn n (sb.journal_start + i))
  unfolding torn part write_block
  torn-IsPlain zero i inside other = ready.blank i inside
  torn-IsPlain (suc n) i inside other =
      let elsewhere : (sb.journal_start + i == sb.journal_start + m.next_journal_block) ≡ false =
        ==_of_ne _ _ (λ e. other (omega (arith, e))) in
      IsPlain-contiguous_run
        (write_block disk (sb.journal_start + m.next_journal_block)
          (header_block crc tx (length tx.dirty_blocks % u32_mod)))
        (sb.journal_start + m.next_journal_block + 1)
        (take n (record_blocks crc tx tx.dirty_blocks)) (sb.journal_start + i)
        (rw (elsewhere) (ready.blank i inside))
        (All-take IsPlain n (record_blocks crc tx tx.dirty_blocks) (
          record_blocks-IsPlain crc tx ready.storable.id_fits ready.id_plain tx.dirty_blocks
            ready.blocks_plain))

  pub torn_header :
      (n : ℕ)
      → torn (suc n) (sb.journal_start + m.next_journal_block)
        ≡ header_block crc tx (length tx.dirty_blocks % u32_mod)
  unfolding torn part
  torn_header n =
      (contiguous_run-Holds disk (sb.journal_start + m.next_journal_block) (
        header_block crc tx (length tx.dirty_blocks % u32_mod)
        ∷ take n (record_blocks crc tx tx.dirty_blocks))).0

  pub torn_start_quiet : (n : ℕ) → scan_block crc sb (torn n) m.next_journal_block ≡ none
  unfolding torn part sealed_header
  torn_start_quiet zero =
      scan_block-IsPlain crc sb disk m.next_journal_block
        (ready.blank _ (omega (arith, ready.room)))
  torn_start_quiet (suc n) =
      let count = length tx.dirty_blocks % u32_mod in
      let small : count < u32_mod = omega arith in
      let exact : count ≡ length tx.dirty_blocks = omega (arith, ready.room, ready.journal_fits) in
      let header =
        ap read_header (torn_header n)
        ∙ read_header-header_block crc fits tx ready.storable count small in
      scan_block_without_footer crc sb (torn (suc n)) m.next_journal_block (length tx.dirty_blocks)
        (ap (λ (h : JournalHeader). h.entry_count) header ∙ exact)
        (torn-IsPlain (suc n) (m.next_journal_block + 1 + 2 * length tx.dirty_blocks)
          (omega (arith, ready.room)) (λ e. omega (arith, e)))

  -- Nothing is found in a torn journal.
  pub torn_quiet : (n i : ℕ) → i < sb.journal_blocks → scan_block crc sb (torn n) i ≡ none
  torn_quiet n i inside = elim (Bool-cases (i == m.next_journal_block)) [
    | inl same ↦
        ap (scan_block crc sb (torn n)) (eq_of_== i m.next_journal_block same) ∙ torn_start_quiet n
    | inr other ↦
        scan_block-IsPlain crc sb (torn n) i
          (torn-IsPlain n i inside (λ e. omega (tests, other, e)))
  ]

  pub has_journal : (sb.journal_blocks == 0) ≡ false
  has_journal = ==_of_ne sb.journal_blocks 0 (λ e. omega (arith, e, ready.room))

  pub recover-torn : (n : ℕ) → recover crc (torn n) sb ≡ some (torn n, sb.generation)
  unfolding recover contiguous_suffix
  recover-torn n =
      let scanned : scan crc sb (torn n) (suc sb.journal_blocks) 0 [] sb.generation
          ≡ some ([], sb.generation) =
        more_fuel crc sb (torn n) (suc sb.journal_blocks) (sb.journal_blocks + 1) 0 [] sb.generation
          (omega arith)
        ∙ scan_past crc sb (torn n) sb.journal_blocks 1 0 [] sb.generation (omega arith)
            (λ i lo hi. torn_quiet n i (omega (arith, hi)))
        ∙ scan_end crc sb (torn n) 0 (0 + sb.journal_blocks) [] sb.generation (omega arith) in
      rw (recover, has_journal, scanned) refl

  pub outside_run :
      (q : ℕ) (bs : List Bytes)
      → IsOutside sb q
      → length bs ≤ 2 * length tx.dirty_blocks + 2
      → apply_records disk (contiguous_run (sb.journal_start + m.next_journal_block) bs) q ≡ disk q
  outside_run q bs out few =
      let p = sb.journal_start + m.next_journal_block in
      let apart : (q < p) ⊎ (p + length bs ≤ q) = elim out [
        | inl below ↦ inl (omega (arith, below))
        | inr above ↦ inr (omega (arith, above, ready.room))
      ] in
      apply_records-Avoids disk (contiguous_run p bs) q (contiguous_run-Avoids p bs q apart)

  pub torn_outside :
      (n q : ℕ) → IsOutside sb q → n < 2 * length tx.dirty_blocks + 2 → torn n q ≡ disk q
  unfolding torn
  torn_outside n q out few = outside_run q (part n) out (
      subst (λ l. length l ≤ 2 * length tx.dirty_blocks + 2) (take-image n few)
        (omega (
          arith,
          length-take n (image crc fits disk sb m tx ready)
              (omega (arith, (length-image crc fits disk sb m tx ready))),
        )))
