-- ===== src/Journal/Wrapped.antt =====
-- Recovery of a journal in which an image wraps around its end.
use lion_fs.Base.{
  ℕ, suc, ◌+◌, ◌*◌, ◌%◌, ◌<◌, ◌≡◌, ◌≢◌, refl, ap, ◌∙◌, Bool, true, false, ◌&&◌, none, some, [],
  arith, tests, ◌==◌, ==_of_ne, Bool-cases, eq_of_==, inl, inr, length, Bytes, from_le_bytes, slice,
  u32_mod,
}
use lion_fs.Journal.{Transaction, Superblock, Disk, journal_magic}
use lion_fs.Journal.Commit.{header_block}
use lion_fs.Journal.Recover.{recover, scan, scan_block, is_sealed_header, contiguous_suffix}
use lion_fs.Journal.Layout.{IsStorable}
use lion_fs.Journal.Scanned.{more_fuel, scan_past, scan_end, scan_block-header_block}

-- The block has the magic number and the checksum of a journal header.
abbrev pub looks_like_header : (Bytes → ℕ) → Superblock → Bytes → Bool
looks_like_header crc sb b =
    (from_le_bytes (slice 0 8 b) == journal_magic) && is_sealed_header crc sb b

and_true : (a b : Bool) → a ≡ true → (a && b) ≡ false → b ≡ false
and_true a b h e = ground arith

module _ (crc : Bytes → ℕ) (sb : Superblock) (disk : Disk) where
  scan_block_other :
      (i : ℕ)
      → looks_like_header crc sb (disk (sb.journal_start + i)) ≡ false
      → scan_block crc sb disk i ≡ none
  unfolding scan_block
  scan_block_other i other =
      elim (Bool-cases (from_le_bytes (slice 0 8 (disk (sb.journal_start + i))) == journal_magic)) [
        | inl magic ↦
            let unsealed : is_sealed_header crc sb (disk (sb.journal_start + i)) ≡ false =
              and_true (from_le_bytes (slice 0 8 (disk (sb.journal_start + i))) == journal_magic) _
                magic other in
            rw (scan_block, magic, unsealed) refl
        | inr plain ↦ rw (scan_block, plain) refl
      ]

  -- Where the scan finds nothing, recovery changes nothing.
  recover_nothing :
      0 < sb.journal_blocks
      → ((i : ℕ) → i < sb.journal_blocks → scan_block crc sb disk i ≡ none)
      → recover crc disk sb ≡ some (disk, sb.generation)
  unfolding recover contiguous_suffix
  recover_nothing pos quiet =
      let scanned : scan crc sb disk (suc sb.journal_blocks) 0 [] sb.generation
          ≡ some ([], sb.generation) =
        more_fuel crc sb disk (suc sb.journal_blocks) (sb.journal_blocks + 1) 0 [] sb.generation
          (omega arith)
        ∙ scan_past crc sb disk sb.journal_blocks 1 0 [] sb.generation (omega arith)
            (λ i lo hi. quiet i (omega (arith, hi)))
        ∙ scan_end crc sb disk 0 (0 + sb.journal_blocks) [] sb.generation (omega arith) in
      rw (recover, ==_of_ne sb.journal_blocks 0 (λ e. omega (arith, e, pos)), scanned) refl

-- A disk that holds, at a block of the journal, the header of a transaction whose image goes past
-- the end of the journal, and no other block of the journal that has a header's magic number and
-- checksum: recovery replays nothing. It leaves the whole disk as it is, whatever part of the
-- transaction was written to its places, and returns the superblock's generation. The fields of the
-- transaction fit in their words, its blocks are fewer than 2^32, the checksum fits in a u32.
pub recover-header_block :
    (crc : Bytes → ℕ) (sb : Superblock) (disk : Disk) (tx : Transaction) (current : ℕ)
    → ((b : Bytes) → crc b < 4294967296)
    → IsStorable tx
    → length tx.dirty_blocks < u32_mod
    → current < sb.journal_blocks
    → sb.journal_blocks < current + 2 * length tx.dirty_blocks + 2
    → disk (sb.journal_start + current) ≡ header_block crc tx (length tx.dirty_blocks % u32_mod)
    → ((i : ℕ)
        → i < sb.journal_blocks
        → i ≢ current
        → looks_like_header crc sb (disk (sb.journal_start + i)) ≡ false)
    → recover crc disk sb ≡ some (disk, sb.generation)
recover-header_block crc sb disk tx current fits v few inside long buffer others =
    recover_nothing crc sb disk (omega arith) (λ i h. elim (Bool-cases (i == current)) [
      | inl same ↦
          ap (scan_block crc sb disk) (eq_of_== i current same)
          ∙ scan_block-header_block crc sb fits tx v disk current few buffer long
      | inr other ↦ scan_block_other crc sb disk i (others i h (λ e. omega (tests, other, e)))
    ])
