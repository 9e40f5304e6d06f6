-- ===== src/Journal/Examples.antt =====
-- A journal of ten blocks under a checksum that counts the bytes: tests, and the theorems at
-- concrete inputs.
use lion_fs.Base.{
  zero, suc, false, ℕ, ◌+◌, ◌%◌, ◌<◌, ◌≡◌, ◌≢◌, inr, refl, none, some, [], ◌∷◌, arith, ltb,
  if◌then◌else◌, ◌*◌, length, take, Bytes, u32_mod,
}
use lion_fs.Journal.{Superblock, Transaction, Disk, apply_records, write_block}
use lion_fs.Journal.Commit.{TransactionManager, commit, apply_runs, header_block}
use lion_fs.Journal.Recover.{recover, scan_block, contiguous_suffix}
use lion_fs.Journal.Layout.{IsStorable}
use lion_fs.Journal.Scanned.{recover-returns}
use lion_fs.Journal.Wrapped.{recover-header_block, looks_like_header}
use lion_fs.Journal.Ready.{IsReady, recovered, writes_of}
use lion_fs.Journal.Crash.{recover-commit}
use lion_fs.Journal.Overlay.{TxContext, FrozenRoots, read_block, stage_block}
use lion_fs.Journal.View.{IsOrdered, view, view_refines}

abbrev byte_count : Bytes → ℕ
byte_count b = length b % u32_mod

byte_count_fits : (b : Bytes) → byte_count b < 4294967296
byte_count_fits b = omega arith

abbrev blank_disk : Disk
blank_disk q = 0 ∷ []

abbrev small : Superblock
small = record { generation = 3; journal_start = 1; journal_blocks = 10 }

abbrev manager : TransactionManager
manager = record { current_tx_id = 5; next_journal_block = 2 }

abbrev two_blocks : Transaction
two_blocks = record {
  id = 4;
  dirty_blocks = (20, 7 ∷ []) ∷ ((21, 8 ∷ []) ∷ []);
  timestamp = 0;
  root_cells = [];
}

-- Contiguous blocks are one run.
apply_runs_test : apply_runs 2 two_blocks.dirty_blocks ≡ two_blocks.dirty_blocks
unfolding apply_runs
apply_runs_test = refl

-- A gap ends the suffix.
contiguous_suffix_test : contiguous_suffix (2 ∷ 27 ∷ 28 ∷ 65 ∷ 66 ∷ []) ≡ 65 ∷ 66 ∷ []
unfolding contiguous_suffix
contiguous_suffix_test = refl

two_blocks-IsStorable : IsStorable two_blocks
two_blocks-IsStorable = record {
  id_fits = omega arith;
  timestamp_fits = omega arith;
  blocks_fit = (omega arith, (omega arith, tt));
}

two_blocks-IsReady : IsReady blank_disk small manager two_blocks
two_blocks-IsReady = record {
  storable = two_blocks-IsStorable;
  some_block = omega arith;
  room = omega arith;
  journal_fits = omega arith;
  newer = omega arith;
  id_plain = (λ e. omega (arith, e));
  blocks_plain = ((λ e. omega (arith, e)), ((λ e. omega (arith, e)), tt));
  blocks_outside = (inr (omega arith), (inr (omega arith), tt));
  blank = (λ i h e. omega (arith, e));
}

-- A crash after the first of the two blocks was applied.
recover-commit_example :
    recovered 21 (
      recover byte_count
        (apply_records blank_disk (take 7 (writes_of (commit byte_count manager small two_blocks))))
        small)
    ≡ some (
        if ltb 7 (2 * length two_blocks.dirty_blocks + 2)
        then (blank_disk 21, small.generation)
        else (apply_records blank_disk two_blocks.dirty_blocks 21, two_blocks.id))
recover-commit_example =
    recover-commit byte_count byte_count_fits blank_disk small manager two_blocks two_blocks-IsReady
      7 21 (inr (omega arith))

recover-returns_example : recover byte_count blank_disk small ≢ none
recover-returns_example = recover-returns byte_count blank_disk small

-- The first block of the image is the sixth of the journal's ten; a crash after all six blocks of the
-- image, two of them written to the journal's start, and after the first of the two dirty blocks.
abbrev wrapped_disk : Disk
wrapped_disk = apply_records blank_disk (
    take 7
      (writes_of (commit byte_count (record manager { next_journal_block = 6 }) small two_blocks)))

half_applied_test : (wrapped_disk 20 ≡ 7 ∷ []) × (wrapped_disk 21 ≡ 0 ∷ [])
unfolding commit write_block
half_applied_test = (refl, refl)

no_other_header :
    (i : ℕ) → i < 10 → i ≢ 6 → looks_like_header byte_count small (wrapped_disk (1 + i)) ≡ false
unfolding commit write_block lion_fs.Journal.Recover.is_sealed_header
    lion_fs.Journal.Commit.footer_block lion_fs.Base.to_le_bytes lion_fs.Journal.Commit.record_block
no_other_header zero h ne = refl
no_other_header (suc zero) h ne = refl
no_other_header (suc (suc zero)) h ne = refl
no_other_header (suc (suc (suc zero))) h ne = refl
no_other_header (suc (suc (suc (suc zero)))) h ne = refl
no_other_header (suc (suc (suc (suc (suc zero))))) h ne = refl
no_other_header (suc (suc (suc (suc (suc (suc zero)))))) h ne = absurd (ne refl)
no_other_header (suc (suc (suc (suc (suc (suc (suc zero))))))) h ne = refl
no_other_header (suc (suc (suc (suc (suc (suc (suc (suc zero)))))))) h ne = refl
no_other_header (suc (suc (suc (suc (suc (suc (suc (suc (suc zero))))))))) h ne = refl
no_other_header (suc (suc (suc (suc (suc (suc (suc (suc (suc (suc i)))))))))) h ne =
    absurd (omega arith)

recover-header_block_example : recover byte_count wrapped_disk small ≡ some (wrapped_disk, 3)
unfolding commit write_block
recover-header_block_example =
    recover-header_block byte_count small wrapped_disk two_blocks 6 byte_count_fits
      two_blocks-IsStorable (omega arith) (omega arith) (omega arith) refl no_other_header

abbrev no_roots : FrozenRoots
no_roots = record { inode = 0; dir = 0; csum = 0 }

abbrev younger : Transaction
younger = record { id = 5; dirty_blocks = (21, 9 ∷ []) ∷ []; timestamp = 1; root_cells = [] }

-- `two_blocks` is frozen and not applied, `younger` is active.
abbrev context : TxContext
context = record {
  disk = blank_disk;
  tx = younger;
  pending = two_blocks ∷ [];
  frozen_roots = no_roots;
  live_barrier = 0;
  cow_barrier = 0;
}

read_block_test : read_block context 20 ≡ 7 ∷ []
unfolding read_block
read_block_test = refl

context-IsOrdered : IsOrdered context
context-IsOrdered = record {
  tx_ordered = (tt, tt);
  pending_ordered = (((omega arith, tt), (tt, tt)), tt);
}

view_refines_example :
    (read_block context 21 ≡ view context 21)
    × ((read_block (stage_block context 20 (1 ∷ [])) 21 ≡ write_block (view context) 20 (1 ∷ []) 21)
        × IsOrdered (stage_block context 20 (1 ∷ [])))
view_refines_example = view_refines context 20 (1 ∷ []) 21 context-IsOrdered
