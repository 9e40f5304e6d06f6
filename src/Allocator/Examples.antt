-- ===== src/Allocator/Examples.antt =====
-- A group of 40 blocks whose first four are used: tests, and the theorems at concrete inputs.
use lion_fs.Base.{
  ◌+◌, ◌*◌, ◌/◌, ◌%◌, ◌-◌, ◌≡◌, refl, true, none, some, [], ◌∷◌, arith, ltb, leb, ◌&&◌,
  if◌then◌else◌, ◌==◌, min,
}
use lion_fs.Allocator.{
  is_used, Bitmap, Context, find_run, modify_blocks, bitmap_blocks, allocate_extents,
  allocate_extents_hinted, allocate_extents_meta, allocate_extents_reserved, free_extents,
}
use lion_fs.Allocator.FirstFit.{IsAnswer, find_run-IsAnswer}
use lion_fs.Allocator.Marking.{is_used-modify_blocks}
use lion_fs.Allocator.Outcomes.{IsOutcome, allocate_extents-IsOutcome}
use lion_fs.Allocator.Requests.{
  plain, hinted, metadata, reserved, size, serve, granted, AllApart, granted-AllApart,
  free_extents-serve,
}

abbrev four_used : Bitmap
four_used k b = if (k == 0) && (b == 0) then 15 else 0

abbrev context : Context
context = record { bitmap = four_used; alloc_cursor = none; meta_high_water = 0; alloc_delta = 0 }

find_run_test : find_run 40 5 four_used 2 ≡ some 4
unfolding find_run
find_run_test = refl

full_test : find_run 40 37 four_used 0 ≡ none
unfolding find_run
full_test = refl

-- The second run starts behind its hint.
granted_test : granted 40 context (plain 2 ∷ (hinted 3 20 ∷ [])) ≡ (4, 2) ∷ ((21, 3) ∷ [])
unfolding granted
granted_test = refl

find_run-IsAnswer_example :
    IsAnswer 40 5 four_used
      (min (2 / 32768) (bitmap_blocks 40 5 - 1) * 32768 + 2 % 32768)
      (omega arith)
      (find_run 40 5 four_used 2)
find_run-IsAnswer_example =
    find_run-IsAnswer 40 5 four_used (min (2 / 32768) (bitmap_blocks 40 5 - 1) * 32768 + 2 % 32768)
      (omega arith) 2 refl

is_used-modify_blocks_example :
    is_used (modify_blocks four_used 32766 5 true) 32769
    ≡ (if leb 32766 32769 && ltb 32769 (32766 + 5) then true else is_used four_used 32769)
is_used-modify_blocks_example = is_used-modify_blocks four_used 32766 5 true 32769 (omega arith)

allocate_extents-IsOutcome_example :
    IsOutcome 40 context 3 (allocate_extents context 40 3)
    × (IsOutcome 40 context 3 (allocate_extents_hinted context 40 3 20)
        × (IsOutcome 40 context 3 (allocate_extents_meta context 40 3)
            × IsOutcome 40 context 3 (allocate_extents_reserved context 40 8 3 (some 9))))
allocate_extents-IsOutcome_example =
    allocate_extents-IsOutcome 40 (omega arith) context 3 20 8 (some 9) (omega arith) (omega arith)

granted-AllApart_example :
    AllApart
      (granted 40 context (plain 2 ∷ (hinted 3 20 ∷ (metadata 4 ∷ (reserved 8 2 none ∷ [])))))
granted-AllApart_example =
    granted-AllApart 40 (omega arith)
      (plain 2 ∷ (hinted 3 20 ∷ (metadata 4 ∷ (reserved 8 2 none ∷ [])))) context

free_extents-serve_example :
    is_used (free_extents (serve 40 context (plain 2)).0 4 (size (plain 2))).bitmap 5
    ≡ is_used context.bitmap 5
unfolding serve
free_extents-serve_example = free_extents-serve 40 (omega arith) context (plain 2) 4 refl 5
