-- ===== src/Allocator.antt =====
-- crates/lionfs/src/allocator/bitmap.rs and locality.rs: the bitmap of a block group. A block of the
-- bitmap is a function from byte offsets to bytes, the bitmap a function from block indices to
-- blocks, as the transaction sees them.
pub mod Bits
pub mod Scan
pub mod FirstFit
pub mod Marking
pub mod Outcomes
pub mod Requests
pub mod Counting
mod Examples
use lion_fs.Base.{
  ℕ, zero, suc, ◌+◌, ◌-◌, ◌*◌, ◌/◌, ◌%◌, min, max, Bool, true, false, not, ◌&&◌, ◌||◌, Option, none,
  some, ltb, leb, ◌==◌, if◌then◌else◌, add_u64, sub_u64, u64_max,
}

-- `byte & (1 << i) != 0`
unfoldable pub is_set : ℕ → ℕ → Bool
is_set byte zero = not (byte % 2 == 0)
is_set byte (suc i) = is_set (byte / 2) i

-- `byte |= 1 << i` and `byte &= !(1 << i)`
unfoldable pub put_bit : Bool → ℕ → ℕ → ℕ
put_bit true byte zero = byte / 2 * 2 + 1
put_bit false byte zero = byte / 2 * 2
put_bit set byte (suc i) = byte % 2 + 2 * put_bit set (byte / 2) i

abbrev pub Buffer : Type 0
Buffer = ℕ → ℕ

abbrev pub Bitmap : Type 0
Bitmap = ℕ → Buffer

-- 4096 bytes of 8 bits
abbrev pub bits_per_block : ℕ
bits_per_block = 32768

-- How a part of the scan ends: with a run, or with the length and the start of the current run.
pub data Scanned : Type 0 where
  found : ℕ → Scanned
  going : ℕ → ℕ → Scanned

module _ (blocks_per_group count : ℕ) where
  -- The bits of one byte, the first of which is the bit of the block `base`.
  unfoldable pub scan_bits : ℕ → ℕ → ℕ → ℕ → ℕ → ℕ → Scanned
  unfolding is_set
  scan_bits zero byte base bit_idx run start = going run start
  scan_bits (suc left) byte base bit_idx run start =
      let block = base + bit_idx in
      let run_start = if run == 0 then block else start in
      let next_free = scan_bits left byte base (bit_idx + 1) (run + 1) run_start in
      let next_used = scan_bits left byte base (bit_idx + 1) 0 start in
      if leb blocks_per_group block
      then going run start
      else if not (is_set byte bit_idx)
      then (if run + 1 == count then found run_start else next_free)
      else next_used

  -- The bytes of a block of the bitmap; `first_bit` is 0 but for the first byte of the scan.
  unfoldable pub scan_bytes : ℕ → Buffer → ℕ → ℕ → ℕ → ℕ → ℕ → Scanned
  unfolding scan_bits
  scan_bytes zero buffer base byte_idx first_bit run start = going run start
  scan_bytes (suc left) buffer base byte_idx first_bit run start = elim (buffer byte_idx == 255) [
    | true ↦ scan_bytes left buffer base (byte_idx + 1) 0 0 start
    | false ↦
        elim (scan_bits (8 - first_bit) (buffer byte_idx) (base + byte_idx * 8) first_bit run
          start) [
            | found s ↦ found s
            | going r s ↦ scan_bytes left buffer base (byte_idx + 1) 0 r s
          ]
  ]

  unfoldable pub scan_blocks : ℕ → Bitmap → ℕ → ℕ → ℕ → ℕ → ℕ → Option ℕ
  unfolding scan_bytes
  scan_blocks zero bitmap bm_idx start_byte start_bit run start = none
  scan_blocks (suc left) bitmap bm_idx start_byte start_bit run start =
      elim (scan_bytes (4096 - start_byte) (bitmap bm_idx) (bm_idx * bits_per_block) start_byte
        start_bit run start) [
          | found s ↦ some s
          | going r s ↦ scan_blocks left bitmap (bm_idx + 1) 0 0 r s
        ]

  abbrev pub bitmap_blocks : ℕ
  bitmap_blocks = (blocks_per_group + 32767) / 32768

  -- The search of `scan_free_run`, without the marking.
  unfoldable pub find_run : Bitmap → ℕ → Option ℕ
  unfolding scan_blocks
  find_run bitmap from_bit =
      let first = min (from_bit / bits_per_block) (bitmap_blocks - 1) in
      scan_blocks (bitmap_blocks - first) bitmap first (from_bit % bits_per_block / 8)
        (from_bit % 8) 0 0

-- The state of the loop of `modify_blocks`.
pub record Editing : Type 0 where
  pub bitmap : Bitmap
  pub current_bm_idx : ℕ
  pub buf : Buffer
  pub modified : Bool

abbrev pub write_buffer : Bitmap → ℕ → Buffer → Bitmap
write_buffer bitmap i buf j = if j == i then buf else bitmap j

abbrev pub put_byte : Buffer → ℕ → ℕ → Buffer
put_byte buf i byte j = if j == i then byte else buf j

-- Writes the buffer out if it was modified.
unfoldable pub flush : Editing → Bitmap
flush m = if m.modified then write_buffer m.bitmap m.current_bm_idx m.buf else m.bitmap

unfoldable pub modify_block : Bool → ℕ → Editing → Editing
unfolding flush put_bit
modify_block set block m =
    let bm_idx = block / bits_per_block in
    let byte_idx = block % bits_per_block / 8 in
    let bitmap = if bm_idx == m.current_bm_idx then m.bitmap else flush m in
    let buf = if bm_idx == m.current_bm_idx then m.buf else flush m bm_idx in
    record {
      bitmap = bitmap;
      current_bm_idx = bm_idx;
      buf = put_byte buf byte_idx (put_bit set (buf byte_idx) (block % 8));
      modified = true;
    }

unfoldable pub modify_loop : ℕ → Bool → ℕ → Editing → Editing
unfolding modify_block
modify_loop zero set block m = m
modify_loop (suc left) set block m = modify_loop left set (block + 1) (modify_block set block m)

unfoldable pub modify_blocks : Bitmap → ℕ → ℕ → Bool → Bitmap
unfolding modify_loop flush
modify_blocks bitmap start count set = flush (
    modify_loop count set start
      (record { bitmap = bitmap; current_bm_idx = u64_max; buf = (λ i. 0); modified = false }))

-- What the allocator keeps in the context and in the transaction; `alloc_delta` is an i64.
pub record Context : Type 0 where
  pub bitmap : Bitmap
  pub alloc_cursor : Option ℕ
  pub meta_high_water : ℕ
  pub alloc_delta : ℕ

-- Finds a run of `count` blocks and marks `mark` of them.
unfoldable pub scan_free_run : Context → ℕ → ℕ → ℕ → ℕ → Context × Option ℕ
unfolding find_run modify_blocks
scan_free_run ctx blocks_per_group count from_bit mark =
    elim (find_run blocks_per_group count ctx.bitmap from_bit) [
      | none ↦ (ctx, none)
      | some start ↦ (record ctx { bitmap = modify_blocks ctx.bitmap start mark true }, some start)
    ]

-- `a.or_else(|| b)` on the context.
abbrev pub or_else : Context × Option ℕ → (Context → Context × Option ℕ) → Context × Option ℕ
or_else (ctx, some s) next = (ctx, some s)
or_else (ctx, none) next = next ctx

abbrev pub scan_from_cursor : ℕ → ℕ → ℕ → Context → Context × Option ℕ
scan_from_cursor blocks_per_group count mark ctx = elim ctx.alloc_cursor [
  | some cursor ↦ scan_free_run ctx blocks_per_group count cursor mark
  | none ↦ (ctx, none)
]

-- After a run is found: the cursor and the count of blocks.
abbrev pub take_run : ℕ → Context × Option ℕ → Context × Option ℕ
take_run count (ctx, none) = (ctx, none)
take_run count (ctx, some s) = (
  record ctx { alloc_cursor = some (s + count); alloc_delta = add_u64 ctx.alloc_delta count },
  some s,
)

-- locality.rs
unfoldable pub preferred_search_start : Option ℕ → ℕ → ℕ
unfolding add_u64
preferred_search_start none blocks_per_group = min 0 blocks_per_group
preferred_search_start (some last) blocks_per_group = min (add_u64 last 1) blocks_per_group

-- `none` for an error.
unfoldable pub allocate_extents : Context → ℕ → ℕ → Context × Option ℕ
unfolding scan_free_run add_u64
allocate_extents ctx blocks_per_group count =
    if count == 0
    then (ctx, none)
    else take_run count (
        or_else (scan_from_cursor blocks_per_group count count ctx)
          (λ c. scan_free_run c blocks_per_group count 0 count))

unfoldable pub allocate_extents_hinted : Context → ℕ → ℕ → ℕ → Context × Option ℕ
unfolding scan_free_run preferred_search_start add_u64
allocate_extents_hinted ctx blocks_per_group count hint =
    if count == 0
    then (ctx, none)
    else take_run count (
        or_else
          (or_else
            (scan_free_run ctx blocks_per_group count
              (preferred_search_start (some hint) blocks_per_group) count)
            (scan_from_cursor blocks_per_group count count))
          (λ c. scan_free_run c blocks_per_group count 0 count))

abbrev pub take_meta_run : ℕ → ℕ → Context × Option ℕ → Context × Option ℕ
take_meta_run blocks_per_group count (ctx, none) = (ctx, none)
take_meta_run blocks_per_group count (ctx, some s) = (
  record ctx {
    meta_high_water = max (blocks_per_group - s) ctx.meta_high_water + count - 1;
    alloc_delta = add_u64 ctx.alloc_delta count;
  },
  some s,
)

unfoldable pub allocate_extents_meta : Context → ℕ → ℕ → Context × Option ℕ
unfolding scan_free_run add_u64
allocate_extents_meta ctx blocks_per_group count =
    if count == 0
    then (ctx, none)
    else take_meta_run blocks_per_group count (
        or_else
          (or_else
            (scan_free_run ctx blocks_per_group count (blocks_per_group - (1 + ctx.meta_high_water))
              count)
            (λ c. scan_free_run c blocks_per_group count (blocks_per_group / 2) count))
          (λ c. scan_free_run c blocks_per_group count 0 count))

-- The first search of a reserved allocation.
abbrev pub want_run : Context → ℕ → ℕ → ℕ → Option ℕ → Context × Option ℕ
want_run ctx blocks_per_group want mark (some hint) =
    or_else
      (scan_free_run ctx blocks_per_group want (preferred_search_start (some hint) blocks_per_group)
        mark)
      (λ c. scan_free_run c blocks_per_group want 0 mark)
want_run ctx blocks_per_group want mark none =
    or_else (scan_from_cursor blocks_per_group want mark ctx)
      (λ c. scan_free_run c blocks_per_group want 0 mark)

unfoldable pub allocate_extents_reserved : Context → ℕ → ℕ → ℕ → Option ℕ → Context × Option ℕ
unfolding scan_free_run preferred_search_start add_u64
allocate_extents_reserved ctx blocks_per_group want mark hint =
    if (mark == 0) || ltb want mark
    then (ctx, none)
    else take_run mark (
        or_else (want_run ctx blocks_per_group want mark hint)
          (λ c. scan_free_run c blocks_per_group mark 0 mark))

unfoldable pub free_extents : Context → ℕ → ℕ → Context
unfolding modify_blocks sub_u64
free_extents ctx start count = record ctx {
  alloc_delta = sub_u64 ctx.alloc_delta count;
  bitmap = modify_blocks ctx.bitmap start count false;
}

-- A block of the group is used.
abbrev pub is_used : Bitmap → ℕ → Bool
is_used bitmap n = is_set (bitmap (n / bits_per_block) (n % bits_per_block / 8)) (n % 8)

-- The free bits of the first `left` from `i` on of a block of the bitmap.
unfoldable pub count_bits : ℕ → Buffer → ℕ → ℕ
unfolding is_set
count_bits zero buf i = 0
count_bits (suc left) buf i =
    let rest = count_bits left buf (i + 1) in
    if not (is_set (buf (i / 8)) (i % 8)) then rest + 1 else rest

-- Every round counts a bit at least, or ends.
unfoldable pub count_blocks : ℕ → Bitmap → ℕ → ℕ → ℕ
unfolding count_bits
count_blocks zero bitmap bm_idx remaining = 0
count_blocks (suc fuel) bitmap bm_idx remaining =
    let bits = min remaining bits_per_block in
    let rest = count_blocks fuel bitmap (bm_idx + 1) (remaining - bits) in
    if remaining == 0 then 0 else count_bits bits (bitmap bm_idx) 0 + rest

unfoldable pub count_free_blocks : Bitmap → ℕ → ℕ
unfolding count_blocks
count_free_blocks bitmap total = count_blocks total bitmap 0 total
