-- ===== src/Extents.antt =====
-- crates/lionfs/src/extents: an extent maps a run of logical blocks to a run of physical blocks.
-- extent.rs has the predicates and the on-disk validation, merge.rs the coalescing of adjacent
-- extents, split.rs the splitting and hole punching, mapping.rs the lookups in an inode's inline
-- array. Sums of u64 wrap, as in a release build; `validate` relies on that.
pub mod Lookup
pub mod Pieces
pub mod Coalesce
pub mod Validation
pub mod Mapping
mod Examples
use mathlib.Core.Option as O
use lion_fs.Base.{
  ℕ, zero, suc, ◌+◌, ◌-◌, Bool, true, false, ◌&&◌, Option, none, some, List, [], ◌∷◌, ◌++◌, ltb,
  leb, ◌==◌, if◌then◌else◌, find?, take, length, min, max, add_u64, sub_u64,
}

pub record Extent : Type 0 where
  pub logical_start : ℕ
  pub physical_start : ℕ
  pub length : ℕ

unfoldable pub logical_end : Extent → ℕ
unfolding add_u64
logical_end e = add_u64 e.logical_start e.length

unfoldable pub physical_end : Extent → ℕ
unfolding add_u64
physical_end e = add_u64 e.physical_start e.length

unfoldable pub contains_logical : Extent → ℕ → Bool
unfolding logical_end
contains_logical e b = leb e.logical_start b && ltb b (logical_end e)

-- `self` ends where `other` begins, in both address spaces.
unfoldable pub is_adjacent_to : Extent → Extent → Bool
unfolding logical_end physical_end
is_adjacent_to e other =
    (logical_end e == other.logical_start) && (physical_end e == other.physical_start)

-- The four messages of `validate`.
pub data ExtentError : Type 0 where
  zero_length logical_wraps physical_wraps beyond_device : ExtentError

-- `none` is `Ok(())`.
unfoldable pub validate : Extent → ℕ → Option ExtentError
unfolding logical_end physical_end
validate e total_blocks =
    if e.length == 0
    then some zero_length
    else if ltb (logical_end e) e.logical_start
    then some logical_wraps
    else if ltb (physical_end e) e.physical_start
    then some physical_wraps
    else if ltb total_blocks (physical_end e)
    then some beyond_device
    else none

unfoldable pub physical_ranges_overlap : Extent → Extent → Bool
unfolding physical_end
physical_ranges_overlap a b =
    ltb a.physical_start (physical_end b) && ltb b.physical_start (physical_end a)

-- `sort_by_key(|e| e.logical_start)`: the library's stable sort, as an insertion sort.
unfoldable pub insert_by_start : Extent → List Extent → List Extent
insert_by_start x [] = x ∷ []
insert_by_start x (y ∷ ys) =
    if leb x.logical_start y.logical_start then x ∷ y ∷ ys else y ∷ insert_by_start x ys

unfoldable pub sort_by_start : List Extent → List Extent
unfolding insert_by_start
sort_by_start [] = []
sort_by_start (x ∷ xs) = insert_by_start x (sort_by_start xs)

-- The loop of `coalesce`; `last` is `out.last_mut()`.
unfoldable pub coalesce_from : Extent → List Extent → List Extent
unfolding is_adjacent_to add_u64
coalesce_from last [] = last ∷ []
coalesce_from last (e ∷ es) = elim (is_adjacent_to last e) [
  | true ↦ coalesce_from (record last { length = add_u64 last.length e.length }) es
  | false ↦ last ∷ coalesce_from e es
]

unfoldable pub coalesce_sorted : List Extent → List Extent
unfolding coalesce_from
coalesce_sorted [] = []
coalesce_sorted (e ∷ es) = coalesce_from e es

unfoldable pub coalesce : List Extent → List Extent
unfolding coalesce_sorted sort_by_start
coalesce extents = coalesce_sorted (sort_by_start extents)

unfoldable pub split_at : Extent → ℕ → Option (Extent × Extent)
unfolding logical_end add_u64
split_at e b =
    if leb b e.logical_start
    then none
    else if leb (logical_end e) b
    then none
    else let offset = b - e.logical_start in
      some (
        record e { length = offset },
        record {
          logical_start = b;
          physical_start = add_u64 e.physical_start offset;
          length = e.length - offset;
        },
      )

unfoldable pub piece_before : Extent → ℕ → List Extent
piece_before e start =
    if ltb e.logical_start start
    then record e { length = min (start - e.logical_start) e.length } ∷ []
    else []

unfoldable pub piece_after : Extent → ℕ → List Extent
unfolding logical_end add_u64
piece_after e end =
    if ltb end (logical_end e)
    then (let clipped_end = max end e.logical_start in
        let offset = clipped_end - e.logical_start in
        record {
          logical_start = clipped_end;
          physical_start = add_u64 e.physical_start offset;
          length = e.length - offset;
        }
        ∷ [])
    else []

-- What is left of an extent without the logical blocks from `start` up to `end`.
unfoldable pub remove_range : Extent → ℕ → ℕ → List Extent
unfolding piece_before piece_after
remove_range e start end = piece_before e start ++ piece_after e end

-- The two fields of an inode that the mapping reads: `extents` is an array of seven.
pub record Inode : Type 0 where
  pub extent_count : ℕ
  pub extents : List Extent

-- `inode.extents[..inode.extent_count as usize]`; `none` is the panic of a slice out of range.
unfoldable pub used_extents : Inode → Option (List Extent)
used_extents inode =
    if leb inode.extent_count (length inode.extents)
    then some (take inode.extent_count inode.extents)
    else none

unfoldable pub physical_of : Extent → ℕ → ℕ
unfolding add_u64
physical_of e b = add_u64 e.physical_start (b - e.logical_start)

-- The search over the used extents: the first that contains the block decides.
unfoldable pub find_physical : List Extent → ℕ → Option ℕ
unfolding contains_logical physical_of
find_physical [] b = none
find_physical (e ∷ es) b =
    if contains_logical e b then some (physical_of e b) else find_physical es b

unfoldable pub map_logical_to_physical : Inode → ℕ → Option (Option ℕ)
unfolding used_extents find_physical
map_logical_to_physical inode b = O.map (λ es. find_physical es b) (used_extents inode)

unfoldable pub highest_end : List Extent → ℕ
unfolding logical_end
highest_end [] = 0
highest_end (e ∷ es) = max (logical_end e) (highest_end es)

unfoldable pub allocated_block_count : Inode → Option ℕ
unfolding used_extents highest_end
allocated_block_count inode = O.map highest_end (used_extents inode)

-- `n` consecutive blocks from `p`.
unfoldable pub block_run : ℕ → ℕ → List ℕ
unfolding add_u64
block_run p zero = []
block_run p (suc n) = p ∷ block_run (add_u64 p 1) n

unfoldable pub physical_blocks : List Extent → List ℕ
unfolding block_run
physical_blocks [] = []
physical_blocks (e ∷ es) = block_run e.physical_start e.length ++ physical_blocks es

unfoldable pub all_physical_blocks : Inode → Option (List ℕ)
unfolding used_extents physical_blocks
all_physical_blocks inode = O.map physical_blocks (used_extents inode)
