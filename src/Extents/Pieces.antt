-- ===== src/Extents/Pieces.antt =====
-- split.rs: the pieces of an extent map the blocks that they keep as the extent did.
use lion_fs.Base.{ℕ, ◌+◌, ◌≤◌, ◌≡◌, ◌⊎◌, none, some, [], ◌∷◌, arith, if◌then◌else◌, ltb, leb, ◌&&◌}
use lion_fs.Extents.{Extent, split_at, remove_range, coalesce, find_physical}
use lion_fs.Extents.Lookup.{IsWellFormed}

-- After a hole is punched, the blocks from `start` up to `end` are unmapped, and every other block
-- is mapped as before.
pub find_physical-remove_range :
    (e : Extent) (start end b : ℕ)
    → IsWellFormed e
    → start ≤ end
    → find_physical (remove_range e start end) b
      ≡ (if leb start b && ltb b end then none else find_physical (e ∷ []) b)
unfolding remove_range find_physical
find_physical-remove_range e start end b w h = ground arith

-- Splitting succeeds exactly strictly inside the extent.
pub split_at_iff :
    (e : Extent) (b : ℕ)
    → IsWellFormed e
    → split_at e b ≡ none
    → (b ≤ e.logical_start) ⊎ (e.logical_start + e.length ≤ b)
unfolding split_at
split_at_iff e b w h = ground arith

-- Coalescing the two pieces of a split gives the extent back.
pub coalesce-split_at :
    (e : Extent) (b : ℕ) {x y : Extent}
    → IsWellFormed e
    → split_at e b ≡ some (x, y)
    → coalesce (x ∷ y ∷ []) ≡ e ∷ []
unfolding split_at coalesce
coalesce-split_at e b w h = ground arith
