-- ===== src/Extents/Validation.antt =====
-- extent.rs: the on-disk check of one extent, and the overlap of two.
use lion_fs.Base.{ℕ, ◌+◌, ◌≤◌, ◌<◌, ◌≡◌, ◌↔◌, true, none, arith, max, u64_mod}
use lion_fs.Extents.{Extent, validate, physical_ranges_overlap}
use lion_fs.Extents.Lookup.{IsWellFormed}

-- For words, `validate` accepts exactly the extents that are not empty, whose ranges do not wrap,
-- and whose physical range lies on the device.
pub validate_iff :
    (e : Extent) (total_blocks : ℕ)
    → e.logical_start < u64_mod
    → e.physical_start < u64_mod
    → e.length < u64_mod
    → total_blocks < u64_mod
    → (validate e total_blocks ≡ none)
      ↔ ((0 < e.length) × IsWellFormed e × (e.physical_start + e.length ≤ total_blocks))
unfolding validate
validate_iff e total_blocks a b c d = (λ h. ground arith, λ h. ground arith)

-- Two extents that are not empty and do not wrap overlap exactly if some block lies in both.
pub physical_ranges_overlap_iff :
    (x y : Extent)
    → IsWellFormed x
    → IsWellFormed y
    → 0 < x.length
    → 0 < y.length
    → (physical_ranges_overlap x y ≡ true) ↔ (
        (p : ℕ) × (x.physical_start ≤ p)
        × (p < x.physical_start + x.length)
        × (y.physical_start ≤ p)
        × (p < y.physical_start + y.length))
unfolding physical_ranges_overlap
physical_ranges_overlap_iff x y wx wy hx hy = (
  λ h. (
    max x.physical_start y.physical_start,
    ground arith,
    ground arith,
    ground arith,
    ground arith,
  ),
  λ h. ground arith,
)
