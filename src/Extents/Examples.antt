-- ===== src/Extents/Examples.antt =====
-- Concrete extents: tests of the definitions, and the theorems at inputs that meet their hypotheses.
use lion_fs.Base.{ℕ, ◌≡◌, refl, none, List, [], ◌∷◌, arith, if◌then◌else◌, leb, ltb, ◌&&◌}
use lion_fs.Extents.{Extent, Inode, coalesce, remove_range, find_physical}
use lion_fs.Extents.Pieces.{find_physical-remove_range}
use lion_fs.Extents.Coalesce.{total_length, find_physical-coalesce}

abbrev ext : ℕ → ℕ → ℕ → Extent
ext l p n = record { logical_start = l; physical_start = p; length = n }

abbrev three : List Extent
three = ext 10 110 5 ∷ ext 0 100 10 ∷ ext 20 300 4 ∷ []

merged_three : coalesce three ≡ ext 0 100 15 ∷ ext 20 300 4 ∷ []
unfolding coalesce
merged_three = refl

punched : remove_range (ext 0 100 10) 3 6 ≡ ext 0 100 3 ∷ ext 6 106 4 ∷ []
unfolding remove_range
punched = refl

find_physical-remove_range_example :
    find_physical (remove_range (ext 0 100 10) 3 6) 7
    ≡ (if leb 3 7 && ltb 7 6 then none else find_physical (ext 0 100 10 ∷ []) 7)
find_physical-remove_range_example =
    find_physical-remove_range (ext 0 100 10) 3 6 7 (omega arith) (omega arith)

find_physical-coalesce_example :
    ((b : ℕ) → find_physical (coalesce three) b ≡ find_physical three b)
    × (total_length (coalesce three) ≡ total_length three)
find_physical-coalesce_example = find_physical-coalesce three (omega arith) (omega arith)

abbrev small_inode : Inode
small_inode = record { extent_count = 2; extents = three }
