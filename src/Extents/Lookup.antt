-- ===== src/Extents/Lookup.antt =====
-- Well-formed extents, and what a list of extents maps a logical block to.
use lion_fs.Base.{
  ℕ, ◌+◌, ◌≤◌, ◌<◌, ◌≡◌, refl, ◌⊎◌, true, none, List, [], ◌∷◌, ◌++◌, arith, u64_mod, All,
}
use lion_fs.Extents.{Extent, contains_logical, find_physical}

-- Neither range of the extent wraps.
pub record IsWellFormed (e : Extent) : Type 0 where
  pub logical_fits : e.logical_start + e.length < u64_mod
  pub physical_fits : e.physical_start + e.length < u64_mod

-- The block lies in the extent.
abbrev pub Covers : Extent → ℕ → Type 0
Covers e b = (e.logical_start ≤ b) × (b < e.logical_start + e.length)

-- No logical block lies in both.
abbrev pub IsDisjoint : Extent → Extent → Type 0
IsDisjoint a b =
    (a.logical_start + a.length ≤ b.logical_start) ⊎ (b.logical_start + b.length ≤ a.logical_start)

abbrev pub IsPairwiseDisjoint : List Extent → Type 0
IsPairwiseDisjoint [] = Unit
IsPairwiseDisjoint (e ∷ es) = All (IsDisjoint e) es × IsPairwiseDisjoint es

pub contains_logical-Covers :
    (e : Extent) (b : ℕ) → IsWellFormed e → contains_logical e b ≡ true → Covers e b
unfolding contains_logical
contains_logical-Covers e b w h = ground arith

pub contains_logical_of_Covers :
    (e : Extent) (b : ℕ) → IsWellFormed e → Covers e b → contains_logical e b ≡ true
unfolding contains_logical
contains_logical_of_Covers e b w h = ground arith

pub find_physical-append :
    (xs ys : List Extent) (b : ℕ)
    → find_physical xs b ≡ none
    → find_physical (xs ++ ys) b ≡ find_physical ys b
unfolding find_physical
find_physical-append [] ys b h = refl
find_physical-append (x ∷ xs) ys b h = ground (arith, find_physical-append xs ys b)
