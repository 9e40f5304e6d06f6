-- ===== src/Clocks/Hlc.antt =====
-- core.rs: the hybrid logical clock. Wall readings are u64 nanoseconds.
use lion_fs.Base.{
  ℕ, suc, ◌-◌, max, Bool, ◌&&◌, ◌||◌, Option, none, some, ltb, leb, ◌==◌, if◌then◌else◌, add_u64,
}

pub record Hlc : Type 0 where
  pub physical : ℕ
  pub logical : ℕ

abbrev pub hlc_logical_cap : ℕ
hlc_logical_cap = 999999

abbrev pub epoch : Hlc
epoch = record { physical = 0; logical = 0 }

unfoldable pub bump_logical : Hlc → Hlc
unfolding add_u64
bump_logical h =
    if leb hlc_logical_cap h.logical
    then record { physical = add_u64 h.physical 1000000; logical = 0 }
    else record h { logical = suc h.logical }

unfoldable pub tick : Hlc → ℕ → Hlc
unfolding bump_logical
tick h wall =
    if ltb h.physical wall then record { physical = wall; logical = 0 } else bump_logical h

-- The logical part; the physical part that the bump leaves is overwritten by `merged`.
unfoldable pub merge_logical : Hlc → Hlc → ℕ → Hlc
unfolding bump_logical
merge_logical h remote merged =
    if (merged == h.physical) && (merged == remote.physical)
    then bump_logical (record h { logical = max h.logical remote.logical })
    else if merged == h.physical
    then bump_logical h
    else if merged == remote.physical
    then bump_logical (record h { logical = remote.logical })
    else record h { logical = 0 }

unfoldable pub observe : Hlc → Hlc → ℕ → Hlc
unfolding merge_logical
observe h remote wall =
    let merged = max (max h.physical remote.physical) wall in
    record (merge_logical h remote merged) { physical = merged }

unfoldable pub as_ns : Hlc → ℕ
unfolding add_u64
as_ns h = add_u64 h.physical h.logical

unfoldable pub tick_ns : Hlc → ℕ → Hlc × ℕ
unfolding tick as_ns
tick_ns h wall = (tick h wall, as_ns (tick h wall))

-- The derived order is lexicographic.
unfoldable pub is_after : Hlc → Hlc → Bool
is_after h other =
    ltb other.physical h.physical || ((h.physical == other.physical) && ltb other.logical h.logical)

unfoldable pub skew_ns : Hlc → ℕ → Option ℕ
skew_ns h wall = if leb wall h.physical then some (h.physical - wall) else none
