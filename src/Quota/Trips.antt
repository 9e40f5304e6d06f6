-- ===== src/Quota/Trips.antt =====
-- The times at which soft limits tripped.
use lion_fs.Base.{ℕ, ◌+◌, ◌-◌, ◌≤◌, ◌<◌, ◌≡◌, refl, Option, none, some, arith, u64_max, sat_add}
use lion_fs.Quota.{Entry, charge_usage, release_usage, trip, clear}

-- A trip is recorded exactly while the soft limit is exceeded.
abbrev pub IsTracked : Option ℕ → ℕ → Option ℕ → Type 0
IsTracked none used since = since ≡ none
IsTracked (some soft) used none = used ≤ soft
IsTracked (some soft) used (some at) = soft < used

pub record AreTripsTracked (e : Entry) : Type 0 where
  pub space : IsTracked e.0.soft_space_limit e.1.used_bytes e.1.soft_space_since
  pub inodes : IsTracked e.0.soft_inodes e.1.used_inodes e.1.soft_inodes_since

trip-IsTracked :
    (soft : Option ℕ) (used more : ℕ) (since : Option ℕ) (now : ℕ)
    → used ≤ more
    → IsTracked soft used since
    → IsTracked soft more (trip soft more since now)
unfolding trip
trip-IsTracked none used more since now h t = t
trip-IsTracked (some soft) used more none now h t = ground arith
trip-IsTracked (some soft) used more (some at) now h t = ground arith

clear-IsTracked :
    (soft : Option ℕ) (used less : ℕ) (since : Option ℕ)
    → less ≤ used
    → IsTracked soft used since
    → IsTracked soft less (clear soft less since)
unfolding clear
clear-IsTracked none used less since h t = t
clear-IsTracked (some soft) used less none h t = ground arith
clear-IsTracked (some soft) used less (some at) h t = ground arith

clear-trip :
    (soft : Option ℕ) (used more : ℕ) (since : Option ℕ) (now : ℕ)
    → used ≤ more
    → IsTracked soft used since
    → clear soft used (trip soft more since now) ≡ since
unfolding clear trip
clear-trip none used more since now h t = refl
clear-trip (some soft) used more none now h t = ground arith
clear-trip (some soft) used more (some at) now h t = ground arith

-- Charges and releases of amounts that fit in a u64 keep the recorded trips exact: a soft limit
-- has a trip time exactly while it is exceeded.
pub charge_and_release-AreTripsTracked :
    (e : Entry) (now bytes inodes : ℕ)
    → AreTripsTracked e
    → e.1.used_bytes ≤ u64_max
    → e.1.used_inodes ≤ u64_max
    → AreTripsTracked (e.0, charge_usage e.0 now bytes inodes e.1)
      × AreTripsTracked (e.0, release_usage e.0 bytes inodes e.1)
unfolding charge_usage release_usage
charge_and_release-AreTripsTracked e now bytes inodes t fb fi = (
  record {
    space =
        trip-IsTracked e.0.soft_space_limit e.1.used_bytes (sat_add e.1.used_bytes bytes)
          e.1.soft_space_since now (ground arith) t.space;
    inodes =
        trip-IsTracked e.0.soft_inodes e.1.used_inodes (sat_add e.1.used_inodes inodes)
          e.1.soft_inodes_since now (ground arith) t.inodes;
  },
  record {
    space =
        clear-IsTracked e.0.soft_space_limit e.1.used_bytes (e.1.used_bytes - bytes)
          e.1.soft_space_since (omega arith) t.space;
    inodes =
        clear-IsTracked e.0.soft_inodes e.1.used_inodes (e.1.used_inodes - inodes)
          e.1.soft_inodes_since (omega arith) t.inodes;
  },
)

sat_add_sub : (a b : ℕ) → a + b ≤ u64_max → sat_add a b - b ≡ a
sat_add_sub a b h = ground arith

-- Releasing what was charged restores the usage with its trip times, if the sums fit in a u64 and
-- the trip times were exact.
pub release_usage-charge_usage :
    (e : Entry) (now bytes inodes : ℕ)
    → AreTripsTracked e
    → e.1.used_bytes + bytes ≤ u64_max
    → e.1.used_inodes + inodes ≤ u64_max
    → release_usage e.0 bytes inodes (charge_usage e.0 now bytes inodes e.1) ≡ e.1
unfolding charge_usage release_usage
release_usage-charge_usage e now bytes inodes t fb fi =
    let s = e.0 in
    let u = e.1 in
    rw (sat_add_sub u.used_bytes bytes fb, sat_add_sub u.used_inodes inodes fi)
      (rw (
        clear-trip s.soft_space_limit u.used_bytes (sat_add u.used_bytes bytes) u.soft_space_since
            now (ground arith) t.space,
        clear-trip s.soft_inodes u.used_inodes (sat_add u.used_inodes inodes) u.soft_inodes_since
            now (ground arith) t.inodes,
      ))
