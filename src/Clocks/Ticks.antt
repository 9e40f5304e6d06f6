-- ===== src/Clocks/Ticks.antt =====
-- The hybrid clock's timestamps: where they increase, and where they do not.
use lion_fs.Base.{ℕ, zero, suc, ◌+◌, ◌≤◌, ◌<◌, ◌≡◌, true, arith, add_u64, u64_mod}
use lion_fs.Clocks.Hlc.{
  Hlc, tick, observe, merge_logical, bump_logical, as_ns, tick_ns, is_after, hlc_logical_cap,
}

-- Every local tick gives a later timestamp, whatever the wall reads, as long as the physical part
-- does not overflow.
pub is_after-tick :
    (h : Hlc) (wall : ℕ) → h.physical + 1000000 < u64_mod → is_after (tick h wall) h ≡ true
unfolding is_after tick bump_logical add_u64
is_after-tick h wall lt = ground arith

-- A received timestamp moves the clock after its own time and after the sender's, if both logical
-- counters are below the cap.
pub is_after-observe :
    (h remote : Hlc) (wall : ℕ)
    → h.logical < hlc_logical_cap
    → remote.logical < hlc_logical_cap
    → (is_after (observe h remote wall) h ≡ true) × (is_after (observe h remote wall) remote ≡ true)
unfolding is_after observe merge_logical bump_logical
is_after-observe h remote wall lt lr = ground arith

-- With the logical counter at the cap, and the wall and the sender not ahead, a received timestamp
-- moves the clock back.
pub observe_regresses :
    (h remote : Hlc) (wall : ℕ)
    → h.logical ≡ hlc_logical_cap
    → remote.physical < h.physical
    → wall ≤ h.physical
    → is_after h (observe h remote wall) ≡ true
unfolding is_after observe merge_logical bump_logical
observe_regresses h remote wall cap lr lw = ground arith

-- Ticks that all read the same wall.
unfoldable pub ticks : ℕ → ℕ → Hlc → Hlc
unfolding tick
ticks zero wall h = h
ticks (suc n) wall h = tick (ticks n wall h) wall

-- The first of them moves to the wall, every later one counts.
ticks-logical :
    (n : ℕ) (h : Hlc) (wall : ℕ)
    → h.physical < wall
    → n ≤ hlc_logical_cap
    → ((ticks (suc n) wall h).physical ≡ wall) × ((ticks (suc n) wall h).logical ≡ n)
unfolding ticks tick bump_logical
ticks-logical zero h wall lt le = ground arith
ticks-logical (suc n) h wall lt le =
    counted (ticks (suc n) wall h) (ticks-logical n h wall lt (omega arith))
  where
    counted :
        (k : Hlc)
        → (k.physical ≡ wall) × (k.logical ≡ n)
        → ((tick k wall).physical ≡ wall) × ((tick k wall).logical ≡ suc n)
    counted k e = ground arith

packed_below :
    (k : Hlc) (wall n d : ℕ)
    → (k.physical ≡ wall) × (k.logical ≡ n)
    → 0 < d
    → d < n
    → wall + n < u64_mod
    → (tick_ns k (wall + d)).1 < as_ns k
unfolding tick_ns tick as_ns add_u64
packed_below k wall n d e pos lt bound = ground arith

-- From a clock behind the wall, n + 1 ticks at one reading of the wall, n at most the cap, and then
-- a tick when the wall has advanced by d, above 0 and below n: the packed timestamp of this tick is
-- below the one that the ticks before it reached, unless that one overflows.
pub tick_ns_regresses :
    (h : Hlc) (wall n d : ℕ)
    → h.physical < wall
    → n ≤ hlc_logical_cap
    → 0 < d
    → d < n
    → wall + n < u64_mod
    → (tick_ns (ticks (suc n) wall h) (wall + d)).1 < (tick_ns (ticks n wall h) wall).1
unfolding tick_ns ticks
tick_ns_regresses h wall n d behind le pos lt bound =
    packed_below (ticks (suc n) wall h) wall n d (ticks-logical n h wall behind le) pos lt bound
