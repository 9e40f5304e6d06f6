-- ===== src/Smr.antt =====
-- crates/lionfs/src/media/smr.rs: bands of a shingled disk, each written in sequence by one file.
-- A call of plan_sequential takes and releases the mutexes several times: it is a sequence of
-- steps, each under a mutex, between which the steps of other calls may stand. The other operations
-- use their mutex once.
mod Assignment
pub mod Confinement
pub mod Interleaved
mod Examples
use lion_fs.Base.{
  ℕ, zero, suc, ◌+◌, ◌-◌, ◌*◌, ◌%◌, min, Bool, true, false, ◌&&◌, ◌||◌, not, Option, none, some,
  List, [], ◌∷◌, map, ltb, leb, ◌==◌, if◌then◌else◌, keep, add_u64, u64_mod, length,
}

pub record Band : Type 0 where
  pub id : ℕ
  pub start : ℕ
  pub capacity : ℕ
  pub write_pointer : ℕ
  pub reclaiming : Bool

abbrev pub default_band_size : ℕ
default_band_size = 268435456

unfoldable pub free_bytes : Band → ℕ
free_bytes b = b.capacity - b.write_pointer

unfoldable pub is_writable : Band → Bool
unfolding free_bytes
is_writable b = not b.reclaiming && ltb 0 (free_bytes b)

-- The bands by id, and the band that each file writes to.
pub record BandAllocator : Type 0 where
  pub bands : List Band
  pub assignment : List (ℕ × ℕ)

pub record RandomWriteRejected : Type 0 where
  pub band : ℕ
  pub offset : ℕ
  pub pointer : ℕ

unfoldable pub new : BandAllocator
new = record { bands = []; assignment = [] }

unfoldable pub insert : Band → List Band → List Band
insert b [] = b ∷ []
insert b (c ∷ cs) =
    if ltb b.id c.id then b ∷ c ∷ cs else if b.id == c.id then b ∷ cs else c ∷ insert b cs

unfoldable pub band : ℕ → List Band → Option Band
band id [] = none
band id (b ∷ bs) = if b.id == id then some b else band id bs

unfoldable pub modify : ℕ → (Band → Band) → List Band → List Band
modify id f [] = []
modify id f (b ∷ bs) = if b.id == id then f b ∷ bs else b ∷ modify id f bs

unfoldable pub add_band : BandAllocator → Band → BandAllocator
unfolding insert
add_band a b = record a { bands = insert b a.bands }

-- The table of files.
unfoldable pub assigned_to : ℕ → List (ℕ × ℕ) → Option ℕ
assigned_to file [] = none
assigned_to file ((f, b) ∷ qs) = if f == file then some b else assigned_to file qs

unfoldable pub assign : ℕ → ℕ → List (ℕ × ℕ) → List (ℕ × ℕ)
assign file id [] = (file, id) ∷ []
assign file id ((f, b) ∷ qs) = if f == file then (f, id) ∷ qs else (f, b) ∷ assign file id qs

unfoldable pub is_assigned : ℕ → List (ℕ × ℕ) → Bool
is_assigned id [] = false
is_assigned id ((f, b) ∷ qs) = (b == id) || is_assigned id qs

-- The band can take `len` bytes.
unfoldable pub fits : ℕ → Band → Bool
unfolding is_writable free_bytes
fits len b = is_writable b && leb len (free_bytes b)

unfoldable pub try_write_band : List Band → ℕ → ℕ → List Band × Option (ℕ × ℕ)
unfolding band modify fits add_u64
try_write_band bs id len = elim (band id bs) [
  | none ↦ (bs, none)
  | some b ↦
      if fits len b
      then (
        modify id (λ c. record c { write_pointer = add_u64 c.write_pointer len }) bs,
        some (id, add_u64 b.start b.write_pointer),
      )
      else (bs, none)
]

unfoldable pub least : List ℕ → Option ℕ
least [] = none
least (i ∷ is) = elim (least is) [ none ↦ some i | some j ↦ some (min i j) ]

-- The lowest band that fits and belongs to no file of the table.
unfoldable pub candidate : List (ℕ × ℕ) → List Band → ℕ → Option ℕ
unfolding least fits is_assigned
candidate assigned bs len =
    least (map (λ b. b.id) (keep (λ b. fits len b && not (is_assigned b.id assigned)) bs))

-- Where a call stands between two uses of the mutexes, with the local variables that are live there.
pub data Phase : Type 0 where
  start : Phase
  fresh : Phase  -- before the assigned bands are collected
  collected : List (ℕ × ℕ) → Phase  -- the table as it was when they were collected
  chosen : ℕ → Phase  -- the candidate is found, the mutex of the bands released
  written : ℕ → ℕ × ℕ → Phase  -- the candidate's write pointer is moved, the table not yet written
  returned : Option (ℕ × ℕ) → Phase

-- One step of a call for `file` and `len`, under a mutex. In the first, the guard of the `if let`
-- keeps the table locked while the file's band is written; each other step uses one mutex.
unfoldable pub plan_sequential : ℕ → ℕ → BandAllocator → Phase → BandAllocator × Phase
unfolding assigned_to try_write_band candidate assign
plan_sequential file len a start = elim (assigned_to file a.assignment) [
  | none ↦ (a, fresh)
  | some id ↦
      let (bs, placed) = try_write_band a.bands id len in
      (record a { bands = bs }, elim placed [ none ↦ fresh | some place ↦ returned (some place) ])
]
plan_sequential file len a fresh = (a, collected a.assignment)
plan_sequential file len a (collected assigned) =
    (a, elim (candidate assigned a.bands len) [ none ↦ returned none | some id ↦ chosen id ])
plan_sequential file len a (chosen id) =
    let (bs, placed) = try_write_band a.bands id len in
    (record a { bands = bs }, elim placed [ none ↦ returned none | some place ↦ written id place ])
plan_sequential file len a (written id place) =
    (record a { assignment = assign file id a.assignment }, returned (some place))
plan_sequential file len a (returned result) = (a, returned result)

-- Steps of one call, with none of another call between them.
unfoldable pub run_alone : ℕ → ℕ → ℕ → BandAllocator × Phase → BandAllocator × Phase
unfolding plan_sequential
run_alone zero file len (a, p) = (a, p)
run_alone (suc n) file len (a, p) = run_alone n file len (plan_sequential file len a p)

-- `none` for accepted.
unfoldable pub validate_write : BandAllocator → ℕ → ℕ → ℕ → Option RandomWriteRejected
unfolding band
validate_write a id offset len = elim (band id a.bands) [
  | none ↦ none
  | some b ↦
      if b.reclaiming || not (offset - b.start == b.write_pointer)
      then some (record { band = id; offset = offset; pointer = b.write_pointer })
      else none
]

pub record SweepStep : Type 0 where
  pub band : ℕ
  pub live_bytes : ℕ
  pub target_band : Option ℕ

abbrev pub live_of : ℕ → List (ℕ × ℕ) → ℕ
live_of id [] = 0
live_of id ((i, live) ∷ ls) = if i == id then live else live_of id ls

-- At least half of the band is not live, and something was written.
unfoldable pub is_garbage_heavy : ℕ → Band → Bool
is_garbage_heavy live b =
    leb b.capacity ((b.capacity - live) * 2 % u64_mod) && ltb 0 b.write_pointer

unfoldable pub sweep : List (ℕ × ℕ) → List Band → List Band × List SweepStep
unfolding is_garbage_heavy
sweep live [] = ([], [])
sweep live (b ∷ bs) =
    let rest = sweep live bs in
    if is_garbage_heavy (live_of b.id live) b
    then (
      record b { reclaiming = true } ∷ rest.0,
      record { band = b.id; live_bytes = live_of b.id live; target_band = none } ∷ rest.1,
    )
    else (b ∷ rest.0, rest.1)

unfoldable pub plan_elevator_sweep : BandAllocator → List (ℕ × ℕ) → BandAllocator × List SweepStep
unfolding sweep
plan_elevator_sweep a live =
    let (bs, steps) = sweep live a.bands in (record a { bands = bs }, steps)

unfoldable pub finish_sweep : BandAllocator → ℕ → BandAllocator
unfolding modify
finish_sweep a id = record a {
  bands = modify id (λ b. record b { write_pointer = 0; reclaiming = false }) a.bands;
}

unfoldable pub band_count : BandAllocator → ℕ
band_count a = length a.bands

unfoldable pub layout_from : ℕ → ℕ → ℕ → ℕ → List Band
unfolding add_u64
layout_from base band_size i zero = []
layout_from base band_size i (suc n) =
    record {
      id = i;
      start = add_u64 base (i * band_size % u64_mod);
      capacity = band_size;
      write_pointer = 0;
      reclaiming = false;
    }
    ∷ layout_from base band_size (suc i) n

unfoldable pub layout : ℕ → ℕ → ℕ → List Band
unfolding layout_from
layout base band_size n = layout_from base band_size 0 n
