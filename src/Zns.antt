-- ===== src/Zns.antt =====
-- crates/lionfs/src/media/zns.rs: the table of the zones of a zoned device, and the placement of
-- appends. The table is a `BTreeMap` from ids, here the list of its zones in the order of their
-- ids; a method that locks the table is a function from the table to the next.
pub mod Table
pub mod Plan
pub mod Disjoint
pub mod Device
mod Examples
use lion_fs.Base.{
  ℕ, zero, suc, ◌+◌, ◌-◌, ◌*◌, ◌/◌, ◌%◌, Bool, true, false, not, ◌&&◌, ◌||◌, Option, none, some,
  List, [], ◌∷◌, ltb, leb, ◌==◌, if◌then◌else◌, keep, map, min, add_u64, u64_mod, u32_mod,
}

pub data ZoneState : Type 0 where
  empty active full read_only offline : ZoneState

pub record Zone : Type 0 where
  pub id : ℕ
  pub start : ℕ
  pub capacity : ℕ
  pub write_pointer : ℕ
  pub state : ZoneState

-- `saturating_sub`
abbrev pub free_bytes : Zone → ℕ
free_bytes z = z.capacity - z.write_pointer

-- Basis points; the product of u64 wraps, and the quotient is cut to u32.
unfoldable pub fill_bps : Zone → ℕ
fill_bps z =
    if z.capacity == 0 then 10000 else (z.write_pointer * 10000 % u64_mod / z.capacity) % u32_mod

abbrev pub is_empty : ZoneState → Bool
is_empty empty = true
is_empty _ = false

abbrev pub is_open : ZoneState → Bool
is_open empty = true
is_open active = true
is_open _ = false

unfoldable pub is_appendable : Zone → Bool
is_appendable z = is_open z.state && ltb 0 (free_bytes z)

abbrev pub zone_fill_switch_bps : ℕ
zone_fill_switch_bps = 8500

pub record ZoneTable : Type 0 where
  pub zones : List Zone
  pub appends_planned : ℕ
  pub zones_switched : ℕ

pub record AppendPlan : Type 0 where
  pub zone : ℕ
  pub offset : ℕ
  pub len : ℕ

unfoldable pub new : ZoneTable
new = record { zones = []; appends_planned = 0; zones_switched = 0 }

-- `BTreeMap::insert` under the zone's id.
unfoldable pub insert : Zone → List Zone → List Zone
insert z [] = z ∷ []
insert z (y ∷ ys) =
    if ltb z.id y.id then z ∷ y ∷ ys else if z.id == y.id then z ∷ ys else y ∷ insert z ys

unfoldable pub get : ℕ → List Zone → Option Zone
get id [] = none
get id (z ∷ zs) = if z.id == id then some z else get id zs

-- A change through `get_mut`.
unfoldable pub modify : ℕ → (Zone → Zone) → List Zone → List Zone
modify id f [] = []
modify id f (z ∷ zs) = if z.id == id then f z ∷ zs else z ∷ modify id f zs

unfoldable pub upsert_zone : ZoneTable → Zone → ZoneTable
unfolding insert
upsert_zone t z = record t { zones = insert z t.zones }

unfoldable pub insert_all : List Zone → List Zone → List Zone
unfolding insert
insert_all [] zs = zs
insert_all (z ∷ report) zs = insert_all report (insert z zs)

unfoldable pub reconcile_from_report : ZoneTable → List Zone → ZoneTable
unfolding insert_all
reconcile_from_report t report = record t { zones = insert_all report [] }

-- The zone can take an append of `len` bytes.
unfoldable pub fits : ℕ → Zone → Bool
unfolding is_appendable
fits len z = is_appendable z && leb len (free_bytes z)

unfoldable pub under_switch : Zone → Bool
unfolding fill_bps
under_switch z = ltb (fill_bps z) zone_fill_switch_bps

-- The two updates of a zone by an append: the second is that of the fresh zone.
unfoldable pub advance : ℕ → Zone → Zone
unfolding add_u64
advance len z =
    let wp = add_u64 z.write_pointer len in
    record z {
      write_pointer = wp;
      state = if leb z.capacity wp then full else (if is_empty z.state then active else z.state);
    }

unfoldable pub advance_fresh : ℕ → Zone → Zone
unfolding add_u64
advance_fresh len z =
    let wp = add_u64 z.write_pointer len in
    record z { write_pointer = wp; state = if leb z.capacity wp then full else active }

unfoldable pub plan_for : Zone → ℕ → ℕ → AppendPlan
unfolding add_u64
plan_for z id len = record { zone = id; offset = add_u64 z.start z.write_pointer; len = len }

-- The append to zone `id`, whose zone is `z`; `fetch_add` wraps.
unfoldable pub append_to : ZoneTable → ℕ → Zone → ℕ → ZoneTable × Option AppendPlan
unfolding modify advance plan_for add_u64
append_to t id z len = (
  record t {
    zones = modify id (advance len) t.zones;
    appends_planned = add_u64 t.appends_planned 1;
  },
  some (plan_for z id len),
)

unfoldable pub append_to_fresh : ZoneTable → ℕ → Zone → ℕ → ZoneTable × Option AppendPlan
unfolding modify advance_fresh plan_for add_u64
append_to_fresh t id z len = (
  record {
    zones = modify id (advance_fresh len) t.zones;
    appends_planned = add_u64 t.appends_planned 1;
    zones_switched = add_u64 t.zones_switched 1;
  },
  some (plan_for z id len),
)

abbrev pub ids : List Zone → List ℕ
ids zs = map (λ z. z.id) zs

-- `Iterator::min`
unfoldable pub least : List ℕ → Option ℕ
least [] = none
least (i ∷ is) = elim (least is) [ none ↦ some i | some j ↦ some (min i j) ]

-- The last resort: the lowest id among all zones that fit.
unfoldable pub append_fallback : ZoneTable → ℕ → ZoneTable × Option AppendPlan
unfolding least fits get append_to
append_fallback t len = elim (least (ids (keep (fits len) t.zones))) [
  | none ↦ (t, none)
  | some id ↦ elim (get id t.zones) [ none ↦ (t, none) | some z ↦ append_to t id z len ]
]

-- The loop over the candidates takes the first that is empty.
unfoldable pub append_switch : ZoneTable → List ℕ → ℕ → ZoneTable × Option AppendPlan
unfolding get append_to_fresh append_fallback
append_switch t [] len = append_fallback t len
append_switch t (id ∷ candidates) len = elim (get id t.zones) [
  | none ↦ append_switch t candidates len
  | some z ↦ elim (is_empty z.state) [
    | true ↦ append_to_fresh t id z len
    | false ↦ append_switch t candidates len
  ]
]

unfoldable pub candidates : ZoneTable → ℕ → List ℕ
unfolding fits under_switch
candidates t len = ids (keep (λ z. fits len z && under_switch z) t.zones)

-- The file's own zone first; then an empty one; then any.
unfoldable pub plan_append : ZoneTable → Option ℕ → ℕ → ZoneTable × Option AppendPlan
unfolding get append_to append_switch candidates fits under_switch
plan_append t none len = append_switch t (candidates t len) len
plan_append t (some id) len = elim (get id t.zones) [
  | none ↦ append_switch t (candidates t len) len
  | some z ↦
      if fits len z && under_switch z
      then append_to t id z len
      else append_switch t (candidates t len) len
]

-- The zone after a device reported where it placed an append.
unfoldable pub place : ℕ → ℕ → Zone → Zone
unfolding add_u64
place placed len z =
    let wp = add_u64 placed len in
    if leb z.capacity wp
    then record z { write_pointer = z.capacity; state = full }
    else if ltb z.write_pointer wp
    then record z { write_pointer = wp }
    else z

unfoldable pub commit_placed_offset : ZoneTable → ℕ → ℕ → ℕ → ZoneTable
unfolding modify place
commit_placed_offset t id placed len = record t { zones = modify id (place placed len) t.zones }

unfoldable pub reset : Zone → Zone
reset z = elim z.state [
  | offline ↦ z
  | read_only ↦ z
  | _ ↦ record z { write_pointer = 0; state = empty }
]

unfoldable pub reset_zone : ZoneTable → ℕ → ZoneTable
unfolding modify reset
reset_zone t id = record t { zones = modify id reset t.zones }

unfoldable pub mark_offline : ZoneTable → ℕ → ZoneTable
unfolding modify
mark_offline t id = record t { zones = modify id (λ z. record z { state = offline }) t.zones }

-- `n` zones from id `i` on.
unfoldable pub layout_from : ℕ → ℕ → ℕ → ℕ → List Zone
unfolding add_u64
layout_from base zone_size i zero = []
layout_from base zone_size i (suc n) =
    record {
      id = i;
      start = add_u64 base (i * zone_size % u64_mod);
      capacity = zone_size;
      write_pointer = 0;
      state = empty;
    }
    ∷ layout_from base zone_size (suc i) n

unfoldable pub layout : ℕ → ℕ → ℕ → List Zone
unfolding layout_from
layout base zone_size n = layout_from base zone_size 0 n
