-- ===== src/Zns/Examples.antt =====
-- A device of three zones: tests of the placement, and the theorems at concrete inputs.
use lion_fs.Base.{ℕ, ◌*◌, ◌≡◌, refl, true, none, some, List, [], ◌∷◌, arith}
use lion_fs.Zns.{
  Zone, ZoneState, empty, active, offline, ZoneTable, layout, plan_append, get, reset_zone,
  commit_placed_offset, is_appendable,
}
use lion_fs.Zns.Table.{IsValid}
use lion_fs.Zns.Disjoint.{ZonesDisjoint, place_all, AllApart, place_all-AllApart, Request}
use lion_fs.Zns.Device.{reconcile, apply, apply-IsValid, commit_then_reset_revives}

abbrev zone : ℕ → ℕ → ZoneState → Zone
zone id wp state = record {
  id = id;
  start = id * 100;
  capacity = 100;
  write_pointer = wp;
  state = state;
}

abbrev table : ZoneTable
table = record {
  zones = zone 0 90 active ∷ zone 1 0 empty ∷ zone 2 0 offline ∷ [];
  appends_planned = 0;
  zones_switched = 0;
}

layout_test : layout 0 100 1 ≡ zone 0 0 empty ∷ []
unfolding layout
layout_test = refl

-- Zone 0 is past the switch, so the append goes to the empty zone 1.
switch_test : (plan_append table (some 0) 5).1 ≡ some (record { zone = 1; offset = 100; len = 5 })
unfolding plan_append
switch_test = refl

abbrev requests : List Request
requests = (some 0, 5) ∷ (some 1, 90) ∷ (some 1, 8) ∷ (none, 50) ∷ []

table-IsValid : IsValid table.zones
table-IsValid = omega arith

table-ZonesDisjoint : ZonesDisjoint table.zones
unfolding get
table-ZonesDisjoint i j x y hx hy ne = ground arith

place_all-AllApart_example : AllApart (place_all table requests).1
place_all-AllApart_example = place_all-AllApart table requests table-IsValid table-ZonesDisjoint

-- A report that is out of order and repeats a zone.
abbrev report : List Zone
report = zone 2 0 empty ∷ zone 0 40 active ∷ zone 2 7 active ∷ []

apply-IsValid_example : IsValid (apply table (reconcile report)).zones
apply-IsValid_example = apply-IsValid table (reconcile report) table-IsValid (omega arith)

commit_then_reset_revives_example :
    (y : Zone) × (get 2 (reset_zone (commit_placed_offset table 2 60 40) 2).zones ≡ some y)
    × (y.state ≡ empty)
    × (is_appendable y ≡ true)
commit_then_reset_revives_example =
    commit_then_reset_revives table 2 60 40 (zone 2 0 offline) (unfold get in refl) refl
      (omega arith) (omega arith) (omega arith)
