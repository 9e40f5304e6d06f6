-- ===== src/Zns/Disjoint.antt =====
-- Appends never overlap: over any sequence of placements, the byte ranges are pairwise disjoint.
use mathlib.Core.Path.{subst}
use native.Mathlib.Decide.{ℕ_discrete as dec_eq}
use lion_fs.Base.{
  ℕ, ◌+◌, ◌≤◌, ◌≡◌, ◌≢◌, refl, sym, ◌∙◌, ap, ◌⊎◌, inl, inr, true, Option, none, some, List, [], ◌∷◌,
  arith, All, All-imp, ==_self, ==_of_ne, add_u64-exact,
}
use lion_fs.Zns.{
  Zone, ZoneTable, AppendPlan, get, modify, fits, advance, advance_fresh, plan_for, plan_append,
}
use lion_fs.Zns.Table.{IsValidZone, IsValid, get-All, get-modify, modify-All_at, modify-IsSorted}
use lion_fs.Zns.Plan.{IsAppend, plan_append-Outcome}

-- The zones occupy disjoint parts of the device.
abbrev pub ZonesDisjoint : List Zone → Type 0
ZonesDisjoint zs =
    (i j : ℕ) (x y : Zone)
    → get i zs ≡ some x
    → get j zs ≡ some y
    → i ≢ j
    → (x.start + x.capacity ≤ y.start) ⊎ (y.start + y.capacity ≤ x.start)

-- The byte ranges of two appends share nothing.
abbrev pub IsApart : AppendPlan → AppendPlan → Type 0
IsApart p q = (p.offset + p.len ≤ q.offset) ⊎ (q.offset + q.len ≤ p.offset)

abbrev pub AllApart : List AppendPlan → Type 0
AllApart [] = Unit
AllApart (p ∷ ps) = All (IsApart p) ps × AllApart ps

-- A request: the file's zone, if it has one, and the number of bytes.
abbrev pub Request : Type 0
Request = Option ℕ × ℕ

unfoldable pub add_plan : Option AppendPlan → List AppendPlan → List AppendPlan
add_plan none ps = ps
add_plan (some p) ps = p ∷ ps

-- Placements in turn, with the plans in the order in which they are made.
unfoldable pub place_all : ZoneTable → List Request → ZoneTable × List AppendPlan
place_all t [] = (t, [])
place_all t ((hint, len) ∷ rs) =
    let (u, p) = plan_append t hint len in let (v, ps) = place_all u rs in (v, add_plan p ps)

-- An update of a zone by an append of `len` bytes that fit.
record Grows (len : ℕ) (f : Zone → Zone) : Type 0 where
  same_id : (z : Zone) → (f z).id ≡ z.id
  same_start : (z : Zone) → (f z).start ≡ z.start
  same_capacity : (z : Zone) → (f z).capacity ≡ z.capacity
  moves :
      (z : Zone) → IsValidZone z → fits len z ≡ true → (f z).write_pointer ≡ z.write_pointer + len

advance-Grows : (len : ℕ) → Grows len (advance len)
unfolding advance
advance-Grows len = record {
  same_id = λ z. refl;
  same_start = λ z. refl;
  same_capacity = λ z. refl;
  moves = λ z v h. fits_exact z v h;
}
  where
    fits_exact :
        (z : Zone)
        → IsValidZone z
        → fits len z ≡ true
        → (advance len z).write_pointer ≡ z.write_pointer + len
    fits_exact z v h = unfold fits in ground arith

advance_fresh-Grows : (len : ℕ) → Grows len (advance_fresh len)
unfolding advance_fresh
advance_fresh-Grows len = record {
  same_id = λ z. refl;
  same_start = λ z. refl;
  same_capacity = λ z. refl;
  moves = λ z v h. fits_exact z v h;
}
  where
    fits_exact :
        (z : Zone)
        → IsValidZone z
        → fits len z ≡ true
        → (advance_fresh len z).write_pointer ≡ z.write_pointer + len
    fits_exact z v h = unfold fits in ground arith

fits_room : (len : ℕ) (z : Zone) → fits len z ≡ true → z.write_pointer + len ≤ z.capacity
unfolding fits
fits_room len z h = ground arith

-- The plan lies in its zone, below the zone's write pointer.
record IsTaken (zs : List Zone) (p : AppendPlan) : Type 0 where
  zone_of : Zone
  found : get p.zone zs ≡ some zone_of
  above : zone_of.start ≤ p.offset
  below : p.offset + p.len ≤ zone_of.start + zone_of.write_pointer

-- One append, from a valid table.
module _ (zs : List Zone) (len id : ℕ) (f : Zone → Zone) (z : Zone) (v : IsValid zs)
    (g : Grows len f) (at : get id zs ≡ some z) (room : fits len z ≡ true) where
  z_valid : IsValidZone z
  z_valid = (get-All IsValidZone id zs v.zones_valid at).0

  modify-IsValid : IsValid (modify id f zs)
  modify-IsValid = record {
    sorted = modify-IsSorted id f zs g.same_id v.sorted;
    zones_valid = modify-All_at IsValidZone id f zs v.zones_valid at (record {
      within = omega (arith, g.moves z z_valid room, g.same_capacity z, fits_room len z room);
      addressable = omega (arith, g.same_start z, g.same_capacity z, z_valid.addressable);
    });
  }

  get_here : get id (modify id f zs) ≡ some (f z)
  get_here = rw (get-modify id id f zs g.same_id, ==_self id) (rw at)

  get_there : (j : ℕ) → id ≢ j → get j (modify id f zs) ≡ get j zs
  get_there j ne = rw (get-modify id j f zs g.same_id, ==_of_ne id j ne)

  -- A zone after the append has the bounds that it had before.
  get_before :
      (j : ℕ) {y : Zone}
      → get j (modify id f zs) ≡ some y
      → (x : Zone) × (get j zs ≡ some x)
        × (x.start ≡ y.start)
        × (x.capacity ≡ y.capacity)
        × (x.write_pointer ≤ y.write_pointer)
  get_before j {y} h = elim (dec_eq id j) [
    | yes same ↦
        let here : some (f z) ≡ some y = sym get_here ∙ ap (λ i. get i (modify id f zs)) same ∙ h in
        let e : f z ≡ y = ground arith in
        (
          z,
          ap (λ i. get i zs) (sym same) ∙ at,
          sym (g.same_start z) ∙ ap (λ (x : Zone). x.start) e,
          sym (g.same_capacity z) ∙ ap (λ (x : Zone). x.capacity) e,
          omega (arith, g.moves z z_valid room, ap (λ (x : Zone). x.write_pointer) e),
        )
    | no ne ↦ (y, sym (get_there j ne) ∙ h, refl, refl, omega arith)
  ]

  modify-ZonesDisjoint : ZonesDisjoint zs → ZonesDisjoint (modify id f zs)
  modify-ZonesDisjoint d i j x y hx hy ne =
      let bx = get_before i hx in
      let by = get_before j hy in
      omega (arith, d i j bx.0 by.0 bx.1 by.1 ne, bx.2, bx.3, by.2, by.3)

  offset_exact : (plan_for z id len).offset ≡ z.start + z.write_pointer
  offset_exact =
      unfold plan_for in
      add_u64-exact z.start z.write_pointer (omega (arith, z_valid.within, z_valid.addressable))

  same_zone : (p : AppendPlan) (t : IsTaken zs p) → id ≡ p.zone → z ≡ t.zone_of
  same_zone p t same =
      let both : some z ≡ some t.zone_of = sym at ∙ ap (λ i. get i zs) same ∙ t.found in
      ground arith

  plan-IsTaken : IsTaken (modify id f zs) (plan_for z id len)
  plan-IsTaken = record {
    zone_of = f z;
    found = unfold plan_for in get_here;
    above = omega (arith, offset_exact, g.same_start z);
    below = unfold plan_for in omega (arith, offset_exact, g.same_start z, g.moves z z_valid room);
  }

  IsTaken-modify : (p : AppendPlan) → IsTaken zs p → IsTaken (modify id f zs) p
  IsTaken-modify p t = elim (dec_eq id p.zone) [
    | yes same ↦
        let e : z ≡ t.zone_of = same_zone p t same in
        record {
          zone_of = f z;
          found = ap (λ i. get i (modify id f zs)) (sym same) ∙ get_here;
          above = omega (arith, g.same_start z, ap (λ (x : Zone). x.start) e);
          below = omega (
            arith,
            g.same_start z,
            g.moves z z_valid room,
            ap (λ (x : Zone). x.start) e,
            ap (λ (x : Zone). x.write_pointer) e,
            t.below,
          );
        }
    | no ne ↦ record {
      zone_of = t.zone_of;
      found = get_there p.zone ne ∙ t.found;
      above = t.above;
      below = t.below;
    }
  ]

  IsTaken-IsApart :
      ZonesDisjoint zs → (p : AppendPlan) → IsTaken zs p → IsApart p (plan_for z id len)
  IsTaken-IsApart d p t = elim (dec_eq id p.zone) [
    | yes same ↦
        let e : z ≡ t.zone_of = same_zone p t same in
        inl (
          omega (
            arith,
            offset_exact,
            ap (λ (x : Zone). x.start) e,
            ap (λ (x : Zone). x.write_pointer) e,
            t.below,
          ))
    | no ne ↦
        let bound = (get-All IsValidZone p.zone zs v.zones_valid t.found).0 in
        let plan_len : (plan_for z id len).len ≡ len = unfold plan_for in refl in
        omega (
          arith,
          d id p.zone z t.zone_of at t.found ne,
          bound.within,
          offset_exact,
          plan_len,
          fits_room len z room,
          t.below,
          t.above,
        )
  ]

-- What one placement does to the table.
record Placed (zs zs' : List Zone) (q : AppendPlan) : Type 0 where
  valid : IsValid zs'
  apart_zones : ZonesDisjoint zs'
  taken : IsTaken zs' q
  keeps : (p : AppendPlan) → IsTaken zs p → IsTaken zs' p
  apart : (p : AppendPlan) → IsTaken zs p → IsApart p q

moved_pointers_grow :
    (len : ℕ) (f : Zone → Zone) → (f ≡ advance len) ⊎ (f ≡ advance_fresh len) → Grows len f
moved_pointers_grow len f (inl e) = subst (Grows len) (sym e) (advance-Grows len)
moved_pointers_grow len f (inr e) = subst (Grows len) (sym e) (advance_fresh-Grows len)

IsAppend-Placed :
    (t : ZoneTable) (len : ℕ) (q : AppendPlan) (u : ZoneTable)
    → IsValid t.zones
    → ZonesDisjoint t.zones
    → IsAppend t len q u
    → Placed t.zones u.zones q
unfolding plan_for
IsAppend-Placed t len q u v d a =
    let zs = t.zones in
    let f = a.change in
    let z = a.zone_before in
    let g = moved_pointers_grow len f a.moves in
    rw (a.changed, a.plan)
      (record {
        valid = modify-IsValid zs len q.zone f z v g a.found a.has_room;
        apart_zones = modify-ZonesDisjoint zs len q.zone f z v g a.found a.has_room d;
        taken = plan-IsTaken zs len q.zone f z v g a.found a.has_room;
        keeps = IsTaken-modify zs len q.zone f z v g a.found a.has_room;
        apart = IsTaken-IsApart zs len q.zone f z v g a.found a.has_room d;
      })

-- Every plan of a sequence is apart from what was taken before it.
abbrev IsApartFromTaken : List Zone → AppendPlan → Type 0
IsApartFromTaken zs q = (p : AppendPlan) → IsTaken zs p → IsApart p q

place_all_lem :
    (t : ZoneTable) (rs : List Request)
    → IsValid t.zones
    → ZonesDisjoint t.zones
    → AllApart (place_all t rs).1 × All (IsApartFromTaken t.zones) (place_all t rs).1
unfolding place_all add_plan
place_all_lem t [] v d = (tt, tt)
place_all_lem t ((hint, len) ∷ rs) v d = elim (plan_append-Outcome t hint len v.sorted) [
  | inl (q, is, a) ↦
      let u = (plan_append t hint len).0 in
      let one = IsAppend-Placed t len q u v d a in
      let (apart, from_taken) = place_all_lem u rs one.valid one.apart_zones in
      rw (is, add_plan)
        (
          (All-imp (λ r h. h q one.taken) _ from_taken, apart),
          (one.apart, All-imp (λ r h p taken. h p (one.keeps p taken)) _ from_taken),
        )
  | inr (is, same, full_up) ↦ rw (is, add_plan) (rw same (place_all_lem t rs v d))
]

-- From a valid table whose zones are disjoint, the byte ranges of all appends that a sequence of
-- placements plans are pairwise disjoint, whatever zones the files prefer.
pub place_all-AllApart :
    (t : ZoneTable) (rs : List Request)
    → IsValid t.zones
    → ZonesDisjoint t.zones
    → AllApart (place_all t rs).1
place_all-AllApart t rs v d = (place_all_lem t rs v d).0

-- A placement keeps a table valid.
pub plan_append-IsValid :
    (t : ZoneTable) (hint : Option ℕ) (len : ℕ)
    → IsValid t.zones
    → IsValid (plan_append t hint len).0.zones
plan_append-IsValid t hint len v = elim (plan_append-Outcome t hint len v.sorted) [
  | inl (q, is, a) ↦
      let g = moved_pointers_grow len a.change a.moves in
      rw a.changed (modify-IsValid t.zones len q.zone a.change a.zone_before v g a.found a.has_room)
  | inr (is, same, full_up) ↦ rw same v
]
