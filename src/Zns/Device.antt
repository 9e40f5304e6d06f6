-- ===== src/Zns/Device.antt =====
-- The operations that follow the device: every one keeps the table valid. A placement report can
-- bring an offline zone back.
use native.Mathlib.Decide.{dec_lt}
use lion_fs.Base.{
  ℕ, ◌+◌, ◌≤◌, ◌<◌, ◌≡◌, refl, inl, inr, true, false, Option, some, List, [], ◌∷◌, arith, tests,
  All, All-imp, Bool-cases, ◌==◌, ltb, u64_mod, if_elim, ==_self,
}
use lion_fs.Zns.{
  Zone, empty, offline, ZoneTable, get, insert, modify, place, reset, plan_append, upsert_zone,
  commit_placed_offset, reset_zone, mark_offline, insert_all, reconcile_from_report, is_appendable,
}
use lion_fs.Zns.Table.{IsSorted, IsValidZone, IsValid, get-modify, modify-All, modify-IsSorted}
use lion_fs.Zns.Disjoint.{plan_append-IsValid}

-- The calls that change a table.
pub data Call : Type 0 where
  upsert : Zone → Call
  append : Option ℕ → ℕ → Call
  commit : ℕ → ℕ → ℕ → Call
  reset_call : ℕ → Call
  take_offline : ℕ → Call
  reconcile : List Zone → Call

unfoldable pub apply : ZoneTable → Call → ZoneTable
apply t (upsert z) = upsert_zone t z
apply t (append hint len) = (plan_append t hint len).0
apply t (commit id placed len) = commit_placed_offset t id placed len
apply t (reset_call id) = reset_zone t id
apply t (take_offline id) = mark_offline t id
apply t (reconcile report) = reconcile_from_report t report

-- A zone that is registered, or reported by the device, is valid itself.
abbrev pub IsValidCall : Call → Type 0
IsValidCall (upsert z) = IsValidZone z
IsValidCall (append hint len) = Unit
IsValidCall (commit id placed len) = Unit
IsValidCall (reset_call id) = Unit
IsValidCall (take_offline id) = Unit
IsValidCall (reconcile report) = All IsValidZone report

insert-All {κ} :
    (P : Zone → Type κ) (z : Zone) (zs : List Zone) → P z → All P zs → All P (insert z zs)
unfolding insert
insert-All P z [] p a = (p, tt)
insert-All P z (y ∷ ys) p a =
    if_elim (All P) (ltb z.id y.id) (z ∷ y ∷ ys) _ (p, a)
      (if_elim (All P) (z.id == y.id) (z ∷ ys) (y ∷ insert z ys) (p, a.1)
        (a.0, insert-All P z ys p a.1))

insert-IsSorted : (z : Zone) (zs : List Zone) → IsSorted zs → IsSorted (insert z zs)
unfolding insert
insert-IsSorted z [] h = (tt, tt)
insert-IsSorted z (y ∷ ys) h = elim (dec_lt z.id y.id) [
  | yes lt ↦ rw (ltb_of_lt lt, insert) ((lt, All-imp (λ x b. omega arith) ys h.0), h)
  | no ge ↦ elim (Bool-cases (z.id == y.id)) [
    | inl same ↦
        rw (not_ltb ge, insert) (rw same (All-imp (λ x b. omega (tests, same)) ys h.0, h.1))
    | inr other ↦
        rw (not_ltb ge, insert)
          (rw other (
            insert-All (λ (x : Zone). y.id < x.id) z ys (omega (tests, other)) h.0,
            insert-IsSorted z ys h.1,
          ))
  ]
]
  where
    ltb_of_lt : z.id < y.id → ltb z.id y.id ≡ true
    ltb_of_lt lt = ground arith

    not_ltb : ¬ (z.id < y.id) → ltb z.id y.id ≡ false
    not_ltb ge = ground arith

insert-IsValid : (z : Zone) (zs : List Zone) → IsValidZone z → IsValid zs → IsValid (insert z zs)
insert-IsValid z zs ok v = record {
  sorted = insert-IsSorted z zs v.sorted;
  zones_valid = insert-All IsValidZone z zs ok v.zones_valid;
}

insert_all-IsValid :
    (report zs : List Zone) → All IsValidZone report → IsValid zs → IsValid (insert_all report zs)
unfolding insert_all
insert_all-IsValid [] zs ok v = v
insert_all-IsValid (z ∷ report) zs ok v =
    insert_all-IsValid report (insert z zs) ok.1 (insert-IsValid z zs ok.0 v)

place-IsValidZone : (placed len : ℕ) (z : Zone) → IsValidZone z → IsValidZone (place placed len z)
unfolding place
place-IsValidZone placed len z v = ground arith

reset-IsValidZone : (z : Zone) → IsValidZone z → IsValidZone (reset z)
unfolding reset
reset-IsValidZone z v = ground arith

place-id : (placed len : ℕ) (z : Zone) → (place placed len z).id ≡ z.id
unfolding place
place-id placed len z = ground arith

reset-id : (z : Zone) → (reset z).id ≡ z.id
unfolding reset
reset-id z = ground arith

-- A change of one zone that keeps its id and its validity keeps the table valid.
modify-IsValid :
    (id : ℕ) (f : Zone → Zone) (zs : List Zone)
    → ((z : Zone) → (f z).id ≡ z.id)
    → ((z : Zone) → IsValidZone z → IsValidZone (f z))
    → IsValid zs
    → IsValid (modify id f zs)
modify-IsValid id f zs same ok v = record {
  sorted = modify-IsSorted id f zs same v.sorted;
  zones_valid = modify-All IsValidZone id f zs ok v.zones_valid;
}

-- Every call that changes a table (register, append, report of a placement, reset, offline, and the
-- report of the device that replaces the table) keeps the zones in the order of their ids, without
-- repetition, each with its write pointer in the zone and its end below 2^64, if the zones that the
-- call brings are so.
pub apply-IsValid :
    (t : ZoneTable) (c : Call) → IsValid t.zones → IsValidCall c → IsValid (apply t c).zones
unfolding apply
apply-IsValid t (upsert z) v ok = unfold upsert_zone in insert-IsValid z t.zones ok v
apply-IsValid t (reconcile report) v ok =
    unfold reconcile_from_report in
    insert_all-IsValid report [] ok (record { sorted = tt; zones_valid = tt })
apply-IsValid t (append hint len) v ok = plan_append-IsValid t hint len v
apply-IsValid t (commit id placed len) v ok =
    unfold commit_placed_offset in
    modify-IsValid id (place placed len) t.zones (place-id placed len)
      (place-IsValidZone placed len) v
apply-IsValid t (reset_call id) v ok =
    unfold reset_zone in modify-IsValid id reset t.zones reset-id reset-IsValidZone v
apply-IsValid t (take_offline id) v ok =
    unfold mark_offline in
    modify-IsValid id (λ z. record z { state = offline }) t.zones (λ z. refl)
      (λ z h. record { within = h.within; addressable = h.addressable }) v

place-full :
    (placed len : ℕ) (z : Zone)
    → placed + len < u64_mod
    → z.capacity ≤ placed + len
    → 0 < z.capacity
    → ((reset (place placed len z)).state ≡ empty)
      × (is_appendable (reset (place placed len z)) ≡ true)
unfolding place reset is_appendable
place-full placed len z fits over pos = ground arith

-- An offline zone of positive capacity for which a placement at its end is reported, and which is
-- then reset, is empty and takes appends again.
pub commit_then_reset_revives :
    (t : ZoneTable) (id placed len : ℕ) (z : Zone)
    → get id t.zones ≡ some z
    → z.state ≡ offline
    → 0 < z.capacity
    → z.capacity ≤ placed + len
    → placed + len < u64_mod
    → (y : Zone) × (get id (reset_zone (commit_placed_offset t id placed len) id).zones ≡ some y)
      × (y.state ≡ empty)
      × (is_appendable y ≡ true)
commit_then_reset_revives t id placed len z at off pos over fits =
    let r = place-full placed len z fits over pos in (reset (place placed len z), seen, r.0, r.1)
  where
    seen :
        get id (reset_zone (commit_placed_offset t id placed len) id).zones
        ≡ some (reset (place placed len z))
    seen =
        unfold reset_zone commit_placed_offset in
        rw (get-modify id id reset (modify id (place placed len) t.zones) reset-id, ==_self id)
          (rw (get-modify id id (place placed len) t.zones (place-id placed len), ==_self id)
            (rw at))
