-- ===== src/Zns/Plan.antt =====
-- What `plan_append` returns, on every branch.
use mathlib.Core.Path.{subst}
use lion_fs.Base.{
  ℕ, ◌≤◌, ◌<◌, ◌≡◌, refl, sym, ◌∙◌, ◌⊎◌, ◌↔◌, inl, inr, Bool, true, false, Option, none, some, List,
  [], ◌∷◌, arith, All, All-imp, keep, Bool-cases, Option-cases, ◌==◌, ◌&&◌, eq_of_==, ==_self, leb,
  le_of_leb, lt_of_not_leb,
}
use lion_fs.Zns.{
  Zone, ZoneTable, AppendPlan, get, modify, ids, least, fits, under_switch, advance, advance_fresh,
  plan_for, append_to, append_to_fresh, append_fallback, append_switch, candidates, plan_append,
  is_empty,
}
use lion_fs.Zns.Table.{IsSorted, get_above, get-All}

-- The id leads to a zone of the table that passes the test.
abbrev Leads : (Zone → Bool) → List Zone → ℕ → Type 0
Leads p zs id = (z : Zone) × (get id zs ≡ some z) × (p z ≡ true)

Leads-cons :
    (p : Zone → Bool) (z : Zone) (zs : List Zone) (id : ℕ)
    → All (λ (y : Zone). z.id < y.id) zs
    → Leads p zs id
    → Leads p (z ∷ zs) id
unfolding get
Leads-cons p z zs id above (y, at, h) = elim (Bool-cases (z.id == id)) [
  | inl here ↦ absurd (gone here)
  | inr there ↦ (y, rw there at, h)
]
  where
    gone : (z.id == id) ≡ true → ⊥
    gone here = let e : z.id ≡ id = eq_of_== z.id id here in cc (get_above id zs (rw (← e) above))

-- The ids of the zones that pass a test lead to those zones.
pub keep-Leads :
    (p : Zone → Bool) (zs : List Zone) → IsSorted zs → All (Leads p zs) (ids (keep p zs))
keep-Leads p [] h = tt
keep-Leads p (z ∷ zs) h = elim (Bool-cases (p z)) [
  | inl pass ↦ rw pass (
    (z, unfold get in rw (==_self z.id), pass),
    All-imp (λ id. Leads-cons p z zs id h.0) (ids (keep p zs)) (keep-Leads p zs h.1),
  )
  | inr fail ↦
      rw fail (All-imp (λ id. Leads-cons p z zs id h.0) (ids (keep p zs)) (keep-Leads p zs h.1))
]

least-All {κ} : (P : ℕ → Type κ) (is : List ℕ) {i : ℕ} → All P is → least is ≡ some i → P i
unfolding least
least-All P [] a h = cc
least-All P (j ∷ is) {i} a h = elim (Option-cases (least is)) [
  | inl e ↦ let same : j ≡ i = only e in subst P same a.0
  | inr (k, e) ↦ elim (Bool-cases (leb j k)) [
    | inl low ↦ let same : j ≡ i = first k e (le_of_leb j k low) in subst P same a.0
    | inr high ↦
        let same : k ≡ i = later k e (lt_of_not_leb j k high) in subst P same (least-All P is a.1 e)
  ]
]
  where
    only : least is ≡ none → j ≡ i
    only e = ground arith

    first : (k : ℕ) → least is ≡ some k → j ≤ k → j ≡ i
    first k e le = ground arith

    later : (k : ℕ) → least is ≡ some k → k < j → k ≡ i
    later k e lt = ground arith

least-none :
    (p : Zone → Bool) (zs : List Zone) → least (ids (keep p zs)) ≡ none → All (λ z. p z ≡ false) zs
unfolding least
least-none p [] h = tt
least-none p (z ∷ zs) h = elim (Bool-cases (p z)) [
  | inl pass ↦ absurd (taken pass)
  | inr fail ↦ (fail, least-none p zs (passed fail))
]
  where
    taken : p z ≡ true → ⊥
    taken pass = ground arith

    passed : p z ≡ false → least (ids (keep p zs)) ≡ none
    passed fail = ground arith

-- An append of `len` bytes: the plan names a zone that fits and starts at its write pointer; that
-- zone's write pointer moves on by `len`, and the other zones are as they were.
pub record IsAppend (t : ZoneTable) (len : ℕ) (p : AppendPlan) (t' : ZoneTable) : Type 0 where
  pub zone_before : Zone
  pub found : get p.zone t.zones ≡ some zone_before
  pub has_room : fits len zone_before ≡ true
  pub plan : p ≡ plan_for zone_before p.zone len
  pub change : Zone → Zone
  pub moves : (change ≡ advance len) ⊎ (change ≡ advance_fresh len)
  pub changed : t'.zones ≡ modify p.zone change t.zones

-- What a placement may return: an append, or nothing where no zone fits.
abbrev pub Outcome : ZoneTable → ℕ → ZoneTable × Option AppendPlan → Type 0
Outcome t len r =
    ((p : AppendPlan) × (r.1 ≡ some p) × IsAppend t len p r.0)
    ⊎ ((r.1 ≡ none) × (r.0 ≡ t) × All (λ z. fits len z ≡ false) t.zones)

append_to-Outcome :
    (t : ZoneTable) (id len : ℕ) (z : Zone)
    → get id t.zones ≡ some z
    → fits len z ≡ true
    → Outcome t len (append_to t id z len)
unfolding append_to
append_to-Outcome t id len z at room = inl (
  plan_for z id len,
  refl,
  record {
    zone_before = z;
    found = at;
    has_room = room;
    plan = refl;
    change = advance len;
    moves = inl refl;
    changed = refl;
  },
)

append_to_fresh-Outcome :
    (t : ZoneTable) (id len : ℕ) (z : Zone)
    → get id t.zones ≡ some z
    → fits len z ≡ true
    → Outcome t len (append_to_fresh t id z len)
unfolding append_to_fresh
append_to_fresh-Outcome t id len z at room = inl (
  plan_for z id len,
  refl,
  record {
    zone_before = z;
    found = at;
    has_room = room;
    plan = refl;
    change = advance_fresh len;
    moves = inr refl;
    changed = refl;
  },
)

append_fallback-Outcome :
    (t : ZoneTable) (len : ℕ) → IsSorted t.zones → Outcome t len (append_fallback t len)
unfolding append_fallback
append_fallback-Outcome t len h = elim (Option-cases (least (ids (keep (fits len) t.zones)))) [
  | inl e ↦ rw (e, append_fallback) (inr (refl, refl, least-none (fits len) t.zones e))
  | inr (id, e) ↦
      let (z, at, room) =
        least-All (Leads (fits len) t.zones) _ (keep-Leads (fits len) t.zones h) e in
      rw (e, append_fallback) (rw at (append_to-Outcome t id len z at room))
]

append_switch-Outcome :
    (t : ZoneTable) (is : List ℕ) (len : ℕ)
    → IsSorted t.zones
    → All (Leads (λ z. fits len z && under_switch z) t.zones) is
    → Outcome t len (append_switch t is len)
unfolding append_switch
append_switch-Outcome t [] len h a = append_fallback-Outcome t len h
append_switch-Outcome t (id ∷ is) len h a =
    let z = a.0.0 in
    elim (Bool-cases (is_empty z.state)) [
      | inl fresh ↦
          rw (a.0.1, append_switch)
            (rw fresh (append_to_fresh-Outcome t id len z a.0.1 (both z a.0.2)))
      | inr used ↦ rw (a.0.1, append_switch) (rw used (append_switch-Outcome t is len h a.1))
    ]
  where
    both : (z : Zone) → (fits len z && under_switch z) ≡ true → fits len z ≡ true
    both z e = ground arith

candidates-Leads :
    (t : ZoneTable) (len : ℕ)
    → IsSorted t.zones
    → All (Leads (λ z. fits len z && under_switch z) t.zones) (candidates t len)
unfolding candidates
candidates-Leads t len h = keep-Leads (λ z. fits len z && under_switch z) t.zones h

-- On a table in the order of its ids, `plan_append` either appends to a zone that fits, or returns
-- nothing, changes nothing, and no zone fits.
pub plan_append-Outcome :
    (t : ZoneTable) (hint : Option ℕ) (len : ℕ)
    → IsSorted t.zones
    → Outcome t len (plan_append t hint len)
unfolding plan_append
plan_append-Outcome t none len h =
    append_switch-Outcome t (candidates t len) len h (candidates-Leads t len h)
plan_append-Outcome t (some id) len h =
    let switched = append_switch-Outcome t (candidates t len) len h (candidates-Leads t len h) in
    elim (Option-cases (get id t.zones)) [
      | inl missing ↦ rw (missing, plan_append) switched
      | inr (z, at) ↦ elim (Bool-cases (fits len z && under_switch z)) [
        | inl own ↦ rw (at, plan_append) (rw own (append_to-Outcome t id len z at (both_fit z own)))
        | inr other ↦ rw (at, plan_append) (rw other switched)
      ]
    ]
  where
    both_fit : (z : Zone) → (fits len z && under_switch z) ≡ true → fits len z ≡ true
    both_fit z e = ground arith

-- On a table in the order of its ids, a placement fails exactly if no zone is open with room for
-- the append.
pub plan_append-none_iff :
    (t : ZoneTable) (hint : Option ℕ) (len : ℕ)
    → IsSorted t.zones
    → ((plan_append t hint len).1 ≡ none) ↔ All (λ z. fits len z ≡ false) t.zones
plan_append-none_iff t hint len h = elim (plan_append-Outcome t hint len h) [
  | inl (p, is, a) ↦ (
    λ e. absurd (some_ne_none (sym is ∙ e)),
    λ none_fits.
        let misfit = (get-All (λ z. fits len z ≡ false) p.zone t.zones none_fits a.found).0 in
        absurd (clash (sym a.has_room ∙ misfit)),
  )
  | inr (is, same, none_fits) ↦ (λ e. none_fits, λ a. is)
]
  where
    some_ne_none : {p : AppendPlan} → some p ≡ none → ⊥
    some_ne_none e = cc

    clash : true ≡ false → ⊥
    clash e = cc
