-- ===== src/Smr/Assignment.antt =====
-- The table of files, the choice of a band and the write to it.
use lion_fs.Base.{
  ap, sym, ◌∙◌, ℕ, ◌≡◌, ◌≢◌, refl, min, Bool, true, false, ◌&&◌, ◌||◌, not, Option, none, some,
  List, [], ◌∷◌, map, arith, ◌==◌, keep, All, ◌⊎◌, inl, inr, Option-cases, Bool-cases,
  some_injective,
}
use lion_fs.Smr.{
  Band, try_write_band, candidate, least, fits, assign, is_assigned, assigned_to, band,
}

-- Every band that is assigned is assigned once.
abbrev pub IsConfined : List (ℕ × ℕ) → Type 0
IsConfined [] = Unit
IsConfined ((f, b) ∷ qs) = (is_assigned b qs ≡ false) × IsConfined qs

is_assigned-assign :
    (file id b : ℕ) (qs : List (ℕ × ℕ))
    → b ≢ id
    → is_assigned b qs ≡ false
    → is_assigned b (assign file id qs) ≡ false
unfolding is_assigned assign
is_assigned-assign file id b [] ne h = ground arith
is_assigned-assign file id b ((f, c) ∷ qs) ne h = ground (arith, is_assigned-assign file id b qs ne)

of_or : (a c : Bool) → (a || c) ≡ false → c ≡ false
of_or a c h = ground arith

ne_of_or : (b id : ℕ) (c : Bool) → ((b == id) || c) ≡ false → b ≢ id
ne_of_or b id c h = ground arith

min_cases : (i j : ℕ) → (min i j ≡ i) ⊎ (min i j ≡ j)
min_cases i j = ground arith

pub assign-IsConfined :
    (file id : ℕ) (qs : List (ℕ × ℕ))
    → is_assigned id qs ≡ false
    → IsConfined qs
    → IsConfined (assign file id qs)
unfolding is_assigned assign
assign-IsConfined file id [] h c = (refl, tt)
assign-IsConfined file id ((f, b) ∷ qs) h c = elim (Bool-cases (f == file)) [
  | inl same ↦ rw (same) ((of_or (b == id) (is_assigned id qs) h, c.1))
  | inr other ↦ rw (other) (
      (
        is_assigned-assign file id b qs (ne_of_or b id (is_assigned id qs) h) c.0,
        assign-IsConfined file id qs (of_or (b == id) (is_assigned id qs) h) c.1,
      ))
]

abbrev AllFree : List (ℕ × ℕ) → List ℕ → Type 0
AllFree qs ids = All (λ i. is_assigned i qs ≡ false) ids

abbrev IsFree : List (ℕ × ℕ) → Option ℕ → Type 0
IsFree qs none = Unit
IsFree qs (some i) = is_assigned i qs ≡ false

least-IsFree : (qs : List (ℕ × ℕ)) (ids : List ℕ) → AllFree qs ids → IsFree qs (least ids)
unfolding least
least-IsFree qs [] h = tt
least-IsFree qs (i ∷ ids) h = lower_free qs i (least ids) h.0 (least-IsFree qs ids h.1)
  where
    lower_free :
        (qs : List (ℕ × ℕ)) (i : ℕ) (o : Option ℕ)
        → is_assigned i qs ≡ false
        → IsFree qs o
        → IsFree qs (elim o [ none ↦ some i | some j ↦ some (min i j) ])
    lower_free qs i none h k = h
    lower_free qs i (some j) h k = elim (min_cases i j) [ inl e ↦ rw (e) h | inr e ↦ rw (e) k ]

kept_free :
    (qs : List (ℕ × ℕ)) (len : ℕ) (bs : List Band)
    → AllFree qs (map (λ (b : Band). b.id) (keep (λ b. fits len b && not (is_assigned b.id qs)) bs))
kept_free qs len [] = tt
kept_free qs len (b ∷ bs) = elim (Bool-cases (fits len b && not (is_assigned b.id qs))) [
  | inl kept ↦ rw (kept) ((of_kept (fits len b) (is_assigned b.id qs) kept, kept_free qs len bs))
  | inr dropped ↦ rw (dropped) (kept_free qs len bs)
]
  where
    of_kept : (a c : Bool) → (a && not c) ≡ true → c ≡ false
    of_kept a c h = ground arith

free_of :
    (qs : List (ℕ × ℕ)) (o : Option ℕ) (id : ℕ)
    → IsFree qs o
    → o ≡ some id
    → is_assigned id qs ≡ false
free_of qs none id h e = absurd (cc)
free_of qs (some j) id h e = rw (← some_injective e) h

pub candidate_free :
    (qs : List (ℕ × ℕ)) (bs : List Band) (len id : ℕ)
    → candidate qs bs len ≡ some id
    → is_assigned id qs ≡ false
unfolding candidate
candidate_free qs bs len id e =
    free_of qs (candidate qs bs len) id (least-IsFree qs _ (kept_free qs len bs)) e

pub assigned_to-assign :
    (file id : ℕ) (qs : List (ℕ × ℕ)) → assigned_to file (assign file id qs) ≡ some id
unfolding assigned_to assign
assigned_to-assign file id [] = ground arith
assigned_to-assign file id ((f, b) ∷ qs) = ground (arith, assigned_to-assign file id qs)

abbrev IsIn : ℕ → Option (ℕ × ℕ) → Type 0
IsIn id none = Unit
IsIn id (some place) = place.0 ≡ id

-- A write is placed in the band that was asked for.
try_write_band-IsIn : (bs : List Band) (id len : ℕ) → IsIn id (try_write_band bs id len).1
unfolding try_write_band
try_write_band-IsIn bs id len = elim (Option-cases (band id bs)) [
  | inl missing ↦ rw (missing, try_write_band) tt
  | inr (b, found) ↦ elim (Bool-cases (fits len b)) [
    | inl fit ↦ rw (found, fit, try_write_band) refl
    | inr full ↦ rw (found, full, try_write_band) tt
  ]
]

pub placed_in :
    (bs : List Band) (id len : ℕ) (place : ℕ × ℕ)
    → (try_write_band bs id len).1 ≡ some place
    → place.0 ≡ id
placed_in bs id len place e = is_in (try_write_band-IsIn bs id len) e
  where
    is_in : {o : Option (ℕ × ℕ)} → IsIn id o → o ≡ some place → place.0 ≡ id
    is_in {o = none} h e = absurd (cc)
    is_in {o = some other} h e = ap (λ (q : ℕ × ℕ). q.0) (sym (some_injective e)) ∙ h
