-- ===== src/Smr/Confinement.antt =====
-- One call of plan_sequential, with no step of another call between its own.
use lion_fs.Base.{
  zero, suc, ℕ, ◌≡◌, ◌≤◌, ◌-◌, refl, false, none, some, arith, inl, inr, Option-cases,
}
use lion_fs.Smr.{
  BandAllocator, Phase, start, fresh, collected, chosen, written, returned, try_write_band,
  plan_sequential, run_alone, candidate, is_assigned, assigned_to,
}
use lion_fs.Smr.Assignment.{
  IsConfined, assign-IsConfined, candidate_free, assigned_to-assign, placed_in,
}

-- What holds of the allocator where a call for `file` stands, if no other call's steps came between.
abbrev Holds : ℕ → BandAllocator × Phase → Type 0
Holds file (a, start) = IsConfined a.assignment
Holds file (a, fresh) = IsConfined a.assignment
Holds file (a, collected qs) = IsConfined a.assignment × (qs ≡ a.assignment)
Holds file (a, chosen id) = IsConfined a.assignment × (is_assigned id a.assignment ≡ false)
Holds file (a, written id place) =
    IsConfined a.assignment × (is_assigned id a.assignment ≡ false) × (place.0 ≡ id)
Holds file (a, returned none) = IsConfined a.assignment
Holds file (a, returned (some place)) =
    IsConfined a.assignment × (assigned_to file a.assignment ≡ some (place.0))

plan_sequential-Holds :
    (file len : ℕ) (a : BandAllocator) (p : Phase)
    → Holds file (a, p)
    → Holds file (plan_sequential file len a p)
unfolding plan_sequential
plan_sequential-Holds file len a start h = elim (Option-cases (assigned_to file a.assignment)) [
  | inl new_file ↦ rw (new_file, plan_sequential) h
  | inr (id, is) ↦ elim (Option-cases (try_write_band a.bands id len).1) [
    | inl failed ↦ rw (is, failed, plan_sequential) h
    | inr (place, placed) ↦
        rw (is, placed, plan_sequential) (h, rw (placed_in a.bands id len place placed) is)
  ]
]
plan_sequential-Holds file len a fresh h = (h, refl)
plan_sequential-Holds file len a (collected qs) h = elim (Option-cases (candidate qs a.bands len)) [
  | inl none_fits ↦ rw (none_fits, plan_sequential) h.0
  | inr (id, found) ↦
      rw (found, plan_sequential) (h.0, rw (← h.1) (candidate_free qs a.bands len id found))
]
plan_sequential-Holds file len a (chosen id) h =
    elim (Option-cases (try_write_band a.bands id len).1) [
      | inl failed ↦ rw (failed, plan_sequential) h.0
      | inr (place, placed) ↦
          rw (placed, plan_sequential) (h.0, h.1, placed_in a.bands id len place placed)
    ]
plan_sequential-Holds file len a (written id place) h = (
  assign-IsConfined file id a.assignment h.1 h.0,
  rw (h.2) (assigned_to-assign file id a.assignment),
)
plan_sequential-Holds file len a (returned none) h = h
plan_sequential-Holds file len a (returned (some place)) h = h

run_alone-Holds :
    (n file len : ℕ) (r : BandAllocator × Phase)
    → Holds file r
    → Holds file (run_alone n file len r)
unfolding run_alone
run_alone-Holds zero file len (a, p) h = h
run_alone-Holds (suc n) file len (a, p) h =
    run_alone-Holds n file len _ (plan_sequential-Holds file len a p h)

-- The steps that a call has left, at most.
abbrev left : Phase → ℕ
left start = 5
left fresh = 4
left (collected qs) = 3
left (chosen id) = 2
left (written id place) = 1
left (returned result) = 0

plan_sequential-left :
    (file len : ℕ) (a : BandAllocator) (p : Phase)
    → left (plan_sequential file len a p).1 ≤ left p - 1
unfolding plan_sequential
plan_sequential-left file len a start = ground arith
plan_sequential-left file len a fresh = omega arith
plan_sequential-left file len a (collected qs) = ground arith
plan_sequential-left file len a (chosen id) = ground arith
plan_sequential-left file len a (written id place) = omega arith
plan_sequential-left file len a (returned result) = omega arith

run_alone-left :
    (n file len : ℕ) (a : BandAllocator) (p : Phase)
    → left p ≤ n
    → left (run_alone n file len (a, p)).1 ≡ 0
unfolding run_alone
run_alone-left zero file len a p h = omega arith
run_alone-left (suc n) file len a p h =
    let r = plan_sequential file len a p in
    run_alone-left n file len r.0 r.1 (omega (arith, plan_sequential-left file len a p))

-- The call has returned, no band is assigned to two files, and a write that was placed stands in
-- the band that is assigned to the file.
abbrev pub IsConfinedAnswer : ℕ → BandAllocator × Phase → Type 0
IsConfinedAnswer file (a, returned none) = IsConfined a.assignment
IsConfinedAnswer file (a, returned (some place)) =
    IsConfined a.assignment × (assigned_to file a.assignment ≡ some (place.0))
IsConfinedAnswer file (a, _) = ⊥

answered :
    (file : ℕ) (a : BandAllocator) (p : Phase)
    → left p ≡ 0
    → Holds file (a, p)
    → IsConfinedAnswer file (a, p)
answered file a (returned none) e h = h
answered file a (returned (some place)) e h = h
answered file a start e h = absurd (omega arith)
answered file a fresh e h = absurd (omega arith)
answered file a (collected qs) e h = absurd (omega arith)
answered file a (chosen id) e h = absurd (omega arith)
answered file a (written id place) e h = absurd (omega arith)

-- From any allocator in which no band is assigned to two files, a call with no step of another call
-- between its own returns within five steps, again no band is assigned to two files, and a write that
-- was placed stands in the band that is then assigned to its file, and so to no other.
pub run_alone-IsConfinedAnswer :
    (a : BandAllocator) (file len : ℕ)
    → IsConfined a.assignment
    → IsConfinedAnswer file (run_alone 5 file len (a, start))
run_alone-IsConfinedAnswer a file len h =
    let r = run_alone 5 file len (a, start) in
    answered file r.0 r.1 (run_alone-left 5 file len a start (omega arith))
      (run_alone-Holds 5 file len (a, start) h)
