-- ===== src/Recovery/Run.antt =====
-- A run of recovery from PROBE to WRITABLE: the audit log, the fuel, the failures.
use lion_fs.Base.{
  ℕ, zero, suc, ◌≤◌, ◌<◌, ◌≡◌, refl, inl, inr, Bool, true, false, Option, none, some, List, [], ◌∷◌,
  ◌++◌, arith, add_u64, Option-cases,
}
use lion_fs.Recovery.{
  RecoveryState, probe, replay, checkpoint, reconcile, writable, TransitionRecord,
  probed_superblock, replayed_journal, checkpointed, reconciled, went_writable, RecoveryBackend,
  Machine, new, choose, step_probe, step_replay, step_checkpoint, open_rings, step_reconcile, step,
  run_to_writable, is_writable,
}

-- What the audit log says up to the checkpoint: generation `g`, copy `c`, `r` and `d` transactions.
abbrev up_to_checkpoint : ℕ → ℕ → ℕ → ℕ → List TransitionRecord
up_to_checkpoint g c r d =
    probed_superblock g c ∷ replayed_journal r d ∷ checkpointed (add_u64 g 1) ∷ []

-- The audit log that a complete run leaves, and the generation it ends with.
abbrev pub IsComplete : List TransitionRecord → ℕ → Type 0
IsComplete audit n =
    (g c r d b z : ℕ) × (audit ≡ up_to_checkpoint g c r d ++ (reconciled b z ∷ went_writable ∷ []))
    × (n ≡ add_u64 g 1)

-- What the audit log and the generation are in each state of a run that has not failed.
abbrev pub IsRecorded : RecoveryState → List TransitionRecord → ℕ → Type 0
IsRecorded probe audit n = audit ≡ []
IsRecorded replay audit n = (c : ℕ) × (audit ≡ probed_superblock n c ∷ [])
IsRecorded checkpoint audit n =
    (c r d : ℕ) × (audit ≡ probed_superblock n c ∷ replayed_journal r d ∷ [])
IsRecorded reconcile audit n =
    (g c r d : ℕ) × (audit ≡ up_to_checkpoint g c r d) × (n ≡ add_u64 g 1)
IsRecorded writable audit n = IsComplete audit n

-- After a failure: as before the step, or, where the rings failed to open, writable without the
-- last record.
abbrev pub IsStopped : RecoveryState → List TransitionRecord → ℕ → Type 0
IsStopped writable audit n =
    (g c r d b z : ℕ) × (audit ≡ up_to_checkpoint g c r d ++ (reconciled b z ∷ []))
    × (n ≡ add_u64 g 1)
IsStopped st audit n = IsRecorded st audit n

-- How many rounds of the loop are left, the one that finds the state WRITABLE included.
abbrev rounds : RecoveryState → ℕ
rounds probe = 5
rounds replay = 4
rounds checkpoint = 3
rounds reconcile = 2
rounds writable = 1

no_rounds : (st : RecoveryState) → rounds st ≤ 0 → ⊥
no_rounds probe h = omega arith
no_rounds replay h = omega arith
no_rounds checkpoint h = omega arith
no_rounds reconcile h = omega arith
no_rounds writable h = omega arith

module _ {S : Type 0} (b : RecoveryBackend S) where
  abbrev Recorded : Machine S → Type 0
  Recorded m = IsRecorded m.state m.audit m.chosen_generation

  -- After a step in the state `st`.
  abbrev After : RecoveryState → Machine S × Bool → Type 0
  After st (m, true) = Recorded m × (rounds m.state < rounds st)
  After st (m, false) = IsStopped m.state m.audit m.chosen_generation

  abbrev at : S → RecoveryState → List TransitionRecord → ℕ → Machine S
  at s st audit n = record { backend = s; state = st; audit = audit; chosen_generation = n }

  open_rings-After :
      (s : S) (g c r d u z n : ℕ)
      → n ≡ add_u64 g 1
      → After reconcile
          (open_rings b (at s writable (up_to_checkpoint g c r d ++ (reconciled u z ∷ [])) n))
  unfolding open_rings
  open_rings-After s g c r d u z n h = elim (Option-cases (b.go_writable s).1) [
    | inl e ↦ rw (e, open_rings) ((g, c, r, d, u, z, refl, h))
    | inr e ↦ rw (e.1, open_rings) ((g, c, r, d, u, z, refl, h), omega arith)
  ]

  step_probe-After : (s : S) (n : ℕ) → After probe (step_probe b (at s probe [] n))
  unfolding step_probe
  step_probe-After s n = elim (Option-cases (b.probe_superblocks s).1) [
    | inl e ↦ rw (e, step_probe) (refl)
    | inr e ↦ elim (Option-cases (choose e.0)) [
      | inl none_chosen ↦ rw (e.1, none_chosen, step_probe) (refl)
      | inr chosen ↦ rw (e.1, chosen.1, step_probe) ((_, refl), omega arith)
    ]
  ]

  step_replay-After :
      (s : S) (c n : ℕ) → After replay (step_replay b (at s replay (probed_superblock n c ∷ []) n))
  unfolding step_replay
  step_replay-After s c n = elim (Option-cases (b.replay_journal n s).1) [
    | inl e ↦ rw (e, step_replay) ((c, refl))
    | inr e ↦ rw (e.1, step_replay) ((c, e.0.0, e.0.1, refl), omega arith)
  ]

  step_checkpoint-After :
      (s : S) (c r d n : ℕ)
      → After checkpoint (
          step_checkpoint b (at s checkpoint (probed_superblock n c ∷ replayed_journal r d ∷ []) n))
  unfolding step_checkpoint add_u64
  step_checkpoint-After s c r d n = elim (Option-cases (b.checkpoint_at (add_u64 n 1) s).1) [
    | inl e ↦ rw (e, step_checkpoint) ((c, r, d, refl))
    | inr e ↦ rw (e.1, step_checkpoint) ((n, c, r, d, refl, refl), omega arith)
  ]

  step_reconcile-After :
      (s : S) (g c r d n : ℕ)
      → n ≡ add_u64 g 1
      → After reconcile (step_reconcile b (at s reconcile (up_to_checkpoint g c r d) n))
  unfolding step_reconcile
  step_reconcile-After s g c r d n h = elim (Option-cases (b.reconcile_reports s).1) [
    | inl e ↦ rw (e, step_reconcile) ((g, c, r, d, refl, h))
    | inr e ↦
        rw (e.1, step_reconcile)
          (open_rings-After (b.reconcile_reports s).0 g c r d e.0.0 e.0.1 n h)
  ]

  recorded_onwards :
      (s : S) (st : RecoveryState) (audit : List TransitionRecord) (n : ℕ)
      → IsRecorded st audit n
      → is_writable st ≡ false
      → After st (step b (at s st audit n))
  unfolding step
  recorded_onwards s probe audit n h w = rw (h) (step_probe-After s n)
  recorded_onwards s replay audit n h w = rw (h.1) (step_replay-After s h.0 n)
  recorded_onwards s checkpoint audit n (c, r, d, e) w = rw (e) (step_checkpoint-After s c r d n)
  recorded_onwards s reconcile audit n (g, c, r, d, e, f) w =
      rw (e) (step_reconcile-After s g c r d n f)
  recorded_onwards s writable audit n h w = absurd (cc)

  -- The result of a run: an error, or a writable machine with the complete audit log.
  abbrev pub IsOutcome : Option (Machine S × Bool) → Type 0
  IsOutcome none = ⊥
  IsOutcome (some (m, true)) = (m.state ≡ writable) × IsComplete m.audit m.chosen_generation
  IsOutcome (some (m, false)) = IsStopped m.state m.audit m.chosen_generation

  continue_run :
      (fuel : ℕ) (st : RecoveryState) (r : Machine S × Bool)
      → After st r
      → rounds st ≤ suc fuel
      → ((m : Machine S)
          → Recorded m
          → rounds m.state ≤ fuel
          → IsOutcome (run_to_writable b fuel m))
      → IsOutcome (elim (r.1) [ true ↦ run_to_writable b fuel r.0 | false ↦ some (r.0, false) ])
  continue_run fuel st (m, true) h le go = go m h.0 (omega (arith, h.1))
  continue_run fuel st (m, false) h le go = h

  run_round :
      (fuel : ℕ) (s : S) (st : RecoveryState) (audit : List TransitionRecord) (n : ℕ)
      → IsRecorded st audit n
      → rounds st ≤ suc fuel
      → ((m : Machine S)
          → Recorded m
          → rounds m.state ≤ fuel
          → IsOutcome (run_to_writable b fuel m))
      → IsOutcome (run_to_writable b (suc fuel) (at s st audit n))
  unfolding run_to_writable
  run_round fuel s writable audit n h le go = (refl, h)
  run_round fuel s probe audit n h le go =
      continue_run fuel probe (step b (at s probe audit n))
        (recorded_onwards s probe audit n h refl) le go
  run_round fuel s replay audit n h le go =
      continue_run fuel replay (step b (at s replay audit n))
        (recorded_onwards s replay audit n h refl) le go
  run_round fuel s checkpoint audit n h le go =
      continue_run fuel checkpoint (step b (at s checkpoint audit n))
        (recorded_onwards s checkpoint audit n h refl) le go
  run_round fuel s reconcile audit n h le go =
      continue_run fuel reconcile (step b (at s reconcile audit n))
        (recorded_onwards s reconcile audit n h refl) le go

  run-IsOutcome :
      (fuel : ℕ) (m : Machine S)
      → Recorded m
      → rounds m.state ≤ fuel
      → IsOutcome (run_to_writable b fuel m)
  unfolding run_to_writable
  run-IsOutcome zero m h le = absurd (no_rounds m.state le)
  run-IsOutcome (suc fuel) m h le =
      run_round fuel m.backend m.state m.audit m.chosen_generation h le (run-IsOutcome fuel)

  -- From PROBE a run ends within five rounds, for every backend. If it returns Ok the machine is
  -- WRITABLE, its audit log holds the five records in order, each once, and the generation is the
  -- chosen one plus 1. If it returns an error, the log and the generation are those of the state
  -- in which it stopped, and no record says that the engine went writable.
  pub run_to_writable-IsOutcome :
      (s : S) (fuel : ℕ) → 5 ≤ fuel → IsOutcome (run_to_writable b fuel (new s))
  unfolding new
  run_to_writable-IsOutcome s fuel le = run-IsOutcome fuel (new s) refl le

  -- If reconciling succeeds and `go_writable` fails, the step returns the error, and every later
  -- run returns Ok at once: it calls no operation of the backend and records nothing.
  pub open_failure_hidden :
      (m : Machine S) (fuel u z : ℕ)
      → m.state ≡ reconcile
      → (b.reconcile_reports m.backend).1 ≡ some (u, z)
      → (b.go_writable (b.reconcile_reports m.backend).0).1 ≡ none
      → ((step b m).1 ≡ false)
        × (run_to_writable b (suc fuel) (step b m).0 ≡ some ((step b m).0, true))
  unfolding step run_to_writable
  open_failure_hidden m fuel u z st rec failed =
      rw (st, step_reconcile, rec, open_rings, failed) ((refl, refl))
