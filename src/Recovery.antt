-- ===== src/Recovery.antt =====
-- crates/lionfs/src/recovery/state_machine.rs: the five states of recovery at mount. The trait
-- `RecoveryBackend` is a record of operations on a state of its own, each of which may fail; the
-- machine holds that state.
pub mod Probe
pub mod Run
mod Examples
use lion_fs.Base.{
  ℕ, zero, suc, ◌+◌, Bool, true, false, Option, none, some, List, [], ◌∷◌, ◌++◌, leb, if◌then◌else◌,
  add_u64, keep,
}

pub data RecoveryState : Type 0 where
  probe replay checkpoint reconcile writable : RecoveryState

pub data TransitionRecord : Type 0 where
  -- generation, chosen copy
  probed_superblock : ℕ → ℕ → TransitionRecord
  -- rolled forward, discarded open
  replayed_journal : ℕ → ℕ → TransitionRecord
  checkpointed : ℕ → TransitionRecord
  -- bad blocks merged, zones updated
  reconciled : ℕ → ℕ → TransitionRecord
  went_writable : TransitionRecord

-- A copy of the superblock: its index, its generation, whether its checksum is valid.
pub record Candidate : Type 0 where
  pub copy : ℕ
  pub generation : ℕ
  pub crc_valid : Bool

-- The trait. Each operation returns the backend's next state, and `none` for an error.
pub record RecoveryBackend (S : Type 0) : Type 0 where
  pub probe_superblocks : S → S × Option (List Candidate)
  pub replay_journal : ℕ → S → S × Option (ℕ × ℕ)
  pub checkpoint_at : ℕ → S → S × Option (Unit {0})
  pub reconcile_reports : S → S × Option (ℕ × ℕ)
  pub go_writable : S → S × Option (Unit {0})

pub record Machine (S : Type 0) : Type 0 where
  pub backend : S
  pub state : RecoveryState
  pub audit : List TransitionRecord
  pub chosen_generation : ℕ

unfoldable pub new : {S : Type 0} → S → Machine S
new s = record { backend = s; state = probe; audit = []; chosen_generation = 0 }

-- `max_by_key`: of several with the highest key the last.
unfoldable pub highest : List Candidate → Option Candidate
highest [] = none
highest (c ∷ cs) = elim (highest cs) [
  | none ↦ some c
  | some d ↦ if leb c.generation d.generation then some d else some c
]

unfoldable pub choose : List Candidate → Option Candidate
unfolding highest
choose cs = highest (keep (λ (c : Candidate). c.crc_valid) cs)

abbrev is_writable : RecoveryState → Bool
is_writable writable = true
is_writable _ = false

module _ {S : Type 0} (b : RecoveryBackend S) where
  -- The steps return the machine and whether they succeeded.
  unfoldable pub step_probe : Machine S → Machine S × Bool
  unfolding choose
  step_probe m =
      let (s, r) = b.probe_superblocks m.backend in
      elim r [
        | none ↦ (record m { backend = s }, false)
        | some candidates ↦ elim (choose candidates) [
          | none ↦ (record m { backend = s }, false)
          | some c ↦ (
            record {
              backend = s;
              state = replay;
              audit = m.audit ++ (probed_superblock c.generation c.copy ∷ []);
              chosen_generation = c.generation;
            },
            true,
          )
        ]
      ]

  unfoldable pub step_replay : Machine S → Machine S × Bool
  step_replay m =
      let (s, r) = b.replay_journal m.chosen_generation m.backend in
      elim r [
        | none ↦ (record m { backend = s }, false)
        | some (rolled, discarded) ↦ (
          record m {
            backend = s;
            state = checkpoint;
            audit = m.audit ++ (replayed_journal rolled discarded ∷ []);
          },
          true,
        )
      ]

  unfoldable pub step_checkpoint : Machine S → Machine S × Bool
  unfolding add_u64
  step_checkpoint m =
      let new_generation = add_u64 m.chosen_generation 1 in
      let (s, r) = b.checkpoint_at new_generation m.backend in
      elim r [
        | none ↦ (record m { backend = s }, false)
        | some done ↦ (
          record {
            backend = s;
            state = reconcile;
            audit = m.audit ++ (checkpointed new_generation ∷ []);
            chosen_generation = new_generation;
          },
          true,
        )
      ]

  -- The state is already WRITABLE when `go_writable` is called.
  unfoldable pub open_rings : Machine S → Machine S × Bool
  open_rings m =
      let (s, r) = b.go_writable m.backend in
      elim r [
        | none ↦ (record m { backend = s }, false)
        | some done ↦ (record m { backend = s; audit = m.audit ++ (went_writable ∷ []) }, true)
      ]

  unfoldable pub step_reconcile : Machine S → Machine S × Bool
  unfolding open_rings
  step_reconcile m =
      let (s, r) = b.reconcile_reports m.backend in
      elim r [
        | none ↦ (record m { backend = s }, false)
        | some (merged, updated) ↦ open_rings (record m {
          backend = s;
          state = writable;
          audit = m.audit ++ (reconciled merged updated ∷ []);
        })
      ]

  abbrev step_in : RecoveryState → Machine S → Machine S × Bool
  step_in probe m = step_probe m
  step_in replay m = step_replay m
  step_in checkpoint m = step_checkpoint m
  step_in reconcile m = step_reconcile m
  step_in writable m = (m, true)

  unfoldable pub step : Machine S → Machine S × Bool
  unfolding step_probe step_replay step_checkpoint step_reconcile
  step m = step_in m.state m

  -- `while self.state != Writable { self.step()?; }`; `none` means that the fuel ran out.
  unfoldable pub run_to_writable : ℕ → Machine S → Option (Machine S × Bool)
  unfolding step
  run_to_writable zero m = none
  run_to_writable (suc fuel) m = elim (is_writable m.state) [
    | true ↦ some (m, true)
    | false ↦
        let (t, done) = step m in
        elim done [ true ↦ run_to_writable fuel t | false ↦ some (t, false) ]
  ]
