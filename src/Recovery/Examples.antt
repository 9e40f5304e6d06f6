-- ===== src/Recovery/Examples.antt =====
-- A backend whose rings fail to open on the first mount, and the theorems at it.
use lion_fs.Base.{ℕ, suc, ◌≡◌, refl, true, false, none, some, List, [], ◌∷◌, arith}
use lion_fs.Recovery.{
  Candidate, RecoveryBackend, Machine, probed_superblock, replayed_journal, checkpointed,
  reconciled, went_writable, reconcile, writable, new, choose, run_to_writable, step,
}
use lion_fs.Recovery.Run.{IsOutcome, run_to_writable-IsOutcome, open_failure_hidden}

abbrev copies : List Candidate
copies =
    record { copy = 0; generation = 6; crc_valid = true }
    ∷ record { copy = 1; generation = 9; crc_valid = false }
    ∷ record { copy = 2; generation = 8; crc_valid = true }
    ∷ []

-- The state of the backend: how many calls it has had.
abbrev sound : RecoveryBackend ℕ
sound = record {
  probe_superblocks = λ s. (suc s, some copies);
  replay_journal = λ g s. (suc s, some (3, 1));
  checkpoint_at = λ g s. (suc s, some tt);
  reconcile_reports = λ s. (suc s, some (0, 2));
  go_writable = λ s. (suc s, some tt);
}

abbrev broken_rings : RecoveryBackend ℕ
broken_rings = record {
  probe_superblocks = λ s. (suc s, some copies);
  replay_journal = λ g s. (suc s, some (3, 1));
  checkpoint_at = λ g s. (suc s, some tt);
  reconcile_reports = λ s. (suc s, some (0, 2));
  go_writable = λ s. (suc s, none);
}

choose_test : choose copies ≡ some (record { copy = 2; generation = 8; crc_valid = true })
unfolding choose
choose_test = refl

run_test :
    run_to_writable sound 5 (new 0)
    ≡ some (
      record {
        backend = 5;
        state = writable;
        audit =
            probed_superblock 8 2
            ∷ replayed_journal 3 1
            ∷ checkpointed 9
            ∷ reconciled 0 2
            ∷ went_writable
            ∷ [];
        chosen_generation = 9;
      },
      true,
    )
unfolding run_to_writable new
run_test = refl

run_to_writable-IsOutcome_example : IsOutcome sound (run_to_writable sound 7 (new 0))
run_to_writable-IsOutcome_example = run_to_writable-IsOutcome sound 0 7 (omega arith)

abbrev before_opening : Machine ℕ
before_opening = record { backend = 3; state = reconcile; audit = []; chosen_generation = 9 }

open_failure_hidden_example :
    ((step broken_rings before_opening).1 ≡ false)
    × (run_to_writable broken_rings 1 (step broken_rings before_opening).0
        ≡ some ((step broken_rings before_opening).0, true))
open_failure_hidden_example = open_failure_hidden broken_rings before_opening 0 0 2 refl refl refl
