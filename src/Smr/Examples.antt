-- ===== src/Smr/Examples.antt =====
-- Two bands: tests, and the theorems at concrete inputs.
use lion_fs.Base.{◌+◌, arith, ◌≡◌, refl, false, none, some, [], ◌∷◌}
use lion_fs.Smr.{
  Band, BandAllocator, layout, run_alone, start, returned, validate_write, plan_elevator_sweep,
  finish_sweep, band, RandomWriteRejected, SweepStep, is_writable, band_count, new, add_band,
}
use lion_fs.Smr.Interleaved.{play, racing, one_band, interleaved_calls_share}
use lion_fs.Smr.Confinement.{IsConfinedAnswer, run_alone-IsConfinedAnswer}

abbrev shared : BandAllocator
shared = record {
  bands =
      record { id = 0; start = 0; capacity = 4096; write_pointer = 512; reclaiming = false }
      ∷ record { id = 1; start = 4096; capacity = 4096; write_pointer = 0; reclaiming = false }
      ∷ [];
  assignment = (7, 0) ∷ [];
}

new_file_test : (run_alone 5 9 100 (shared, start)).1 ≡ returned (some (1, 4096))
unfolding run_alone
new_file_test = refl

random_write_test :
    validate_write shared 0 0 16 ≡ some (record { band = 0; offset = 0; pointer = 512 })
unfolding validate_write
random_write_test = refl

sweep_test :
    (plan_elevator_sweep shared ((0, 512) ∷ [])).1
    ≡ record { band = 0; live_bytes = 512; target_band = none } ∷ []
unfolding plan_elevator_sweep
sweep_test = refl

finish_sweep_test :
    band 0 (finish_sweep (plan_elevator_sweep shared []).0 0).bands
    ≡ some (record { id = 0; start = 0; capacity = 4096; write_pointer = 0; reclaiming = false })
unfolding finish_sweep plan_elevator_sweep band
finish_sweep_test = refl

band_count_test : band_count (record new { bands = layout 0 4096 3 }) ≡ 3
unfolding band_count layout
band_count_test = refl

run_alone-IsConfinedAnswer_example : IsConfinedAnswer 9 (run_alone 5 9 100 (shared, start))
unfolding lion_fs.Smr.is_assigned
run_alone-IsConfinedAnswer_example = run_alone-IsConfinedAnswer shared 9 100 (refl, tt)

interleaved_calls_share_example :
    play 7 100 9 200 racing
      (record { shared = one_band 3 4096 4096 512 []; first_phase = start; second_phase = start })
    ≡ record {
      shared = one_band 3 4096 4096 (512 + 100 + 200) ((7, 3) ∷ (9, 3) ∷ []);
      first_phase = returned (some (3, 4096 + 512));
      second_phase = returned (some (3, 4096 + (512 + 100)));
    }
interleaved_calls_share_example =
    interleaved_calls_share 7 100 9 200 3 4096 4096 512 (λ e. omega (arith, e)) (omega arith)
      (omega arith) (omega arith) (omega arith)
