-- ===== src/Clocks/Examples.antt =====
-- Two vector clocks and some timestamps: tests, and the theorems at concrete inputs.
use lion_fs.Base.{◌+◌, ◌≡◌, ◌&&◌, refl, true, none, [], ◌∷◌, arith}
use lion_fs.Clocks.Hlc.{Hlc, observe, is_after, skew_ns}
use lion_fs.Clocks.Vector.{
  VectorClock, merge, increment, happens_before_or_equal, concurrent_with, partial_cmp, less, total,
  width,
}
use lion_fs.Clocks.Ticks.{observe_regresses}
use lion_fs.Clocks.Causality.{IsMap, happens_before_or_equal-merge}

abbrev left_clock : VectorClock
left_clock = record { counters = (1, 4) ∷ (2, 1) ∷ [] }

abbrev right_clock : VectorClock
right_clock = record { counters = (2, 3) ∷ (5, 1) ∷ [] }

merge_test : merge left_clock right_clock ≡ record { counters = (1, 4) ∷ (2, 3) ∷ (5, 1) ∷ [] }
unfolding merge
merge_test = refl

concurrent_with_test : concurrent_with left_clock right_clock ≡ true
unfolding concurrent_with
concurrent_with_test = refl

total_test : (total left_clock + width right_clock) ≡ 7
unfolding total width
total_test = refl

skew_ns_test : skew_ns (record { physical = 70; logical = 1 }) 90 ≡ none
unfolding skew_ns
skew_ns_test = refl

abbrev capped : Hlc
capped = record { physical = 100; logical = 999999 }

observe_regresses_example :
    is_after capped (observe capped (record { physical = 20; logical = 0 }) 60) ≡ true
observe_regresses_example =
    observe_regresses capped (record { physical = 20; logical = 0 }) 60 refl (omega arith)
      (omega arith)

left_clock-IsMap : IsMap left_clock.counters
unfolding lion_fs.Clocks.Vector.get
left_clock-IsMap = (refl, (refl, tt))

right_clock-IsMap : IsMap right_clock.counters
unfolding lion_fs.Clocks.Vector.get
right_clock-IsMap = (refl, (refl, tt))

happens_before_or_equal-merge_example :
    happens_before_or_equal (merge left_clock right_clock) right_clock ≡ (
      happens_before_or_equal left_clock right_clock
      && happens_before_or_equal right_clock right_clock)
happens_before_or_equal-merge_example =
    happens_before_or_equal-merge left_clock right_clock right_clock left_clock-IsMap
      right_clock-IsMap
