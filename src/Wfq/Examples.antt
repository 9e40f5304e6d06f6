-- ===== src/Wfq/Examples.antt =====
-- Two queues: tests, and the theorems at concrete inputs.
use lion_fs.Base.{ℕ, zero, suc, ◌≡◌, refl, true, none, some, [], ◌∷◌, arith}
use lion_fs.Wfq.{WfqScheduler, new, pick, clear, has_pending}
use lion_fs.Wfq.Pick.{IsPick, pick-IsPick}
use lion_fs.Wfq.Invariant.{IsAhead, serve_first, times, two_queues, cheap_requests_starve}

abbrev scheduler : WfqScheduler
scheduler = record {
  weights = 4 ∷ 1 ∷ [];
  finish = some 35 ∷ some 30 ∷ [];
  pending_cost = 100 ∷ 20 ∷ [];
  virtual_time = 10;
  served = 0 ∷ 0 ∷ [];
  served_cost = 0 ∷ 0 ∷ [];
}

new_test : new (0 ∷ 3 ∷ []) ≡ record {
  weights = 1 ∷ 3 ∷ [];
  finish = none ∷ none ∷ [];
  pending_cost = 0 ∷ 0 ∷ [];
  virtual_time = 0;
  served = 0 ∷ 0 ∷ [];
  served_cost = 0 ∷ 0 ∷ [];
}
unfolding new
new_test = refl

pick_test : (pick scheduler).0 ≡ some 1
unfolding pick
pick_test = refl

clear_test : clear scheduler 2 ≡ none
unfolding clear
clear_test = refl

has_pending_test : has_pending scheduler ≡ true
unfolding has_pending
has_pending_test = refl

scheduler-IsAhead : IsAhead scheduler
scheduler-IsAhead zero g e = omega (arith, heads e)
  where
    heads : {g : ℕ} → some (some 35) ≡ some (some g) → g ≡ 35
    heads e = cc
scheduler-IsAhead (suc zero) g e = omega (arith, heads e)
  where
    heads : {g : ℕ} → some (some 30) ≡ some (some g) → g ≡ 30
    heads e = cc
scheduler-IsAhead (suc (suc j)) g e = absurd (cc)

pick-IsPick_example : IsPick scheduler (pick scheduler)
pick-IsPick_example = pick-IsPick scheduler

cheap_requests_starve_example :
    serve_first (1 ∷ 0 ∷ 3 ∷ []) (two_queues 4 1 none 1 0 (0 ∷ 1 ∷ []) (0 ∷ 0 ∷ []) (0 ∷ 0 ∷ []))
    ≡ times 3
cheap_requests_starve_example =
    cheap_requests_starve (1 ∷ 0 ∷ 3 ∷ []) 4 1 1 0 (0 ∷ 1 ∷ []) (0 ∷ 0 ∷ []) (0 ∷ 0 ∷ [])
      (omega arith) (omega arith) (omega arith)
