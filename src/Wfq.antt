-- ===== src/Wfq.antt =====
-- crates/lionfs/src/qos/wfq.rs: weighted fair queuing in virtual time. The arrays of length N are
-- lists of that length; an index out of range is a panic, `none`.
pub mod Pick
pub mod Invariant
mod Examples
use lion_fs.Base.{
  ℕ, zero, suc, ◌+◌, ◌/◌, max, Bool, true, false, ◌||◌, Option, none, some, List, [], ◌∷◌, map, ltb,
  ◌==◌, if◌then◌else◌, length, get_elem?, set, add_u64, sat_add, u64_max,
}

pub record WfqScheduler : Type 0 where
  pub weights : List ℕ
  pub finish : List (Option ℕ)
  pub pending_cost : List ℕ
  pub virtual_time : ℕ
  pub served : List ℕ
  pub served_cost : List ℕ

unfoldable pub new : List ℕ → WfqScheduler
new weights = record {
  weights = map (λ w. if w == 0 then 1 else w) weights;
  finish = map (λ w. none) weights;
  pending_cost = map (λ w. 0) weights;
  virtual_time = 0;
  served = map (λ w. 0) weights;
  served_cost = map (λ w. 0) weights;
}

unfoldable pub set_pending : WfqScheduler → ℕ → ℕ → Option WfqScheduler
unfolding add_u64
set_pending s q cost = elim (get_elem? s.finish q) [
  | none ↦ none
  | some (some pending) ↦ some s
  | some none ↦ elim (get_elem? s.weights q) [
    | none ↦ none
    | some w ↦
        let cost' = max cost 1 in
        some (record s {
          finish = set s.finish q (some (add_u64 s.virtual_time (cost' / w)));
          pending_cost = set s.pending_cost q cost';
        })
  ]
]

unfoldable pub clear : WfqScheduler → ℕ → Option WfqScheduler
clear s q =
    if ltb q (length s.finish)
    then some (record s { finish = set s.finish q none; pending_cost = set s.pending_cost q 0 })
    else none

-- The best queue so far with its finish time, before the queue `q` is looked at.
abbrev better : ℕ → Option ℕ → Option ℕ × ℕ → Option ℕ × ℕ
better q none best = best
better q (some f) best = if ltb f best.1 then (some q, f) else best

abbrev best_from : ℕ → List (Option ℕ) → Option ℕ × ℕ → Option ℕ × ℕ
best_from q [] best = best
best_from q (f ∷ fs) best = best_from (suc q) fs (better q f best)

abbrev bump : (ℕ → ℕ) → ℕ → List ℕ → List ℕ
bump f q xs = elim (get_elem? xs q) [ none ↦ xs | some x ↦ set xs q (f x) ]

abbrev or_zero : Option ℕ → ℕ
or_zero none = 0
or_zero (some x) = x

unfoldable pub account : WfqScheduler → ℕ → ℕ → WfqScheduler
unfolding add_u64
account s q f = record {
  weights = s.weights;
  finish = set s.finish q none;
  pending_cost = set s.pending_cost q 0;
  virtual_time = max s.virtual_time f;
  served = bump (λ n. add_u64 n 1) q s.served;
  served_cost = bump (λ n. sat_add n (or_zero (get_elem? s.pending_cost q))) q s.served_cost;
}

unfoldable pub pick : WfqScheduler → Option ℕ × WfqScheduler
unfolding account
pick s =
    let (best, f) = best_from 0 s.finish (none, u64_max) in
    elim best [ none ↦ (none, s) | some q ↦ (some q, account s q f) ]

abbrev any_some : List (Option ℕ) → Bool
any_some [] = false
any_some (none ∷ fs) = any_some fs
any_some (some f ∷ fs) = true

unfoldable pub has_pending : WfqScheduler → Bool
has_pending s = any_some s.finish
