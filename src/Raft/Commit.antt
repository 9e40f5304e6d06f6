-- ===== src/Raft/Commit.antt =====
-- The commit rule: what `advance_commit` commits, and that it commits all it may.
use native.Mathlib.Decide.{dec_lt}
use mathlib.Core.Path.{subst}
use lion_fs.Base.{
  ℕ, zero, suc, ◌+◌, ◌-◌, ◌≤◌, ◌<◌, ◌≡◌, refl, ◌⊎◌, inl, inr, arith, u64_max, add_u64,
  add_u64-exact, eq_of_==, le_of_leb, lt_of_not_leb, ne_of_==_false, max, Bool-cases, leb, ◌==◌,
}
use lion_fs.Raft.Log.{count_at_least, term_at}
use lion_fs.Raft.Server.{Server, quorum, last_log_index, commit_step, commit_loop, advance_commit}

-- The leader may commit up to index `n`: its entry there is of the current term, and a quorum, the
-- leader counted, is known to reach it.
pub record MayCommit (s : Server) (n : ℕ) : Type 0 where
  pub current : term_at n s.log ≡ s.current_term
  pub reached : quorum s ≤ 1 + count_at_least n s.match_index

-- The result of a search upwards from `n`: the start, or an index that may be committed, and no
-- index searched beyond it may be.
pub record IsLargest (s : Server) (start n end c : ℕ) : Type 0 where
  pub found : (c ≡ start) ⊎ ((n ≤ c) × (c < end) × MayCommit s c)
  pub largest : (m : ℕ) → n ≤ m → m < end → MayCommit s m → m ≤ c

commit_step-cases :
    (s : Server) (n committed : ℕ)
    → ((commit_step s n committed ≡ n) × MayCommit s n)
      ⊎ ((commit_step s n committed ≡ committed) × ¬ MayCommit s n)
unfolding commit_step
commit_step-cases s n committed = elim (Bool-cases (term_at n s.log == s.current_term)) [
  | inl now ↦ elim (Bool-cases (leb (quorum s) (1 + count_at_least n s.match_index))) [
    | inl many ↦
        inl (rw (now, many), record { current = eq_of_== _ _ now; reached = le_of_leb _ _ many })
    | inr few ↦ inr (rw (now, few), λ may. omega (arith, may.reached, lt_of_not_leb _ _ few))
  ]
  | inr old ↦ inr (rw old, λ may. ne_of_==_false _ _ old may.current)
]

commit_loop-IsLargest :
    (s : Server) (rounds n committed : ℕ)
    → committed < n
    → IsLargest s committed n (n + rounds) (commit_loop s rounds n committed)
unfolding commit_loop
commit_loop-IsLargest s zero n committed h = record {
  found = inl refl;
  largest = λ m lo hi may. absurd (omega arith);
}
commit_loop-IsLargest s (suc rounds) n committed h = elim (commit_step-cases s n committed) [
  | inl (is, may) ↦
      let ih = commit_loop-IsLargest s rounds (suc n) n (omega arith) in
      rw is (record {
        found = elim ih.found [
          | inl e ↦ inr (omega (arith, e), omega (arith, e), rw e may)
          | inr (lo, hi, m) ↦ inr (omega arith, omega arith, m)
        ];
        largest = λ m lo hi may_m. elim (dec_lt n m) [
          | yes above ↦ ih.largest m above (omega arith) may_m
          | no at ↦ elim ih.found [ inl e ↦ omega (arith, e) | inr (lo', hi', _) ↦ omega arith ]
        ];
      })
  | inr (is, may_not) ↦
      let ih = commit_loop-IsLargest s rounds (suc n) committed (omega arith) in
      rw is (record {
        found = elim ih.found [
          | inl e ↦ inl e
          | inr (lo, hi, m) ↦ inr (omega arith, omega arith, m)
        ];
        largest = λ m lo hi may_m. elim (dec_lt n m) [
          | yes above ↦ ih.largest m above (omega arith) may_m
          | no at ↦ let e : m ≡ n = omega arith in absurd (may_not (subst (MayCommit s) e may_m))
        ];
      })
]

-- `advance_commit` sets the commit index to the largest index from the next one up to the end of
-- the log that may be committed, and leaves it where there is none.
pub advance_commit-IsLargest :
    (s : Server)
    → s.commit_index < u64_max
    → IsLargest s s.commit_index
        (s.commit_index + 1)
        (last_log_index s.log + 1)
        (advance_commit s).commit_index
unfolding advance_commit
advance_commit-IsLargest s h =
    let first : add_u64 s.commit_index 1 ≡ s.commit_index + 1 =
      add_u64-exact s.commit_index 1 (omega arith) in
    let r =
      commit_loop-IsLargest s (last_log_index s.log + 1 - (s.commit_index + 1)) (s.commit_index + 1)
        s.commit_index (omega arith) in
    rw first (record {
      found = elim r.found [
        | inl e ↦ inl e
        | inr (lo, hi, may) ↦ inr (lo, omega (arith, lo, hi), may)
      ];
      largest = λ m lo hi may. r.largest m lo (omega arith) may;
    })

-- The commit index of a leader never falls, and never passes the end of its log unless it was
-- there already.
pub advance_commit_monotone :
    (s : Server)
    → s.commit_index < u64_max
    → (s.commit_index ≤ (advance_commit s).commit_index)
      × ((advance_commit s).commit_index ≤ max s.commit_index (last_log_index s.log))
advance_commit_monotone s h = elim (advance_commit-IsLargest s h).found [
  | inl e ↦ (omega (arith, e), omega (arith, e))
  | inr (lo, hi, may) ↦ (omega arith, omega arith)
]
