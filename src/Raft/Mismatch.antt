-- ===== src/Raft/Mismatch.antt =====
-- A follower's reply reports the last index of its whole log, also of entries that the leader has
-- never seen. A leader that counts it commits an entry that the follower does not have.
use native.Mathlib.Nat.{zero-add}
use lion_fs.Base.{
  ℕ, suc, ◌≤◌, ◌<◌, ◌≡◌, ◌≢◌, refl, ◌∙◌, inl, inr, true, some, List, [], ◌∷◌, arith, length,
  lt_of_get_elem?, u64_max, max, ap,
}
use lion_fs.Raft.Log.{
  LogEntry, append_entries_reply, IndexMap, get_or, insert, count_at_least, term_at, position,
}
use lion_fs.Raft.Server.{Server, leader, quorum, last_log_index, advance_commit}
use lion_fs.Raft.Replication.{
  is_consistent, handle_append_entries, handle_append_reply, record_match,
}
use lion_fs.Raft.Shape.{IsContiguous, last_log_index-eq-length, position-IsNumbered}
use lion_fs.Raft.Accept.{find_index-some}
use lion_fs.Raft.Append.{HasTerm}
use lion_fs.Raft.Commit.{MayCommit, advance_commit-IsLargest}

-- The reply to an empty `AppendEntries` of the current term that is consistent.
handle_append_entries-heartbeat :
    (f : Server) (term l prev pt lc : ℕ)
    → f.current_term ≤ term
    → is_consistent f.log prev pt ≡ true
    → let r = handle_append_entries f term l prev pt [] lc in
      (r.0.log ≡ f.log) × (r.1 ≡ (l, append_entries_reply term true (last_log_index f.log)) ∷ [])
unfolding handle_append_entries
handle_append_entries-heartbeat f term l prev pt lc h c = ground arith

count_at_least-insert : (n k v : ℕ) (m : IndexMap) → n ≤ v → 1 ≤ count_at_least n (insert k v m)
unfolding count_at_least insert
count_at_least-insert n k v [] h = ground arith
count_at_least-insert n k v ((j, w) ∷ m) h = ground (arith, count_at_least-insert n k v m h)

handle_append_reply-success :
    (s : Server) (from m : ℕ)
    → s.role ≡ leader
    → (handle_append_reply s from s.current_term true m).0 ≡ advance_commit (record_match s from m)
unfolding handle_append_reply
handle_append_reply-success s from m lead = ground arith

term_at-HasTerm :
    (log : List LogEntry) (n t : ℕ) → IsContiguous log → HasTerm log n t → term_at (suc n) log ≡ t
unfolding term_at
term_at-HasTerm log n t h (x, at, same) =
    let placed : position (suc n) log ≡ some n =
      rw (zero-add n) at (position-IsNumbered 0 n log h (lt_of_get_elem? log n at)) in
    rw (find_index-some log (suc n) n placed ∙ at, term_at) same

MayCommit-record_match :
    (l : Server) (from n : ℕ)
    → l.cluster_size ≡ 3
    → IsContiguous l.log
    → HasTerm l.log n l.current_term
    → MayCommit (record_match l from (suc n)) (suc n)
unfolding record_match
MayCommit-record_match l from n three h last = record {
  current = term_at-HasTerm l.log n l.current_term h last;
  reached =
      unfold quorum in
      omega (
        arith,
        three,
        count_at_least-insert (suc n) from (max (get_or from 0 l.match_index) (suc n)) l.match_index
            (omega arith),
      );
}

record_match-advances :
    (l : Server) (from n : ℕ)
    → l.cluster_size ≡ 3
    → IsContiguous l.log
    → length l.log ≡ suc n
    → HasTerm l.log n l.current_term
    → l.commit_index ≤ n
    → n < u64_max
    → (advance_commit (record_match l from (suc n))).commit_index ≡ suc n
record_match-advances l from n three h ll last hc fits =
    let r =
      advance_commit-IsLargest (record_match l from (suc n)) (unfold record_match in omega arith) in
    let kept_log : (record_match l from (suc n)).log ≡ l.log = unfold record_match in refl in
    let kept : (record_match l from (suc n)).commit_index ≡ l.commit_index =
      unfold record_match in refl in
    let end : last_log_index (record_match l from (suc n)).log ≡ suc n =
      ap last_log_index kept_log ∙ last_log_index-eq-length l.log h ∙ ll in
    let at_least =
      r.largest (suc n) (omega (arith, kept)) (omega (arith, end))
        (MayCommit-record_match l from n three h last) in
    elim r.found [
      | inl e ↦ absurd (omega (arith, e, kept, at_least))
      | inr (lo, hi, may) ↦ omega (arith, hi, end, at_least)
    ]

-- A leader of a cluster of three, whose last entry, at index n + 1, is of its term and not yet
-- committed, and a follower of no later term whose log is as long, agrees with the leader's at
-- index n, and has an entry of another term at n + 1. After one empty `AppendEntries` for index n
-- and its reply the leader has committed n + 1, while the follower's log is as it was.
pub heartbeat_reply_commits_unreplicated :
    (l f : Server) (n pt lc t : ℕ)
    → l.role ≡ leader
    → l.cluster_size ≡ 3
    → IsContiguous l.log
    → length l.log ≡ suc n
    → HasTerm l.log n l.current_term
    → l.commit_index ≤ n
    → n < u64_max
    → IsContiguous f.log
    → length f.log ≡ suc n
    → HasTerm f.log n t
    → t ≢ l.current_term
    → f.current_term ≤ l.current_term
    → is_consistent f.log n pt ≡ true
    → let r = handle_append_entries f l.current_term l.self_id n pt [] lc in
      (r.1 ≡ (l.self_id, append_entries_reply l.current_term true (suc n)) ∷ [])
      × ((handle_append_reply l f.self_id l.current_term true (suc n)).0.commit_index ≡ suc n)
      × HasTerm r.0.log n t
heartbeat_reply_commits_unreplicated l f n pt lc t lead three lc_log ll lt hc fits fc fl ft ne ct
      c =
    let beat = handle_append_entries-heartbeat f l.current_term l.self_id n pt lc ct c in
    let last : last_log_index f.log ≡ suc n = last_log_index-eq-length f.log fc ∙ fl in
    (
      rw (← last) beat.1,
      ap (λ (s : Server). s.commit_index) (handle_append_reply-success l f.self_id (suc n) lead)
          ∙ record_match-advances l f.self_id n three lc_log ll lt hc fits,
      rw beat.0 ft,
    )
