-- ===== src/Raft/Replication.antt =====
-- raft.rs: the handlers of `AppendEntries` and of its reply.
use lion_fs.Base.{
  ℕ, ◌-◌, Bool, true, false, none, some, List, [], ◌∷◌, ◌++◌, ◌==◌, ltb, if◌then◌else◌, add_u64,
  get_elem?, take, min, max,
}
use lion_fs.Raft.Log.{
  LogEntry, RaftMessage, append_entries_reply, find_index, position, get_or, insert,
}
use lion_fs.Raft.Server.{
  follower, candidate, Server, last_log_index, step_down_if_stale, advance_commit, build_append_for,
}
use lion_fs.Raft.Election.{is_leader}

-- The entry before the new ones is in the log, with the leader's term.
unfoldable pub is_consistent : List LogEntry → ℕ → ℕ → Bool
unfolding find_index
is_consistent log prev_index prev_term =
    if prev_index == 0
    then true
    else elim (find_index prev_index log) [ none ↦ false | some e ↦ e.term == prev_term ]

-- One round of the loop over the entries: keep a replicated entry, cut at a conflict, append.
-- `position` gives an index in range, so `log[pos]` does not panic.
unfoldable pub append_entry : List LogEntry → LogEntry → List LogEntry
unfolding position last_log_index add_u64
append_entry log e = elim (position e.index log) [
  | some pos ↦ elim (get_elem? log pos) [
    | none ↦ log
    | some x ↦ if x.term == e.term then log else take pos log ++ (e ∷ [])
  ]
  | none ↦ if e.index == add_u64 (last_log_index log) 1 then log ++ (e ∷ []) else log
]

unfoldable pub append_all : List LogEntry → List LogEntry → List LogEntry
unfolding append_entry
append_all log [] = log
append_all log (e ∷ es) = append_all (append_entry log e) es

-- `if leader_commit > self.commit_index { … }`
unfoldable pub follow_commit : ℕ → ℕ → List LogEntry → ℕ
unfolding last_log_index
follow_commit commit leader_commit log =
    if ltb commit leader_commit then min leader_commit (last_log_index log) else commit

-- A candidate recognises the leader; every receiver re-arms its election timer.
unfoldable pub recognise_leader : Server → Server
recognise_leader s = record s {
  role = elim s.role [ candidate ↦ follower | other ↦ other ];
  election_timeout_in = s.election_timeout;
}

unfoldable pub accept_entries : Server → List LogEntry → ℕ → Server
unfolding append_all follow_commit
accept_entries s entries leader_commit =
    let log' = append_all s.log entries in
    record s { log = log'; commit_index = follow_commit s.commit_index leader_commit log' }

-- Every reply reports the last index of the whole log.
unfoldable pub reply_to_append : Server → ℕ → Bool → List (ℕ × RaftMessage)
unfolding last_log_index
reply_to_append s to success =
    (to, append_entries_reply s.current_term success (last_log_index s.log)) ∷ []

unfoldable pub handle_append_entries :
    Server → ℕ → ℕ → ℕ → ℕ → List LogEntry → ℕ → Server × List (ℕ × RaftMessage)
unfolding step_down_if_stale recognise_leader is_consistent accept_entries reply_to_append
handle_append_entries s term from prev_index prev_term entries leader_commit =
    if ltb term s.current_term
    then (s, reply_to_append s from false)
    else (let t = recognise_leader (step_down_if_stale s term) in
        let u = accept_entries t entries leader_commit in
        if is_consistent t.log prev_index prev_term
        then (u, reply_to_append u from true)
        else (t, reply_to_append t from false))

unfoldable pub record_match : Server → ℕ → ℕ → Server
unfolding insert
record_match s from m = record s {
  match_index = insert from (max (get_or from 0 s.match_index) m) s.match_index;
}

unfoldable pub back_off : Server → ℕ → Server
unfolding insert
back_off s from = record s {
  next_index = insert from (max (get_or from 1 s.next_index) 1 - 1) s.next_index;
}

unfoldable pub handle_append_reply : Server → ℕ → ℕ → Bool → ℕ → Server × List (ℕ × RaftMessage)
unfolding step_down_if_stale is_leader record_match advance_commit back_off build_append_for
handle_append_reply s from term success match_index =
    if is_leader s.role
    then (if ltb s.current_term term
        then (step_down_if_stale s term, [])
        else if ltb term s.current_term
        then (s, [])
        else if success
        then (advance_commit (record_match s from match_index), [])
        else (back_off s from, (from, build_append_for (back_off s from) from) ∷ []))
    else (step_down_if_stale s term, [])
