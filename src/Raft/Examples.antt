-- ===== src/Raft/Examples.antt =====
-- Concrete servers: tests of the handlers, and the theorems at inputs that meet their hypotheses.
use lion_fs.Base.{
  ℕ, ◌+◌, ◌-◌, ◌<◌, ◌≡◌, ◌⊎◌, refl, true, false, none, List, [], ◌∷◌, arith, All, length, get_elem?,
  u64_max,
}
use lion_fs.Raft.Log
use lion_fs.Raft.Accept
use lion_fs.Raft.Log.{
  LogEntry, RaftMessage, request_vote, request_vote_reply, append_entries, append_entries_reply,
  get_or,
}
use lion_fs.Raft.Server.{Server, Role, leader, follower, last_log_index, advance_commit}
use lion_fs.Raft.Replication.{is_consistent, handle_append_entries, handle_append_reply}
use lion_fs.Raft.Step.{Event, deliver, elapse, propose, step}
use lion_fs.Raft.Voting.{ballots, run, AllAgree, run-one_vote_per_term}
use lion_fs.Raft.Shape.{IsContiguous}
use lion_fs.Raft.Append.{HasTerm}
use lion_fs.Raft.Accept.{handle_append_entries-HasTerm, step-IsContiguous}
use lion_fs.Raft.Commit.{IsLargest, advance_commit-IsLargest}
use lion_fs.Raft.Mismatch.{heartbeat_reply_commits_unreplicated}
use lion_fs.Raft.BackOff.{back_off-inconsistent}

abbrev entry : ℕ → ℕ → LogEntry
entry term index = record { term = term; index = index; command = [] }

-- A server of a cluster of three with the given role, term, log and commit index.
abbrev server : ℕ → Role → ℕ → List LogEntry → ℕ → Server
server id role term log commit = record {
  self_id = id;
  role = role;
  current_term = term;
  voted_for = none;
  votes_received = 0;
  log = log;
  commit_index = commit;
  last_applied = 0;
  next_index = (1, 1) ∷ (2, 1) ∷ [];
  match_index = (1, 0) ∷ (2, 0) ∷ [];
  election_timeout_in = 150;
  election_timeout = 150;
  heartbeat_due_in = 0;
  cluster_size = 3;
  rng_state = 1;
}

abbrev fresh : Server
fresh = server 0 follower 0 [] 0

-- A timeout, a vote from a peer, a command: the server leads in term 1 with one entry.
abbrev election : List Event
election = elapse 200 ∷ deliver 1 (request_vote_reply 1 true) ∷ propose (7 ∷ []) ∷ []

elected : ((run fresh election).0.role ≡ leader) × (length (run fresh election).0.log ≡ 1)
unfolding run
elected = (refl, refl)

run-one_vote_per_term_example : AllAgree (ballots (run fresh election).1)
unfolding step
run-one_vote_per_term_example = run-one_vote_per_term fresh election (omega arith)

abbrev behind : Server
behind = server 1 follower 2 (entry 1 1 ∷ entry 2 2 ∷ []) 1

abbrev new_entries : List LogEntry
new_entries = entry 3 2 ∷ entry 3 3 ∷ []

handle_append_entries-HasTerm_example :
    let log' = (handle_append_entries behind 3 0 1 1 new_entries 0).0.log in
    ((◌≡◌ {A = ℕ} 1 0) ⊎ HasTerm log' (1 - 1) 1)
    × All (λ e. HasTerm log' (e.index - 1) e.term) new_entries
    × ((i : ℕ) → i < 1 → get_elem? log' i ≡ get_elem? behind.log i)
    × IsContiguous log'
handle_append_entries-HasTerm_example =
    handle_append_entries-HasTerm behind 3 0 1 1 new_entries 0 3 3 (omega arith) (omega arith)
      (omega arith) (unfold handle_append_entries in refl)

step-IsContiguous_example : IsContiguous (step behind (propose [])).0.log
step-IsContiguous_example =
    step-IsContiguous behind (propose []) (omega arith) (unfold Accept.entries_in in omega arith)

abbrev leading : Server
leading = server 0 leader 3 (entry 1 1 ∷ entry 3 2 ∷ []) 1

advance_commit-IsLargest_example :
    IsLargest leading 1
      (1 + 1)
      (last_log_index leading.log + 1)
      (advance_commit leading).commit_index
advance_commit-IsLargest_example = advance_commit-IsLargest leading (omega arith)

heartbeat_reply_commits_unreplicated_example :
    let r = handle_append_entries behind 3 0 1 1 [] 0 in
    (r.1 ≡ (0, append_entries_reply 3 true 2) ∷ [])
    × ((handle_append_reply leading 1 3 true 2).0.commit_index ≡ 2)
    × HasTerm r.0.log 1 2
heartbeat_reply_commits_unreplicated_example =
    heartbeat_reply_commits_unreplicated leading behind 1 1 0 2 refl refl (omega arith) refl
      (entry 3 2, refl, refl) (omega arith) (omega arith) (omega arith) refl (entry 2 2, refl, refl)
      (omega arith) (omega arith) (unfold is_consistent in refl)

back_off-inconsistent_example :
    let r = handle_append_reply leading 1 3 false 0 in
    (get_or 1 1 r.0.next_index ≡ 0)
    × ((pt : ℕ) × (es : List LogEntry) × (r.1 ≡ (1, append_entries 3 0 u64_max pt es 1) ∷ [])
        × ((log : List LogEntry)
            → IsContiguous log
            → length log < u64_max
            → is_consistent log u64_max pt ≡ false))
back_off-inconsistent_example =
    back_off-inconsistent leading 1 0 refl (unfold Log.get in omega arith)
