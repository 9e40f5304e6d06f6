-- ===== src/Raft/Step.antt =====
-- raft.rs: the timer, the dispatch of a message, the client's command, and a server's life as a
-- sequence of these events.
use lion_fs.Base.{ℕ, ◌+◌, ◌-◌, ◌%◌, some, List, [], ◌∷◌, ◌++◌, ◌==◌, leb, if◌then◌else◌, add_u64}
use lion_fs.Raft.Log.{
  RaftMessage, request_vote, request_vote_reply, append_entries, append_entries_reply,
}
use lion_fs.Raft.Server.{
  candidate, Server, quorum, last_log_index, last_log_term, next_rand, peers, broadcast,
  become_leader, advance_commit,
}
use lion_fs.Raft.Election.{handle_request_vote, handle_request_vote_reply, is_leader}
use lion_fs.Raft.Replication.{handle_append_entries, handle_append_reply}

-- The same vote request for every peer.
unfoldable pub request_votes : Server → List ℕ → List (ℕ × RaftMessage)
unfolding last_log_index last_log_term
request_votes s [] = []
request_votes s (p ∷ ps) =
    (p, request_vote s.current_term s.self_id (last_log_index s.log) (last_log_term s.log))
    ∷ request_votes s ps

-- A new term, a vote for oneself, a fresh random timeout.
unfoldable pub become_candidate : Server → Server
unfolding next_rand add_u64
become_candidate s =
    let r = next_rand s.rng_state in
    let timeout = 150 + r % 75 in
    record s {
      role = candidate;
      current_term = add_u64 s.current_term 1;
      voted_for = some s.self_id;
      votes_received = 1;
      rng_state = r;
      election_timeout = timeout;
      election_timeout_in = timeout;
    }

-- In a cluster of one the vote for oneself is the quorum.
unfoldable pub start_election : Server → Server × List (ℕ × RaftMessage)
unfolding become_candidate request_votes become_leader peers quorum
start_election s =
    let t = become_candidate s in
    let out = request_votes t (peers t) in
    if leb (quorum t) t.votes_received then (become_leader t, out) else (t, out)

unfoldable pub tick_follower : Server → ℕ → Server × List (ℕ × RaftMessage)
unfolding start_election
tick_follower s elapsed =
    let t = record s { election_timeout_in = s.election_timeout_in - elapsed } in
    if t.election_timeout_in == 0 then start_election t else (t, [])

unfoldable pub tick_leader : Server → ℕ → Server × List (ℕ × RaftMessage)
unfolding broadcast peers
tick_leader s elapsed =
    if (s.heartbeat_due_in - elapsed) == 0
    then (let t = record s { heartbeat_due_in = 50 } in (t, broadcast t (peers t)))
    else (record s { heartbeat_due_in = s.heartbeat_due_in - elapsed }, [])

unfoldable pub tick : Server → ℕ → Server × List (ℕ × RaftMessage)
unfolding tick_follower tick_leader is_leader
tick s elapsed = if is_leader s.role then tick_leader s elapsed else tick_follower s elapsed

unfoldable pub handle : Server → ℕ → RaftMessage → Server × List (ℕ × RaftMessage)
unfolding handle_request_vote handle_request_vote_reply handle_append_entries handle_append_reply
handle s from (request_vote term c last_index last_term) =
    handle_request_vote s term c last_index last_term
handle s from (request_vote_reply term vote_granted) = handle_request_vote_reply s term vote_granted
handle s from (append_entries term l prev_index prev_term entries leader_commit) =
    handle_append_entries s term l prev_index prev_term entries leader_commit
handle s from (append_entries_reply term success match_index) =
    handle_append_reply s from term success match_index

unfoldable pub append_local : Server → List ℕ → Server
unfolding advance_commit last_log_index add_u64
append_local s command = advance_commit (record s {
  log =
      s.log
      ++ (record {
        term = s.current_term;
        index = add_u64 (last_log_index s.log) 1;
        command = command;
      }
          ∷ []);
})

-- What can happen to a server, in any order.
pub data Event : Type 0 where
  deliver : ℕ → RaftMessage → Event
  elapse : ℕ → Event
  propose : List ℕ → Event

-- `Network::propose` refuses a server that does not lead, and has a leader send at once.
unfoldable pub propose_to : Server → List ℕ → Server
unfolding append_local is_leader
propose_to s command =
    if is_leader s.role then record (append_local s command) { heartbeat_due_in = 0 } else s

unfoldable pub step : Server → Event → Server × List (ℕ × RaftMessage)
unfolding handle tick propose_to
step s (deliver from m) = handle s from m
step s (elapse t) = tick s t
step s (propose command) = (propose_to s command, [])
