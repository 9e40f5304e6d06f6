-- ===== src/Raft/Election.antt =====
-- raft.rs: the handlers of `RequestVote` and of its reply.
use lion_fs.Base.{
  ℕ, Bool, true, false, Option, none, some, List, [], ◌∷◌, ◌==◌, ltb, leb, if◌then◌else◌, ◌&&◌,
  ◌||◌, add_u64,
}
use lion_fs.Raft.Log.{LogEntry, RaftMessage, request_vote_reply}
use lion_fs.Raft.Server.{
  Role, candidate, leader, Server, quorum, last_log_index, last_log_term, step_down_if_stale,
  become_leader, broadcast, peers,
}

-- The voter's rule: the candidate's log is at least as complete.
unfoldable pub is_up_to_date : List LogEntry → ℕ → ℕ → Bool
unfolding last_log_index last_log_term
is_up_to_date log last_index last_term =
    ltb (last_log_term log) last_term
    || ((last_term == last_log_term log) && leb (last_log_index log) last_index)

unfoldable pub can_vote_for : Option ℕ → ℕ → Bool
can_vote_for none c = true
can_vote_for (some v) c = v == c

-- The term is at least the server's own: adopt it, then decide.
unfoldable pub decide_vote : Server → ℕ → ℕ → ℕ → Server × List (ℕ × RaftMessage)
unfolding is_up_to_date can_vote_for
decide_vote s c last_index last_term =
    if can_vote_for s.voted_for c && is_up_to_date s.log last_index last_term
    then (
      record s { voted_for = some c; election_timeout_in = s.election_timeout },
      (c, request_vote_reply s.current_term true) ∷ [],
    )
    else (s, (c, request_vote_reply s.current_term false) ∷ [])

unfoldable pub handle_request_vote : Server → ℕ → ℕ → ℕ → ℕ → Server × List (ℕ × RaftMessage)
unfolding decide_vote step_down_if_stale
handle_request_vote s term c last_index last_term =
    if ltb term s.current_term
    then (s, (c, request_vote_reply s.current_term false) ∷ [])
    else decide_vote (step_down_if_stale s term) c last_index last_term

unfoldable pub is_candidate : Role → Bool
is_candidate candidate = true
is_candidate _ = false

unfoldable pub is_leader : Role → Bool
is_leader leader = true
is_leader _ = false

-- A candidate counts a vote, and leads at a quorum, with heartbeats at once.
unfoldable pub count_vote : Server → Server × List (ℕ × RaftMessage)
unfolding become_leader broadcast peers quorum add_u64
count_vote s =
    let t = record s { votes_received = add_u64 s.votes_received 1 } in
    if leb (quorum t) t.votes_received
    then (become_leader t, broadcast (become_leader t) (peers t))
    else (t, [])

unfoldable pub handle_request_vote_reply : Server → ℕ → Bool → Server × List (ℕ × RaftMessage)
unfolding step_down_if_stale is_candidate count_vote
handle_request_vote_reply s term vote_granted =
    if is_candidate s.role
    then (if ltb s.current_term term
        then (step_down_if_stale s term, [])
        else if (term == s.current_term) && vote_granted
        then count_vote s
        else (s, []))
    else (step_down_if_stale s term, [])
