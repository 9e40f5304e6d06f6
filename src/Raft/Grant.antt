-- ===== src/Raft/Grant.antt =====
-- When a vote is granted.
use lion_fs.Base.{ℕ, ◌≤◌, ◌<◌, ◌≡◌, ◌↔◌, ◌⊎◌, true, some, none, [], ◌∷◌, arith}
use lion_fs.Raft.Log.{request_vote_reply}
use lion_fs.Raft.Server.{Server, last_log_index, last_log_term}
use lion_fs.Raft.Election.{handle_request_vote}

-- The candidate's log is at least as complete as the server's.
abbrev pub IsUpToDate : Server → ℕ → ℕ → Type 0
IsUpToDate s last_index last_term =
    (last_log_term s.log < last_term)
    ⊎ ((last_term ≡ last_log_term s.log) × (last_log_index s.log ≤ last_index))

-- A vote for `c` in `term` is granted exactly if the term is not past, the candidate's log is at
-- least as complete, and in this term the server has not voted for another. A granting server is
-- then in that term with its vote for `c`.
pub handle_request_vote_iff :
    (s : Server) (term c last_index last_term : ℕ)
    → let r = handle_request_vote s term c last_index last_term in
      (r.1 ≡ (c, request_vote_reply term true) ∷ []) ↔ (
        ((s.current_term < term)
          ⊎ ((s.current_term ≡ term) × ((s.voted_for ≡ none) ⊎ (s.voted_for ≡ some c))))
        × IsUpToDate s last_index last_term
        × (r.0.current_term ≡ term)
        × (r.0.voted_for ≡ some c))
unfolding handle_request_vote
handle_request_vote_iff s term c last_index last_term = (λ h. ground arith, λ h. ground arith)
