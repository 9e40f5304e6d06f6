-- ===== src/Raft/Voting.antt =====
-- A server votes for at most one candidate in a term, over any sequence of events.
use lion_fs.Base.{
  ℕ, ◌<◌, ◌≡◌, refl, ◌⊎◌, inl, inr, true, false, none, some, List, [], ◌∷◌, ◌++◌, arith, All,
  All-append, All-imp, u64_max, ap, if_elim, ◌-◌, ◌==◌, add_u64,
}
use lion_fs.Raft.Log.{
  RaftMessage, request_vote, request_vote_reply, append_entries, append_entries_reply,
}
use lion_fs.Raft.Server.{Server, broadcast, peers, become_leader}
use lion_fs.Raft.Election.{decide_vote, is_leader}
use lion_fs.Raft.Step.{
  Event, deliver, elapse, propose, step, handle, tick, tick_follower, tick_leader, start_election,
  become_candidate, request_votes,
}

-- The votes in what a server sends, as term and candidate: those that it grants, and its own, which
-- a candidate announces by its requests.
unfoldable pub ballots : List (ℕ × RaftMessage) → List (ℕ × ℕ)
ballots [] = []
ballots ((to, request_vote_reply term true) ∷ out) = (term, to) ∷ ballots out
ballots ((to, request_vote term c i l) ∷ out) = (term, c) ∷ ballots out
ballots (_ ∷ out) = ballots out

unfoldable pub run : Server → List Event → Server × List (ℕ × RaftMessage)
unfolding step
run s [] = (s, [])
run s (e ∷ es) = let (t, out) = step s e in let (u, outs) = run t es in (u, out ++ outs)

-- A vote lasts for its term.
abbrev pub KeepsVote : Server → Server → Type 0
KeepsVote s t =
    (s.current_term < t.current_term)
    ⊎ ((s.current_term ≡ t.current_term) × ((s.voted_for ≡ none) ⊎ (t.voted_for ≡ s.voted_for)))

-- The vote was cast by the server in this state.
abbrev pub IsCast : Server → ℕ × ℕ → Type 0
IsCast s b = (b.0 ≡ s.current_term) × (s.voted_for ≡ some b.1)

ballots-broadcast : (s : Server) (ps : List ℕ) → ballots (broadcast s ps) ≡ []
unfolding ballots broadcast
ballots-broadcast s [] = refl
ballots-broadcast s (p ∷ ps) = ballots-broadcast s ps

All-request_votes :
    (s t : Server) (ps : List ℕ)
    → s.current_term ≡ t.current_term
    → t.voted_for ≡ some s.self_id
    → All (IsCast t) (ballots (request_votes s ps))
unfolding ballots request_votes
All-request_votes s t [] h v = tt
All-request_votes s t (p ∷ ps) h v = ((h, v), All-request_votes s t ps h v)

decide_vote-KeepsVote : (s : Server) (c i l : ℕ) → KeepsVote s (decide_vote s c i l).0
unfolding decide_vote
decide_vote-KeepsVote s c i l = ground arith

handle-KeepsVote : (s : Server) (from : ℕ) (m : RaftMessage) → KeepsVote s (handle s from m).0
unfolding handle
handle-KeepsVote s from (request_vote term c i l) = ground arith
handle-KeepsVote s from (request_vote_reply term vote_granted) = ground arith
handle-KeepsVote s from (append_entries term l pi pt entries lc) = ground arith
handle-KeepsVote s from (append_entries_reply term success mi) = ground arith

tick-KeepsVote :
    (s : Server) (elapsed : ℕ) → s.current_term < u64_max → KeepsVote s (tick s elapsed).0
unfolding tick
tick-KeepsVote s elapsed h = ground arith

-- Below the largest term, no event takes a vote back within its term.
pub step-KeepsVote : (s : Server) (e : Event) → s.current_term < u64_max → KeepsVote s (step s e).0
step-KeepsVote s (deliver from m) h = unfold step in handle-KeepsVote s from m
step-KeepsVote s (elapse t) h = unfold step in tick-KeepsVote s t h
step-KeepsVote s (propose command) h = unfold step in ground arith

handle-IsCast :
    (s : Server) (from : ℕ) (m : RaftMessage)
    → All (IsCast (handle s from m).0) (ballots (handle s from m).1)
unfolding handle ballots
handle-IsCast s from (request_vote term c i l) = ground arith
handle-IsCast s from (request_vote_reply term vote_granted) = ground (
  arith,
  ballots-broadcast (become_leader (record s { votes_received = add_u64 s.votes_received 1 }))
      (peers s),
)
handle-IsCast s from (append_entries term l pi pt entries lc) = ground arith
handle-IsCast s from (append_entries_reply term success mi) = ground arith

-- A pair of a state and its messages whose votes were all cast in that state.
abbrev AllCast : Server × List (ℕ × RaftMessage) → Type 0
AllCast r = All (IsCast r.0) (ballots r.1)

AllCast-broadcast : (s t : Server) (ps : List ℕ) → AllCast (t, broadcast s ps)
AllCast-broadcast s t ps = rw (ballots-broadcast s ps) tt

start_election-IsCast : (s : Server) → AllCast (start_election s)
unfolding start_election
start_election-IsCast s =
    let t = become_candidate s in
    if_elim AllCast _ _ _ (All-request_votes t (become_leader t) (peers t) refl refl)
      (All-request_votes t t (peers t) refl refl)

tick_leader-IsCast : (s : Server) (elapsed : ℕ) → AllCast (tick_leader s elapsed)
unfolding tick_leader
tick_leader-IsCast s elapsed =
    let t = record s { heartbeat_due_in = 50 } in
    if_elim AllCast ((s.heartbeat_due_in - elapsed) == 0) (t, broadcast t (peers t))
      (record s { heartbeat_due_in = s.heartbeat_due_in - elapsed }, [])
      (AllCast-broadcast t t (peers t)) (unfold ballots in tt)

tick_follower-IsCast : (s : Server) (elapsed : ℕ) → AllCast (tick_follower s elapsed)
unfolding tick_follower
tick_follower-IsCast s elapsed =
    let t = record s { election_timeout_in = s.election_timeout_in - elapsed } in
    if_elim AllCast (t.election_timeout_in == 0) (start_election t) (t, [])
      (start_election-IsCast t) (unfold ballots in tt)

tick-IsCast : (s : Server) (elapsed : ℕ) → AllCast (tick s elapsed)
unfolding tick
tick-IsCast s elapsed =
    if_elim AllCast (is_leader s.role) (tick_leader s elapsed) (tick_follower s elapsed)
      (tick_leader-IsCast s elapsed) (tick_follower-IsCast s elapsed)

-- Every vote that an event sends is one that the server holds after it, in its term.
pub step-IsCast : (s : Server) (e : Event) → AllCast (step s e)
unfolding step
step-IsCast s (deliver from m) = handle-IsCast s from m
step-IsCast s (elapse t) = tick-IsCast s t
step-IsCast s (propose command) = unfold ballots in tt

-- The term never reaches the largest u64 before an event.
abbrev pub NoWrap : Server → List Event → Type 0
NoWrap s [] = Unit
NoWrap s (e ∷ es) = (s.current_term < u64_max) × NoWrap (step s e).0 es

-- A vote that may still follow the state.
abbrev IsLater : Server → ℕ × ℕ → Type 0
IsLater s b =
    (s.current_term < b.0)
    ⊎ ((s.current_term ≡ b.0) × ((s.voted_for ≡ none) ⊎ (s.voted_for ≡ some b.1)))

-- Votes in one term are for one candidate.
abbrev pub Agree : ℕ × ℕ → ℕ × ℕ → Type 0
Agree a b = a.0 ≡ b.0 → a.1 ≡ b.1

abbrev pub AllAgree : List (ℕ × ℕ) → Type 0
AllAgree [] = Unit
AllAgree (b ∷ bs) = All (Agree b) bs × AllAgree bs

ballots-append : (xs ys : List (ℕ × RaftMessage)) → ballots (xs ++ ys) ≡ ballots xs ++ ballots ys
unfolding ballots
ballots-append [] ys = refl
ballots-append ((to, request_vote_reply term true) ∷ xs) ys =
    ap (◌∷◌ (term, to)) (ballots-append xs ys)
ballots-append ((to, request_vote term c i l) ∷ xs) ys = ap (◌∷◌ (term, c)) (ballots-append xs ys)
ballots-append ((to, request_vote_reply term false) ∷ xs) ys = ballots-append xs ys
ballots-append ((to, append_entries a b c d e f) ∷ xs) ys = ballots-append xs ys
ballots-append ((to, append_entries_reply a b c) ∷ xs) ys = ballots-append xs ys

IsLater-of-KeepsVote : (s t : Server) (b : ℕ × ℕ) → KeepsVote s t → IsLater t b → IsLater s b
IsLater-of-KeepsVote s t b k l = ground arith

IsLater-of-IsCast : (s t : Server) (b : ℕ × ℕ) → KeepsVote s t → IsCast t b → IsLater s b
IsLater-of-IsCast s t b k c = ground arith

Agree-of-IsCast : (t : Server) (a b : ℕ × ℕ) → IsCast t a → (IsCast t b ⊎ IsLater t b) → Agree a b
Agree-of-IsCast t a b c l = λ e. ground arith

AllAgree-append :
    (t : Server) (xs ys : List (ℕ × ℕ))
    → All (IsCast t) xs
    → All (IsLater t) ys
    → AllAgree ys
    → AllAgree (xs ++ ys)
AllAgree-append t [] ys c l a = a
AllAgree-append t (x ∷ xs) ys c l a = (
  All-append (Agree x) xs ys (All-imp (λ b h. Agree-of-IsCast t x b c.0 (inl h)) xs c.1)
      (All-imp (λ b h. Agree-of-IsCast t x b c.0 (inr h)) ys l),
  AllAgree-append t xs ys c.1 l a,
)

run_votes :
    (s : Server) (es : List Event)
    → NoWrap s es
    → All (IsLater s) (ballots (run s es).1) × AllAgree (ballots (run s es).1)
unfolding run
run_votes s [] h = unfold ballots in (tt, tt)
run_votes s (e ∷ es) h =
    let t = (step s e).0 in
    let out = (step s e).1 in
    let (later, agree) = run_votes t es h.1 in
    let k = step-KeepsVote s e h.0 in
    rw (ballots-append out (run t es).1) (
      All-append (IsLater s) _ _ (All-imp (λ b c. IsLater-of-IsCast s t b k c) _ (step-IsCast s e))
          (All-imp (λ b l. IsLater-of-KeepsVote s t b k l) _ later),
      AllAgree-append t _ _ (step-IsCast s e) later agree,
    )

-- Over any sequence of messages, timeouts and commands, while the term stays below the largest
-- u64 at each event: all the votes that a server casts or announces in one term are for one
-- candidate.
pub run-one_vote_per_term :
    (s : Server) (es : List Event) → NoWrap s es → AllAgree (ballots (run s es).1)
run-one_vote_per_term s es h = (run_votes s es h).1
