-- ===== src/Raft/Server.antt =====
-- raft.rs: the state of one server, and the helpers that its handlers share.
use Prim.Native.Nat.{bit_xor}
use lion_fs.Base.{
  ℕ, zero, suc, ◌+◌, ◌-◌, ◌*◌, ◌/◌, ◌%◌, ◌^◌, Bool, true, false, Option, none, some, List, [], ◌∷◌,
  ◌==◌, ltb, leb, if◌then◌else◌, add_u64, sub_u64, u64_mod,
}
use lion_fs.Raft.Log.{
  LogEntry, RaftMessage, append_entries, IndexMap, get_or, insert, back, term_at, entries_from,
  count_at_least,
}

pub data Role : Type 0 where
  follower candidate leader : Role

pub record Server : Type 0 where
  pub self_id : ℕ
  pub role : Role
  pub current_term : ℕ
  pub voted_for : Option ℕ
  pub votes_received : ℕ
  pub log : List LogEntry
  pub commit_index : ℕ
  pub last_applied : ℕ
  pub next_index : IndexMap
  pub match_index : IndexMap
  pub election_timeout_in : ℕ
  pub election_timeout : ℕ
  pub heartbeat_due_in : ℕ
  pub cluster_size : ℕ
  pub rng_state : ℕ

-- `for peer in i..i + n`, without the server itself
unfoldable pub peers_from : ℕ → ℕ → ℕ → List ℕ
peers_from i zero self_id = []
peers_from i (suc n) self_id =
    if i == self_id then peers_from (suc i) n self_id else i ∷ peers_from (suc i) n self_id

unfoldable pub peers : Server → List ℕ
unfolding peers_from
peers s = peers_from 0 s.cluster_size s.self_id

unfoldable pub insert_all : List ℕ → ℕ → IndexMap → IndexMap
unfolding insert
insert_all [] v m = m
insert_all (p ∷ ps) v m = insert_all ps v (insert p v m)

abbrev pub initial_timeout : ℕ → ℕ
initial_timeout id = 150 + id * 37 % 50

-- `x | 1`
abbrev pub or_one : ℕ → ℕ
or_one x = if x % 2 == 0 then x + 1 else x

unfoldable pub new : ℕ → ℕ → Server
unfolding insert_all peers_from
new id cluster_size =
    let ps = peers_from 0 cluster_size id in
    record {
      self_id = id;
      role = follower;
      current_term = 0;
      voted_for = none;
      votes_received = 0;
      log = [];
      commit_index = 0;
      last_applied = 0;
      next_index = insert_all ps 1 [];
      match_index = insert_all ps 0 [];
      election_timeout_in = initial_timeout id;
      election_timeout = initial_timeout id;
      heartbeat_due_in = 0;
      cluster_size = cluster_size;
      rng_state = or_one ((id * 6364136223846793005 + 1442695040888963407) % u64_mod);
    }

unfoldable pub quorum : Server → ℕ
quorum s = s.cluster_size / 2 + 1

unfoldable pub last_log_index : List LogEntry → ℕ
unfolding back
last_log_index log = elim (back log) [ none ↦ 0 | some e ↦ e.index ]

unfoldable pub last_log_term : List LogEntry → ℕ
unfolding back
last_log_term log = elim (back log) [ none ↦ 0 | some e ↦ e.term ]

-- The xorshift generator on u64.
unfoldable pub next_rand : ℕ → ℕ
next_rand x =
    let a = bit_xor x (x * 2 ^ 13 % u64_mod) in
    let b = bit_xor a (a / 2 ^ 7) in bit_xor b (b * 2 ^ 17 % u64_mod)

-- `next - 1` wraps in a release build (and panics in a debug build).
unfoldable pub build_append_for : Server → ℕ → RaftMessage
unfolding sub_u64 term_at entries_from
build_append_for s peer =
    let next = get_or peer 1 s.next_index in
    let prev_index = sub_u64 next 1 in
    append_entries s.current_term s.self_id prev_index (term_at prev_index s.log)
      (entries_from next s.log) s.commit_index

unfoldable pub broadcast : Server → List ℕ → List (ℕ × RaftMessage)
unfolding build_append_for
broadcast s [] = []
broadcast s (p ∷ ps) = (p, build_append_for s p) ∷ broadcast s ps

-- Adopts a higher term; the result says whether it did.
unfoldable pub become_follower : Server → ℕ → Server × Bool
become_follower s term =
    if ltb s.current_term term
    then (
      record s {
        current_term = term;
        voted_for = none;
        role = follower;
        votes_received = 0;
        election_timeout_in = s.election_timeout;
      },
      true,
    )
    else (s, false)

-- The callers drop the result.
unfoldable pub step_down_if_stale : Server → ℕ → Server
unfolding become_follower
step_down_if_stale s term = (become_follower s term).0

-- What winning an election sets.
unfoldable pub become_leader : Server → Server
unfolding insert_all peers last_log_index add_u64
become_leader s = record s {
  role = leader;
  heartbeat_due_in = 0;
  next_index = insert_all (peers s) (add_u64 (last_log_index s.log) 1) s.next_index;
  match_index = insert_all (peers s) 0 s.match_index;
}

-- One round of the loop of `advance_commit`: an entry of an older term is passed over.
unfoldable pub commit_step : Server → ℕ → ℕ → ℕ
unfolding term_at count_at_least quorum
commit_step s n committed =
    if term_at n s.log == s.current_term
    then (if leb (quorum s) (1 + count_at_least n s.match_index) then n else committed)
    else committed

-- `rounds` indices from `n` on.
unfoldable pub commit_loop : Server → ℕ → ℕ → ℕ → ℕ
commit_loop s zero n committed = committed
commit_loop s (suc rounds) n committed = commit_loop s rounds (suc n) (commit_step s n committed)

unfoldable pub advance_commit : Server → Server
unfolding commit_loop commit_step last_log_index add_u64
advance_commit s =
    let first = add_u64 s.commit_index 1 in
    record s {
      commit_index = commit_loop s (last_log_index s.log + 1 - first) first s.commit_index;
    }
