-- ===== src/Raft/BackOff.antt =====
-- A refusal that arrives when the next index is already 1 makes it 0, and the retry that follows
-- asks for a previous index of 2^64 - 1.
use lion_fs.Base.{
  ℕ, ◌-◌, ◌≤◌, ◌<◌, ◌≡◌, false, some, List, [], ◌∷◌, arith, length, u64_max, max, ap,
}
use lion_fs.Raft.Log.{
  LogEntry, append_entries, IndexMap, get, get_or, insert, term_at, entries_from,
}
use lion_fs.Raft.Server.{Server, leader, build_append_for}
use lion_fs.Raft.Replication.{is_consistent, handle_append_reply, back_off}
use lion_fs.Raft.Shape.{IsContiguous, position_outside}
use lion_fs.Raft.Accept.{find_index-none}

get-insert : (k v : ℕ) (m : IndexMap) → get k (insert k v m) ≡ some v
unfolding get insert
get-insert k v [] = ground arith
get-insert k v ((j, w) ∷ m) = ground (arith, get-insert k v m)

beyond_is_inconsistent :
    (log : List LogEntry) (prev t : ℕ)
    → IsContiguous log
    → length log < prev
    → is_consistent log prev t ≡ false
unfolding is_consistent
beyond_is_inconsistent log prev t h lt =
    ground (arith, find_index-none log prev (position_outside 0 prev log h (omega arith)))

handle_append_reply-refused :
    (s : Server) (from m : ℕ)
    → s.role ≡ leader
    → handle_append_reply s from s.current_term false m
      ≡ (back_off s from, (from, build_append_for (back_off s from) from) ∷ [])
unfolding handle_append_reply
handle_append_reply-refused s from m lead = ground arith

get_or-back_off :
    (s : Server) (from : ℕ)
    → get_or from 1 s.next_index ≤ 1
    → get_or from 1 (back_off s from).next_index ≡ 0
unfolding back_off
get_or-back_off s from low =
    let next = max (get_or from 1 s.next_index) 1 - 1 in
    let next_zero : next ≡ 0 = omega arith in
    rw (get-insert from next s.next_index, get_or) next_zero

build_append_for_zero :
    (s : Server) (peer : ℕ)
    → get_or peer 1 s.next_index ≡ 0
    → build_append_for s peer
      ≡ append_entries s.current_term s.self_id u64_max
          (term_at u64_max s.log)
          (entries_from 0 s.log)
          s.commit_index
unfolding build_append_for
build_append_for_zero s peer z = rw (z, build_append_for)

-- A leader that is refused by a peer whose next index is at most 1 sets it to 0 and sends the
-- peer an `AppendEntries` that every server with a numbered log shorter than 2^64 - 1 refuses.
pub back_off-inconsistent :
    (s : Server) (from m : ℕ)
    → s.role ≡ leader
    → get_or from 1 s.next_index ≤ 1
    → let r = handle_append_reply s from s.current_term false m in
      (get_or from 1 r.0.next_index ≡ 0)
      × ((pt : ℕ) × (es : List LogEntry) × (r.1
            ≡ (from, append_entries s.current_term s.self_id u64_max pt es s.commit_index) ∷ [])
          × ((log : List LogEntry)
              → IsContiguous log
              → length log < u64_max
              → is_consistent log u64_max pt ≡ false))
back_off-inconsistent s from m lead low =
    let t = back_off s from in
    let z = get_or-back_off s from low in
    let sent : build_append_for t from
        ≡ append_entries s.current_term s.self_id u64_max (term_at u64_max s.log)
            (entries_from 0 s.log) s.commit_index =
      unfold back_off in build_append_for_zero t from z in
    let r = handle_append_reply-refused s from m lead in
    rw r (
      z,
      (
        term_at u64_max s.log,
        entries_from 0 s.log,
        ap (λ x. (from, x) ∷ []) sent,
        λ log h lt. beyond_is_inconsistent log u64_max _ h lt,
      ),
    )
