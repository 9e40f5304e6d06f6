-- ===== src/Raft/Log.antt =====
-- raft.rs: log entries, messages, and the maps from a peer to an index.
use lion_fs.Base.{
  ℕ, suc, Bool, Option, none, some, List, [], ◌∷◌, ◌==◌, leb, if◌then◌else◌, find?, keep,
}

pub record LogEntry : Type 0 where
  pub term : ℕ
  pub index : ℕ
  pub command : List ℕ

pub data RaftMessage : Type 0 where
  -- term, candidate, last_log_index, last_log_term
  request_vote : ℕ → ℕ → ℕ → ℕ → RaftMessage
  -- term, vote_granted
  request_vote_reply : ℕ → Bool → RaftMessage
  -- term, leader, prev_log_index, prev_log_term, entries, leader_commit
  append_entries : ℕ → ℕ → ℕ → ℕ → List LogEntry → ℕ → RaftMessage
  -- term, success, match_index
  append_entries_reply : ℕ → Bool → ℕ → RaftMessage

-- A `BTreeMap<NodeId, u64>`: each key at most once.
abbrev pub IndexMap : Type 0
IndexMap = List (ℕ × ℕ)

unfoldable pub get : ℕ → IndexMap → Option ℕ
get k [] = none
get k ((j, v) ∷ m) = if j == k then some v else get k m

unfoldable pub insert : ℕ → ℕ → IndexMap → IndexMap
insert k v [] = (k, v) ∷ []
insert k v ((j, w) ∷ m) = if j == k then (k, v) ∷ m else (j, w) ∷ insert k v m

abbrev pub get_or : ℕ → ℕ → IndexMap → ℕ
get_or k d m = elim (get k m) [ none ↦ d | some v ↦ v ]

-- `values().filter(|m| m >= n).count()`
unfoldable pub count_at_least : ℕ → IndexMap → ℕ
count_at_least n [] = 0
count_at_least n ((j, v) ∷ m) = if leb n v then suc (count_at_least n m) else count_at_least n m

-- `log.back()`
unfoldable pub back : List LogEntry → Option LogEntry
back [] = none
back (e ∷ []) = some e
back (e ∷ f ∷ es) = back (f ∷ es)

unfoldable pub find_index : ℕ → List LogEntry → Option LogEntry
find_index i log = find? (λ e. e.index == i) log

-- `iter().find(|e| e.index == i).map(|e| e.term).unwrap_or(0)`
unfoldable pub term_at : ℕ → List LogEntry → ℕ
unfolding find_index
term_at i log = elim (find_index i log) [ none ↦ 0 | some e ↦ e.term ]

-- `iter().position(|e| e.index == i)`
unfoldable pub position : ℕ → List LogEntry → Option ℕ
position i [] = none
position i (e ∷ es) =
    if e.index == i then some 0 else elim (position i es) [ none ↦ none | some p ↦ some (suc p) ]

-- The entries from an index on.
unfoldable pub entries_from : ℕ → List LogEntry → List LogEntry
entries_from next log = keep (λ e. leb next e.index) log
