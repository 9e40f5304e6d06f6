-- ===== src/Raft/Accept.antt =====
-- What a successful `AppendEntries` guarantees, and that every event keeps the log numbered.
use native.Mathlib.Decide.{dec_lt}
use lion_fs.Base.{
  ℕ, zero, suc, ◌+◌, ◌-◌, ◌≤◌, ◌<◌, ◌≡◌, refl, ◌∙◌, ◌⊎◌, inl, inr, true, none, some, List, [], ◌∷◌,
  arith, length, get_elem?, u64_max, Bool-cases, Option-cases, All, sym, ap, if◌then◌else◌,
  add_u64-exact,
}
use lion_fs.Raft.Log.{
  LogEntry, RaftMessage, request_vote, request_vote_reply, append_entries, append_entries_reply,
  find_index, position,
}
use lion_fs.Raft.Server.{Server, last_log_index}
use lion_fs.Raft.Replication.{is_consistent, append_all, handle_append_entries}
use lion_fs.Raft.Election.{is_leader}
use lion_fs.Raft.Step.{
  Event, deliver, elapse, propose, step, handle, tick, propose_to, append_local,
}
use lion_fs.Raft.Shape.{
  IsNumbered, IsContiguous, IsNumbered-append, position_cases, last_log_index-eq-length,
}
use lion_fs.Raft.Append.{HasTerm, append_all-HasTerm, append_all-IsContiguous}

pub find_index-some :
    (log : List LogEntry) (j k : ℕ) → position j log ≡ some k → find_index j log ≡ get_elem? log k
unfolding position find_index
find_index-some [] j k h = cc
find_index-some (x ∷ xs) j zero h = elim (Option-cases (position j xs)) [
  | inl absent ↦ ground arith
  | inr (q, at) ↦ ground arith
]
find_index-some (x ∷ xs) j (suc k) h = ground (arith, find_index-some xs j k)

pub find_index-none :
    (log : List LogEntry) (j : ℕ) → position j log ≡ none → find_index j log ≡ none
unfolding position find_index
find_index-none [] j h = refl
find_index-none (x ∷ xs) j h = ground (arith, find_index-none xs j)

is_consistent-found :
    (log : List LogEntry) (prev t : ℕ)
    → is_consistent log prev t ≡ true
    → (prev ≡ 0) ⊎ ((x : LogEntry) × (find_index prev log ≡ some x) × (x.term ≡ t))
unfolding is_consistent
is_consistent-found log prev t c = ground arith

-- The consistency test finds the previous entry at its place, with the leader's term.
pub is_consistent-HasTerm :
    (log : List LogEntry) (prev t : ℕ)
    → IsContiguous log
    → is_consistent log prev t ≡ true
    → (prev ≡ 0) ⊎ ((prev ≤ length log) × HasTerm log (prev - 1) t)
is_consistent-HasTerm log prev t h c = elim (is_consistent-found log prev t c) [
  | inl z ↦ inl z
  | inr (x, found, same) ↦ elim (position_cases log prev h) [
    | inl (z, absent) ↦ inl z
    | inr (inl (beyond, absent)) ↦ absurd (cc (find_index-none log prev absent))
    | inr (inr (k, is, lt, at)) ↦ inr (
      omega arith,
      (x, ap (get_elem? log) (omega arith) ∙ sym (find_index-some log prev k at) ∙ found, same),
    )
  ]
]

handle_append_entries-log :
    (s : Server) (term l prev pt : ℕ) (es : List LogEntry) (lc : ℕ)
    → let r = handle_append_entries s term l prev pt es lc in
      (r.0.log ≡ s.log) ⊎ (r.0.log ≡ append_all s.log es)
unfolding handle_append_entries
handle_append_entries-log s term l prev pt es lc = ground arith

handle_append_entries_success :
    (s : Server) (term l prev pt : ℕ) (es : List LogEntry) (lc t m : ℕ)
    → let r = handle_append_entries s term l prev pt es lc in
      (r.1 ≡ (l, append_entries_reply t true m) ∷ [])
      → (r.0.log ≡ append_all s.log es) × (is_consistent s.log prev pt ≡ true)
unfolding handle_append_entries
handle_append_entries_success s term l prev pt es lc t m = λ h. ground arith

-- Entries that follow each other from `prev` on, accepted with success by a server whose log is
-- numbered: the log agrees with the leader at `prev`, holds every one of the entries' terms at
-- their indices, keeps what stands up to `prev`, and stays numbered.
pub handle_append_entries-HasTerm :
    (s : Server) (term l prev pt : ℕ) (es : List LogEntry) (lc t m : ℕ)
    → IsContiguous s.log
    → length s.log + length es ≤ u64_max
    → IsNumbered prev es
    → (handle_append_entries s term l prev pt es lc).1 ≡ (l, append_entries_reply t true m) ∷ []
    → let log' = (handle_append_entries s term l prev pt es lc).0.log in
      ((prev ≡ 0) ⊎ HasTerm log' (prev - 1) pt)
      × All (λ e. HasTerm log' (e.index - 1) e.term) es
      × ((i : ℕ) → i < prev → get_elem? log' i ≡ get_elem? s.log i)
      × IsContiguous log'
handle_append_entries-HasTerm s term l prev pt es lc t m h fits n ok =
    let (is, consistent) = handle_append_entries_success s term l prev pt es lc t m ok in
    let c = is_consistent-HasTerm s.log prev pt h consistent in
    let a = append_all-HasTerm s.log es prev h fits n (omega (arith, c)) in
    let at_prev : (prev ≡ 0) ⊎ HasTerm (append_all s.log es) (prev - 1) pt = elim c [
      | inl z ↦ inl z
      | inr (le, (x, at, same)) ↦ elim (dec_lt 0 prev) [
        | yes pos ↦ inr (x, a.2 (prev - 1) (omega arith) ∙ at, same)
        | no none_before ↦ inl (omega arith)
      ]
    ] in
    rw is (at_prev, a.3, a.2, a.0)

-- How many entries an event can add.
unfoldable pub entries_in : Event → ℕ
entries_in (deliver from (append_entries t l pi pt es lc)) = length es
entries_in (propose command) = 1
entries_in _ = 0

append_local-IsContiguous :
    (s : Server) (command : List ℕ)
    → IsContiguous s.log
    → length s.log + 1 ≤ u64_max
    → IsContiguous (append_local s command).log
unfolding append_local
append_local-IsContiguous s command h fits = IsNumbered-append 0 s.log _ h (
    add_u64-exact (last_log_index s.log) 1 (omega (arith, last_log_index-eq-length s.log h))
    ∙ omega (arith, last_log_index-eq-length s.log h))

handle-IsContiguous :
    (s : Server) (from : ℕ) (msg : RaftMessage)
    → IsContiguous s.log
    → length s.log + entries_in (deliver from msg) ≤ u64_max
    → IsContiguous (handle s from msg).0.log
handle-IsContiguous s from (request_vote term c i l) h fits = rw same h
  where
    same : (handle s from (request_vote term c i l)).0.log ≡ s.log
    same = unfold handle in ground arith
handle-IsContiguous s from (request_vote_reply term vote_granted) h fits = rw same h
  where
    same : (handle s from (request_vote_reply term vote_granted)).0.log ≡ s.log
    same = unfold handle in ground arith
handle-IsContiguous s from (append_entries term l pi pt es lc) h fits =
    elim (handle_append_entries-log s term l pi pt es lc) [
      | inl same ↦ unfold handle in rw same h
      | inr grown ↦
          unfold handle in
          rw grown (append_all-IsContiguous s.log es h (unfold entries_in in omega arith))
    ]
handle-IsContiguous s from (append_entries_reply term success mi) h fits = rw same h
  where
    same : (handle s from (append_entries_reply term success mi)).0.log ≡ s.log
    same = unfold handle in ground arith

-- Whatever happens to a server, its log stays numbered from 1 without gaps, as long as its indices
-- fit in a u64.
pub step-IsContiguous :
    (s : Server) (e : Event)
    → IsContiguous s.log
    → length s.log + entries_in e ≤ u64_max
    → IsContiguous (step s e).0.log
step-IsContiguous s (deliver from msg) h fits = unfold step in handle-IsContiguous s from msg h fits
step-IsContiguous s (elapse t) h fits = rw same h
  where
    same : (step s (elapse t)).0.log ≡ s.log
    same = unfold step tick in ground arith
step-IsContiguous s (propose command) h fits = elim (Bool-cases (is_leader s.role)) [
  | inl leads ↦
      unfold step propose_to in
      rw (leads, if◌then◌else◌)
        (append_local-IsContiguous s command h (unfold entries_in in omega arith))
  | inr follows ↦ unfold step propose_to in rw (follows, if◌then◌else◌) h
]
