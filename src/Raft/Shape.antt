-- ===== src/Raft/Shape.antt =====
-- The shape of a log: the entry at place k has index k + 1. Every event keeps it.
use lion_fs.Base.{
  ℕ, zero, suc, ◌+◌, ◌≤◌, ◌<◌, ◌≡◌, refl, ◌∙◌, ◌⊎◌, inl, inr, none, some, List, [], ◌∷◌, ◌++◌,
  arith, length, get_elem?, take, u64_max, add_u64, add_u64-exact, Bool-cases, Option-cases, ◌==◌,
  if◌then◌else◌,
}
use native.Mathlib.Decide.{dec_lt}
use native.Mathlib.Nat.{zero-add}
use lion_fs.Raft.Log.{LogEntry, position}
use lion_fs.Raft.Server.{last_log_index}
use lion_fs.Raft.Replication.{append_entry}

-- The entries have the indices from `i + 1` on.
abbrev pub IsNumbered : ℕ → List LogEntry → Type 0
IsNumbered i [] = Unit
IsNumbered i (e ∷ es) = (e.index ≡ suc i) × IsNumbered (suc i) es

abbrev pub IsContiguous : List LogEntry → Type 0
IsContiguous log = IsNumbered 0 log

pub IsNumbered-append :
    (i : ℕ) (xs : List LogEntry) (e : LogEntry)
    → IsNumbered i xs
    → e.index ≡ suc (i + length xs)
    → IsNumbered i (xs ++ e ∷ [])
IsNumbered-append i [] e h x = (omega arith, tt)
IsNumbered-append i (y ∷ ys) e h x = (h.0, IsNumbered-append (suc i) ys e h.1 (omega arith))

pub IsNumbered-take : (i n : ℕ) (xs : List LogEntry) → IsNumbered i xs → IsNumbered i (take n xs)
IsNumbered-take i zero xs h = tt
IsNumbered-take i (suc n) [] h = tt
IsNumbered-take i (suc n) (x ∷ xs) h = (h.0, IsNumbered-take (suc i) n xs h.1)

-- `position` finds index k + 1 at place k, and nothing beyond the end.
pub position-IsNumbered :
    (i k : ℕ) (xs : List LogEntry)
    → IsNumbered i xs
    → k < length xs
    → position (suc (i + k)) xs ≡ some k
unfolding position
position-IsNumbered i k [] h lt = elim lt [ ]
position-IsNumbered i zero (x ∷ xs) h lt = ground arith
position-IsNumbered i (suc k) (x ∷ xs) h lt =
    let ih = position-IsNumbered (suc i) k xs h.1 (omega arith) in
    let e : suc (suc i + k) ≡ suc (i + suc k) = omega arith in
    let ih' : position (suc (i + suc k)) xs ≡ some k = rw (← e) ih in ground arith

pub position_outside :
    (i j : ℕ) (xs : List LogEntry)
    → IsNumbered i xs
    → (j ≤ i) ⊎ (i + length xs < j)
    → position j xs ≡ none
unfolding position
position_outside i j [] h o = refl
position_outside i j (x ∷ xs) h o =
    let ih = position_outside (suc i) j xs h.1 (omega arith) in ground arith

pub position-lt :
    (i j p : ℕ) (xs : List LogEntry)
    → IsNumbered i xs
    → position j xs ≡ some p
    → (p < length xs) × (j ≡ suc (i + p))
unfolding position
position-lt i j p [] h e = cc
position-lt i j p (x ∷ xs) h e = elim (Bool-cases (x.index == j)) [
  | inl here ↦ ground arith
  | inr there ↦ elim (Option-cases (position j xs)) [
    | inl absent ↦ absurd (ground arith)
    | inr (q, at) ↦ let ih = position-lt (suc i) j q xs h.1 at in ground arith
  ]
]

-- The last index is the number of entries.
last_log_index_from :
    (i : ℕ) (e : LogEntry) (es : List LogEntry)
    → IsNumbered i (e ∷ es)
    → last_log_index (e ∷ es) ≡ suc (i + length es)
unfolding last_log_index
last_log_index_from i e [] h = omega (arith, h.0)
last_log_index_from i e (f ∷ es) h = omega (arith, last_log_index_from (suc i) f es h.1)

pub last_log_index-eq-length :
    (log : List LogEntry) → IsContiguous log → last_log_index log ≡ length log
last_log_index-eq-length [] h = unfold last_log_index in refl
last_log_index-eq-length (e ∷ es) h = omega (arith, last_log_index_from 0 e es h)

-- In a numbered log an index is found exactly at its place.
pub position_cases :
    (log : List LogEntry) (j : ℕ)
    → IsContiguous log
    → ((j ≡ 0) × (position j log ≡ none))
      ⊎ ((length log < j) × (position j log ≡ none))
      ⊎ ((k : ℕ) × (j ≡ suc k) × (k < length log) × (position j log ≡ some k))
position_cases log zero h = inl (refl, position_outside 0 0 log h (omega arith))
position_cases log (suc k) h = elim (dec_lt k (length log)) [
  | yes lt ↦ inr (inr (k, refl, lt, rw (zero-add k) at (position-IsNumbered 0 k log h lt)))
  | no ge ↦ inr (inl (omega arith, position_outside 0 (suc k) log h (omega arith)))
]

-- What one accepted entry does to a numbered log, for an entry at most one place past its end.
pub record Accepts (log : List LogEntry) (k : ℕ) (e : LogEntry) (log' : List LogEntry)
    : Type 0 where
  pub contiguous : IsContiguous log'
  pub reaches : k < length log'
  pub grows : length log' ≤ length log + 1
  pub held : (x : LogEntry) × (get_elem? log' k ≡ some x) × (x.term ≡ e.term)
  pub before : (i : ℕ) → i < k → get_elem? log' i ≡ get_elem? log i

pub append_entry-new :
    (log : List LogEntry) (e : LogEntry)
    → IsContiguous log
    → length log < u64_max
    → position e.index log ≡ none
    → append_entry log e ≡ (if e.index == suc (length log) then log ++ (e ∷ []) else log)
unfolding append_entry
append_entry-new log e h fits absent =
    let last : add_u64 (last_log_index log) 1 ≡ suc (length log) =
      add_u64-exact (last_log_index log) 1 (omega (arith, last_log_index-eq-length log h))
      ∙ omega (arith, last_log_index-eq-length log h) in
    rw (absent, append_entry) (rw last)
