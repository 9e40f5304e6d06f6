-- ===== src/Raft/Append.antt =====
-- What accepting entries does to a numbered log.
use native.Mathlib.Decide.{dec_lt}
use lion_fs.Base.{
  ℕ, suc, ◌+◌, ◌-◌, ◌≤◌, ◌<◌, ◌≡◌, refl, ◌∙◌, inl, inr, true, none, some, List, [], ◌∷◌, ◌++◌,
  arith, length, length-append, length-take, get_elem?, get_elem?-lt, get_elem?-append_left,
  get_elem?-append_last, get_elem?-take, take, u64_max, Bool-cases, ◌==◌, ==_self, ==_of_ne,
  eq_of_==, ◌≢◌, if◌then◌else◌, All, sym, ap,
}
use lion_fs.Raft.Log.{LogEntry, position}
use lion_fs.Raft.Replication.{append_entry, append_all}
use lion_fs.Raft.Shape.{
  IsNumbered, IsContiguous, IsNumbered-append, IsNumbered-take, position_cases, Accepts,
  append_entry-new,
}

-- At place `i` the log has an entry of term `t`.
abbrev pub HasTerm : List LogEntry → ℕ → ℕ → Type 0
HasTerm log i t = (x : LogEntry) × (get_elem? log i ≡ some x) × (x.term ≡ t)

append_entry-old :
    (log : List LogEntry) (e x : LogEntry) (k : ℕ)
    → position e.index log ≡ some k
    → get_elem? log k ≡ some x
    → append_entry log e ≡ (if x.term == e.term then log else take k log ++ (e ∷ []))
unfolding append_entry
append_entry-old log e x k at is = rw (at, append_entry) (rw is)

extend-Accepts :
    (log : List LogEntry) (e : LogEntry) (k : ℕ)
    → IsContiguous log
    → e.index ≡ suc k
    → k ≤ length log
    → Accepts log k e (take k log ++ (e ∷ []))
extend-Accepts log e k h i le =
    let n = length-take k log le in
    record {
      contiguous =
          IsNumbered-append 0 (take k log) e (IsNumbered-take 0 k log h) (omega (arith, n));
      reaches = omega (arith, n, length-append (take k log) (e ∷ []));
      grows = omega (arith, n, length-append (take k log) (e ∷ []));
      held = (e, get_elem?-append_last (take k log) e k (sym n), refl);
      before = λ j lt.
          get_elem?-append_left (take k log) (e ∷ []) j (omega (arith, n))
          ∙ get_elem?-take k log j lt;
    }

take_all : (log : List LogEntry) → take (length log) log ≡ log
take_all [] = refl
take_all (x ∷ xs) = ap (◌∷◌ x) (take_all xs)

replicated-Accepts :
    (log : List LogEntry) (e x : LogEntry) (k : ℕ)
    → IsContiguous log
    → e.index ≡ suc k
    → k < length log
    → get_elem? log k ≡ some x
    → Accepts log k e (if x.term == e.term then log else take k log ++ (e ∷ []))
replicated-Accepts log e x k h i lt is = elim (Bool-cases (x.term == e.term)) [
  | inl same ↦ rw same (record {
    contiguous = h;
    reaches = lt;
    grows = omega arith;
    held = (x, is, eq_of_== x.term e.term same);
    before = λ j b. refl;
  })
  | inr other ↦ rw other (extend-Accepts log e k h i (omega arith))
]

-- An entry whose index is at most one past the end of a numbered log is in the log afterwards, at
-- its place, and what stands before it is as it was.
pub append_entry-Accepts :
    (log : List LogEntry) (e : LogEntry) (k : ℕ)
    → IsContiguous log
    → length log < u64_max
    → e.index ≡ suc k
    → k ≤ length log
    → Accepts log k e (append_entry log e)
append_entry-Accepts log e k h fits i le = elim (position_cases log e.index h) [
  | inl zero_index ↦ absurd (omega (arith, zero_index.0))
  | inr (inl (beyond, absent)) ↦
      let at_end : k ≡ length log = omega arith in
      let e_index : (e.index == suc (length log)) ≡ true =
        rw (i, at_end) (==_self (suc (length log))) in
      let all : take k log ≡ log = rw at_end (take_all log) in
      rw (append_entry-new log e h fits absent, e_index) (rw all at (extend-Accepts log e k h i le))
  | inr (inr (j, is_j, lt, at)) ↦
      let same : j ≡ k = omega arith in
      let at_k : position e.index log ≡ some k = at ∙ ap some same in
      let (x, is) = get_elem?-lt log k (omega (arith, lt)) in
      rw (append_entry-old log e x k at_k is)
        (replicated-Accepts log e x k h i (omega (arith, lt)) is)
]

-- A run of entries that begins at most one past the end of a numbered log is in the log afterwards.
pub append_all-HasTerm :
    (log es : List LogEntry) (k : ℕ)
    → IsContiguous log
    → length log + length es ≤ u64_max
    → IsNumbered k es
    → k ≤ length log
    → IsContiguous (append_all log es)
      × (k + length es ≤ length (append_all log es))
      × ((i : ℕ) → i < k → get_elem? (append_all log es) i ≡ get_elem? log i)
      × All (λ e. HasTerm (append_all log es) (e.index - 1) e.term) es
unfolding append_all
append_all-HasTerm log [] k h fits n le = (h, omega arith, λ i lt. refl, tt)
append_all-HasTerm log (e ∷ es) k h fits n le =
    let log' = append_entry log e in
    let a = append_entry-Accepts log e k h (omega arith) n.0 le in
    let ih =
      append_all-HasTerm log' es (suc k) a.contiguous (omega (arith, a.grows)) n.1
        (omega (arith, a.reaches)) in
    let here : e.index - 1 ≡ k = omega (arith, n.0) in
    let same = ih.2 k (omega arith) in
    (
      ih.0,
      omega (arith, ih.1),
      λ i lt. ih.2 i (omega arith) ∙ a.before i lt,
      (rw here (a.held.0, same ∙ a.held.1, a.held.2), ih.3),
    )

-- Any entries whatever leave a numbered log numbered.
append_entry-IsContiguous :
    (log : List LogEntry) (e : LogEntry)
    → IsContiguous log
    → length log < u64_max
    → IsContiguous (append_entry log e) × (length (append_entry log e) ≤ length log + 1)
append_entry-IsContiguous log e h fits = elim (position_cases log e.index h) [
  | inl zero_index ↦ unplaced zero_index.1 (omega (arith, zero_index.0))
  | inr (inl (beyond, absent)) ↦ elim (dec_lt (suc (length log)) e.index) [
    | yes far ↦ unplaced absent (omega arith)
    | no near ↦ placed (length log) (omega arith) (omega arith)
  ]
  | inr (inr (j, is_j, lt, at)) ↦ placed j is_j (omega (arith, lt))
]
  where
    unplaced :
        position e.index log ≡ none
        → e.index ≢ suc (length log)
        → IsContiguous (append_entry log e) × (length (append_entry log e) ≤ length log + 1)
    unplaced absent far =
        rw (append_entry-new log e h fits absent, ==_of_ne e.index (suc (length log)) far)
          (h, omega arith)

    placed :
        (k : ℕ)
        → e.index ≡ suc k
        → k ≤ length log
        → IsContiguous (append_entry log e) × (length (append_entry log e) ≤ length log + 1)
    placed k i le = let a = append_entry-Accepts log e k h fits i le in (a.contiguous, a.grows)

pub append_all-IsContiguous :
    (log es : List LogEntry)
    → IsContiguous log
    → length log + length es ≤ u64_max
    → IsContiguous (append_all log es)
unfolding append_all
append_all-IsContiguous log [] h fits = h
append_all-IsContiguous log (e ∷ es) h fits =
    let a = append_entry-IsContiguous log e h (omega arith) in
    append_all-IsContiguous (append_entry log e) es a.0 (omega (arith, a.1))
