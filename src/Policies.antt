-- ===== src/Policies.antt =====
-- crates/lionfs/src/allocator/policies.rs: the choice among free extents. A candidate is a start
-- and a length.
pub mod Choice
mod Examples
use lion_fs.Base.{
  ℕ, Bool, true, false, Option, none, some, List, [], ◌∷◌, ltb, leb, if◌then◌else◌, keep,
}

pub data AllocationPolicy : Type 0 where
  first_fit best_fit worst_fit : AllocationPolicy

abbrev pub Candidate : Type 0
Candidate = ℕ × ℕ

-- `min_by_key` on the length: of several the first.
unfoldable pub shortest : List Candidate → Option Candidate
shortest [] = none
shortest (c ∷ cs) = elim (shortest cs) [
  | none ↦ some c
  | some d ↦ if leb c.1 d.1 then some c else some d
]

-- `max_by_key` on the length: of several the last.
unfoldable pub longest : List Candidate → Option Candidate
longest [] = none
longest (c ∷ cs) = elim (longest cs) [
  | none ↦ some c
  | some d ↦ if leb c.1 d.1 then some d else some c
]

unfoldable pub first : List Candidate → Option Candidate
first [] = none
first (c ∷ cs) = some c

abbrev pub fitting : List Candidate → ℕ → List Candidate
fitting cs needed = keep (λ (c : Candidate). leb needed c.1) cs

unfoldable pub choose : List Candidate → ℕ → AllocationPolicy → Option Candidate
unfolding first shortest longest
choose cs needed first_fit = first (fitting cs needed)
choose cs needed best_fit = shortest (fitting cs needed)
choose cs needed worst_fit = longest (fitting cs needed)
