-- ===== src/Policies/Choice.antt =====
-- What each policy chooses.
use lion_fs.Base.{
  ℕ, ◌≤◌, ◌≡◌, refl, Option, none, some, List, [], ◌∷◌, arith, tests, leb, if◌then◌else◌, All,
  All-imp, ◌⊎◌, inl, inr, Bool-cases,
}
use lion_fs.Policies.{
  AllocationPolicy, first_fit, best_fit, worst_fit, Candidate, shortest, longest, first, fitting,
  choose,
}

abbrev Holds : Candidate → List Candidate → Type 0
Holds c [] = ⊥
Holds c (d ∷ ds) = (c ≡ d) ⊎ Holds c ds

-- First fit: the head. Otherwise a candidate that none is shorter, or longer, than.
abbrev pub IsChosen : AllocationPolicy → List Candidate → Candidate → Type 0
IsChosen first_fit cs c = (rest : List Candidate) × (cs ≡ c ∷ rest)
IsChosen best_fit cs c = Holds c cs × All (λ (d : Candidate). c.1 ≤ d.1) cs
IsChosen worst_fit cs c = Holds c cs × All (λ (d : Candidate). d.1 ≤ c.1) cs

abbrev pub IsBest : AllocationPolicy → List Candidate → Option Candidate → Type 0
IsBest p cs none = cs ≡ []
IsBest p cs (some c) = IsChosen p cs c

shortest_or_new :
    (c : Candidate) (cs : List Candidate) (o : Option Candidate)
    → IsBest best_fit cs o
    → IsBest best_fit
        (c ∷ cs)
        (elim o [ none ↦ some c | some d ↦ if leb c.1 d.1 then some c else some d ])
shortest_or_new c cs none h = rw (h) ((inl refl, (omega arith, tt)))
shortest_or_new c cs (some d) h = elim (Bool-cases (leb c.1 d.1)) [
  | inl e ↦ rw (e) ((inl refl, (omega arith, All-imp (λ x l. omega (tests, l, e)) cs h.1)))
  | inr e ↦ rw (e) ((inr h.0, (omega (tests, e), h.1)))
]

longest_or_new :
    (c : Candidate) (cs : List Candidate) (o : Option Candidate)
    → IsBest worst_fit cs o
    → IsBest worst_fit
        (c ∷ cs)
        (elim o [ none ↦ some c | some d ↦ if leb c.1 d.1 then some d else some c ])
longest_or_new c cs none h = rw (h) ((inl refl, (omega arith, tt)))
longest_or_new c cs (some d) h = elim (Bool-cases (leb c.1 d.1)) [
  | inl e ↦ rw (e) ((inr h.0, (omega (tests, e), h.1)))
  | inr e ↦ rw (e) ((inl refl, (omega arith, All-imp (λ x l. omega (tests, l, e)) cs h.1)))
]

shortest-IsBest : (cs : List Candidate) → IsBest best_fit cs (shortest cs)
unfolding shortest
shortest-IsBest [] = refl
shortest-IsBest (c ∷ cs) = shortest_or_new c cs (shortest cs) (shortest-IsBest cs)

longest-IsBest : (cs : List Candidate) → IsBest worst_fit cs (longest cs)
unfolding longest
longest-IsBest [] = refl
longest-IsBest (c ∷ cs) = longest_or_new c cs (longest cs) (longest-IsBest cs)

first-IsBest : (cs : List Candidate) → IsBest first_fit cs (first cs)
unfolding first
first-IsBest [] = refl
first-IsBest (c ∷ cs) = (cs, refl)

-- Each policy chooses nothing exactly if no candidate is long enough; of those that are,
-- first fit chooses the first, best fit one that none is shorter than, worst fit one that none is
-- longer than.
pub choose-IsBest :
    (cs : List Candidate) (needed : ℕ) (p : AllocationPolicy)
    → IsBest p (fitting cs needed) (choose cs needed p)
unfolding choose
choose-IsBest cs needed first_fit = first-IsBest (fitting cs needed)
choose-IsBest cs needed best_fit = shortest-IsBest (fitting cs needed)
choose-IsBest cs needed worst_fit = longest-IsBest (fitting cs needed)
