-- ===== src/Recovery/Probe.antt =====
-- The superblock that PROBE chooses.
use lion_fs.Base.{
  ◌≤◌, ◌≡◌, refl, ap, ◌∙◌, inl, inr, ◌⊎◌, Bool, true, false, Option, none, some, List, [], ◌∷◌,
  arith, tests, leb, if◌then◌else◌, Bool-cases, le_of_leb, All, All-imp, keep,
}
use lion_fs.Recovery.{Candidate, choose, highest}

abbrev pub Holds : Candidate → List Candidate → Type 0
Holds c [] = ⊥
Holds c (d ∷ ds) = (c ≡ d) ⊎ Holds c ds

-- `c` is among the candidates, valid, and no valid candidate has a higher generation.
abbrev pub IsNewest : List Candidate → Candidate → Type 0
IsNewest cs c =
    Holds c cs
    × (c.crc_valid ≡ true)
    × All (λ (d : Candidate). d.crc_valid ≡ true → d.generation ≤ c.generation) cs

abbrev pub IsChoice : List Candidate → Option Candidate → Type 0
IsChoice cs none = All (λ (d : Candidate). d.crc_valid ≡ false) cs
IsChoice cs (some c) = IsNewest cs c

abbrev HighestOf : List Candidate → Option Candidate → Type 0
HighestOf ds none = ds ≡ []
HighestOf ds (some c) = Holds c ds × All (λ (d : Candidate). d.generation ≤ c.generation) ds

prefer-HighestOf :
    (d : Candidate) (ds : List Candidate) (o : Option Candidate)
    → HighestOf ds o
    → HighestOf (d ∷ ds) (elim o [
      | none ↦ some d
      | some c ↦ if leb d.generation c.generation then some c else some d
    ])
prefer-HighestOf d ds none h = rw (h) ((inl refl, (omega arith, tt)))
prefer-HighestOf d ds (some c) h = elim (Bool-cases (leb d.generation c.generation)) [
  | inl e ↦ rw (e) ((inr h.0, (le_of_leb d.generation c.generation e, h.1)))
  | inr e ↦ rw (e) ((inl refl, (omega arith, All-imp (λ x l. omega (tests, l, e)) ds h.1)))
]

highest-HighestOf : (ds : List Candidate) → HighestOf ds (highest ds)
unfolding highest
highest-HighestOf [] = refl
highest-HighestOf (d ∷ ds) = prefer-HighestOf d ds (highest ds) (highest-HighestOf ds)

use_if_true {ℓ κ} :
    {A : Type ℓ} (P : A → Type κ) (b : Bool) (x y : A) → b ≡ true → P (if b then x else y) → P x
use_if_true P true x y e p = p
use_if_true P false x y e p = absurd (cc)

use_if_false {ℓ κ} :
    {A : Type ℓ} (P : A → Type κ) (b : Bool) (x y : A) → b ≡ false → P (if b then x else y) → P y
use_if_false P false x y e p = p
use_if_false P true x y e p = absurd (cc)

abbrev valid_of : List Candidate → List Candidate
valid_of cs = keep (λ (c : Candidate). c.crc_valid) cs

Holds-keep :
    (c : Candidate) (cs : List Candidate)
    → Holds c (valid_of cs)
    → Holds c cs × (c.crc_valid ≡ true)
Holds-keep c [] h = absurd h
Holds-keep c (d ∷ ds) h = elim (Bool-cases d.crc_valid) [
  | inl e ↦ elim (use_if_true (λ (l : List Candidate). Holds c l) d.crc_valid _ _ e h) [
    | inl same ↦ (inl same, ap (λ (x : Candidate). x.crc_valid) same ∙ e)
    | inr later ↦ let rest = Holds-keep c ds later in (inr rest.0, rest.1)
  ]
  | inr e ↦
      let rest =
        Holds-keep c ds (use_if_false (λ (l : List Candidate). Holds c l) d.crc_valid _ _ e h) in
      (inr rest.0, rest.1)
]

All-keep {κ} :
    (P : Candidate → Type κ) (cs : List Candidate)
    → All P (valid_of cs)
    → All (λ (d : Candidate). d.crc_valid ≡ true → P d) cs
All-keep P [] h = tt
All-keep P (d ∷ ds) h = elim (Bool-cases d.crc_valid) [
  | inl e ↦
      let kept = use_if_true (All P) d.crc_valid _ _ e h in ((λ v. kept.0), All-keep P ds kept.1)
  | inr e ↦ ((λ v. absurd (cc)), All-keep P ds (use_if_false (All P) d.crc_valid _ _ e h))
]

none_valid :
    (cs : List Candidate) → valid_of cs ≡ [] → All (λ (d : Candidate). d.crc_valid ≡ false) cs
none_valid [] h = tt
none_valid (d ∷ ds) h = elim (Bool-cases d.crc_valid) [
  | inl e ↦
      let bad = use_if_true (λ (l : List Candidate). l ≡ []) d.crc_valid _ _ e h in absurd (cc)
  | inr e ↦ (e, none_valid ds (use_if_false (λ (l : List Candidate). l ≡ []) d.crc_valid _ _ e h))
]

newest_found :
    (cs : List Candidate) (o : Option Candidate) → HighestOf (valid_of cs) o → IsChoice cs o
newest_found cs none h = none_valid cs h
newest_found cs (some c) h = let held = Holds-keep c cs h.0 in (held.0, held.1, All-keep _ cs h.1)

-- PROBE chooses no superblock exactly if every candidate's checksum is bad; otherwise it chooses a
-- valid candidate of the highest generation among the valid ones.
pub choose-IsChoice : (cs : List Candidate) → IsChoice cs (choose cs)
unfolding choose
choose-IsChoice cs = newest_found cs (highest (valid_of cs)) (highest-HighestOf (valid_of cs))
