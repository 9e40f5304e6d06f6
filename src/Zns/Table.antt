-- ===== src/Zns/Table.antt =====
-- The table as a map: zones in the order of their ids, and what a change of one zone does.
use mathlib.Core.Path.{subst}
use lion_fs.Base.{
  ℕ, ◌+◌, ◌≤◌, ◌<◌, ◌≡◌, refl, inl, inr, none, some, List, [], ◌∷◌, arith, All, Bool-cases, ◌==◌,
  if◌then◌else◌, u64_mod, if_elim, ap, tests,
}
use lion_fs.Zns.{Zone, get, modify}

-- Ids grow along the list: each is there once.
abbrev pub IsSorted : List Zone → Type 0
IsSorted [] = Unit
IsSorted (z ∷ zs) = All (λ (y : Zone). z.id < y.id) zs × IsSorted zs

-- The write pointer lies in the zone, and the zone in the address space.
pub record IsValidZone (z : Zone) : Type 0 where
  pub within : z.write_pointer ≤ z.capacity
  pub addressable : z.start + z.capacity < u64_mod

pub record IsValid (zs : List Zone) : Type 0 where
  pub sorted : IsSorted zs
  pub zones_valid : All IsValidZone zs

pub get_above : (id : ℕ) (zs : List Zone) → All (λ (y : Zone). id < y.id) zs → get id zs ≡ none
unfolding get
get_above id [] h = refl
get_above id (z ∷ zs) h = ground (arith, get_above id zs h.1)

-- What a table of zones holds under an id has that id, and what holds of all zones.
pub get-All {κ} :
    (P : Zone → Type κ) (id : ℕ) (zs : List Zone) {z : Zone}
    → All P zs
    → get id zs ≡ some z
    → P z × (z.id ≡ id)
unfolding get
get-All P id [] a h = cc
get-All P id (y ∷ ys) {z} a h = elim (Bool-cases (y.id == id)) [
  | inl here ↦
      let e : y ≡ z = ground arith in
      (subst P e a.0, omega (tests, ap (λ (x : Zone). x.id) e, here))
  | inr there ↦ get-All P id ys a.1 (ground arith)
]

-- A change that keeps the ids is seen under its id and nowhere else.
pub get-modify :
    (id j : ℕ) (f : Zone → Zone) (zs : List Zone)
    → ((z : Zone) → (f z).id ≡ z.id)
    → get j (modify id f zs)
      ≡ (if id == j then (elim (get id zs) [ none ↦ none | some z ↦ some (f z) ]) else get j zs)
unfolding get modify
get-modify id j f [] keeps = ground arith
get-modify id j f (z ∷ zs) keeps = ground (arith, keeps z, get-modify id j f zs keeps)

pub modify-All {κ} :
    (P : Zone → Type κ) (id : ℕ) (f : Zone → Zone) (zs : List Zone)
    → ((z : Zone) → P z → P (f z))
    → All P zs
    → All P (modify id f zs)
unfolding modify
modify-All P id f [] step a = tt
modify-All P id f (z ∷ zs) step a =
    if_elim (All P) (z.id == id) (f z ∷ zs) (z ∷ modify id f zs) (step z a.0, a.1)
      (a.0, modify-All P id f zs step a.1)

-- What all zones have, they still have if the changed one has it.
pub modify-All_at {κ} :
    (P : Zone → Type κ) (id : ℕ) (f : Zone → Zone) (zs : List Zone) {z : Zone}
    → All P zs
    → get id zs ≡ some z
    → P (f z)
    → All P (modify id f zs)
unfolding modify get
modify-All_at P id f [] a h q = tt
modify-All_at P id f (y ∷ ys) {z} a h q = elim (Bool-cases (y.id == id)) [
  | inl here ↦ let e : z ≡ y = ground arith in rw here (subst (λ x. P (f x)) e q, a.1)
  | inr there ↦ rw there (a.0, modify-All_at P id f ys a.1 (ground arith) q)
]

modify-above :
    (i id : ℕ) (f : Zone → Zone) (zs : List Zone)
    → ((z : Zone) → (f z).id ≡ z.id)
    → All (λ (y : Zone). i < y.id) zs
    → All (λ (y : Zone). i < y.id) (modify id f zs)
modify-above i id f zs same a = modify-All (λ (y : Zone). i < y.id) id f zs (λ z h. rw (same z) h) a

pub modify-IsSorted :
    (id : ℕ) (f : Zone → Zone) (zs : List Zone)
    → ((z : Zone) → (f z).id ≡ z.id)
    → IsSorted zs
    → IsSorted (modify id f zs)
unfolding modify
modify-IsSorted id f [] same h = tt
modify-IsSorted id f (z ∷ zs) same h =
    if_elim IsSorted (z.id == id) (f z ∷ zs) (z ∷ modify id f zs) (rw (same z) h.0, h.1)
      (modify-above z.id id f zs same h.0, modify-IsSorted id f zs same h.1)
