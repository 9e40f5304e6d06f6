-- ===== src/Extents/Coalesce.antt =====
-- merge.rs: coalescing keeps every mapping, the number of blocks, and leaves nothing to merge.
use lion_fs.Base.{
  ℕ, ◌+◌, ◌≡◌, inl, inr, refl, sym, ◌∙◌, true, false, List, [], ◌∷◌, arith, All, Bool-cases,
  add_u64, leb,
}
use lion_fs.Extents.{
  Extent, is_adjacent_to, insert_by_start, sort_by_start, coalesce_from, coalesce_sorted, coalesce,
  find_physical,
}
use lion_fs.Extents.Lookup.{IsWellFormed, IsDisjoint, IsPairwiseDisjoint}

-- The blocks of all extents together.
abbrev pub total_length : List Extent → ℕ
total_length [] = 0
total_length (e ∷ es) = e.length + total_length es

-- No neighbours of the list could still be merged.
abbrev pub HasNoAdjacent : List Extent → Type 0
HasNoAdjacent [] = Unit
HasNoAdjacent (e ∷ []) = Unit
HasNoAdjacent (e ∷ x ∷ xs) = (is_adjacent_to e x ≡ false) × HasNoAdjacent (x ∷ xs)

-- The first extent of the merge step: the two as one.
abbrev merge : Extent → Extent → Extent
merge x y = record x { length = add_u64 x.length y.length }

coalesce_from-adjacent :
    (last e : Extent) (es : List Extent)
    → is_adjacent_to last e ≡ true
    → coalesce_from last (e ∷ es) ≡ coalesce_from (merge last e) es
unfolding coalesce_from
coalesce_from-adjacent last e es h = rw (h, coalesce_from)

coalesce_from-apart :
    (last e : Extent) (es : List Extent)
    → is_adjacent_to last e ≡ false
    → coalesce_from last (e ∷ es) ≡ last ∷ coalesce_from e es
unfolding coalesce_from
coalesce_from-apart last e es h = rw (h, coalesce_from)

merge-IsWellFormed :
    (x y : Extent)
    → IsWellFormed x
    → IsWellFormed y
    → is_adjacent_to x y ≡ true
    → IsWellFormed (merge x y) × ((merge x y).length ≡ x.length + y.length)
unfolding is_adjacent_to add_u64
merge-IsWellFormed x y wx wy h = ground arith

find_physical-merge :
    (x y : Extent) (es : List Extent) (b : ℕ)
    → IsWellFormed x
    → IsWellFormed y
    → is_adjacent_to x y ≡ true
    → find_physical (merge x y ∷ es) b ≡ find_physical (x ∷ y ∷ es) b
unfolding is_adjacent_to add_u64 find_physical
find_physical-merge x y es b wx wy h = ground arith

find_physical-cons :
    (x : Extent) (xs ys : List Extent) (b : ℕ)
    → find_physical xs b ≡ find_physical ys b
    → find_physical (x ∷ xs) b ≡ find_physical (x ∷ ys) b
unfolding find_physical
find_physical-cons x xs ys b h = rw h

-- The merge step keeps each mapping, whatever the order of the extents is.
find_physical-coalesce_from :
    (last : Extent) (es : List Extent) (b : ℕ)
    → IsWellFormed last
    → All IsWellFormed es
    → find_physical (coalesce_from last es) b ≡ find_physical (last ∷ es) b
find_physical-coalesce_from last [] b w ws = unfold coalesce_from in refl
find_physical-coalesce_from last (e ∷ es) b w ws = elim (Bool-cases (is_adjacent_to last e)) [
  | inl adj ↦ rw (coalesce_from-adjacent last e es adj) (
      find_physical-coalesce_from (merge last e) es b (merge-IsWellFormed last e w ws.0 adj).0 ws.1
      ∙ find_physical-merge last e es b w ws.0 adj)
  | inr apart ↦
      rw (coalesce_from-apart last e es apart)
        (find_physical-cons last _ _ b (find_physical-coalesce_from e es b ws.0 ws.1))
]

total_length-coalesce_from :
    (last : Extent) (es : List Extent)
    → IsWellFormed last
    → All IsWellFormed es
    → total_length (coalesce_from last es) ≡ last.length + total_length es
total_length-coalesce_from last [] w ws = unfold coalesce_from in refl
total_length-coalesce_from last (e ∷ es) w ws = elim (Bool-cases (is_adjacent_to last e)) [
  | inl adj ↦
      let m = merge-IsWellFormed last e w ws.0 adj in
      rw (coalesce_from-adjacent last e es adj)
        (omega (arith, total_length-coalesce_from (merge last e) es m.0 ws.1, m.1))
  | inr apart ↦
      rw (coalesce_from-apart last e es apart)
        (omega (arith, total_length-coalesce_from e es ws.0 ws.1))
]

-- The result begins with an extent that starts where `last` does.
abbrev StartsLike : Extent → List Extent → Type 0
StartsLike x [] = ⊥
StartsLike x (y ∷ ys) = (y.logical_start ≡ x.logical_start) × (y.physical_start ≡ x.physical_start)

coalesce_from-StartsLike :
    (last : Extent) (es : List Extent) → StartsLike last (coalesce_from last es)
coalesce_from-StartsLike last [] = unfold coalesce_from in (refl, refl)
coalesce_from-StartsLike last (e ∷ es) = elim (Bool-cases (is_adjacent_to last e)) [
  | inl adj ↦ rw (coalesce_from-adjacent last e es adj) (coalesce_from-StartsLike (merge last e) es)
  | inr apart ↦ rw (coalesce_from-apart last e es apart) (refl, refl)
]

HasNoAdjacent-cons :
    (last e : Extent) (ys : List Extent)
    → is_adjacent_to last e ≡ false
    → StartsLike e ys
    → HasNoAdjacent ys
    → HasNoAdjacent (last ∷ ys)
HasNoAdjacent-cons last e [] apart s h = tt
HasNoAdjacent-cons last e (y ∷ ys) apart s h = (unfold is_adjacent_to in rw (s.0, s.1) apart, h)

coalesce_from-HasNoAdjacent :
    (last : Extent) (es : List Extent) → HasNoAdjacent (coalesce_from last es)
coalesce_from-HasNoAdjacent last [] = unfold coalesce_from in tt
coalesce_from-HasNoAdjacent last (e ∷ es) = elim (Bool-cases (is_adjacent_to last e)) [
  | inl adj ↦
      rw (coalesce_from-adjacent last e es adj) (coalesce_from-HasNoAdjacent (merge last e) es)
  | inr apart ↦ rw (coalesce_from-apart last e es apart) (
      HasNoAdjacent-cons last e (coalesce_from e es) apart (coalesce_from-StartsLike e es)
        (coalesce_from-HasNoAdjacent e es))
]

coalesce_sorted-HasNoAdjacent : (es : List Extent) → HasNoAdjacent (coalesce_sorted es)
unfolding coalesce_sorted
coalesce_sorted-HasNoAdjacent [] = tt
coalesce_sorted-HasNoAdjacent (e ∷ es) = coalesce_from-HasNoAdjacent e es

-- Coalescing leaves no two neighbours that could still be merged.
pub coalesce-HasNoAdjacent : (es : List Extent) → HasNoAdjacent (coalesce es)
unfolding coalesce
coalesce-HasNoAdjacent es = coalesce_sorted-HasNoAdjacent (sort_by_start es)

find_physical-coalesce_sorted :
    (es : List Extent) (b : ℕ)
    → All IsWellFormed es
    → find_physical (coalesce_sorted es) b ≡ find_physical es b
unfolding coalesce_sorted
find_physical-coalesce_sorted [] b ws = refl
find_physical-coalesce_sorted (e ∷ es) b ws = find_physical-coalesce_from e es b ws.0 ws.1

total_length-coalesce_sorted :
    (es : List Extent) → All IsWellFormed es → total_length (coalesce_sorted es) ≡ total_length es
unfolding coalesce_sorted
total_length-coalesce_sorted [] ws = refl
total_length-coalesce_sorted (e ∷ es) ws = total_length-coalesce_from e es ws.0 ws.1

module _ {κ} (P : Extent → Type κ) where
  All-insert_by_start :
      (x : Extent) (es : List Extent) → P x → All P es → All P (insert_by_start x es)
  unfolding insert_by_start
  All-insert_by_start x [] p a = (p, tt)
  All-insert_by_start x (e ∷ es) p a = ground (arith, All-insert_by_start x es)

  All-sort_by_start : (es : List Extent) → All P es → All P (sort_by_start es)
  unfolding sort_by_start
  All-sort_by_start [] a = tt
  All-sort_by_start (e ∷ es) a =
      All-insert_by_start e (sort_by_start es) a.0 (All-sort_by_start es a.1)

total_length-insert_by_start :
    (x : Extent) (es : List Extent)
    → total_length (insert_by_start x es) ≡ x.length + total_length es
unfolding insert_by_start
total_length-insert_by_start x [] = refl
total_length-insert_by_start x (e ∷ es) = ground (arith, total_length-insert_by_start x es)

total_length-sort_by_start : (es : List Extent) → total_length (sort_by_start es) ≡ total_length es
unfolding sort_by_start
total_length-sort_by_start [] = refl
total_length-sort_by_start (e ∷ es) =
    omega (arith, total_length-insert_by_start e (sort_by_start es), total_length-sort_by_start es)

-- Two disjoint extents may change places.
find_physical_swap :
    (x y : Extent) (es : List Extent) (b : ℕ)
    → IsWellFormed x
    → IsWellFormed y
    → IsDisjoint x y
    → find_physical (x ∷ y ∷ es) b ≡ find_physical (y ∷ x ∷ es) b
unfolding find_physical
find_physical_swap x y es b wx wy d = ground arith

find_physical-insert_by_start :
    (x : Extent) (es : List Extent) (b : ℕ)
    → IsWellFormed x
    → All IsWellFormed es
    → All (IsDisjoint x) es
    → find_physical (insert_by_start x es) b ≡ find_physical (x ∷ es) b
unfolding insert_by_start
find_physical-insert_by_start x [] b w ws d = refl
find_physical-insert_by_start x (e ∷ es) b w ws d =
    elim (Bool-cases (leb x.logical_start e.logical_start)) [
      | inl le ↦ rw (le, insert_by_start)
      | inr gt ↦
          rw (gt, insert_by_start)
            (find_physical-cons e _ _ b (find_physical-insert_by_start x es b w ws.1 d.1)
              ∙ sym (find_physical_swap x e es b w ws.0 d.0))
    ]

find_physical-sort_by_start :
    (es : List Extent) (b : ℕ)
    → All IsWellFormed es
    → IsPairwiseDisjoint es
    → find_physical (sort_by_start es) b ≡ find_physical es b
unfolding sort_by_start
find_physical-sort_by_start [] b ws d = refl
find_physical-sort_by_start (e ∷ es) b ws d =
    find_physical-insert_by_start e (sort_by_start es) b ws.0
      (All-sort_by_start IsWellFormed es ws.1) (All-sort_by_start (IsDisjoint e) es d.0)
    ∙ find_physical-cons e _ _ b (find_physical-sort_by_start es b ws.1 d.1)

-- Coalescing well-formed, pairwise disjoint extents, in any order, maps every logical block as
-- before, and keeps the number of blocks.
pub find_physical-coalesce :
    (es : List Extent)
    → All IsWellFormed es
    → IsPairwiseDisjoint es
    → ((b : ℕ) → find_physical (coalesce es) b ≡ find_physical es b)
      × (total_length (coalesce es) ≡ total_length es)
unfolding coalesce
find_physical-coalesce es ws d =
    let sorted = All-sort_by_start IsWellFormed es ws in
    (
      λ b.
          find_physical-coalesce_sorted (sort_by_start es) b sorted
          ∙ find_physical-sort_by_start es b ws d,
      total_length-coalesce_sorted (sort_by_start es) sorted ∙ total_length-sort_by_start es,
    )
