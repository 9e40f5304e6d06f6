-- ===== src/Extents/Mapping.antt =====
-- mapping.rs: the lookups in an inode's inline extents agree with one another.
use mathlib.Core.List.{Memᴰ}
use lion_fs.Base.{
  ℕ, zero, suc, ◌+◌, ◌-◌, ◌<◌, ◌≡◌, inl, inr, true, false, some, List, [], ◌∷◌, ◌++◌, arith, All,
  Bool-cases, add_u64, sym,
}
use lion_fs.Extents.{
  Extent, Inode, logical_end, contains_logical, physical_of, find_physical, highest_end, block_run,
  physical_blocks, used_extents, map_logical_to_physical, allocated_block_count,
  all_physical_blocks,
}
use lion_fs.Extents.Lookup.{IsWellFormed, contains_logical-Covers}

Memᴰ-append_left : {p : ℕ} (xs ys : List ℕ) → Memᴰ p xs → Memᴰ p (xs ++ ys)
Memᴰ-append_left [] ys m = elim m [ ]
Memᴰ-append_left (x ∷ xs) ys (Memᴰ.head e) = Memᴰ.head e
Memᴰ-append_left (x ∷ xs) ys (Memᴰ.tail m) = Memᴰ.tail (Memᴰ-append_left xs ys m)

Memᴰ-append_right : {p : ℕ} (xs ys : List ℕ) → Memᴰ p ys → Memᴰ p (xs ++ ys)
Memᴰ-append_right [] ys m = m
Memᴰ-append_right (x ∷ xs) ys m = Memᴰ.tail (Memᴰ-append_right xs ys m)

mem-block_run :
    (n i p q : ℕ) → p + n < 18446744073709551616 → i < n → q ≡ p + i → Memᴰ q (block_run p n)
unfolding block_run
mem-block_run zero i p q fits h e = elim h [ ]
mem-block_run (suc n) zero p q fits h e = Memᴰ.head (omega arith)
mem-block_run (suc n) (suc i) p q fits h e = Memᴰ.tail (
    mem-block_run n i (add_u64 p 1) q (unfold add_u64 in omega arith) (omega arith)
      (unfold add_u64 in omega arith))

-- A mapped block lies below the highest end, and its physical block is enumerated.
find_physical-Memᴰ :
    (es : List Extent) (b p : ℕ)
    → All IsWellFormed es
    → find_physical es b ≡ some p
    → Memᴰ p (physical_blocks es) × (b < highest_end es)
find_physical-Memᴰ [] b p ws h = unfold find_physical in cc
find_physical-Memᴰ (e ∷ es) b p ws h = elim (Bool-cases (contains_logical e b)) [
  | inl hit ↦
      let c = contains_logical-Covers e b ws.0 hit in
      let at : physical_of e b ≡ p = found hit in
      (
        unfold physical_blocks in
            Memᴰ-append_left _ _ (
              mem-block_run e.length (b - e.logical_start) e.physical_start p
                (omega (arith, ws.0.physical_fits)) (omega (arith, c.0, c.1))
                (unfold physical_of add_u64 in
                  omega (arith, sym at, c.0, c.1, ws.0.physical_fits))),
        unfold highest_end logical_end add_u64 in omega (arith, c.1, ws.0.logical_fits),
      )
  | inr miss ↦
      let ih = find_physical-Memᴰ es b p ws.1 (later miss) in
      (Memᴰ-later ih.0, highest_end-later ih.1)
]
  where
    found : contains_logical e b ≡ true → physical_of e b ≡ p
    found hit = unfold find_physical in ground arith

    later : contains_logical e b ≡ false → find_physical es b ≡ some p
    later miss = unfold find_physical in ground arith

    Memᴰ-later : Memᴰ p (physical_blocks es) → Memᴰ p (physical_blocks (e ∷ es))
    Memᴰ-later m = unfold physical_blocks in Memᴰ-append_right _ _ m

    highest_end-later : b < highest_end es → b < highest_end (e ∷ es)
    highest_end-later m = unfold highest_end in omega arith

-- For an inode whose used extents are well formed: a mapped logical block lies below the count of
-- allocated blocks, and its physical block is among those enumerated for the inode.
pub map_logical_to_physical-Memᴰ :
    (inode : Inode) (b p : ℕ) {es : List Extent}
    → used_extents inode ≡ some es
    → All IsWellFormed es
    → map_logical_to_physical inode b ≡ some (some p)
    → (blocks : List ℕ) × (n : ℕ) × (all_physical_blocks inode ≡ some blocks)
      × Memᴰ p blocks
      × (allocated_block_count inode ≡ some n)
      × (b < n)
unfolding map_logical_to_physical all_physical_blocks allocated_block_count
map_logical_to_physical-Memᴰ inode b p {es} u ws h =
    let m = find_physical-Memᴰ es b p ws (ground arith) in
    (physical_blocks es, highest_end es, ground arith, m.0, ground arith, m.1)
