-- ===== src/Journal/Writes.antt =====
-- What sequences of block writes leave on a disk.
use mathlib.Core.Path.{subst}
use lion_fs.Base.{
  ℕ, zero, suc, ◌+◌, ◌≤◌, ◌<◌, ◌≡◌, ◌≢◌, ◌⊎◌, inl, inr, refl, sym, ap, ◌∙◌, List, [], ◌∷◌, ◌++◌,
  arith, map, ◌==◌, ==_self, ==_of_ne, eq_of_==, ne_of_==_false, Bool-cases, if◌then◌else◌, length,
  take, Bytes, All,
}
use lion_fs.Journal.{Write, Disk, write_block, contiguous_run, apply_records}
use lion_fs.Journal.Commit.{split_run, apply_runs}

-- No write is to the block.
abbrev pub Avoids : List Write → ℕ → Type 0
Avoids ws q = All (λ (w : Write). w.0 ≢ q) ws

write_block_same : (d : Disk) (p : ℕ) (b : Bytes) → write_block d p b p ≡ b
unfolding write_block
write_block_same d p b = rw (==_self p) refl

write_block_other : (d : Disk) (p : ℕ) (b : Bytes) (q : ℕ) → p ≢ q → write_block d p b q ≡ d q
unfolding write_block
write_block_other d p b q ne = rw (==_of_ne q p (λ e. ne (sym e))) refl

pub apply_records-append :
    (d : Disk) (xs ys : List Write)
    → apply_records d (xs ++ ys) ≡ apply_records (apply_records d xs) ys
apply_records-append d [] ys = refl
apply_records-append d (x ∷ xs) ys = apply_records-append (write_block d x.0 x.1) xs ys

pub apply_records-Avoids :
    (d : Disk) (ws : List Write) (q : ℕ) → Avoids ws q → apply_records d ws q ≡ d q
apply_records-Avoids d [] q h = refl
apply_records-Avoids d (w ∷ ws) q h =
    apply_records-Avoids (write_block d w.0 w.1) ws q h.1 ∙ write_block_other d w.0 w.1 q h.0

-- What a block holds after the writes depends only on what it held before.
pub apply_records_local :
    (d d' : Disk) (ws : List Write) (q : ℕ)
    → d q ≡ d' q
    → apply_records d ws q ≡ apply_records d' ws q
unfolding write_block
apply_records_local d d' [] q e = e
apply_records_local d d' (w ∷ ws) q e =
    apply_records_local (write_block d w.0 w.1) (write_block d' w.0 w.1) ws q
      (ap (λ b. if q == w.0 then w.1 else b) e)

pub Avoids-take : (ws : List Write) (n q : ℕ) → Avoids ws q → Avoids (take n ws) q
Avoids-take ws zero q h = tt
Avoids-take [] (suc n) q h = tt
Avoids-take (w ∷ ws) (suc n) q h = (h.0, Avoids-take ws n q h.1)

-- Either the writes decide what the block holds, or they leave it alone.
decides :
    (ws : List Write) (q : ℕ)
    → ((d d' : Disk) → apply_records d ws q ≡ apply_records d' ws q) ⊎ Avoids ws q
unfolding write_block
decides [] q = inr tt
decides (w ∷ ws) q = elim (decides ws q) [
  | inl fixed ↦ inl (λ d d'. fixed (write_block d w.0 w.1) (write_block d' w.0 w.1))
  | inr avoided ↦ elim (Bool-cases (q == w.0)) [
    | inl same ↦ inl (λ d d'.
        apply_records_local (write_block d w.0 w.1) (write_block d' w.0 w.1) ws q (rw (same) refl))
    | inr other ↦ inr ((λ e. ne_of_==_false q w.0 other (sym e)), avoided)
  ]
]

-- A part of the writes, and then all of them, is all of them.
pub apply_records_again :
    (d : Disk) (ws : List Write) (n q : ℕ)
    → apply_records (apply_records d (take n ws)) ws q ≡ apply_records d ws q
apply_records_again d ws n q = elim (decides ws q) [
  | inl fixed ↦ fixed (apply_records d (take n ws)) d
  | inr avoided ↦
      apply_records_local (apply_records d (take n ws)) d ws q
        (apply_records-Avoids d (take n ws) q (Avoids-take ws n q avoided))
]

pub contiguous_run-Avoids :
    (p : ℕ) (bs : List Bytes) (q : ℕ)
    → (q < p) ⊎ (p + length bs ≤ q)
    → Avoids (contiguous_run p bs) q
contiguous_run-Avoids p [] q h = tt
contiguous_run-Avoids p (b ∷ bs) q h = elim h [
  | inl below ↦ ((λ e. omega (arith, e)), contiguous_run-Avoids (p + 1) bs q (inl (omega arith)))
  | inr above ↦ ((λ e. omega (arith, e)), contiguous_run-Avoids (p + 1) bs q (inr (omega arith)))
]

pub take-contiguous_run :
    (n p : ℕ) (bs : List Bytes) → take n (contiguous_run p bs) ≡ contiguous_run p (take n bs)
take-contiguous_run zero p bs = refl
take-contiguous_run (suc n) p [] = refl
take-contiguous_run (suc n) p (b ∷ bs) = ap (λ l. (p, b) ∷ l) (take-contiguous_run n (p + 1) bs)

pub length-contiguous_run : (p : ℕ) (bs : List Bytes) → length (contiguous_run p bs) ≡ length bs
length-contiguous_run p [] = refl
length-contiguous_run p (b ∷ bs) = ap suc (length-contiguous_run (p + 1) bs)

-- The blocks stand on the disk from `p` on.
abbrev pub Holds : Disk → ℕ → List Bytes → Type 0
Holds d p [] = Unit
Holds d p (b ∷ bs) = (d p ≡ b) × Holds d (p + 1) bs

pub Holds-agree :
    (d d' : Disk) (p : ℕ) (bs : List Bytes)
    → ((q : ℕ) → p ≤ q → q < p + length bs → d' q ≡ d q)
    → Holds d p bs
    → Holds d' p bs
Holds-agree d d' p [] same h = tt
Holds-agree d d' p (b ∷ bs) same h = (
  same p (omega arith) (omega arith) ∙ h.0,
  Holds-agree d d' (p + 1) bs (λ q lo hi. same q (omega arith) (omega arith)) h.1,
)

pub contiguous_run-Holds :
    (d : Disk) (p : ℕ) (bs : List Bytes) → Holds (apply_records d (contiguous_run p bs)) p bs
contiguous_run-Holds d p [] = tt
contiguous_run-Holds d p (b ∷ bs) = (
  apply_records-Avoids (write_block d p b) (contiguous_run (p + 1) bs) p
        (contiguous_run-Avoids (p + 1) bs p (inl (omega arith)))
      ∙ write_block_same d p b,
  contiguous_run-Holds (write_block d p b) (p + 1) bs,
)

pub Holds-append :
    (d : Disk) (p : ℕ) (xs ys : List Bytes)
    → Holds d p (xs ++ ys)
    → Holds d p xs × Holds d (p + length xs) ys
Holds-append d p [] ys h = (tt, subst (λ n. Holds d n ys) (omega arith) h)
Holds-append d p (x ∷ xs) ys h =
    let rest = Holds-append d (p + 1) xs ys h.1 in
    ((h.0, rest.0), subst (λ n. Holds d n ys) (omega arith) rest.1)

abbrev blocks_in : List Write → List Bytes
blocks_in run = map (λ (v : Write). v.1) run

split_run_joins :
    (last : ℕ) (ws : List Write)
    → (contiguous_run (last + 1) (blocks_in (split_run last ws).0) ++ (split_run last ws).1 ≡ ws)
      × (length (split_run last ws).1 ≤ length ws)
unfolding split_run
split_run_joins last [] = (refl, omega arith)
split_run_joins last (w ∷ ws) =
    let rest = split_run_joins w.0 ws in
    elim (Bool-cases (w.0 == last + 1)) [
      | inl next ↦ rw (next) (
          (rw (sym (eq_of_== w.0 (last + 1) next)) (ap (λ l. w ∷ l) rest.0), omega (arith, rest.1)))
      | inr other ↦ rw (other) ((refl, omega arith))
    ]

-- The coalesced runs write every dirty block to its own place, in the order of the entries.
pub apply_runs_lem : (fuel : ℕ) (ws : List Write) → length ws ≤ fuel → apply_runs fuel ws ≡ ws
unfolding apply_runs
apply_runs_lem zero [] h = refl
apply_runs_lem zero (w ∷ ws) h = absurd (omega arith)
apply_runs_lem (suc fuel) [] h = refl
apply_runs_lem (suc fuel) (w ∷ ws) h =
    let joined = split_run_joins w.0 ws in
    rw (apply_runs_lem fuel (split_run w.0 ws).1 (omega (arith, joined.1)))
      (ap (λ l. w ∷ l) joined.0)
