-- ===== src/Journal/View.antt =====
-- The view through a transaction is the disk to which the pending groups and then the transaction
-- were applied; staging a block writes to it.
use lion_fs.Base.{
  ℕ, ◌<◌, ◌≤◌, ◌≡◌, ◌≢◌, refl, sym, ap, ◌∙◌, Bool, true, false, ◌&&◌, ◌||◌, Option, none, some,
  List, [], ◌∷◌, arith, tests, ltb, ◌==◌, inl, inr, Bool-cases, Option-cases, ==_self, ==_of_ne,
  if◌then◌else◌, Bytes, All,
}
use lion_fs.Journal.{
  Transaction, Write, Disk, add_block, find_block, insert_block, write_block, apply_records,
}
use lion_fs.Journal.Overlay.{
  TxContext, FrozenRoots, find_pending, read_block, stage_block, effective_root, set_root_cell,
  frozen_root, set_frozen_root, find_cell, insert_cell,
}

-- Every key of the entries is above `b`.
abbrev Above : ℕ → List Write → Type 0
Above b ws = All (λ (w : Write). b < w.0) ws

-- The keys ascend, as the keys of a map listed in order.
abbrev pub IsAscending : List Write → Type 0
IsAscending [] = Unit
IsAscending (w ∷ ws) = Above w.0 ws × IsAscending ws

Above-insert_block :
    (low b : ℕ) (block : Bytes) (ws : List Write)
    → low < b
    → Above low ws
    → Above low (insert_block b block ws)
Above-insert_block low b block [] h above = (h, tt)
Above-insert_block low b block (w ∷ ws) h above =
    let rest = Above-insert_block low b block ws h above.1 in ground (arith, above, rest)

below_Above : (low high : ℕ) (ws : List Write) → low ≤ high → Above high ws → Above low ws
below_Above low high [] h above = tt
below_Above low high (w ∷ ws) h above = (omega (arith, above.0), below_Above low high ws h above.1)

-- Staging a block keeps the entries in order.
pub insert_block-IsAscending :
    (b : ℕ) (block : Bytes) (ws : List Write)
    → IsAscending ws
    → IsAscending (insert_block b block ws)
insert_block-IsAscending b block [] h = (tt, tt)
insert_block-IsAscending b block (w ∷ ws) h = elim (Bool-cases (b == w.0)) [
  | inl same ↦ rw (same) ((below_Above b w.0 ws (omega (tests, same)) h.0, h.1))
  | inr other ↦ elim (Bool-cases (ltb b w.0)) [
    | inl below ↦
        rw (other, below)
          (((omega (tests, below), below_Above b w.0 ws (omega (tests, below)) h.0), h))
    | inr above ↦
        rw (other, above)
          ((
            Above-insert_block w.0 b block ws (omega (tests, other, above)) h.0,
            insert_block-IsAscending b block ws h.1,
          ))
  ]
]

find_block-Above : (b : ℕ) (ws : List Write) → Above b ws → find_block b ws ≡ none
find_block-Above b [] h = refl
find_block-Above b (w ∷ ws) h =
    rw (==_of_ne b w.0 (λ e. omega (arith, e, h.0)), find_block-Above b ws h.1) refl

pub find_block-insert_block :
    (b c : ℕ) (block : Bytes) (ws : List Write)
    → IsAscending ws
    → find_block c (insert_block b block ws) ≡ (if c == b then some block else find_block c ws)
find_block-insert_block b c block [] h = refl
find_block-insert_block b c block (w ∷ ws) h =
    let later = find_block-insert_block b c block ws h.1 in
    ground (arith, later, find_block-Above c ws)

write_hit : (d : Disk) (p : ℕ) (b : Bytes) (q : ℕ) → (q == p) ≡ true → write_block d p b q ≡ b
unfolding write_block
write_hit d p b q e = rw (write_block, e) refl

write_miss : (d : Disk) (p : ℕ) (b : Bytes) (q : ℕ) → (q == p) ≡ false → write_block d p b q ≡ d q
unfolding write_block
write_miss d p b q e = rw (write_block, e) refl

-- What the disk holds after the entries are applied.
pub apply_records-find_block :
    (disk : Disk) (ws : List Write) (q : ℕ)
    → IsAscending ws
    → apply_records disk ws q ≡ elim (find_block q ws) [ none ↦ disk q | some block ↦ block ]
unfolding write_block
apply_records-find_block disk [] q h = refl
apply_records-find_block disk (w ∷ ws) q h =
    apply_records-find_block (write_block disk w.0 w.1) ws q h.1 ∙ (elim (Bool-cases (q == w.0)) [
      | inl same ↦
          rw (same, find_block-Above q ws (below_Above q w.0 ws (omega (tests, same)) h.0))
            (write_hit disk w.0 w.1 q same)
      | inr other ↦ rw (other) (
          ap (λ (b : Bytes). elim (find_block q ws) [ none ↦ b | some block ↦ block ])
            (write_miss disk w.0 w.1 q other))
    ])

abbrev pub apply_groups : Disk → List Transaction → Disk
apply_groups disk [] = disk
apply_groups disk (group ∷ newer) = apply_groups (apply_records disk group.dirty_blocks) newer

abbrev pub AllAscending : List Transaction → Type 0
AllAscending groups = All (λ (t : Transaction). IsAscending t.dirty_blocks) groups

-- The disk that the transaction sees.
unfoldable pub view : TxContext → Disk
view ctx = apply_records (apply_groups ctx.disk ctx.pending) ctx.tx.dirty_blocks

apply_groups-find_pending :
    (disk : Disk) (groups : List Transaction) (q : ℕ)
    → AllAscending groups
    → apply_groups disk groups q
      ≡ elim (find_pending q groups) [ none ↦ disk q | some block ↦ block ]
apply_groups-find_pending disk [] q h = refl
apply_groups-find_pending disk (group ∷ newer) q h =
    let first = apply_records-find_block disk group.dirty_blocks q h.0 in
    apply_groups-find_pending (apply_records disk group.dirty_blocks) newer q h.1
    ∙ (elim (Option-cases (find_pending q newer)) [
      | inl nothing ↦ rw (nothing) first
      | inr (block, e) ↦ rw (e) refl
    ])

-- The entries of every group are in ascending order.
pub record IsOrdered (ctx : TxContext) : Type 0 where
  pub tx_ordered : IsAscending ctx.tx.dirty_blocks
  pub pending_ordered : AllAscending ctx.pending

pub read_block_lem : (ctx : TxContext) (b : ℕ) → IsOrdered ctx → read_block ctx b ≡ view ctx b
unfolding read_block view
read_block_lem ctx b h =
    let below = apply_groups-find_pending ctx.disk ctx.pending b h.pending_ordered in
    let above =
      apply_records-find_block (apply_groups ctx.disk ctx.pending) ctx.tx.dirty_blocks b
        h.tx_ordered in
    elim (Option-cases (find_block b ctx.tx.dirty_blocks)) [
      | inl nothing ↦ rw (read_block, nothing) (sym (above ∙ rw (nothing) below))
      | inr (block, e) ↦ rw (read_block, e) (sym (above ∙ rw (e) refl))
    ]

stage_block-IsOrdered :
    (ctx : TxContext) (p : ℕ) (block : Bytes) → IsOrdered ctx → IsOrdered (stage_block ctx p block)
unfolding stage_block add_block
stage_block-IsOrdered ctx p block h = record {
  tx_ordered = insert_block-IsAscending p block ctx.tx.dirty_blocks h.tx_ordered;
  pending_ordered = h.pending_ordered;
}

view-stage_block :
    (ctx : TxContext) (p : ℕ) (block : Bytes) (b : ℕ)
    → IsOrdered ctx
    → view (stage_block ctx p block) b ≡ write_block (view ctx) p block b
unfolding view stage_block add_block
view-stage_block ctx p block b h =
    let base = apply_groups ctx.disk ctx.pending in
    let ws = ctx.tx.dirty_blocks in
    let after =
      apply_records-find_block base (insert_block p block ws) b
        (insert_block-IsAscending p block ws h.tx_ordered) in
    let before = apply_records-find_block base ws b h.tx_ordered in
    let found = find_block-insert_block p b block ws h.tx_ordered in
    elim (Bool-cases (b == p)) [
      | inl same ↦ after ∙ rw (found, same) (sym (write_hit (view ctx) p block b same))
      | inr other ↦ after ∙ rw (found, other) (sym (write_miss (view ctx) p block b other ∙ before))
    ]

-- A transaction context refines a disk, its view: the disk to which every pending group, oldest
-- first, and then the transaction's own blocks are applied. Reading any block returns the block of
-- the view, staging a block writes that block of the view and no other, and staging keeps the
-- entries in order. The entries of the transaction and of the groups are in order.
pub view_refines :
    (ctx : TxContext) (p : ℕ) (block : Bytes) (b : ℕ)
    → IsOrdered ctx
    → (read_block ctx b ≡ view ctx b)
      × ((read_block (stage_block ctx p block) b ≡ write_block (view ctx) p block b)
          × IsOrdered (stage_block ctx p block))
view_refines ctx p block b h =
    let staged = stage_block-IsOrdered ctx p block h in
    (
      read_block_lem ctx b h,
      (
        read_block_lem (stage_block ctx p block) b staged ∙ view-stage_block ctx p block b h,
        staged,
      ),
    )

find_cell-insert_cell :
    (t u root : ℕ) (cells : List (ℕ × ℕ))
    → find_cell u (insert_cell t root cells) ≡ (if u == t then some root else find_cell u cells)
find_cell-insert_cell t u root [] = refl
find_cell-insert_cell t u root (c ∷ cells) =
    let later = find_cell-insert_cell t u root cells in ground (arith, later)

-- The node types of frozen trees.
abbrev pub is_frozen : ℕ → Bool
is_frozen t = (t == 1) || ((t == 2) || (t == 5))

frozen_root-set_frozen_root :
    (roots : FrozenRoots) (t u root : ℕ)
    → root ≢ 0
    → frozen_root (set_frozen_root roots t root) u
      ≡ (if (u == t) && is_frozen t then some root else frozen_root roots u)
unfolding frozen_root set_frozen_root
frozen_root-set_frozen_root roots t u root h = ground (arith, h)

-- Once a transaction has moved the root of a tree, to a block that is not 0, it finds the tree
-- there, and so does every other transaction that did not move it itself if the tree is frozen; the
-- root of every other tree is found where it was before.
pub effective_root-set_root_cell :
    (ctx : TxContext) (tx : Transaction) (t u root default_root : ℕ)
    → root ≢ 0
    → find_cell t tx.root_cells ≡ none
    → (effective_root (set_root_cell ctx t root) t default_root ≡ root)
      × ((u ≢ t
            → effective_root (set_root_cell ctx t root) u default_root
              ≡ effective_root ctx u default_root)
          × (is_frozen t ≡ true
              → effective_root (record (set_root_cell ctx t root) { tx = tx }) t default_root
                ≡ root))
unfolding effective_root set_root_cell
effective_root-set_root_cell ctx tx t u root default_root h fresh =
    let same = find_cell-insert_cell t t root ctx.tx.root_cells in
    let other = find_cell-insert_cell t u root ctx.tx.root_cells in
    let mirrored = frozen_root-set_frozen_root ctx.frozen_roots t t root h in
    let untouched = frozen_root-set_frozen_root ctx.frozen_roots t u root h in
    (
      rw (effective_root, same, ==_self t) refl,
      (
        (λ ne.
            let kept : frozen_root (set_frozen_root ctx.frozen_roots t root) u
                ≡ frozen_root ctx.frozen_roots u =
              untouched ∙ rw (==_of_ne u t ne) refl in
            rw (effective_root, other, ==_of_ne u t ne)
              (ap
                (λ (o : Option ℕ). elim (find_cell u ctx.tx.root_cells) [
                  | some r ↦ r
                  | none ↦ elim o [ some r ↦ r | none ↦ default_root ]
                ])
                kept)),
        (λ frozen. rw (effective_root, fresh, mirrored, ==_self t, frozen) refl),
      ),
    )
