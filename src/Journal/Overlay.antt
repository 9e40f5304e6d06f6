-- ===== src/Journal/Overlay.antt =====
-- crates/lionfs/src/transaction/transaction.rs: the view of the disk through a transaction and the
-- groups that are not applied yet, and the roots that a transaction moved.
use lion_fs.Base.{ℕ, not, Option, none, some, List, [], ◌∷◌, ◌==◌, if◌then◌else◌, Bytes, max}
use lion_fs.Journal.{Transaction, Disk, add_block, find_block}

-- The current roots of the frozen trees: the inode tree, the tree of names, the checksum tree; 0 is
-- a root that never moved.
pub record FrozenRoots : Type 0 where
  pub inode : ℕ
  pub dir : ℕ
  pub csum : ℕ

-- `(r != 0).then_some(r)`
abbrev moved : ℕ → Option ℕ
moved r = if not (r == 0) then some r else none

unfoldable pub frozen_root : FrozenRoots → ℕ → Option ℕ
frozen_root roots node_type =
    if node_type == 1
    then moved roots.inode
    else if node_type == 2
    then moved roots.dir
    else if node_type == 5
    then moved roots.csum
    else none

unfoldable pub set_frozen_root : FrozenRoots → ℕ → ℕ → FrozenRoots
set_frozen_root roots node_type root =
    if node_type == 1
    then record roots { inode = root }
    else if node_type == 2
    then record roots { dir = root }
    else if node_type == 5
    then record roots { csum = root }
    else roots

pub record TxContext : Type 0 where
  pub disk : Disk
  pub tx : Transaction
  -- Oldest first.
  pub pending : List Transaction
  -- The roots of frozen trees that the disk keeps for every transaction.
  pub frozen_roots : FrozenRoots
  pub live_barrier : ℕ
  pub cow_barrier : ℕ

unfoldable pub new : Disk → FrozenRoots → ℕ → Transaction → TxContext
new disk frozen_roots live_barrier tx = record {
  disk = disk;
  tx = tx;
  pending = [];
  frozen_roots = frozen_roots;
  live_barrier = live_barrier;
  cow_barrier = 0;
}

unfoldable pub with_pending : TxContext → List Transaction → TxContext
with_pending ctx pending = record ctx { pending = pending }

unfoldable pub with_cow_barrier : TxContext → ℕ → TxContext
with_cow_barrier ctx barrier = record ctx { cow_barrier = barrier }

unfoldable pub effective_cow_barrier : TxContext → ℕ
effective_cow_barrier ctx = max ctx.cow_barrier ctx.live_barrier

-- The newest group first, so the oldest is asked when no later one has the block.
abbrev pub find_pending : ℕ → List Transaction → Option Bytes
find_pending b [] = none
find_pending b (group ∷ newer) = elim (find_pending b newer) [
  | none ↦ find_block b group.dirty_blocks
  | some block ↦ some block
]

unfoldable pub read_block : TxContext → ℕ → Bytes
read_block ctx b = elim (find_block b ctx.tx.dirty_blocks) [
  | some block ↦ block
  | none ↦ elim (find_pending b ctx.pending) [ some block ↦ block | none ↦ ctx.disk b ]
]

unfoldable pub stage_block : TxContext → ℕ → Bytes → TxContext
unfolding add_block
stage_block ctx b block = record ctx { tx = add_block ctx.tx b block }

abbrev pub find_cell : ℕ → List (ℕ × ℕ) → Option ℕ
find_cell t [] = none
find_cell t ((k, root) ∷ rest) = let later = find_cell t rest in if t == k then some root else later

abbrev pub insert_cell : ℕ → ℕ → List (ℕ × ℕ) → List (ℕ × ℕ)
insert_cell t root [] = (t, root) ∷ []
insert_cell t root ((k, old) ∷ rest) =
    let later = insert_cell t root rest in if t == k then (t, root) ∷ rest else (k, old) ∷ later

unfoldable pub effective_root : TxContext → ℕ → ℕ → ℕ
unfolding frozen_root
effective_root ctx node_type default_root = elim (find_cell node_type ctx.tx.root_cells) [
  | some root ↦ root
  | none ↦ elim (frozen_root ctx.frozen_roots node_type) [ some root ↦ root | none ↦ default_root ]
]

unfoldable pub set_root_cell : TxContext → ℕ → ℕ → TxContext
unfolding set_frozen_root
set_root_cell ctx node_type root = record ctx {
  tx = record ctx.tx { root_cells = insert_cell node_type root ctx.tx.root_cells };
  frozen_roots = set_frozen_root ctx.frozen_roots node_type root;
}
