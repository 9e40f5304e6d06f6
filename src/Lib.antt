-- ===== src/Lib.antt =====
-- LionFS: verification of the logic of the file system and of its cluster layer.
--
-- The file system (crates/lionfs) stores the blocks of a file as extents of an inode, places
-- writes on zoned and shingled devices, admits and orders requests by class, namespace quota and
-- weight, and goes through a recovery machine at each mount before it accepts writes. The cluster
-- layer (crates/lionfs-cluster) replicates metadata by Raft and orders versions by two kinds of
-- clocks. The parts below hold their own state and meet at calls: the file layer asks an inode for
-- the physical block of a logical one, the engine asks the quota table and the token bucket before
-- it charges, the scheduler before it commits, the zone table or the band allocator before it
-- writes, small writes go through the record log, a transaction reads and stages blocks through its
-- context, is committed to the journal and then to its places, and is replayed from the journal
-- after a crash; and a Raft server is driven by timer ticks, messages and commands.
--
-- The modules, and the code that each is about:
--
--   Base        what the others share: tests on numbers, lists, u64 sums that wrap.
--   Extents     crates/lionfs/src/extents/extent.rs, merge.rs, split.rs, mapping.rs; the record
--               Extent and the extent part of Inode of ondisk/serialization.rs. Children: Lookup,
--               Coalesce (coalesce), Pieces (split_at, remove_range), Validation (validate,
--               physical_ranges_overlap), Mapping (map_logical_to_physical and the counts).
--   Raft        crates/lionfs-cluster/src/raft.rs. Log: entries, messages, the maps of a leader.
--               Server: the struct, the commit rule, the messages it builds. Election and
--               Replication: the four branches of `handle`. Step: `tick`, `handle`, `propose`, and
--               one step for any of the three. The other children hold proofs.
--   Zns         crates/lionfs/src/media/zns.rs: ZoneTable, plan_append and the device reports.
--   Smr         crates/lionfs/src/media/smr.rs: BandAllocator and its sweeps. Children: Assignment
--               (lemmas), Confinement (one call alone), Interleaved (two calls).
--   Quota       crates/lionfs/src/qos/quota.rs: QuotaTable, evaluate, charge, release, denials.
--   Admission   crates/lionfs/src/qos/classes.rs: IoClass, TokenBucket.
--   Wfq         crates/lionfs/src/qos/wfq.rs: WfqScheduler.
--   Allocator   crates/lionfs/src/allocator/bitmap.rs and locality.rs: the bitmap of a block group,
--               the scan (Scan, FirstFit), the marking (Marking), the requests (Outcomes, Requests), the
--               free count (Counting).
--   Policies    crates/lionfs/src/allocator/policies.rs: choose.
--   PosixAcl    crates/lionfs/src/security/posix_acl.rs: the wire format (Wire), the access check
--               (Access), the mode bits (Modes).
--   Paths       crates/lionfs/src/path/normalize.rs: normalize_components, normalize.
--   RecordLog   crates/lionfs/src/recordlog/mod.rs: the frames, the log and its replay. Wire: one
--               record; Torn and Appends: whole logs.
--   Journal     crates/lionfs/src/transaction/manager.rs (Commit), recovery/recovery.rs and replay.rs
--               (Recover), transaction/transaction.rs and the frozen roots of disk/block_io.rs
--               (Overlay), with the blocks of ondisk/serialization.rs. The other children hold proofs.
--   Recovery    crates/lionfs/src/recovery/state_machine.rs: RecoveryStateMachine. The trait
--               RecoveryBackend is a record of operations on a state of its own, a parameter.
--   Clocks      crates/lionfs-cluster/src/core.rs: VectorClock (Vector) and Hlc (Hlc).
--
-- A function of the code has its name here; a helper named after a part of a function is that
-- part. A method that changes `self` returns the new record, with its result in a pair. Ordered
-- maps are lists sorted by key, hash maps are association lists, a call is one step, with its
-- mutex and atomics left out, except for BandAllocator::plan_sequential, which takes and releases
-- its mutexes several times: Smr.plan_sequential is one step under a mutex, of a call that stands
-- in a Phase, and the steps of two calls may alternate (Smr.Interleaved). A word of w bits is a
-- number; u64 sums that the code does not guard wrap at 2^64, as in a release build, and
-- saturating operations saturate. An index out of range and a missing key are `none`, or do
-- nothing where the code does nothing.
--
-- Three names differ: stage_block is TxContext::write_block (and write_block_owned), since
-- write_block is that of a disk; find_run is the search of scan_free_run without the marking;
-- PosixAcl.mask_tag and other_tag are ACL_MASK and ACL_OTHER.
--
-- Bounds and fuel: the loop of the commit rule runs over the indices between the commit index and
-- the end of the log; the loop of recovery takes five rounds, one for each state, which is proved
-- to be enough. The replay of the record log has a round for every byte of the image and one more,
-- of which every round but the last uses at least 44; the scan of the journal has a round for
-- every block and one more, which is proved to be enough; the chunks of a commit and its
-- contiguous runs have a round for every dirty block, each of which takes one at least; the count
-- of free blocks has a round for every block of the group, and uses one for every block of the
-- bitmap. All other loops are recursions on lists or counts. Block numbers of the disk and of the
-- journal, and offsets in a group, do not wrap.
--
-- Not modelled: the in-memory network of the Raft tests, with its random losses (arbitrary
-- sequences of events stand for it); texts and reports; persistence and input and output; errors
-- of devices; the mapping of blocks to the devices of a pool, so that a disk is a function from
-- block numbers to blocks, and a crash is a prefix of the block writes; the checksum of the crate
-- crc32fast, which is a parameter; the B-tree, directories, pool and cluster store, which are
-- other parts of the system.
pub mod Journal
pub mod Base
pub mod Extents
pub mod Raft
pub mod Zns
pub mod Quota
pub mod Recovery
pub mod Wfq
pub mod Clocks
pub mod Admission
pub mod Smr
pub mod Paths
pub mod Policies
pub mod RecordLog
pub mod Allocator
pub mod PosixAcl
