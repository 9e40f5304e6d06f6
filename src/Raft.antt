-- ===== src/Raft.antt =====
-- crates/lionfs-cluster/src/raft.rs: the consensus of the metadata plane. `Log` has the entries,
-- messages and map operations, `Server` the state of one server and its helpers, `Election` and
-- `Replication` the message handlers, `Step` the timer, the dispatch and the client's command.
-- The others prove what a server guarantees.
pub mod Log
pub mod Server
pub mod Election
pub mod Replication
pub mod Step
pub mod Voting
pub mod Grant
pub mod Shape
pub mod Commit
pub mod Append
pub mod Accept
pub mod Mismatch
pub mod BackOff
mod Examples
