-- ===== src/Clocks.antt =====
-- crates/lionfs-cluster/src/core.rs: the two clocks of the cluster.
pub mod Hlc
pub mod Vector
pub mod Ticks
pub mod Causality
mod Examples
