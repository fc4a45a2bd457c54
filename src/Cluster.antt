-- ===== src/Cluster.antt =====
-- src/cluster: distribution of sieving work over nodes.
pub mod WorkPool
pub mod Wire
pub mod Tcp
pub mod Merge
pub mod Batch
pub mod Relations
pub mod Accumulator
pub mod LargePrime
pub mod Incremental
pub mod WorkAssign
pub mod Ring
