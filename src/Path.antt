-- ===== src/Path.antt =====
-- src/tor/path.rs: path selection, with what it reads of a consensus (src/tor/dir/consensus.rs).
pub mod Relay
pub mod Constraints
pub mod Disjoint
pub mod Draw
pub mod Sampling
pub mod Weights
mod Tests
