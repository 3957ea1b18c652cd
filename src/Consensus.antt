-- ===== src/Consensus.antt =====
-- src/tor/dir/consensus.rs and src/tor/dir/authority.rs: the consensus, its verification, and the key certificates
-- of the authorities. `sha1`, `sha256` and `verify_digest` are parameters, for their code is a library's.
pub mod Authority
pub mod Certificates
pub mod Params
pub mod Routers
pub mod Signatures
pub mod Verify
pub mod Chain
mod Tests
