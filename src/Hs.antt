-- ===== src/Hs.antt =====
-- src/tor/hs: the directories of an onion service. The hash is a parameter, sha3_256 of src/ffi/hash.rs.
-- An Ed25519 identity and a digest are their bytes; an RSA identity, which is only compared, is a number.
pub mod Ring
pub mod Chosen
pub mod Shared
pub mod Address
mod Tests
