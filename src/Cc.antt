-- ===== src/Cc.antt =====
-- src/tor/cc.rs.
pub mod Params
pub mod Parse
pub mod Vegas
pub mod Deliver
pub mod Link
