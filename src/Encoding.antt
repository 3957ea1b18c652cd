-- ===== src/Encoding.antt =====
-- src/util.rs: the text encodings of the directory documents. Text is the list of its bytes.
pub mod Hex
pub mod Dates
pub mod Base32
pub mod Base64
