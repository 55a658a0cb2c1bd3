-- ===== src/Digest.antt =====
-- pyzor/digest.go: the message digest.
pub mod Space
pub mod Runs
pub mod Whitespace
pub mod Normalize
pub mod Lines
pub mod Select
pub mod Decode
pub mod Html
pub mod Mime
