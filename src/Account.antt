-- ===== src/Account.antt =====
-- pyzor/account.go: identities, and the hashes that sign a request.
pub mod Keys
pub mod File
pub mod Atomic
