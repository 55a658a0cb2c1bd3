-- ===== src/Client.antt =====
-- pyzor/client.go: the client.
pub mod Server
pub mod Files
pub mod Query
pub mod Verdict
pub mod Fanout
pub mod Api
