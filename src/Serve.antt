-- ===== src/Serve.antt =====
-- cmd/gyzor/serve.go: the handlers of the HTTP daemon.
pub mod Handlers
pub mod Rejected
pub mod Latency
pub mod Gate
pub mod Setup
pub mod Routes
