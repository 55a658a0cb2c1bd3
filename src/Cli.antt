-- ===== src/Cli.antt =====
-- cmd/gyzor/main.go and cmd/gyzor/register.go: the command line.
pub mod Env
pub mod Options
pub mod Run
pub mod Identity
pub mod Named
pub mod Addresses
pub mod Status
pub mod Usage
pub mod Wired
