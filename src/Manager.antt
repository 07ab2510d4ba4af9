-- ===== src/Manager.antt =====
-- cmd/main.go: the start of the manager. `Manager.Flags` is its command line, `Manager.Start` what
-- `main` sets up, `Manager.Serving` the HTTP server of the webhooks.
pub mod Flags
pub mod Start
pub mod Order
pub mod Shared
pub mod Serving
