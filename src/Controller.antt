-- ===== src/Controller.antt =====
-- internal/controller/gitmirror_controller.go: the reconciler. `Controller.Generation` reads the
-- Jobs of a generation, `Controller.Lease` holds the per-repository lease and the locked creation
-- of Jobs, `Controller.Completed` and `Controller.Schedule` the four phases of `Reconcile`.
pub mod Generation
pub mod Lease
pub mod Completed
pub mod Schedule
pub mod Settled
pub mod Resync
pub mod Protocol
pub mod Setup
