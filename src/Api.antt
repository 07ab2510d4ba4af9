-- ===== src/Api.antt =====
-- api/v1alpha1/gitmirror_types.go, and the fields that the code reads and writes of the
-- Kubernetes types of Jobs, Leases and conditions.
pub mod Mirror
pub mod Job
pub mod Scheme
