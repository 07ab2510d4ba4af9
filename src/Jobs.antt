-- ===== src/Jobs.antt =====
-- internal/jobs/builder.go: the Job that mirrors one repository. `Jobs.Names` holds the label
-- values and the object names, `Jobs.Auth` what an endpoint's credentials add to the pod, and
-- `Jobs.Build` the whole Job.
pub mod Names
pub mod Auth
pub mod Build
