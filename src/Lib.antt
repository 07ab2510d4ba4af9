-- ===== src/Lib.antt =====
-- A model of git-mirror-operator, a Kubernetes operator that mirrors git repositories: a webhook of
-- GitHub records in a `GitMirror`'s status that a sync is wanted, a reconciler creates a Job for it
-- under a lease, and records how the Job ended. The Job's container runs the sync runner, which
-- clones the source and pushes to the target.
--
-- The parts, and the files of the repository that they model:
--   Api/Mirror      api/v1alpha1/gitmirror_types.go, the resource (`GitMirror`, its spec and status)
--   Api/Scheme      api/v1alpha1/groupversion_info.go, the kinds that are registered
--   Api/Job         the fields of `batchv1.Job` and `coordinationv1.Lease` that the operator uses
--   Syncenv         internal/syncenv/env.go, the names of a sync Job's environment
--   Jobs            internal/jobs/builder.go: Names (`SanitizeLabelValue`, `NameForMirrorTrigger`,
--                   labels, annotations), Auth (`endpointAuth`), Build (`BuildSyncJob`); Build/Laws,
--                   Build/Recognised, Build/Mounts and Build/Refusals hold the proofs about the Job
--   Status          internal/controller/status.go, every transition of the status; Completion,
--                   Pending and Queue hold the proofs about them
--   Cluster         internal/controller/status_update.go (`PatchGitMirrorStatus`), over the API;
--                   Retry and Stored hold the proofs about it
--   Controller      internal/controller/gitmirror_controller.go: Generation (which Jobs belong to a
--                   generation), Lease (`acquireSyncLease`, `releaseSyncLease`,
--                   `createLockedSyncJob`), Completed (`reconcileCompletedJobs`), Schedule (the
--                   other phases and `Reconcile`), Setup (`SetupWithManager`); Protocol,
--                   Lease/Protocol, Lease/Exclusion (over Lease/Held and Lease/Acquired), Resync
--                   and Settled hold the proofs about it
--   Webhook         Signature is internal/github/payload.go, Server internal/webhook/server.go
--                   (`HandleGitHub`), Endpoint its constructors
--   Runner          sync/main.go: Config (`ConfigFromEnv`), Commands (`BuildGitCommands` and what is
--                   read off a command), Token (`createGitHubAppInstallationToken`), Credentials
--                   (`prepareCredentials`, `validateEndpointAuth`, `gitAuthEnv`), Main (`Run`,
--                   `main`), over Machine; Files, Trace and Reliable state what is supposed of a
--                   machine, and Atomic, Prepared, Usable, Routing, Skips, Claims, Commanded,
--                   Execution and Reliable hold the proofs. Handoff joins it to the builder: the
--                   variables that Jobs writes and that Config reads.
--   Manager         cmd/main.go: Flags, Start (what `main` sets up), Serving (`httpServer`); Order
--                   and Shared hold the proofs
-- Base, Text and its children hold what the code uses of Go's language and library: results and
-- errors, strings, hexadecimal, base64 and decimal texts, paths. A function of the model has the name
-- of the Go function in this language's spelling; a helper models a part of it (the body of a loop, a
-- closure, what follows an early return). Tests runs the theorems at concrete inputs, over the
-- platform and the cluster in memory of Tests/Memory and the machine of Tests/Disk.
--
-- State. A call that may fail takes a state and returns `done` with a value or `fail` with an error,
-- and the state in both cases (Base/Effect). The state is that of the `Cluster`, a record of the
-- calls that the operator makes of the API server, the clocks and `RetryOnConflict`: the theorems
-- hold for every cluster, so also where other clients write between two calls. `Retries` states what
-- `RetryOnConflict` documents: the closure runs once or more, again only after a conflict. Variables
-- that a closure assigns are passed through its runs, and what a failed run assigned stays assigned.
-- Cluster/Trace wraps a cluster so that it logs the writes. Base/Hoare has the rules by which
-- properties of the calls follow from those of their parts.
--
-- The state of the runner is that of the `Machine`, a record of the calls that it makes of files,
-- processes, the clock and HTTP. `IsFileSystem` states what `os` documents of files, for paths that
-- name their files directly; `IsTraced` is a machine that records the commands that are run, and
-- `IsReliable` one whose calls succeed.
--
-- Parameters. `Platform` holds what is not in the repository: SHA-256, HMAC, JSON, the Unicode case
-- table, the format of times, cron schedules, `SetStatusCondition` and `SetControllerReference`.
-- `IsFaithful` states what the proofs rely on: digests of 32 bytes, bytes below 256, and that a
-- condition that is set is found and leaves the others as they were.
--
-- Numbers. `int64` generations are integers; a theorem that needs their range says so. Decimal texts
-- are printed with fuel for 20 digits, which is enough: an int64 has at most 19. A body is read up to
-- 4 MiB. Instants are nanoseconds. Labels and names are measured in bytes.
--
-- Not modelled: generated deep copies, the logging and metrics, the timeout of the runner's
-- request for a token, Kubernetes' expansion of `$(NAME)` in a variable's value, links in the file
-- system, and the deployment files. The transition times of conditions are left to
-- `SetStatusCondition`. Several reconcilers are not modelled as processes side by side: what others
-- do stands in the changes that a cluster may make between two calls.
pub mod Base
pub mod Text
pub mod Api
pub mod Platform
pub mod Syncenv
pub mod Jobs
pub mod Status
pub mod Cluster
pub mod Controller
pub mod Webhook
pub mod Runner
pub mod Manager
pub mod Tests
