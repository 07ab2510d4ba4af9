-- ===== src/Controller/Completed.antt =====
-- internal/controller/gitmirror_controller.go: `reconcileCompletedJobs`.
use git_mirror_operator.Base.{
  String, ◌<>◌, Bool, true, false, not, ◌&&◌, ◌||◌, ◌==◌, if◌then◌else◌, List, [], ◌∷◌, ok, err,
  Exec, pure, raise, attempt, ◌>>=◌, ◌>>◌, is_already_exists,
}
use git_mirror_operator.Text.Decimal.{ℤ, pos}
use git_mirror_operator.Api.Mirror.{Time, Key, GitMirror}
use git_mirror_operator.Api.Job.{Job}
use git_mirror_operator.Platform.{Platform}
use git_mirror_operator.Cluster.{Cluster, patch_git_mirror_status}
use git_mirror_operator.Status.{
  job_finished, apply_completed_job_status_for_generation, apply_completed_legacy_job_status,
  apply_sync_scheduled_for_generation,
}
use git_mirror_operator.Controller.Generation.{
  unannotated, invalid, generation, job_generation_annotation, job_name_exists,
}
use git_mirror_operator.Controller.Lease.{Reconciler, release_sync_lease, create_locked_sync_job}

-- `ctrl.Result` and the flag `handled`; durations are in nanoseconds.
pub record Step : Type 0 where
  pub requeue_after : ℤ
  pub handled : Bool

abbrev pub pass : Step
pass = record { requeue_after = pos 0; handled = false }

abbrev pub stop : Step
stop = record { requeue_after = pos 0; handled = true }

abbrev pub retry_soon : Step
retry_soon = record { requeue_after = pos 5_000_000_000; handled = true }

-- The closure's variables `followup` and `followupRevision`.
pub record Followup : Type 0 where
  pub due : Bool
  pub revision : String

abbrev pub no_followup : Followup
no_followup = record { due = false; revision = "" }

abbrev with_revision : GitMirror × Bool → GitMirror × Followup
with_revision (m, due) = (m, record { due = due; revision = m.status.last_requested_revision })

module _ (P : Platform) (job : Job) (now : Time) where
  -- The closure that records a finished Job in the status.
  unfoldable pub record_completed : GitMirror → Followup → GitMirror × Followup
  record_completed current f =
      if current.status.last_completed_job_name == job.name
      then (current, f)
      else elim (job_generation_annotation job) [
        | unannotated ↦ with_revision (apply_completed_legacy_job_status P current job now)
        | invalid ↦ (current, f)
        | generation g ↦
            with_revision (apply_completed_job_status_for_generation P current job g now)
      ]

-- The two `continue`s at the head of the loop.
unfoldable pub is_skipped : GitMirror → List Job → Job → Bool
is_skipped mirror jobs job =
    not (job_finished job)
    || mirror.status.last_completed_job_name == job.name
    || (not (mirror.status.last_job_name == "")
        && not (mirror.status.last_job_name == job.name)
        && job_name_exists jobs mirror.status.last_job_name)

module _ (P : Platform) (C : Cluster) (r : Reconciler) (key : Key) (mirror : GitMirror)
    (now : Time) where
  unfoldable pub schedule_followup : Bool × String → Exec C.State Step
  schedule_followup (false, name) = pure retry_soon
  schedule_followup (true, name) =
      patch_git_mirror_status C key
        (λ current _.
          ((apply_sync_scheduled_for_generation P current name mirror.generation now).0, tt))
        (tt {0})
      >> pure pass

  -- The follow-up of a finished Job; an error `AlreadyExists` counts as a lease not acquired.
  unfoldable pub create_followup : String → Exec C.State Step
  create_followup revision = do
    created ←
        attempt (create_locked_sync_job P C r mirror ("resync-" <> P.format_time now) revision)
    elim created [
      | ok result ↦ schedule_followup result
      | err e ↦ if is_already_exists e then pure retry_soon else raise e
    ]

  -- One round of the loop, for a Job that is not skipped.
  unfoldable pub complete_job : Job → Exec C.State Step
  complete_job job = do
    followup ← patch_git_mirror_status C key (record_completed P job now) no_followup
    release_sync_lease P C mirror job.name
    if followup.due then create_followup followup.revision else pure pass

  -- The loop over `rest`, a tail of `jobs`.
  unfoldable pub complete_jobs : List Job → List Job → Exec C.State Step
  complete_jobs jobs [] = pure pass
  complete_jobs jobs (job ∷ rest) =
      let continue = complete_jobs jobs rest in
      if is_skipped mirror jobs job
      then continue
      else complete_job job >>= λ step. if step.handled then pure step else continue

  unfoldable pub reconcile_completed_jobs : List Job → Exec C.State Step
  reconcile_completed_jobs jobs = complete_jobs jobs jobs
