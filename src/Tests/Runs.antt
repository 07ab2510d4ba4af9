-- ===== src/Tests/Runs.antt =====
-- Runs of the reconciler and of the lease protocol over the cluster in memory.
use git_mirror_operator.Base.{All, true, false, not, ◌&&◌, ◌==◌, List, [], ◌∷◌, done, ◌≡◌, refl}
use git_mirror_operator.Base.Hoare.{Ensures}
use git_mirror_operator.Text.Decimal.{pos}
use git_mirror_operator.Api.Mirror.{GitMirror}
use git_mirror_operator.Api.Job.{Job, Lease}
use git_mirror_operator.Status
use git_mirror_operator.Status.{job_finished, job_active, apply_completed_job_status_for_generation}
use git_mirror_operator.Controller.Generation.{
  jobs_for_generation, job_generation_matches, job_generation_annotation, active_job_exists,
}
use git_mirror_operator.Controller.Completed.{is_skipped}
use git_mirror_operator.Controller.Lease.{Reconciler, new_lease, create_locked}
use git_mirror_operator.Controller.Lease.Exclusion.{Reports, Fails, create_locked-Reports}
use git_mirror_operator.Controller.Schedule.{reconcile}
use git_mirror_operator.Controller.Settled.{
  IsSettled, is_recorded, reconcile-settled, reconcile-active, reconcile-after_job,
}
use git_mirror_operator.Tests.Memory.{World, platform, cluster, mirror, world, key, job_named}

abbrev reconciler : Reconciler
reconciler = record { default_sync_image = ""; has_scheme = true }

-- A push came while a Job runs.
abbrev busy : World
busy = record world { jobs = job_named "first" [] ∷ [] }

reconcile-active_example :
    reconcile platform cluster reconciler key busy ≡ done (pos 0) (cluster.clock busy).1
unfolding jobs_for_generation job_generation_matches job_generation_annotation is_skipped
    active_job_exists job_active job_finished Status.is_job_complete Status.any_complete
    Status.is_job_failed Status.first_failure
reconcile-active_example =
    reconcile-active platform cluster reconciler key busy busy busy mirror
      (job_named "first" [] ∷ []) refl refl (refl, tt) refl refl

abbrev finished : Job
finished =
    job_named "first"
      (record { condition_type = "Complete"; status = "True"; reason = ""; message = "" } ∷ [])

-- A mirror for which nothing is left to do, as its one Job is recorded.
abbrev rested : GitMirror
rested = record mirror {
  status = record mirror.status { pending_resync = false; last_completed_job_name = "first" };
}

abbrev resting : World
resting = record world { mirror = rested; jobs = finished ∷ [] }

rested-IsSettled : IsSettled rested (jobs_for_generation (finished ∷ []) rested.generation)
unfolding jobs_for_generation job_generation_matches job_generation_annotation
rested-IsSettled = record {
  dealt_with = (is_recorded refl, tt);
  observed = refl;
  idle = refl;
  unscheduled = refl;
}

reconcile-settled_example :
    reconcile platform cluster reconciler key resting ≡ done (pos 0) (cluster.clock resting).1
reconcile-settled_example =
    reconcile-settled platform cluster reconciler key resting resting resting rested (finished ∷ [])
      refl refl rested-IsSettled

-- A follow-up of the finished Job was due, and was not created.
abbrev after_first : GitMirror
after_first = (apply_completed_job_status_for_generation platform mirror finished (pos 3) 200).0

abbrev unfollowed : World
unfollowed = record world { mirror = after_first; jobs = finished ∷ [] }

unfollowed_read : cluster.get_mirror key unfollowed ≡ done after_first unfollowed
unfolding apply_completed_job_status_for_generation Status.apply_completed_job_status
    Status.record_completed_job Status.take_pending Status.record_result Status.is_job_complete
    Status.any_complete Status.record_success Status.set_condition_for_generation
    Status.set_condition
unfollowed_read = refl

unfollowed_last :
    All
      (λ j. (job_finished j && not (j.name == "first")) ≡ false)
      (jobs_for_generation (finished ∷ []) after_first.generation)
unfolding jobs_for_generation job_generation_matches job_generation_annotation job_finished
    Status.is_job_complete Status.any_complete
unfollowed_last = (refl, tt)

reconcile-after_job_example :
    reconcile platform cluster reconciler key unfollowed ≡ done (pos 0) (cluster.clock unfollowed).1
reconcile-after_job_example =
    reconcile-after_job platform cluster reconciler key mirror finished 200 unfollowed unfollowed
      unfollowed (finished ∷ []) refl unfollowed_read refl unfollowed_last

-- The lease of the repository, held for the Job "first".
abbrev held_lease : Lease
held_lease = new_lease platform mirror "first" 50

abbrev second : Job
second = job_named "second" []

abbrev locked : List Job → World
locked jobs = record world { jobs = jobs; leases = held_lease ∷ [] }

-- The Job "first" runs.
abbrev contested : World
contested = locked (job_named "first" [] ∷ [])

create_locked-Reports_example :
    Ensures
      (Reports platform cluster mirror second contested)
      (Fails platform cluster mirror second contested)
      (create_locked platform cluster mirror second contested)
create_locked-Reports_example = create_locked-Reports platform cluster mirror second contested
