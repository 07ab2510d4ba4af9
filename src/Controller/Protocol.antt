-- ===== src/Controller/Protocol.antt =====
-- internal/controller/gitmirror_controller.go: the order of the writes of a whole `Reconcile`.
use git_mirror_operator.Base.{
  String, Bool, true, false, not, ◌||◌, ◌==◌, Option, none, some, List, [], ◌∷◌, pure,
  is_already_exists, is_not_found, ltb, final, Outcome, done, fail,
}
use git_mirror_operator.Base.Hoare.{
  Ensures, Keeps, Triple-if, Keeps-pure, Keeps-raise, Keeps-bind, Keeps-bind-attempt,
}
use git_mirror_operator.Text.Decimal.{ℤ, pos, ◌=ℤ◌}
use git_mirror_operator.Api.Mirror.{Time, Key, GitMirror}
use git_mirror_operator.Api.Job.{Job}
use git_mirror_operator.Platform.{Platform}
use git_mirror_operator.Cluster.{
  Cluster, Retries, patch_git_mirror_status, read_clock, read_wall_clock,
}
use git_mirror_operator.Cluster.Trace.{Log, traced, Keeps-quiet}
use git_mirror_operator.Cluster.Retry.{patch_git_mirror_status-Keeps}
use git_mirror_operator.Controller.Generation.{jobs_for_generation, active_job_exists}
use git_mirror_operator.Controller.Lease.{Reconciler}
use git_mirror_operator.Controller.Lease.Protocol.{
  IsGuarded, Guarded, release_sync_lease-Keeps, create_locked_sync_job-Keeps,
}
use git_mirror_operator.Controller.Completed.{
  Step, pass, stop, retry_soon, no_followup, record_completed, is_skipped, schedule_followup,
  create_followup, complete_job, complete_jobs, reconcile_completed_jobs,
}
use git_mirror_operator.Controller.Schedule.{
  next_fallback_time, patch_scheduled, patch_generation, reconcile_unobserved_generation,
  reconcile_pending_resync, finish_fallback, after_creation, run_fallback, fallback_due,
  reconcile_fallback, reconcile_mirror, reconcile_found, reconcile,
}

module _ (P : Platform) (C : Cluster) (retries : Retries C) (r : Reconciler) (key : Key) where
  patch-Keeps :
      {V : Type 0} (mutate : GitMirror → V → GitMirror × V) (v : V)
      → Keeps (Guarded P C) (patch_git_mirror_status (traced C) key mutate v)
  patch-Keeps mutate v =
      patch_git_mirror_status-Keeps C retries IsGuarded (λ log m h. h) key mutate v

  clock-Keeps : Keeps (Guarded P C) (read_clock (traced C))
  unfolding read_clock
  clock-Keeps = record { at = λ s h. h }

  wall_clock-Keeps : Keeps (Guarded P C) (read_wall_clock (traced C))
  unfolding read_wall_clock
  wall_clock-Keeps = record { at = λ s h. h }

  module _ (mirror : GitMirror) (now : Time) where
    schedule_followup-Keeps :
        (created : Bool × String)
        → Keeps (Guarded P C) (schedule_followup P (traced C) r key mirror now created)
    unfolding schedule_followup
    schedule_followup-Keeps (false, name) = Keeps-pure retry_soon
    schedule_followup-Keeps (true, name) =
        Keeps-bind (patch-Keeps _ (tt {0})) (λ _. Keeps-pure pass)

    create_followup-Keeps :
        (revision : String)
        → Keeps (Guarded P C) (create_followup P (traced C) r key mirror now revision)
    unfolding create_followup
    create_followup-Keeps revision =
        Keeps-bind-attempt _ (create_locked_sync_job-Keeps P C r mirror _ revision)
          schedule_followup-Keeps
          (λ e. Triple-if (is_already_exists e) (Keeps-pure retry_soon) (Keeps-raise e))

    complete_job-Keeps :
        (job : Job) → Keeps (Guarded P C) (complete_job P (traced C) r key mirror now job)
    unfolding complete_job
    complete_job-Keeps job =
        Keeps-bind (patch-Keeps (record_completed P job now) no_followup) λ followup.
          Keeps-bind (release_sync_lease-Keeps P C mirror job.name)
            λ _. Triple-if followup.due (create_followup-Keeps followup.revision) (Keeps-pure pass)

    complete_jobs-Keeps :
        (jobs rest : List Job)
        → Keeps (Guarded P C) (complete_jobs P (traced C) r key mirror now jobs rest)
    unfolding complete_jobs
    complete_jobs-Keeps jobs [] = Keeps-pure pass
    complete_jobs-Keeps jobs (job ∷ rest) =
        let others = complete_jobs-Keeps jobs rest in
        Triple-if (is_skipped mirror jobs job) others (
          Keeps-bind (complete_job-Keeps job)
            (λ step. Triple-if step.handled (Keeps-pure step) others))

    patch_scheduled-Keeps :
        (step : Step) (g : ℤ) (created : Bool × String)
        → Keeps (Guarded P C) (patch_scheduled P (traced C) r key now step g created)
    unfolding patch_scheduled
    patch_scheduled-Keeps step g (false, name) = Keeps-pure retry_soon
    patch_scheduled-Keeps step g (true, name) =
        Keeps-bind (patch-Keeps _ (tt {0})) (λ _. Keeps-pure step)

    patch_generation-Keeps :
        (g : ℤ) (created : Bool × String)
        → Keeps (Guarded P C) (patch_generation P (traced C) r key now g created)
    unfolding patch_generation
    patch_generation-Keeps g (false, name) = Keeps-pure retry_soon
    patch_generation-Keeps g (true, name) =
        Keeps-bind (patch-Keeps _ (tt {0})) (λ _. Keeps-pure stop)

    unobserved-Keeps :
        (active : Bool)
        → Keeps (Guarded P C) (reconcile_unobserved_generation P (traced C) r key now mirror active)
    unfolding reconcile_unobserved_generation
    unobserved-Keeps active =
        Triple-if (mirror.status.observed_generation =ℤ mirror.generation || active)
          (Keeps-pure pass)
          (Keeps-bind (Keeps-quiet IsGuarded (C.get_mirror key)) λ current.
            Triple-if (current.status.observed_generation =ℤ current.generation) (Keeps-pure pass) (
              Keeps-bind (create_locked_sync_job-Keeps P C r current _ _)
                (patch_generation-Keeps current.generation)))

    pending-Keeps :
        (active : Bool)
        → Keeps (Guarded P C) (reconcile_pending_resync P (traced C) r key now mirror active)
    unfolding reconcile_pending_resync
    pending-Keeps active =
        Triple-if (not mirror.status.pending_resync || active) (Keeps-pure pass) (
          Keeps-bind (Keeps-quiet IsGuarded (C.get_mirror key)) λ current.
            Triple-if (not current.status.pending_resync) (Keeps-pure pass) (
              Keeps-bind (create_locked_sync_job-Keeps P C r current _ _)
                (patch_scheduled-Keeps pass current.generation)))

    finish_fallback-Keeps :
        (active : Bool) (name : String)
        → Keeps (Guarded P C) (finish_fallback P (traced C) r key now mirror active name)
    unfolding finish_fallback
    finish_fallback-Keeps active name =
        Keeps-bind (patch-Keeps _ (tt {0}))
          λ _. Keeps-bind clock-Keeps λ at. Keeps-bind wall_clock-Keeps λ wall. Keeps-pure _

    run_fallback-Keeps :
        (active : Bool) → Keeps (Guarded P C) (run_fallback P (traced C) r key now mirror active)
    unfolding run_fallback after_creation
    run_fallback-Keeps true = finish_fallback-Keeps true ""
    run_fallback-Keeps false = Keeps-bind (create_locked_sync_job-Keeps P C r mirror _ "") after
      where
        after :
            (created : Bool × String)
            → Keeps (Guarded P C) (after_creation P (traced C) r key now mirror created)
        after (false, name) = Keeps-pure _
        after (true, name) = finish_fallback-Keeps false name

    fallback_due-Keeps :
        (active : Bool) (next : Time)
        → Keeps (Guarded P C) (fallback_due P (traced C) r key now mirror active next)
    unfolding fallback_due
    fallback_due-Keeps active next = Keeps-bind clock-Keeps λ at.
        Triple-if (ltb at next) (Keeps-bind wall_clock-Keeps (λ wall. Keeps-pure _))
          (run_fallback-Keeps active)

    fallback-Keeps :
        (active : Bool)
        → Keeps (Guarded P C) (reconcile_fallback P (traced C) r key now mirror active)
    unfolding reconcile_fallback
    fallback-Keeps active =
        Triple-if (mirror.spec.fallback.schedule == "") (Keeps-pure (pos 0))
          (Keeps-bind clock-Keeps λ at. after (next_fallback_time P _ _ at))
      where
        after :
            (next : Option Time)
            → Keeps (Guarded P C) (elim next [
              | none ↦ pure (pos 0)
              | some t ↦ fallback_due P (traced C) r key now mirror active t
            ])
        after none = Keeps-pure (pos 0)
        after (some t) = fallback_due-Keeps active t

    mirror-Keeps :
        (jobs : List Job)
        → Keeps (Guarded P C) (reconcile_mirror P (traced C) r key now mirror jobs)
    unfolding reconcile_mirror reconcile_completed_jobs
    mirror-Keeps jobs =
        let active = active_job_exists jobs in
        Keeps-bind (complete_jobs-Keeps jobs jobs) λ a. Triple-if a.handled (Keeps-pure _) (
          Keeps-bind (unobserved-Keeps active) λ b. Triple-if b.handled (Keeps-pure _) (
            Keeps-bind (pending-Keeps active)
              λ c. Triple-if c.handled (Keeps-pure _) (fallback-Keeps active)))

  found-Keeps :
      (mirror : GitMirror) → Keeps (Guarded P C) (reconcile_found P (traced C) r key mirror)
  unfolding reconcile_found
  found-Keeps mirror = Keeps-bind (Keeps-quiet IsGuarded (C.list_jobs _ _)) λ jobs.
      Keeps-bind clock-Keeps
        λ now. mirror-Keeps mirror now (jobs_for_generation jobs mirror.generation)

  reconcile-Keeps : Keeps (Guarded P C) (reconcile P (traced C) r key)
  unfolding reconcile
  reconcile-Keeps =
      Keeps-bind-attempt _ (Keeps-quiet IsGuarded (C.get_mirror key)) found-Keeps
        (λ e. Triple-if (is_not_found e) (Keeps-pure (pos 0)) (Keeps-raise e))

  final_of :
      {A : Type 0} (o : Outcome (C.State × Log) A)
      → Ensures (λ _ s. IsGuarded s.1) (λ s. IsGuarded s.1) o
      → IsGuarded (final o).1
  final_of (done a s) h = h
  final_of (fail e s) h = h

  -- Whatever the API server answers and others change between two calls: in the writes of a whole
  -- run of `Reconcile`, each request to create a Job comes right after a successful write of a
  -- lease whose holder is that Job. (`RetryOnConflict` is taken to retry as it documents.)
  pub reconcile-IsGuarded :
      (s : C.State) → IsGuarded (final (reconcile P (traced C) r key (s, []))).1
  reconcile-IsGuarded s =
      final_of (reconcile P (traced C) r key (s, [])) (reconcile-Keeps.at (s, []) tt)
