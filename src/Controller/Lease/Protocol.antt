-- ===== src/Controller/Lease/Protocol.antt =====
-- internal/controller/gitmirror_controller.go: the order of the writes of `createLockedSyncJob`.
use git_mirror_operator.Base.{
  String, Bool, true, false, Option, none, some, [], ◌∷◌, ok, err, ◌≡◌, pure, if◌then◌else◌,
}
use git_mirror_operator.Base.{
  ◌||◌, ◌==◌, refl, failure, is_not_found, is_conflict, is_already_exists,
}
use git_mirror_operator.Base.Hoare.{
  OnResult, Triple, Keeps, Triple-bind, Triple-attempt, Triple-if, Triple-pure, Triple-raise,
  Keeps-pure, Keeps-raise, Keeps-lift, Keeps-bind, Keeps-bind-attempt,
}
use git_mirror_operator.Cluster.Trace.{Keeps-quiet, Triple-noted_if_done, Triple-noted}
use git_mirror_operator.Api.Mirror.{Time, GitMirror}
use git_mirror_operator.Api.Job.{Job, Lease}
use git_mirror_operator.Platform.{Platform}
use git_mirror_operator.Jobs.Build.{build_sync_job}
use git_mirror_operator.Cluster.{Cluster, read_clock}
use git_mirror_operator.Cluster.Trace.{
  lease_written, lease_deleted, job_requested, status_patched, Log, traced,
}
use git_mirror_operator.Controller.Lease.{
  Reconciler, job_options, unnamed_job, holder_text, ignore_not_found, lease_key, new_lease,
  renewed_lease, job_name_active_for_generation, held_by_active, write_lease, take_over_lease,
  acquire_sync_lease, release_sync_lease, create_under_lease, create_locked, create_locked_sync_job,
}

-- The latest write is that of a lease held for the Job.
abbrev pub Holds : String → Log → Type 0
Holds name (lease_written lease ∷ log) = lease.holder_identity ≡ some name
Holds name (lease_deleted lease ∷ log) = ⊥
Holds name (job_requested job ∷ log) = ⊥
Holds name (status_patched m ∷ log) = ⊥
Holds name [] = ⊥

-- Every Job of the log was requested right after a lease had been written for it.
abbrev pub IsGuarded : Log → Type 0
IsGuarded [] = Unit
IsGuarded (job_requested job ∷ log) = Holds job.name log × IsGuarded log
IsGuarded (lease_written lease ∷ log) = IsGuarded log
IsGuarded (lease_deleted lease ∷ log) = IsGuarded log
IsGuarded (status_patched m ∷ log) = IsGuarded log

module _ (P : Platform) (C : Cluster) where
  abbrev S : Type 0
  S = C.State × Log

  abbrev pub Guarded : S → Type 0
  Guarded s = IsGuarded s.1

  -- A call that returns `true` has just written the lease for the holder.
  abbrev pub Acquired : String → Bool → S → Type 0
  Acquired holder true s = Guarded s × Holds holder s.1
  Acquired holder false s = Guarded s

  clock-Keeps : Keeps Guarded (read_clock (traced C))
  unfolding read_clock
  clock-Keeps = record { at = λ s h. h }

  held_by_active-Keeps :
      (m : GitMirror) (holder : String) (lease : Lease)
      → Keeps Guarded (held_by_active (traced C) m holder lease)
  unfolding held_by_active job_name_active_for_generation
  held_by_active-Keeps m holder lease =
      let current = holder_text lease.holder_identity in
      Triple-if (current == "" || current == holder) (Keeps-pure false) (
        Keeps-bind-attempt _ (Keeps-quiet IsGuarded (C.get_job _)) (λ job. Keeps-pure _)
          (λ e. Triple-if (is_not_found e) (Keeps-pure false) (Keeps-raise e)))

  write_lease-Acquired :
      (lease : Lease) (holder : String)
      → lease.holder_identity ≡ some holder
      → Triple Guarded (Acquired holder) Guarded (write_lease (traced C) lease)
  unfolding write_lease
  write_lease-Acquired lease holder e =
      Triple-bind (OnResult (λ _ s. Guarded s × Holds holder s.1) Guarded)
        (Triple-attempt (
          Triple-noted_if_done (lease_written lease) (C.update_lease lease) IsGuarded
            (λ log. IsGuarded log × Holds holder log) (λ log h. (h, e))))
        (elim [
          | ok _ ↦ Triple-pure true (λ s k. k)
          | err x ↦
              Triple-if (is_conflict x) (Triple-pure false (λ s k. k)) (Triple-raise x (λ s k. k))
        ])

  take_over_lease-Acquired :
      (m : GitMirror) (holder : String) (now : Time)
      → Triple Guarded (Acquired holder) Guarded (take_over_lease P (traced C) m holder now)
  unfolding take_over_lease renewed_lease
  take_over_lease-Acquired m holder now =
      Triple-bind (λ _ s. Guarded s) (Keeps-quiet IsGuarded (C.get_lease (lease_key P m)))
        λ lease.
          Triple-bind (λ _ s. Guarded s) (held_by_active-Keeps m holder lease)
            λ busy.
              Triple-if busy (Triple-pure false (λ s k. k))
                (write_lease-Acquired (renewed_lease lease holder now) holder refl)

  acquire_sync_lease-Acquired :
      (m : GitMirror) (holder : String)
      → Triple Guarded (Acquired holder) Guarded (acquire_sync_lease P (traced C) m holder)
  unfolding acquire_sync_lease new_lease
  acquire_sync_lease-Acquired m holder =
      Triple-bind (λ _ s. Guarded s) clock-Keeps
        λ now.
          let lease = new_lease P m holder now in
          Triple-bind (OnResult (λ _ s. Guarded s × Holds holder s.1) Guarded)
            (Triple-attempt (
              Triple-noted_if_done (lease_written lease) (C.create_lease lease) IsGuarded
                (λ log. IsGuarded log × Holds holder log) (λ log h. (h, refl))))
            (elim [
              | ok _ ↦ Triple-pure true (λ s k. k)
              | err x ↦
                  Triple-if (is_already_exists x) (take_over_lease-Acquired m holder now)
                    (Triple-raise x (λ s k. k))
            ])

  delete-Keeps : (lease : Lease) → Keeps Guarded ((traced C).delete_lease lease)
  delete-Keeps lease =
      Triple-noted_if_done (lease_deleted lease) (C.delete_lease lease) IsGuarded IsGuarded
        (λ log h. h)

  pub release_sync_lease-Keeps :
      (m : GitMirror) (holder : String) → Keeps Guarded (release_sync_lease P (traced C) m holder)
  unfolding release_sync_lease
  release_sync_lease-Keeps m holder =
      Keeps-bind-attempt _ (Keeps-quiet IsGuarded (C.get_lease (lease_key P m)))
        (λ lease. held lease lease.holder_identity)
        (λ e. Triple-if (is_not_found e) (Keeps-pure tt) (Keeps-raise e))
    where
      held :
          (lease : Lease) (o : Option String)
          → Keeps Guarded (elim o [
            | none ↦ pure tt
            | some h ↦
                if h == holder
                then ignore_not_found (traced C) ((traced C).delete_lease lease)
                else pure tt
          ])
      held lease none = Keeps-pure tt
      held lease (some h) =
          Triple-if (h == holder)
            (Keeps-bind-attempt _ (delete-Keeps lease) (λ _. Keeps-pure tt)
              (λ e. Triple-if (is_not_found e) (Keeps-pure tt) (Keeps-raise e)))
            (Keeps-pure tt)

  create_under_lease-Guarded :
      (m : GitMirror) (job : Job)
      → Triple
          (λ s. Guarded s × Holds job.name s.1)
          (λ _ s. Guarded s)
          Guarded
          (create_under_lease P (traced C) m job)
  unfolding create_under_lease
  create_under_lease-Guarded m job =
      Triple-bind (OnResult (λ _ s. Guarded s) Guarded)
        (Triple-attempt (
          Triple-noted (job_requested job) (C.create_job job)
            (λ log. IsGuarded log × Holds job.name log) IsGuarded (λ log h. (h.1, h.0))))
        (elim [
          | ok _ ↦ Keeps-pure (true, job.name)
          | err x ↦ Triple-if (is_already_exists x) (Keeps-pure (true, job.name)) (
              Keeps-bind-attempt _ (release_sync_lease-Keeps m job.name) (λ _. Keeps-raise x)
                (λ _. Keeps-raise x))
        ])

  create_locked-Keeps :
      (m : GitMirror) (job : Job) → Keeps Guarded (create_locked P (traced C) m job)
  unfolding create_locked
  create_locked-Keeps m job =
      Triple-bind (Acquired job.name) (acquire_sync_lease-Acquired m job.name)
        (elim [ true ↦ create_under_lease-Guarded m job | false ↦ Keeps-pure (false, job.name) ])

  -- Creating a Job under the lease keeps the order: the request comes right after the lease was
  -- written for that Job.
  pub create_locked_sync_job-Keeps :
      (r : Reconciler) (m : GitMirror) (trigger_id revision : String)
      → Keeps Guarded (create_locked_sync_job P (traced C) r m trigger_id revision)
  unfolding create_locked_sync_job
  create_locked_sync_job-Keeps r m trigger_id revision =
      Keeps-bind (Keeps-lift (build_sync_job P (some m) (job_options r trigger_id revision))) λ job.
        Triple-if (job.name == "") (Keeps-raise (failure (unnamed_job m)))
          (create_locked-Keeps m job)
