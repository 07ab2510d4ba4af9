-- ===== src/Controller/Resync.antt =====
-- internal/controller/gitmirror_controller.go: what `reconcilePendingResync` does, by what the API
-- server answers.
use git_mirror_operator.Base.{
  String, ◌<>◌, Bool, true, false, ◌==◌, if◌then◌else◌, some, Outcome, done, fail, Exec, pure,
  ◌>>=◌, ◌>>◌, Result, ok, err, Error, ◌≡◌, ◌⊎◌, refl,
}
use git_mirror_operator.Base.Hoare.{Ensures, Triple}
use git_mirror_operator.Api.Mirror.{Time, Key, GitMirror}
use git_mirror_operator.Api.Job.{Job}
use git_mirror_operator.Platform.{Platform}
use git_mirror_operator.Cluster.{Cluster, Retries, patch_git_mirror_status}
use git_mirror_operator.Cluster.Stored.{IsPatched, patch_git_mirror_status-IsPatched}
use git_mirror_operator.Jobs.Build.{build_sync_job}
use git_mirror_operator.Controller.Lease.{Reconciler, job_options, create_locked_sync_job}
use git_mirror_operator.Controller.Lease.Acquired.{Loses}
use git_mirror_operator.Controller.Lease.Exclusion.{IsCreated, Reports, Fails}
use git_mirror_operator.Controller.Completed.{Step, pass, retry_soon}
use git_mirror_operator.Status.{apply_sync_scheduled_for_generation}
use git_mirror_operator.Controller.Schedule.{patch_scheduled}

module _ (P : Platform) (C : Cluster) (r : Reconciler) (key : Key) (now : Time) where
  -- The delivery that is recorded names the trigger, and the time where there is none.
  abbrev pub trigger_of : GitMirror → String
  trigger_of m =
      if m.status.last_delivery_id == ""
      then "resync-" <> P.format_time now
      else m.status.last_delivery_id

  abbrev pub Builds : GitMirror → Result Job → Type 0
  Builds m built =
      build_sync_job P (some m) (job_options r (trigger_of m) m.status.last_requested_revision)
      ≡ built

  -- The Job is recorded as the one that was requested for the generation.
  abbrev pub records : Job → GitMirror → GitMirror → Unit {0} → GitMirror × Unit {0}
  records job current m _ =
      ((apply_sync_scheduled_for_generation P m job.name current.generation now).0, tt)

  -- A resync is due, of the mirror as it is read again.
  pub record IsDue (mirror : GitMirror) (active : Bool) (s : C.State) (current : GitMirror)
      (t : C.State) : Type 0 where
    pub pending : mirror.status.pending_resync ≡ true
    pub unoccupied : active ≡ false
    pub read : C.get_mirror key s ≡ done current t
    pub still_pending : current.status.pending_resync ≡ true

  -- How a phase that returns no error ends.
  pub data Ends (mirror : GitMirror) (active : Bool) (s : C.State) (step : Step) (t : C.State)
      : Type 0 where
    not_due :
        (mirror.status.pending_resync ≡ false) ⊎ (active ≡ true)
        → step ≡ pass
        → s ≡ t
        → Ends mirror active s step t
    no_more_due :
        (current : GitMirror)
        → C.get_mirror key s ≡ done current t
        → current.status.pending_resync ≡ false
        → step ≡ pass
        → Ends mirror active s step t
    lease_lost :
        (current : GitMirror) (s₁ : C.State)
        → IsDue mirror active s current s₁
        → (job : Job) → Builds current (ok job)
        → Loses P C current job.name s₁ t
        → step ≡ retry_soon
        → Ends mirror active s step t
    scheduled :
        (current : GitMirror) (s₁ s₂ : C.State)
        → IsDue mirror active s current s₁
        → (job : Job) → Builds current (ok job)
        → IsCreated P C current job s₁ s₂
        → IsPatched C key (records job current) t
        → step ≡ pass
        → Ends mirror active s step t

  -- The call that failed where the phase returns an error.
  pub data Aborts (mirror : GitMirror) (active : Bool) (s t : C.State) : Type 0 where
    unread : (e : Error) → C.get_mirror key s ≡ fail e t → Aborts mirror active s t
    unbuilt :
        (current : GitMirror)
        → IsDue mirror active s current t
        → (e : Error) → Builds current (err e)
        → Aborts mirror active s t
    unnamed :
        (current : GitMirror)
        → IsDue mirror active s current t
        → (job : Job) → Builds current (ok job)
        → job.name ≡ ""
        → Aborts mirror active s t
    uncreated :
        (current : GitMirror) (s₁ : C.State)
        → IsDue mirror active s current s₁
        → (job : Job) → Builds current (ok job)
        → Fails P C current job s₁ t
        → Aborts mirror active s t
    unpatched :
        (current : GitMirror) (s₁ s₂ : C.State)
        → IsDue mirror active s current s₁
        → (job : Job) → Builds current (ok job)
        → IsCreated P C current job s₁ s₂
        → (e : Error) → patch_git_mirror_status C key (records job current) tt s₂ ≡ fail e t
        → Aborts mirror active s t

  -- What is done for a resync that is due.
  abbrev resumes : GitMirror → Exec C.State Step
  resumes current =
      create_locked_sync_job P C r current (trigger_of current)
        current.status.last_requested_revision
      >>= patch_scheduled P C r key now pass current.generation

  module _ (retries : Retries C) (mirror : GitMirror) (active : Bool) (s : C.State) where
    patched :
        (current : GitMirror) (s₁ s₂ : C.State)
        → IsDue mirror active s current s₁
        → (job : Job) → Builds current (ok job)
        → IsCreated P C current job s₁ s₂
        → (o : Outcome C.State (Unit {0}))
        → patch_git_mirror_status C key (records job current) tt s₂ ≡ o
        → Ensures (Ends mirror active s) (Aborts mirror active s) (((λ _. o) >> pure pass) s₂)
    patched current s₁ s₂ due job built created (done _ t) h =
        scheduled current s₁ s₂ due job built created
          (patch_git_mirror_status-IsPatched C key (records job current) retries tt s₂ h) refl
    patched current s₁ s₂ due job built created (fail e t) h =
        unpatched current s₁ s₂ due job built created e h

    reported :
        (current : GitMirror) (s₁ : C.State)
        → IsDue mirror active s current s₁
        → (job : Job) → Builds current (ok job)
        → (b : Bool) (name : String)
        → Triple
            (Reports P C current job s₁ (b, name))
            (Ends mirror active s)
            (Aborts mirror active s)
            (patch_scheduled P C r key now pass current.generation (b, name))
    unfolding patch_scheduled
    reported current s₁ due job built false name = record {
      at = λ t h. lease_lost current s₁ due job built h.1 refl;
    }
    reported current s₁ due job built true name = record {
      at = λ s₂ h. rw h.0 (
          patched current s₁ s₂ due job built h.1
            (patch_git_mirror_status C key (records job current) tt s₂) refl);
    }
