-- ===== src/Jobs/Build/Laws.antt =====
-- internal/jobs/builder.go: the metadata of the Job that `BuildSyncJob` returns.
use git_mirror_operator.Base.{String, Bool, ◌==◌, if◌then◌else◌, none, some, [], ok, ◌≡◌, arith}
use git_mirror_operator.Api.Mirror.{GitMirror}
use git_mirror_operator.Api.Job.{PodSpec, Job}
use git_mirror_operator.Platform.{Platform}
use git_mirror_operator.Jobs.Names.{name_for_mirror_trigger}
use git_mirror_operator.Jobs.Build.{
  Options, job_annotations, job_labels, sync_job, with_owner, with_credentials, build_sync_job,
  job_image, job_mode,
}

module _ (P : Platform) (m : GitMirror) (opts : Options) where
  -- The metadata, as the helpers return them.
  pub record IsFor (job : Job) : Type 0 where
    pub named :
        job.name
        ≡ (if opts.trigger_id == "" then "" else name_for_mirror_trigger P m opts.trigger_id)
    pub placed : job.namespace ≡ m.namespace
    pub labelled : job.labels ≡ job_labels P m opts.trigger_id
    pub annotated : job.annotations ≡ job_annotations m opts.revision
    pub fresh : job.conditions ≡ []
    pub kept : job.deletion_timestamp ≡ none

  with_owner-IsFor :
      (b : Bool) (image : String) (pod : PodSpec) (job : Job)
      → with_owner P m b (sync_job P m opts image pod) ≡ ok job
      → IsFor job
  unfolding with_owner sync_job
  with_owner-IsFor b image pod job h = ground arith

  with_credentials-IsFor :
      (image mode : String) (job : Job) → with_credentials P m opts image mode ≡ ok job → IsFor job
  unfolding with_credentials
  with_credentials-IsFor image mode job h = grind (arith, with_owner-IsFor)

  -- Each Job that is built has these metadata.
  pub build_sync_job-IsFor : (job : Job) → build_sync_job P (some m) opts ≡ ok job → IsFor job
  unfolding build_sync_job
  build_sync_job-IsFor job h =
      ground (arith, with_credentials-IsFor (job_image m opts) (job_mode m) job)
