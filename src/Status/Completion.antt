-- ===== src/Status/Completion.antt =====
-- internal/controller/status.go: what a finished Job leaves in the status.
use git_mirror_operator.Base.{
  String, true, false, not, ◌&&◌, ◌==◌, if◌then◌else◌, none, some, ◌≡◌, arith, get_text,
}
use git_mirror_operator.Text.Decimal.{ℤ, ◌=ℤ◌}
use git_mirror_operator.Api.Mirror.{Time, GitMirror}
use git_mirror_operator.Api.Job.{Job}
use git_mirror_operator.Platform.{Platform}
use git_mirror_operator.Jobs.Names.{annotation_revision}
use git_mirror_operator.Status.{
  is_job_complete, is_job_failed, job_finished, job_active, set_condition,
  set_condition_for_generation, record_success, record_failure, record_result, take_pending,
  record_completed_job, apply_completed_job_status, apply_completed_job_status_for_generation,
  apply_completed_legacy_job_status,
}

-- The revision that a finished Job mirrored: that of its annotation, if it succeeded and has one.
unfoldable pub mirrored : String → Job → String
mirrored old job =
    let revision = get_text annotation_revision job.annotations in
    if is_job_complete job && not (revision == "") then revision else old

-- The error that a finished Job reports: none if it succeeded.
unfoldable pub reported : String → Job → String
reported old job =
    if is_job_complete job
    then ""
    else elim (is_job_failed job) [ none ↦ old | some reason ↦ reason ]

module _ (P : Platform) (m : GitMirror) (job : Job) (now : Time) where
  pub record Recorded (m' : GitMirror) : Type 0 where
    pub named : m'.status.last_completed_job_name ≡ job.name
    pub latest : m'.status.last_job_name ≡ job.name
    pub revision : m'.status.last_mirrored_revision ≡ mirrored m.status.last_mirrored_revision job
    pub error : m'.status.last_error ≡ reported m.status.last_error job
    pub requested : m'.status.last_requested_revision ≡ m.status.last_requested_revision
    pub delivery : m'.status.last_delivery_id ≡ m.status.last_delivery_id
    pub spec : m'.spec ≡ m.spec
    pub generation : m'.generation ≡ m.generation

  -- A finished Job of the mirror's generation: its result is recorded, the generation counts as
  -- observed, no resync is pending any more, and a follow-up is due exactly if one was.
  pub apply_completed_job_status_for_generation_lem :
      (g : ℤ)
      → (m.generation =ℤ g) ≡ true
      → let (m', due) = apply_completed_job_status_for_generation P m job g now in
        Recorded m'
        × (m'.status.observed_generation ≡ m.generation)
        × (m'.status.pending_resync ≡ false)
        × (due ≡ m.status.pending_resync)
  unfolding apply_completed_job_status_for_generation apply_completed_job_status
      record_completed_job record_result record_success record_failure take_pending set_condition
      set_condition_for_generation mirrored reported
  apply_completed_job_status_for_generation_lem g h =
      (ground arith, ground arith, ground arith, ground arith)

  -- A finished Job with no generation: its result is recorded, what is pending and what was
  -- observed stay, and no follow-up is due.
  pub apply_completed_legacy_job_status_lem :
      let (m', due) = apply_completed_legacy_job_status P m job now in
      Recorded m'
      × (m'.status.observed_generation ≡ m.status.observed_generation)
      × (m'.status.pending_resync ≡ m.status.pending_resync)
      × (due ≡ false)
  unfolding apply_completed_legacy_job_status record_completed_job record_result record_success
      record_failure set_condition_for_generation mirrored reported
  apply_completed_legacy_job_status_lem = (ground arith, ground arith, ground arith, ground arith)

-- A Job is finished exactly if it is complete or has failed, and then it is not active.
pub job_active-job_finished : (job : Job) → job_finished job ≡ true → job_active job ≡ false
unfolding job_active
job_active-job_finished job h = ground arith
