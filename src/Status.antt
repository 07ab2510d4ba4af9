-- ===== src/Status.antt =====
-- internal/controller/status.go: what a webhook, a scheduled Job and a finished Job write into the
-- status of a `GitMirror`. A function that mutates the resource returns the new one.
pub mod Completion
pub mod Pending
pub mod Queue
use git_mirror_operator.Base.{
  String, ◌<>◌, Bool, true, false, not, ◌&&◌, ◌||◌, ◌==◌, if◌then◌else◌, Option, none, some, List,
  [], ◌∷◌, get_text,
}
use git_mirror_operator.Text.Decimal.{ℤ, ◌=ℤ◌}
use git_mirror_operator.Api.Mirror.{Time, Condition, GitMirror, GitMirrorStatus}
use git_mirror_operator.Api.Job.{Job, JobCondition}
use git_mirror_operator.Platform.{Platform}
use git_mirror_operator.Jobs.Names.{annotation_revision}

abbrev is_complete_condition : JobCondition → Bool
is_complete_condition c = c.condition_type == "Complete" && c.status == "True"

abbrev is_failed_condition : JobCondition → Bool
is_failed_condition c = c.condition_type == "Failed" && c.status == "True"

unfoldable pub any_complete : List JobCondition → Bool
any_complete [] = false
any_complete (c ∷ cs) = is_complete_condition c || any_complete cs

unfoldable pub is_job_complete : Job → Bool
is_job_complete job = any_complete job.conditions

-- The reason and the message that are there, joined by ": ".
abbrev failure_text : String → JobCondition → String
failure_text name c =
    if c.reason == ""
    then if c.message == "" then "job " <> name <> " failed" else c.message
    else if c.message == ""
    then c.reason
    else c.reason <> ": " <> c.message

unfoldable pub first_failure : String → List JobCondition → Option String
first_failure name [] = none
first_failure name (c ∷ cs) =
    if is_failed_condition c then some (failure_text name c) else first_failure name cs

-- `(true, reason)` is `some reason`.
unfoldable pub is_job_failed : Job → Option String
is_job_failed job = first_failure job.name job.conditions

abbrev pub is_some {ℓ} : {A : Type ℓ} → Option A → Bool
is_some none = false
is_some (some a) = true

unfoldable pub job_finished : Job → Bool
job_finished job = is_job_complete job || is_some (is_job_failed job)

unfoldable pub job_active : Job → Bool
job_active job = not (job_finished job) && not (is_some job.deletion_timestamp)

module _ (P : Platform) where
  unfoldable pub set_condition_for_generation :
      GitMirror → String → ℤ → String → String → String → GitMirror
  set_condition_for_generation m condition_type generation status reason message = record m {
    status = record m.status {
      conditions = P.set_status_condition m.status.conditions (record {
        condition_type = condition_type;
        status = status;
        observed_generation = generation;
        reason = reason;
        message = message;
      });
    };
  }

  unfoldable pub set_condition : GitMirror → String → String → String → String → GitMirror
  set_condition m condition_type status reason message =
      set_condition_for_generation m condition_type m.generation status reason message

  unfoldable pub apply_webhook_state : GitMirror → String → Time → Bool → GitMirror × Bool
  apply_webhook_state m delivery_id now active =
      let s = record m.status { last_webhook_at = some now; last_delivery_id = delivery_id } in
      if active
      then (
        set_condition (record m { status = record s { pending_resync = true } }) "SyncPending"
            "True" "ActiveJobExists" "Webhook coalesced while a sync job is active",
        false,
      )
      else (
        set_condition
            (record m {
              status = record s { last_triggered_at = some now; pending_resync = false };
            })
            "SyncPending" "False" "JobScheduled" "Sync job scheduled",
        true,
      )

  unfoldable pub apply_webhook_intent : GitMirror → String → String → Time → GitMirror
  apply_webhook_intent m delivery_id revision now =
      set_condition
        (record m {
          status = record m.status {
            last_webhook_at = some now;
            last_delivery_id = delivery_id;
            last_requested_revision =
                if revision == "" then m.status.last_requested_revision else revision;
            pending_resync = true;
          };
        })
        "SyncPending" "True" "WebhookReceived"
        "Webhook recorded and waiting for the reconciler to schedule a sync job"

  unfoldable pub apply_sync_scheduled : GitMirror → String → Time → GitMirror
  apply_sync_scheduled m job_name now =
      set_condition
        (record m {
          status = record m.status {
            observed_generation = m.generation;
            last_triggered_at = some now;
            last_job_name = job_name;
            pending_resync = false;
          };
        })
        "SyncPending" "False" "JobScheduled" "Sync job scheduled"

  unfoldable pub apply_sync_scheduled_for_generation :
      GitMirror → String → ℤ → Time → GitMirror × Bool
  apply_sync_scheduled_for_generation m job_name generation now =
      if m.generation =ℤ generation then (apply_sync_scheduled m job_name now, true) else (m, false)

  -- The success branch and the failure branch of `applyCompletedJobStatus`.
  unfoldable pub record_success : GitMirror → Job → Time → ℤ → GitMirror
  record_success m job now generation =
      let revision = get_text annotation_revision job.annotations in
      set_condition_for_generation
        (record m {
          status = record m.status {
            last_success_at = some now;
            last_error = "";
            last_mirrored_revision =
                if revision == "" then m.status.last_mirrored_revision else revision;
          };
        })
        "Ready" generation "True" "SyncSucceeded" "Last sync job completed successfully"

  unfoldable pub record_failure : GitMirror → String → Time → ℤ → GitMirror
  record_failure m reason now generation =
      set_condition_for_generation
        (record m { status = record m.status { last_failure_at = some now; last_error = reason } })
        "Ready" generation "False" "SyncFailed" reason

  unfoldable pub record_result : GitMirror → Job → Time → ℤ → GitMirror
  record_result m job now generation =
      if is_job_complete job
      then record_success m job now generation
      else elim (is_job_failed job) [
        | none ↦ m
        | some reason ↦ record_failure m reason now generation
      ]

  unfoldable pub take_pending : GitMirror → Time → GitMirror × Bool
  take_pending m now =
      if m.status.pending_resync
      then (
        set_condition
            (record m {
              status = record m.status { pending_resync = false; last_triggered_at = some now };
            })
            "SyncPending" "False" "FollowupScheduled"
            "Follow-up sync requested for coalesced webhook",
        true,
      )
      else (m, false)

  -- The unexported `applyCompletedJobStatus`; the flag tells whether a follow-up is due.
  unfoldable pub record_completed_job : GitMirror → Job → Time → Bool → ℤ → GitMirror × Bool
  record_completed_job m job now update_pending generation =
      let named = record m {
        status = record m.status { last_job_name = job.name; last_completed_job_name = job.name };
      } in
      let recorded = record_result named job now generation in
      if update_pending then take_pending recorded now else (recorded, false)

  unfoldable pub apply_completed_job_status : GitMirror → Job → Time → GitMirror × Bool
  apply_completed_job_status m job now =
      record_completed_job
        (record m { status = record m.status { observed_generation = m.generation } }) job now true
        m.generation

  unfoldable pub apply_completed_job_status_for_generation :
      GitMirror → Job → ℤ → Time → GitMirror × Bool
  apply_completed_job_status_for_generation m job generation now =
      if m.generation =ℤ generation then apply_completed_job_status m job now else (m, false)

  unfoldable pub apply_completed_legacy_job_status : GitMirror → Job → Time → GitMirror × Bool
  apply_completed_legacy_job_status m job now =
      record_completed_job m job now false m.status.observed_generation
