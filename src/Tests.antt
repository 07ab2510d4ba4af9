-- ===== src/Tests.antt =====
-- The theorems at concrete inputs.
mod Memory
mod Runs
mod Disk
mod Mirroring
mod Starting
mod Hooks
use Prim.Native.String
use mathlib.Core.Logic.{inl, inr, ◌↔◌, ◌⊎◌}
use git_mirror_operator.Base.{
  All, not, ◌&&◌, ◌==◌, eq_false→ne, ℕ, ◌≤◌, String, ◌<>◌, Bool, true, false, Option, none, some,
  List, [], ◌∷◌, Result, ok, err, Outcome, done, fail, ◌≡◌, refl, arith, final, map,
}
use git_mirror_operator.Text.{to_lower}
use git_mirror_operator.Text.Hex
use git_mirror_operator.Text.Decimal.{ℤ, pos, ◌=ℤ◌}
use git_mirror_operator.Api.Mirror.{SecretKeyRef, Key, GitMirror}
use git_mirror_operator.Api.Job.{Lease, Job, JobCondition}
use git_mirror_operator.Platform.{Platform}
use git_mirror_operator.Jobs.Names.{
  sanitize_label_value, name_for_mirror_trigger, annotations_for_mirror, labels_for_mirror,
}
use git_mirror_operator.Jobs.Names.Hashed.{IsLabelValue, IsDnsLabel}
use git_mirror_operator.Jobs.Names.Labels.{
  sanitize_label_value-IsLabelValue, sanitize_label_value_id,
}
use git_mirror_operator.Jobs.Names.Objects.{name_for_mirror_trigger-IsDnsLabel}
use git_mirror_operator.Jobs.Auth.{
  AuthParts, auth_type, ssh_auth_ref, ssh_parts, secret_volume, endpoint_auth,
}
use git_mirror_operator.Jobs.Build.{
  Options, base_env, shared_mounts, shared_volumes, pod_spec, job_image, job_mode, job_annotations,
  job_labels, sync_job, with_owner, with_credentials, build_sync_job,
}
use git_mirror_operator.Jobs.Build.Volumes.{IsMountable}
use git_mirror_operator.Jobs.Build.Mounts.{build_sync_job-IsMountable}
use git_mirror_operator.Jobs.Build.Refusals.{is_ok, is_ok-build_sync_job}
use git_mirror_operator.Jobs.Build.Recognised.{IsRecognised, build_sync_job-IsRecognised}
use git_mirror_operator.Status
use git_mirror_operator.Status.{
  job_finished, apply_completed_job_status_for_generation, apply_completed_legacy_job_status,
  apply_sync_scheduled_for_generation, apply_webhook_intent,
}
use git_mirror_operator.Status.Completion.{
  Recorded, apply_completed_job_status_for_generation_lem, apply_completed_legacy_job_status_lem,
}
use git_mirror_operator.Status.Pending.{
  Event, webhook, completed, IsConsistent, apply_events, apply_events-IsConsistent,
}
use git_mirror_operator.Status.Queue.{queue_of, ask_all, due_all, reports, apply_events-ask_all}
use git_mirror_operator.Cluster.{read_clock, patch_attempt, patch_git_mirror_status}
use git_mirror_operator.Cluster.Trace.{
  Call, job_requested, lease_written, status_patched, lease_deleted, traced,
}
use git_mirror_operator.Controller.Generation.{
  job_generation_matches, jobs_for_generation, active_job_exists,
}
use git_mirror_operator.Controller.Generation.Laws.{job_generation_matches-build_sync_job}
use git_mirror_operator.Controller.Lease
use git_mirror_operator.Controller.Lease.{
  Reconciler, sync_lease_name, lease_key, new_lease, renewed_lease, acquire_sync_lease,
  create_under_lease, create_locked, create_locked_sync_job,
}
use git_mirror_operator.Controller.Lease.Names.{sync_lease_name-IsDnsLabel}
use git_mirror_operator.Controller.Lease.Protocol.{IsGuarded}
use git_mirror_operator.Controller.Completed.{pass, complete_jobs, reconcile_completed_jobs}
use git_mirror_operator.Controller.Schedule.{
  patch_scheduled, reconcile_unobserved_generation, reconcile_pending_resync, reconcile_fallback,
  reconcile_mirror, reconcile_found, reconcile,
}
use git_mirror_operator.Controller.Protocol.{reconcile-IsGuarded}
use git_mirror_operator.Webhook.Signature.{
  extract_repository_full_name, after_prefix, equal_bytes, matches_mac, verify_signature_256,
  is_empty,
}
use git_mirror_operator.Webhook.Signature.Laws.{
  verify_signature_256_iff, verify_signature_256-encode,
}
use git_mirror_operator.Webhook.Server.{
  Request, accepted, limited, read_body, is_github, first_match, find_mirror, webhook_secret,
  record_intent, deliver, handle_push, handle_github,
}
use git_mirror_operator.Webhook.Server.Writes.{IsSigned, handle_github-IsSigned}
use git_mirror_operator.Webhook.Server.Authentic.{IsAuthentic, handle_github-IsAuthentic}
use git_mirror_operator.Runner.Config.{config_from_env}
use git_mirror_operator.Runner.Handoff.{config_from_env-build_sync_job}
use git_mirror_operator.Runner.Handoff.Variables.{Credentials, environment_of}
use git_mirror_operator.Runner.Handoff.Builder.{credentials_of, config_of}
use git_mirror_operator.Tests.Memory.{
  World, platform, platform-IsFaithful, cluster, cluster-Retries, mirror, world, key, digest,
}

abbrev reconciler : Reconciler
reconciler = record { default_sync_image = ""; has_scheme = true }

abbrev options : Options
options = record {
  default_image = "";
  has_scheme = true;
  trigger_id = "delivery-1";
  revision = "abc123";
}

-- A Job to return where a build fails.
abbrev job_or_empty : Result Job → Job
job_or_empty (ok j) = j
job_or_empty (err e) = sync_job platform mirror options "" (
    pod_spec mirror.spec "" [] (record { env = []; mounts = []; volumes = [] })
      (record { env = []; mounts = []; volumes = [] }))

abbrev kind : Call → String
kind (lease_written _) = "lease"
kind (lease_deleted _) = "delete"
kind (job_requested _) = "job"
kind (status_patched _) = "status"

-- A run with a resync that is pending: a lease, a Job, a status.
abbrev after_run : Outcome (World × List Call) ℤ
after_run = reconcile platform (traced cluster) reconciler key (world, [])

test_reconcile : map kind (final after_run).1 ≡ "status" ∷ "job" ∷ "lease" ∷ []
unfolding reconcile reconcile_found read_clock reconcile_mirror reconcile_completed_jobs
    complete_jobs jobs_for_generation reconcile_unobserved_generation reconcile_pending_resync
    active_job_exists create_locked_sync_job create_locked acquire_sync_lease create_under_lease
    new_lease sync_lease_name Lease.dns_label lease_key build_sync_job job_image job_mode
    with_credentials endpoint_auth auth_type ssh_parts ssh_auth_ref secret_volume with_owner
    sync_job job_labels job_annotations annotations_for_mirror labels_for_mirror pod_spec base_env
    shared_mounts shared_volumes name_for_mirror_trigger patch_scheduled patch_git_mirror_status
    patch_attempt apply_sync_scheduled_for_generation reconcile_fallback
test_reconcile = refl

reconcile-IsGuarded_example : IsGuarded (final after_run).1
reconcile-IsGuarded_example =
    reconcile-IsGuarded platform cluster cluster-Retries reconciler key world

sanitize_label_value-IsLabelValue_example :
    IsLabelValue (sanitize_label_value platform "team/tools!")
sanitize_label_value-IsLabelValue_example =
    sanitize_label_value-IsLabelValue platform platform-IsFaithful "team/tools!"

tools-IsLabelValue : IsLabelValue "tools-2.x"
tools-IsLabelValue = record { fits = omega arith; starts = refl; stops = refl; chars = refl }

sanitize_label_value_id_example : sanitize_label_value platform "tools-2.x" ≡ "tools-2.x"
sanitize_label_value_id_example =
    sanitize_label_value_id platform platform-IsFaithful "tools-2.x" tools-IsLabelValue

name_for_mirror_trigger-IsDnsLabel_example :
    IsDnsLabel (name_for_mirror_trigger platform mirror "delivery-1")
name_for_mirror_trigger-IsDnsLabel_example =
    name_for_mirror_trigger-IsDnsLabel platform platform-IsFaithful mirror "delivery-1"

sync_lease_name-IsDnsLabel_example : IsDnsLabel (sync_lease_name platform mirror)
sync_lease_name-IsDnsLabel_example = sync_lease_name-IsDnsLabel platform platform-IsFaithful mirror

abbrev job : Job
job = job_or_empty (build_sync_job platform (some mirror) options)

job_built : build_sync_job platform (some mirror) options ≡ ok job
unfolding build_sync_job job_image job_mode with_credentials endpoint_auth auth_type ssh_auth_ref
    with_owner
job_built = refl

build_sync_job-IsRecognised_example : IsRecognised platform mirror options job
build_sync_job-IsRecognised_example =
    build_sync_job-IsRecognised platform platform-IsFaithful mirror options job job_built

build_sync_job-IsMountable_example :
    All (IsMountable job.spec.template.spec.volumes) job.spec.template.spec.containers
build_sync_job-IsMountable_example =
    build_sync_job-IsMountable platform mirror options job job_built

-- A mirror whose target has no credentials.
abbrev incomplete : GitMirror
incomplete = record mirror {
  spec = record mirror.spec { target = record mirror.spec.target { ssh_secret_ref = none } };
}

is_ok-build_sync_job_example : is_ok (build_sync_job platform (some incomplete) options) ≡ false
unfolding job_image job_mode
is_ok-build_sync_job_example =
    is_ok-build_sync_job platform incomplete options (inr (λ j. (_, refl)))

job_generation_matches-build_sync_job_example : job_generation_matches job (pos 4) ≡ false
job_generation_matches-build_sync_job_example =
    job_generation_matches-build_sync_job platform mirror options job 3 (pos 4) refl (omega arith)
      job_built

-- The Job once the Job controller has found it complete.
abbrev finished : Job
finished = record job {
  conditions =
      record { condition_type = "Complete"; status = "True"; reason = ""; message = "" } ∷ [];
}

apply_completed_job_status_for_generation_example :
    let (m', due) =
      apply_completed_job_status_for_generation platform mirror finished (pos 3) 200 in
    Recorded platform mirror finished 200 m'
    × (m'.status.observed_generation ≡ pos 3)
    × (m'.status.pending_resync ≡ false)
    × (due ≡ true)
apply_completed_job_status_for_generation_example =
    apply_completed_job_status_for_generation_lem platform mirror finished 200 (pos 3) refl

apply_completed_legacy_job_status_example :
    let (m', due) = apply_completed_legacy_job_status platform mirror finished 200 in
    Recorded platform mirror finished 200 m'
    × (m'.status.observed_generation ≡ pos 3)
    × (m'.status.pending_resync ≡ true)
    × (due ≡ false)
apply_completed_legacy_job_status_example =
    apply_completed_legacy_job_status_lem platform mirror finished 200

abbrev events : List Event
events = webhook "delivery-2" "def456" 150 ∷ completed finished (pos 3) 200 ∷ []

apply_events-IsConsistent_example : IsConsistent (apply_events platform events mirror)
apply_events-IsConsistent_example =
    apply_events-IsConsistent platform platform-IsFaithful events mirror tt

-- The value of a Secret's key: here the names of the two.
abbrev secrets : SecretKeyRef → String
secrets ref = ref.name <> "/" <> ref.key

config_from_env-build_sync_job_example :
    (cs : Credentials) × (ct : Credentials) × (credentials_of "source" mirror.spec.source ≡ some cs)
    × (credentials_of "target" mirror.spec.target ≡ some ct)
    × (config_from_env (environment_of secrets job) ≡ config_of secrets mirror cs ct)
config_from_env-build_sync_job_example =
    config_from_env-build_sync_job platform mirror options secrets job job_built

-- The world with the lease of the repository, and with the Job under it.
abbrev leased : World
leased = record (cluster.clock world).1 {
  leases = new_lease platform mirror job.name world.time ∷ [];
}

abbrev with_job : World
with_job = record leased { jobs = job ∷ [] }

apply_events-ask_all_example :
    (queue_of (apply_events platform events mirror) ≡ ask_all (pos 3) events (queue_of mirror))
    × (reports platform events mirror ≡ due_all (pos 3) events (queue_of mirror))
apply_events-ask_all_example = apply_events-ask_all platform events mirror
