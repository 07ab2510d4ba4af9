-- ===== src/Jobs/Build.antt =====
-- internal/jobs/builder.go: `BuildSyncJob`.
pub mod Laws
pub mod Recognised
pub mod Refusals
pub mod Volumes
pub mod Pairs
pub mod Mounts
use git_mirror_operator.Base.{
  ℕ, String, ◌<>◌, Bool, true, false, ◌||◌, ◌==◌, if◌then◌else◌, Option, none, some, List, [], ◌∷◌,
  ◌++◌, Result, ok, err, failure, quoted, insert,
}
use git_mirror_operator.Text.Decimal.{ℤ, pos, format_int}
use git_mirror_operator.Syncenv
use git_mirror_operator.Api.Mirror.{
  GitMirror, GitMirrorSpec, JobSpec, MirrorSpec, ResourceRequirements,
}
use git_mirror_operator.Api.Job.{
  EnvVar, VolumeMount, Volume, config_map, empty_dir, PodSpec, BatchSpec, Job,
}
use git_mirror_operator.Platform.{Platform}
use git_mirror_operator.Jobs.Names.{
  annotation_generation, annotation_revision, label_delivery_id, sanitize_label_value, dns_label,
  name_for_mirror_trigger, labels_for_mirror, annotations_for_mirror,
}
use git_mirror_operator.Jobs.Auth.{AuthParts, endpoint_auth, literal_var, read_only_mode}

abbrev default_known_hosts_cm : String
default_known_hosts_cm = "git-mirror-known-hosts"

pub record Options : Type 0 where
  pub default_image : String
  -- `Scheme` is not nil
  pub has_scheme : Bool
  pub trigger_id : String
  pub revision : String

abbrev or_else : String → String → String
or_else s d = if s == "" then d else s

abbrev int_or : Option ℤ → ℤ → ℤ
int_or none d = d
int_or (some v) d = v

abbrev default_resources : ResourceRequirements
default_resources = record {
  requests = some (("cpu", "50m") ∷ ("memory", "64Mi") ∷ []);
  limits = some (("cpu", "500m") ∷ ("memory", "512Mi") ∷ []);
}

abbrev resources_or_default : ResourceRequirements → ResourceRequirements
resources_or_default r = elim r.requests [
  | some _ ↦ r
  | none ↦ elim r.limits [ some _ ↦ r | none ↦ default_resources ]
]

abbrev format_bool : Bool → String
format_bool true = "true"
format_bool false = "false"

unfoldable pub known_hosts_file : String
known_hosts_file = "/var/run/git-mirror/known-hosts/known_hosts"

-- The environment up to the credentials.
unfoldable pub base_env : GitMirrorSpec → String → List EnvVar
base_env spec mode =
    literal_var Syncenv.source_url spec.source.url
    ∷ literal_var Syncenv.target_url spec.target.url
    ∷ literal_var Syncenv.mirror_mode mode
    ∷ ((if mode == "additive"
          then literal_var Syncenv.include_tags (format_bool spec.mirror.include_tags) ∷ []
          else [])
        ++ (literal_var Syncenv.known_hosts_path known_hosts_file
            ∷ literal_var Syncenv.home "/tmp"
            ∷ []))

unfoldable pub shared_mounts : List VolumeMount
shared_mounts =
    record {
      name = "known-hosts";
      mount_path = known_hosts_file;
      sub_path = "known_hosts";
      read_only = true;
    }
    ∷ record { name = "tmp"; mount_path = "/tmp"; sub_path = ""; read_only = false }
    ∷ []

unfoldable pub shared_volumes : JobSpec → List Volume
shared_volumes spec =
    record {
      name = "known-hosts";
      volume_source =
          config_map (or_else spec.known_hosts_config_map_name default_known_hosts_cm)
            (record {
              key = or_else spec.known_hosts_config_map_key "known_hosts";
              path = "known_hosts";
              mode = read_only_mode;
            }
              ∷ [])
            true;
    }
    ∷ record { name = "tmp"; volume_source = empty_dir }
    ∷ []

unfoldable pub pod_spec : GitMirrorSpec → String → List EnvVar → AuthParts → AuthParts → PodSpec
pod_spec spec image env source target = record {
  service_account_name = or_else spec.job.service_account_name "git-mirror-sync";
  restart_policy = "Never";
  run_as_non_root = true;
  run_as_user = pos 65532;
  seccomp_profile = "RuntimeDefault";
  containers =
      record {
        name = "sync";
        image = image;
        image_pull_policy = "IfNotPresent";
        env = env;
        resources = resources_or_default spec.job.resources;
        security_context = record {
          allow_privilege_escalation = false;
          read_only_root_filesystem = true;
          capabilities_drop = "ALL" ∷ [];
        };
        volume_mounts = (source.mounts ++ target.mounts) ++ shared_mounts;
      }
      ∷ [];
  volumes = (source.volumes ++ target.volumes) ++ shared_volumes spec.job;
}

unfoldable pub job_image : GitMirror → Options → String
job_image mirror opts = or_else mirror.spec.job.image opts.default_image

unfoldable pub job_mode : GitMirror → String
job_mode mirror = or_else mirror.spec.mirror.mode "exact"

unfoldable pub job_annotations : GitMirror → String → List (String × String)
job_annotations mirror revision =
    let marked =
      insert annotation_generation (format_int mirror.generation) (annotations_for_mirror mirror) in
    if revision == "" then marked else insert annotation_revision revision marked

module _ (P : Platform) where
  unfoldable pub job_labels : GitMirror → String → List (String × String)
  job_labels mirror trigger_id =
      if trigger_id == ""
      then labels_for_mirror P mirror
      else insert label_delivery_id (sanitize_label_value P trigger_id) (labels_for_mirror P mirror)

  -- The Job before an owner is set.
  unfoldable pub sync_job : GitMirror → Options → String → PodSpec → Job
  sync_job mirror opts image pod = record {
    name = if opts.trigger_id == "" then "" else name_for_mirror_trigger P mirror opts.trigger_id;
    generate_name =
        if opts.trigger_id == "" then dns_label P ("gitmirror-" <> mirror.name <> "-") else "";
    namespace = mirror.namespace;
    labels = job_labels mirror opts.trigger_id;
    annotations = job_annotations mirror opts.revision;
    owner_references = [];
    deletion_timestamp = none;
    spec = record {
      backoff_limit = int_or mirror.spec.job.backoff_limit (pos 1);
      ttl_seconds_after_finished = int_or mirror.spec.job.ttl_seconds_after_finished (pos 3600);
      active_deadline_seconds = mirror.spec.job.active_deadline_seconds;
      template = record { labels = job_labels mirror opts.trigger_id; spec = pod };
    };
    conditions = [];
  }

  unfoldable pub with_owner : GitMirror → Bool → Job → Result Job
  with_owner mirror false job = ok job
  with_owner mirror true job = elim (P.controller_reference mirror job) [
    | err e ↦ err e
    | ok owners ↦ ok (record job { owner_references = owners })
  ]

  -- The part after the checks of the image and of the mode.
  unfoldable pub with_credentials : GitMirror → Options → String → String → Result Job
  with_credentials mirror opts image mode =
      elim (endpoint_auth P Syncenv.source_prefix "source" mirror.spec.source) [
        | err e ↦ err e
        | ok source ↦ elim (endpoint_auth P Syncenv.target_prefix "target" mirror.spec.target) [
          | err e ↦ err e
          | ok target ↦ with_owner mirror opts.has_scheme (
              sync_job mirror opts image (
                pod_spec mirror.spec image ((base_env mirror.spec mode ++ source.env) ++ target.env)
                  source target))
        ]
      ]

  unfoldable pub build_sync_job : Option GitMirror → Options → Result Job
  build_sync_job none opts = err (failure "mirror is required")
  build_sync_job (some mirror) opts =
      let image = job_image mirror opts in
      let mode = job_mode mirror in
      if image == ""
      then err (failure "sync job image is required")
      else if mode == "exact" || mode == "additive"
      then with_credentials mirror opts image mode
      else err (quoted "unsupported mirror mode " mode)
