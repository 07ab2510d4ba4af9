-- ===== src/Api/Job.antt =====
-- The fields of `batchv1.Job` and `coordinationv1.Lease` that the operator writes or reads.
use git_mirror_operator.Base.{ℕ, String, Bool, Option, List}
use git_mirror_operator.Text.Decimal.{ℤ}
use git_mirror_operator.Api.Mirror.{SecretKeyRef, ResourceRequirements, Time}

-- `corev1.EnvVar`: a text, or a key of a Secret.
pub data EnvValue : Type 0 where
  literal : String → EnvValue
  secret_key : SecretKeyRef → EnvValue

pub record EnvVar : Type 0 where
  pub name : String
  pub value : EnvValue

pub record VolumeMount : Type 0 where
  pub name : String
  pub mount_path : String
  pub sub_path : String
  pub read_only : Bool

-- `corev1.KeyToPath`
pub record KeyToPath : Type 0 where
  pub key : String
  pub path : String
  pub mode : ℕ

pub data VolumeSource : Type 0 where
  secret : (secret_name : String) → (default_mode : ℕ) → (items : List KeyToPath) → VolumeSource
  config_map : (name : String) → (items : List KeyToPath) → (optional : Bool) → VolumeSource
  empty_dir : VolumeSource

pub record Volume : Type 0 where
  pub name : String
  pub volume_source : VolumeSource

pub record SecurityContext : Type 0 where
  pub allow_privilege_escalation : Bool
  pub read_only_root_filesystem : Bool
  pub capabilities_drop : List String

pub record Container : Type 0 where
  pub name : String
  pub image : String
  pub image_pull_policy : String
  pub env : List EnvVar
  pub resources : ResourceRequirements
  pub security_context : SecurityContext
  pub volume_mounts : List VolumeMount

-- `corev1.PodSpec` with its `PodSecurityContext`.
pub record PodSpec : Type 0 where
  pub service_account_name : String
  pub restart_policy : String
  pub run_as_non_root : Bool
  pub run_as_user : ℤ
  pub seccomp_profile : String
  pub containers : List Container
  pub volumes : List Volume

pub record PodTemplateSpec : Type 0 where
  pub labels : List (String × String)
  pub spec : PodSpec

-- `batchv1.JobSpec`
pub record BatchSpec : Type 0 where
  pub backoff_limit : ℤ
  pub ttl_seconds_after_finished : ℤ
  pub active_deadline_seconds : Option ℤ
  pub template : PodTemplateSpec

-- `batchv1.JobCondition`
pub record JobCondition : Type 0 where
  pub condition_type : String
  pub status : String
  pub reason : String
  pub message : String

-- `metav1.OwnerReference`
pub record OwnerReference : Type 0 where
  pub kind : String
  pub name : String
  pub controller : Bool

pub record Job : Type 0 where
  pub name : String
  pub generate_name : String
  pub namespace : String
  pub labels : List (String × String)
  pub annotations : List (String × String)
  pub owner_references : List OwnerReference
  pub deletion_timestamp : Option Time
  pub spec : BatchSpec
  pub conditions : List JobCondition

-- `coordinationv1.Lease`. The resource version is the API server's, compared on an update.
pub record Lease : Type 0 where
  pub name : String
  pub namespace : String
  pub labels : List (String × String)
  pub resource_version : String
  pub holder_identity : Option String
  pub acquire_time : Option Time
  pub renew_time : Option Time
