-- ===== src/Api/Mirror.antt =====
-- api/v1alpha1/gitmirror_types.go: the `GitMirror` resource.
use git_mirror_operator.Base.{ℕ, String, Bool, Option, List}
use git_mirror_operator.Text.Decimal.{ℤ}

-- An instant, in nanoseconds since the zero `time.Time`.
abbrev pub Time : Type 0
Time = ℕ

pub record SecretKeyRef : Type 0 where
  pub name : String
  pub key : String

pub record SshAuthSpec : Type 0 where
  pub private_key_ref : SecretKeyRef

pub record BasicAuthSpec : Type 0 where
  pub username_secret_ref : SecretKeyRef
  pub password_secret_ref : SecretKeyRef

pub record GitHubAppAuthSpec : Type 0 where
  pub app_id_secret_ref : SecretKeyRef
  pub installation_id_secret_ref : SecretKeyRef
  pub private_key_secret_ref : SecretKeyRef
  pub api_url : String

pub record GitAuthSpec : Type 0 where
  pub auth_type : String
  pub ssh : Option SshAuthSpec
  pub basic : Option BasicAuthSpec
  pub github_app : Option GitHubAppAuthSpec

pub record GitEndpointSpec : Type 0 where
  pub url : String
  pub ssh_secret_ref : Option SecretKeyRef
  pub auth : Option GitAuthSpec

pub record GitHubSpec : Type 0 where
  pub owner : String
  pub repo : String
  pub webhook_secret_ref : SecretKeyRef

pub record MirrorSpec : Type 0 where
  pub mode : String
  pub include_tags : Bool

pub record FallbackSpec : Type 0 where
  pub schedule : String

-- `corev1.ResourceRequirements`: quantities by name, as they are written. `none` is a nil map.
pub record ResourceRequirements : Type 0 where
  pub requests : Option (List (String × String))
  pub limits : Option (List (String × String))

pub record JobSpec : Type 0 where
  pub image : String
  pub backoff_limit : Option ℤ
  pub active_deadline_seconds : Option ℤ
  pub ttl_seconds_after_finished : Option ℤ
  pub resources : ResourceRequirements
  pub known_hosts_config_map_name : String
  pub known_hosts_config_map_key : String
  pub service_account_name : String

pub record GitMirrorSpec : Type 0 where
  pub provider : String
  pub github : GitHubSpec
  pub source : GitEndpointSpec
  pub target : GitEndpointSpec
  pub mirror : MirrorSpec
  pub fallback : FallbackSpec
  pub job : JobSpec

-- `metav1.Condition`, less its transition time, which `meta.SetStatusCondition` sets.
pub record Condition : Type 0 where
  pub condition_type : String
  pub status : String
  pub observed_generation : ℤ
  pub reason : String
  pub message : String

pub record GitMirrorStatus : Type 0 where
  pub observed_generation : ℤ
  pub last_webhook_at : Option Time
  pub last_delivery_id : String
  pub last_triggered_at : Option Time
  pub last_job_name : String
  pub last_completed_job_name : String
  pub last_success_at : Option Time
  pub last_failure_at : Option Time
  pub last_error : String
  pub last_requested_revision : String
  pub last_mirrored_revision : String
  pub pending_resync : Bool
  pub conditions : List Condition

-- `metav1.ObjectMeta` holds the name, the namespace and the generation.
pub record GitMirror : Type 0 where
  pub name : String
  pub namespace : String
  pub generation : ℤ
  pub spec : GitMirrorSpec
  pub status : GitMirrorStatus

-- `types.NamespacedName`
pub record Key : Type 0 where
  pub namespace : String
  pub name : String
