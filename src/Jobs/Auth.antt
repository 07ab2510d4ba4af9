-- ===== src/Jobs/Auth.antt =====
-- internal/jobs/builder.go: `endpointAuth`, `sshAuthRef`, `secretEnvVar`, `secretVolume`.
use git_mirror_operator.Base.{
  String, ◌<>◌, true, ◌==◌, if◌then◌else◌, Option, none, some, List, [], ◌∷◌, Result, ok, err,
  failure, quoted, ℕ,
}
use git_mirror_operator.Text.{to_lower}
use git_mirror_operator.Syncenv
use git_mirror_operator.Api.Mirror.{
  SecretKeyRef, GitEndpointSpec, GitAuthSpec, BasicAuthSpec, GitHubAppAuthSpec,
}
use git_mirror_operator.Api.Job.{EnvVar, literal, secret_key, VolumeMount, Volume, secret}
use git_mirror_operator.Platform.{Platform}

-- 0444, in decimal.
abbrev pub read_only_mode : ℕ
read_only_mode = 292

-- The three slices that `endpointAuth` returns.
pub record AuthParts : Type 0 where
  pub env : List EnvVar
  pub mounts : List VolumeMount
  pub volumes : List Volume

unfoldable pub secret_env_var : String → SecretKeyRef → EnvVar
secret_env_var name ref = record { name = name; value = secret_key ref }

unfoldable pub secret_volume : String → SecretKeyRef → Volume
secret_volume name ref = record {
  name = name;
  volume_source =
      secret ref.name read_only_mode
        (record { key = ref.key; path = ref.key; mode = read_only_mode } ∷ []);
}

abbrev legacy_ref : Option SecretKeyRef → Result SecretKeyRef
legacy_ref (some ref) = ok ref
legacy_ref none = err (failure "auth.type=ssh requires auth.ssh.privateKeyRef or sshSecretRef")

unfoldable pub ssh_auth_ref : GitEndpointSpec → Result SecretKeyRef
ssh_auth_ref endpoint = elim endpoint.auth [
  | none ↦ legacy_ref endpoint.ssh_secret_ref
  | some auth ↦ elim auth.ssh [
    | none ↦ legacy_ref endpoint.ssh_secret_ref
    | some ssh ↦ ok ssh.private_key_ref
  ]
]

abbrev spec_type : Option GitAuthSpec → String
spec_type none = ""
spec_type (some auth) = auth.auth_type

-- `authType`: the declared one, and `ssh` where only the legacy reference is given.
unfoldable pub auth_type : GitEndpointSpec → String
auth_type endpoint = elim endpoint.ssh_secret_ref [
  | none ↦ spec_type endpoint.auth
  | some _ ↦
      if spec_type endpoint.auth == "" then Syncenv.auth_type_ssh else spec_type endpoint.auth
]

abbrev pub literal_var : String → String → EnvVar
literal_var name text = record { name = name; value = literal text }

abbrev pub basic_spec : Option GitAuthSpec → Option BasicAuthSpec
basic_spec none = none
basic_spec (some auth) = auth.basic

abbrev pub github_app_spec : Option GitAuthSpec → Option GitHubAppAuthSpec
github_app_spec none = none
github_app_spec (some auth) = auth.github_app

module _ (env_prefix path_prefix : String) (declared : EnvVar) where
  unfoldable pub ssh_parts : SecretKeyRef → AuthParts
  ssh_parts ref =
      let volume_name = path_prefix <> "-ssh-key" in
      let mount_path = "/var/run/git-mirror/" <> path_prefix <> "/ssh_key" in
      record {
        env =
            declared
            ∷ literal_var (Syncenv.endpoint env_prefix Syncenv.suffix_ssh_key_path) mount_path
            ∷ [];
        mounts =
            record {
              name = volume_name;
              mount_path = mount_path;
              sub_path = ref.key;
              read_only = true;
            }
            ∷ [];
        volumes = secret_volume volume_name ref ∷ [];
      }

  unfoldable pub basic_parts : BasicAuthSpec → AuthParts
  basic_parts spec = record {
    env =
        declared
        ∷ secret_env_var (Syncenv.endpoint env_prefix Syncenv.suffix_auth_username)
            spec.username_secret_ref
        ∷ secret_env_var (Syncenv.endpoint env_prefix Syncenv.suffix_auth_password)
            spec.password_secret_ref
        ∷ [];
    mounts = [];
    volumes = [];
  }

  unfoldable pub github_app_parts : GitHubAppAuthSpec → AuthParts
  github_app_parts spec =
      let private_key_path = "/var/run/git-mirror/" <> path_prefix <> "-github-app/private_key" in
      let volume_name = path_prefix <> "-github-app-private-key" in
      record {
        env =
            declared
            ∷ secret_env_var (Syncenv.endpoint env_prefix Syncenv.suffix_github_app_id)
                spec.app_id_secret_ref
            ∷ secret_env_var (Syncenv.endpoint env_prefix Syncenv.suffix_github_app_installation_id)
                spec.installation_id_secret_ref
            ∷ literal_var (Syncenv.endpoint env_prefix Syncenv.suffix_github_app_private_key_path)
                private_key_path
            ∷ (if spec.api_url == ""
                then []
                else literal_var (Syncenv.endpoint env_prefix Syncenv.suffix_github_app_api_url)
                    spec.api_url
                  ∷ []);
        mounts =
            record {
              name = volume_name;
              mount_path = private_key_path;
              sub_path = spec.private_key_secret_ref.key;
              read_only = true;
            }
            ∷ [];
        volumes = secret_volume volume_name spec.private_key_secret_ref ∷ [];
      }

module _ (P : Platform) where
  unfoldable pub endpoint_auth : String → String → GitEndpointSpec → Result AuthParts
  endpoint_auth env_prefix path_prefix endpoint =
      let kind = auth_type endpoint in
      let label = to_lower P.fold_lower env_prefix in
      let declared = literal_var (Syncenv.endpoint env_prefix Syncenv.suffix_auth_type) kind in
      if kind == Syncenv.auth_type_ssh
      then elim (ssh_auth_ref endpoint) [
        | err e ↦ err e
        | ok ref ↦ ok (ssh_parts env_prefix path_prefix declared ref)
      ]
      else if kind == Syncenv.auth_type_basic
      then elim (basic_spec endpoint.auth) [
        | none ↦ err (failure (label <> " auth.type=basic requires auth.basic"))
        | some spec ↦ ok (basic_parts env_prefix path_prefix declared spec)
      ]
      else if kind == Syncenv.auth_type_github_app
      then elim (github_app_spec endpoint.auth) [
        | none ↦ err (failure (label <> " auth.type=githubApp requires auth.githubApp"))
        | some spec ↦ ok (github_app_parts env_prefix path_prefix declared spec)
      ]
      else if kind == ""
      then err (failure (label <> " auth is required"))
      else err (quoted ("unsupported " <> label <> " auth type ") kind)
