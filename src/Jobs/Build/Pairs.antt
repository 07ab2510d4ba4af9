-- ===== src/Jobs/Build/Pairs.antt =====
-- internal/jobs/builder.go: what `endpointAuth` returns for the source and for the target, together.
use git_mirror_operator.Base.{String, true, List, ◌++◌, map, ◌≡◌, arith, eq_refl}
use git_mirror_operator.Syncenv
use git_mirror_operator.Api.Mirror.{SecretKeyRef, BasicAuthSpec, GitHubAppAuthSpec, GitMirrorSpec}
use git_mirror_operator.Api.Job.{VolumeMount, Volume}
use git_mirror_operator.Jobs.Auth.{
  AuthParts, secret_env_var, secret_volume, literal_var, ssh_parts, basic_parts, github_app_parts,
}
use git_mirror_operator.Jobs.Build.{known_hosts_file, base_env, shared_mounts, shared_volumes}
use git_mirror_operator.Jobs.Build.Volumes.{all, distinct, backed, supplied}

-- What `endpointAuth` found in the specification of an endpoint.
pub data Given : Type 0 where
  ssh : SecretKeyRef → Given
  basic : BasicAuthSpec → Given
  github_app : GitHubAppAuthSpec → Given

unfoldable pub parts_of : (prefix path kind : String) → Given → AuthParts
parts_of prefix path kind (ssh ref) =
    ssh_parts prefix path (literal_var (Syncenv.endpoint prefix Syncenv.suffix_auth_type) kind) ref
parts_of prefix path kind (basic spec) =
    basic_parts prefix path (literal_var (Syncenv.endpoint prefix Syncenv.suffix_auth_type) kind)
      spec
parts_of prefix path kind (github_app spec) =
    github_app_parts prefix path
      (literal_var (Syncenv.endpoint prefix Syncenv.suffix_auth_type) kind) spec

module _ (spec : GitMirrorSpec) (ks kt : String) where
  abbrev pub source : Given → AuthParts
  source = parts_of "SOURCE" "source" ks

  abbrev pub target : Given → AuthParts
  target = parts_of "TARGET" "target" kt

  abbrev pub volumes : Given → Given → List Volume
  volumes s t = ((source s).volumes ++ (target t).volumes) ++ shared_volumes spec.job

  abbrev pub mounts : Given → Given → List VolumeMount
  mounts s t = ((source s).mounts ++ (target t).mounts) ++ shared_mounts

  pub volumes-distinct :
      (s t : Given) → distinct (map (λ (v : Volume). v.name) (volumes s t)) ≡ true
  unfolding parts_of ssh_parts basic_parts github_app_parts shared_volumes secret_volume
  volumes-distinct s t = ground arith

  pub mounts-distinct :
      (s t : Given) → distinct (map (λ (v : VolumeMount). v.mount_path) (mounts s t)) ≡ true
  unfolding parts_of ssh_parts basic_parts github_app_parts shared_mounts known_hosts_file
  mounts-distinct s t = ground arith

  pub mounts-backed : (s t : Given) → all (backed (volumes s t)) (mounts s t) ≡ true
  unfolding parts_of ssh_parts basic_parts github_app_parts shared_volumes secret_volume
      shared_mounts
  mounts-backed s t = grind (arith, eq_refl)

  pub source-supplied : (s t : Given) → all (supplied (mounts s t)) (source s).env ≡ true
  unfolding parts_of ssh_parts basic_parts github_app_parts shared_mounts secret_env_var
  source-supplied s t = ground arith

  pub target-supplied : (s t : Given) → all (supplied (mounts s t)) (target t).env ≡ true
  unfolding parts_of ssh_parts basic_parts github_app_parts shared_mounts secret_env_var
  target-supplied s t = ground arith

  pub base-supplied :
      (mode : String) (s t : Given) → all (supplied (mounts s t)) (base_env spec mode) ≡ true
  unfolding base_env parts_of ssh_parts basic_parts github_app_parts shared_mounts known_hosts_file
  base-supplied mode s t = ground arith
