-- ===== src/Runner/Handoff/Builder.antt =====
-- internal/jobs/builder.go: the variables that `BuildSyncJob` and `endpointAuth` write.
use git_mirror_operator.Base.{
  String, ◌<>◌, Bool, true, ◌==◌, if◌then◌else◌, Option, none, some, Result, ok, err, ◌≡◌, arith,
  Option-cases, inl, inr, eq_iff,
}
use git_mirror_operator.Syncenv
use git_mirror_operator.Api.Mirror.{
  SecretKeyRef, GitEndpointSpec, BasicAuthSpec, GitHubAppAuthSpec, GitMirror,
}
use git_mirror_operator.Api.Job.{EnvVar}
use git_mirror_operator.Platform.{Platform}
use git_mirror_operator.Jobs.Auth.{
  AuthParts, secret_env_var, ssh_auth_ref, auth_type, literal_var, basic_spec, github_app_spec,
  ssh_parts, basic_parts, github_app_parts, endpoint_auth,
}
use git_mirror_operator.Jobs.Build.{known_hosts_file, base_env, job_mode}
use git_mirror_operator.Runner.Config.{Config}
use git_mirror_operator.Runner.Handoff.Variables.{
  Credentials, ssh, basic, github_app, env_vars, auth_of, Core, core_vars,
}

-- The optional variable that the builder writes.
abbrev pub tags_of : GitMirror → Option Bool
tags_of m = if job_mode m == "additive" then some m.spec.mirror.include_tags else none

abbrev pub core_of : GitMirror → Core
core_of m = (m.spec.source.url, m.spec.target.url, job_mode m, tags_of m)

pub base_env_core : (m : GitMirror) → base_env m.spec (job_mode m) ≡ core_vars (core_of m)
unfolding base_env known_hosts_file
base_env_core m = ground arith

abbrev declared : String → GitEndpointSpec → EnvVar
declared prefix spec =
    literal_var (Syncenv.endpoint prefix Syncenv.suffix_auth_type) (auth_type spec)

abbrev ssh_credentials : String → Result SecretKeyRef → Option Credentials
ssh_credentials path (err e) = none
ssh_credentials path (ok ref) = some (ssh ("/var/run/git-mirror/" <> path <> "/ssh_key"))

abbrev basic_credentials : Option BasicAuthSpec → Option Credentials
basic_credentials none = none
basic_credentials (some spec) = some (basic spec.username_secret_ref spec.password_secret_ref)

abbrev app_credentials : String → Option GitHubAppAuthSpec → Option Credentials
app_credentials path none = none
app_credentials path (some spec) = some (
    github_app spec.app_id_secret_ref spec.installation_id_secret_ref
      ("/var/run/git-mirror/" <> path <> "-github-app/private_key") spec.api_url)

-- The credentials that an endpoint's specification names, if they are complete. The text is the
-- part of the paths that is the endpoint's own.
unfoldable pub credentials_of : String → GitEndpointSpec → Option Credentials
credentials_of path spec =
    if auth_type spec == "ssh"
    then ssh_credentials path (ssh_auth_ref spec)
    else if auth_type spec == "basic"
    then basic_credentials (basic_spec spec.auth)
    else if auth_type spec == "githubApp"
    then app_credentials path (github_app_spec spec.auth)
    else none

module _ (P : Platform) (prefix path : String) (spec : GitEndpointSpec) where
  -- The builder accepts an endpoint exactly with credentials, and writes theirs.
  pub record Writes (parts : AuthParts) : Type 0 where
    pub credentials : Credentials
    pub named : credentials_of path spec ≡ some credentials
    pub written : parts.env ≡ env_vars prefix credentials

  pub endpoint_auth-Writes :
      (parts : AuthParts) → endpoint_auth P prefix path spec ≡ ok parts → Writes parts
  unfolding endpoint_auth credentials_of ssh_parts basic_parts github_app_parts secret_env_var
  endpoint_auth-Writes parts h = elim (Option-cases (credentials_of path spec)) [
    | inl e ↦
        absurd (ground (arith, eq_iff (auth_type spec) "ssh", eq_iff (auth_type spec) "basic"))
    | inr (c, e) ↦ record {
      credentials = c;
      named = e;
      written = ground (
        arith,
        eq_iff (auth_type spec) "ssh",
        eq_iff (auth_type spec) "basic",
        eq_iff (auth_type spec) "githubApp",
      );
    }
  ]

-- The configuration that a mirror asks for.
abbrev pub config_of : (SecretKeyRef → String) → GitMirror → Credentials → Credentials → Config
config_of secrets m source target = record {
  source_url = m.spec.source.url;
  target_url = m.spec.target.url;
  mirror_mode = job_mode m;
  include_tags = if job_mode m == "additive" then m.spec.mirror.include_tags else true;
  source_auth = auth_of secrets source;
  target_auth = auth_of secrets target;
  known_hosts_path = known_hosts_file;
  repo_path = "";
}
