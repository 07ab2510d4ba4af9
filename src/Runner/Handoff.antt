-- ===== src/Runner/Handoff.antt =====
-- internal/jobs/builder.go and sync/main.go: the environment that the builder puts on a sync Job,
-- and the configuration that the runner reads from it.
pub mod Variables
pub mod Reads
pub mod Builder
use git_mirror_operator.Base.{
  String, ◌<>◌, Bool, true, false, not, ◌&&◌, ◌||◌, ◌==◌, if◌then◌else◌, Option, none, some, List,
  [], ◌∷◌, ◌++◌, map, Result, ok, err, ◌≡◌, ◌⊎◌, ◌∙◌, refl, ap, arith, get_text, Bool-cases,
  Option-cases, Result-cases, inl, inr, eq_iff,
}
use mathlib.Core.List.{append_assoc}
use git_mirror_operator.Syncenv
use git_mirror_operator.Api.Mirror.{
  SecretKeyRef, GitEndpointSpec, GitAuthSpec, BasicAuthSpec, GitHubAppAuthSpec, GitMirror,
  GitMirrorSpec,
}
use git_mirror_operator.Api.Job.{EnvValue, literal, secret_key, EnvVar, Container, Job}
use git_mirror_operator.Platform.{Platform}
use git_mirror_operator.Jobs.Auth.{
  AuthParts, secret_env_var, ssh_auth_ref, auth_type, literal_var, basic_spec, github_app_spec,
  ssh_parts, basic_parts, github_app_parts, endpoint_auth,
}
use git_mirror_operator.Jobs.Build.{
  Options, known_hosts_file, base_env, pod_spec, job_mode, job_image, sync_job, with_owner,
  with_credentials, build_sync_job,
}
use git_mirror_operator.Runner.Config.{
  EndpointAuth, Config, Environment, default_github_api_url, env_default, env_bool_default,
  endpoint_auth_from_env, config_from_env,
}
use git_mirror_operator.Runner.Handoff.Variables.{
  Credentials, ssh, basic, github_app, vars_with, no_url, env_vars, resolved, env_of,
  environment_of, auth_with, auth_of, Core, core_vars,
}
use git_mirror_operator.Runner.Handoff.Reads.{
  reads, text_of, core_skipped, target_read, own_read, source_read, tags_skipped, tags_absent,
  included, tags_read, known_hosts_read,
}
use git_mirror_operator.Runner.Handoff.Builder.{
  tags_of, core_of, base_env_core, credentials_of, Writes, endpoint_auth-Writes, config_of,
}

module _ (secrets : SecretKeyRef → String) (m : GitMirror) (cs ct : Credentials) where
  abbrev all_vars : List EnvVar
  all_vars = (base_env m.spec (job_mode m) ++ env_vars "SOURCE" cs) ++ env_vars "TARGET" ct

  abbrev endpoints : List EnvVar
  endpoints = env_vars "SOURCE" cs ++ env_vars "TARGET" ct

  core_first : all_vars ≡ core_vars (core_of m) ++ endpoints
  core_first =
      ap (λ base. (base ++ env_vars "SOURCE" cs) ++ env_vars "TARGET" ct) (base_env_core m)
      ∙ append_assoc (core_vars (core_of m)) (env_vars "SOURCE" cs) (env_vars "TARGET" ct)

  mode_read :
      (job_mode m ≡ "exact") ⊎ (job_mode m ≡ "additive")
      → (if job_mode m == "" then "exact" else job_mode m) ≡ job_mode m
  mode_read h = ground (arith, eq_iff (job_mode m) "", eq_iff "exact" "", eq_iff "additive" "")

  tags_wanted :
      included (tags_of m) ≡ (if job_mode m == "additive" then m.spec.mirror.include_tags else true)
  unfolding included
  tags_wanted = ground arith

  core_config :
      (job_mode m ≡ "exact") ⊎ (job_mode m ≡ "additive")
      → config_from_env (resolved secrets (core_vars (core_of m) ++ endpoints))
        ≡ config_of secrets m cs ct
  unfolding config_from_env known_hosts_file
  core_config h =
      let skipped =
        core_skipped secrets m.spec.source.url m.spec.target.url (job_mode m) (tags_of m)
          endpoints in
      λ i. record {
        source_url = m.spec.source.url;
        target_url = m.spec.target.url;
        mirror_mode = mode_read h i;
        include_tags =
            (tags_read secrets m.spec.source.url m.spec.target.url (job_mode m) (tags_of m)
                  endpoints
                  (tags_skipped secrets (no_url cs) cs (env_vars "TARGET" ct)
                    ∙ tags_absent secrets (no_url ct) ct)
                ∙ tags_wanted)
              i;
        source_auth = (skipped.0 ∙ source_read secrets (no_url cs) (no_url ct) cs ct) i;
        target_auth =
            (skipped.1
                ∙ target_read secrets (no_url cs) (no_url ct) cs ct
                ∙ own_read secrets (no_url ct) ct)
              i;
        known_hosts_path =
            known_hosts_read secrets m.spec.source.url m.spec.target.url (job_mode m) (tags_of m)
              endpoints i;
        repo_path = "";
      }

  config_read :
      (job_mode m ≡ "exact") ⊎ (job_mode m ≡ "additive")
      → config_from_env (resolved secrets all_vars) ≡ config_of secrets m cs ct
  unfolding config_from_env
  config_read h = ap (λ vars. config_from_env (resolved secrets vars)) core_first ∙ core_config h

module _ (P : Platform) (m : GitMirror) (opts : Options) where
  record IsBuilt (job : Job) : Type 0 where
    pub source : AuthParts
    pub target : AuthParts
    pub from_source : endpoint_auth P "SOURCE" "source" m.spec.source ≡ ok source
    pub from_target : endpoint_auth P "TARGET" "target" m.spec.target ≡ ok target
    pub env :
        env_of job.spec.template.spec.containers
        ≡ (base_env m.spec (job_mode m) ++ source.env) ++ target.env

  with_owner-env :
      (b : Bool) (made job : Job)
      → with_owner P m b made ≡ ok job
      → env_of job.spec.template.spec.containers ≡ env_of made.spec.template.spec.containers
  unfolding with_owner
  with_owner-env b made job h = ground arith

  with_credentials-IsBuilt :
      (job : Job) → with_credentials P m opts (job_image m opts) (job_mode m) ≡ ok job → IsBuilt job
  unfolding with_credentials sync_job pod_spec
  with_credentials-IsBuilt job h =
      elim (Result-cases (endpoint_auth P "SOURCE" "source" m.spec.source)) [
        | inl (e, failed) ↦ absurd (ground arith)
        | inr (source, made_source) ↦
            elim (Result-cases (endpoint_auth P "TARGET" "target" m.spec.target)) [
              | inl (e, failed) ↦ absurd (ground arith)
              | inr (target, made_target) ↦ record {
                source = source;
                target = target;
                from_source = made_source;
                from_target = made_target;
                env =
                    with_owner-env opts.has_scheme
                      (sync_job P m opts (job_image m opts) (
                        pod_spec m.spec (job_image m opts)
                          ((base_env m.spec (job_mode m) ++ source.env) ++ target.env) source
                          target))
                      job (ground arith);
              }
            ]
      ]

  parts_written :
      {job : Job} (b : IsBuilt job) (ws : Writes P "SOURCE" "source" m.spec.source b.source)
      (wt : Writes P "TARGET" "target" m.spec.target b.target)
      → (base_env m.spec (job_mode m) ++ b.source.env) ++ b.target.env
        ≡ (base_env m.spec (job_mode m) ++ env_vars "SOURCE" ws.credentials)
          ++ env_vars "TARGET" wt.credentials
  parts_written b ws wt = λ i. (base_env m.spec (job_mode m) ++ ws.written i) ++ wt.written i

  build_sync_job-mode :
      (job : Job)
      → build_sync_job P (some m) opts ≡ ok job
      → with_credentials P m opts (job_image m opts) (job_mode m) ≡ ok job
        × ((job_mode m ≡ "exact") ⊎ (job_mode m ≡ "additive"))
  unfolding build_sync_job
  build_sync_job-mode job h =
      ground (arith, eq_iff (job_mode m) "exact", eq_iff (job_mode m) "additive")

  -- A sync Job that the builder returns names, for each endpoint, the credentials that the
  -- endpoint's specification gives, and a runner that reads the Job's environment, its literals as
  -- they are and with the values of the Secrets' keys, gets the configuration that the mirror asks
  -- for: its URLs and mode, whether tags are pushed (always, but for what an additive mirror
  -- says), the path of the known hosts, and the credentials of the two endpoints.
  pub config_from_env-build_sync_job :
      (secrets : SecretKeyRef → String) (job : Job)
      → build_sync_job P (some m) opts ≡ ok job
      → (cs : Credentials) × (ct : Credentials) × (credentials_of "source" m.spec.source ≡ some cs)
        × (credentials_of "target" m.spec.target ≡ some ct)
        × (config_from_env (environment_of secrets job) ≡ config_of secrets m cs ct)
  config_from_env-build_sync_job secrets job h =
      let (made, mode) = build_sync_job-mode job h in
      let b = with_credentials-IsBuilt job made in
      let ws = endpoint_auth-Writes P "SOURCE" "source" m.spec.source b.source b.from_source in
      let wt = endpoint_auth-Writes P "TARGET" "target" m.spec.target b.target b.from_target in
      (
        ws.credentials,
        wt.credentials,
        ws.named,
        wt.named,
        ap (λ vars. config_from_env (resolved secrets vars)) (b.env ∙ parts_written b ws wt)
            ∙ config_read secrets m ws.credentials wt.credentials mode,
      )
