-- ===== src/Runner/Handoff/Reads.antt =====
-- sync/main.go: what `ConfigFromEnv` reads of the variables of a Job.
use git_mirror_operator.Base.{
  String, Bool, true, false, Option, none, some, List, ◌++◌, ◌≡◌, refl, get_text,
}
use git_mirror_operator.Api.Mirror.{SecretKeyRef}
use git_mirror_operator.Api.Job.{EnvVar}
use git_mirror_operator.Runner.Config.{EndpointAuth, env_bool_default, endpoint_auth_from_env}
use git_mirror_operator.Runner.Handoff.Variables.{
  Credentials, ssh, basic, github_app, vars_with, resolved, auth_with, core_vars,
}

-- What the runner makes of the optional variable of the tags.
unfoldable pub included : Option Bool → Bool
included none = true
included (some tags) = tags

module _ (secrets : SecretKeyRef → String) where
  abbrev pub reads : List EnvVar → String → EndpointAuth
  reads vars prefix = endpoint_auth_from_env (resolved secrets vars) prefix

  -- The core has none of the endpoints' variables.
  pub core_skipped :
      (source target mode : String) (tags : Option Bool) (vars : List EnvVar)
      → (reads (core_vars (source, target, mode, tags) ++ vars) "SOURCE" ≡ reads vars "SOURCE")
        × (reads (core_vars (source, target, mode, tags) ++ vars) "TARGET" ≡ reads vars "TARGET")
  unfolding endpoint_auth_from_env
  core_skipped source target mode none vars = (refl, refl)
  core_skipped source target mode (some included) vars = (refl, refl)

  pub target_read :
      (bs bt : Bool) (cs ct : Credentials)
      → reads (vars_with bs "SOURCE" cs ++ vars_with bt "TARGET" ct) "TARGET"
        ≡ reads (vars_with bt "TARGET" ct) "TARGET"
  unfolding endpoint_auth_from_env
  target_read _ bt (ssh _) ct = refl
  target_read _ bt (basic _ _) ct = refl
  target_read true bt (github_app _ _ _ _) ct = refl
  target_read false bt (github_app _ _ _ _) ct = refl

  pub own_read :
      (b : Bool) (c : Credentials) → reads (vars_with b "TARGET" c) "TARGET" ≡ auth_with b secrets c
  unfolding endpoint_auth_from_env
  own_read _ (ssh _) = refl
  own_read _ (basic _ _) = refl
  own_read true (github_app _ _ _ _) = refl
  own_read false (github_app _ _ _ _) = refl

  pub source_read :
      (bs bt : Bool) (cs ct : Credentials)
      → reads (vars_with bs "SOURCE" cs ++ vars_with bt "TARGET" ct) "SOURCE"
        ≡ auth_with bs secrets cs
  unfolding endpoint_auth_from_env
  source_read _ _ (ssh _) (ssh _) = refl
  source_read _ _ (ssh _) (basic _ _) = refl
  source_read _ true (ssh _) (github_app _ _ _ _) = refl
  source_read _ false (ssh _) (github_app _ _ _ _) = refl
  source_read _ _ (basic _ _) (ssh _) = refl
  source_read _ _ (basic _ _) (basic _ _) = refl
  source_read _ true (basic _ _) (github_app _ _ _ _) = refl
  source_read _ false (basic _ _) (github_app _ _ _ _) = refl
  source_read true _ (github_app _ _ _ _) (ssh _) = refl
  source_read true _ (github_app _ _ _ _) (basic _ _) = refl
  source_read true true (github_app _ _ _ _) (github_app _ _ _ _) = refl
  source_read true false (github_app _ _ _ _) (github_app _ _ _ _) = refl
  source_read false _ (github_app _ _ _ _) (ssh _) = refl
  source_read false _ (github_app _ _ _ _) (basic _ _) = refl
  source_read false true (github_app _ _ _ _) (github_app _ _ _ _) = refl
  source_read false false (github_app _ _ _ _) (github_app _ _ _ _) = refl

  abbrev pub text_of : List EnvVar → String → String
  text_of vars name = get_text name (resolved secrets vars)

  -- The endpoints' variables hold nothing of the core.
  pub tags_skipped :
      (b : Bool) (c : Credentials) (vars : List EnvVar)
      → text_of (vars_with b "SOURCE" c ++ vars) "INCLUDE_TAGS" ≡ text_of vars "INCLUDE_TAGS"
  tags_skipped _ (ssh _) vars = refl
  tags_skipped _ (basic _ _) vars = refl
  tags_skipped true (github_app _ _ _ _) vars = refl
  tags_skipped false (github_app _ _ _ _) vars = refl

  pub tags_absent :
      (b : Bool) (c : Credentials) → text_of (vars_with b "TARGET" c) "INCLUDE_TAGS" ≡ ""
  tags_absent _ (ssh _) = refl
  tags_absent _ (basic _ _) = refl
  tags_absent true (github_app _ _ _ _) = refl
  tags_absent false (github_app _ _ _ _) = refl

  pub tags_read :
      (source target mode : String) (tags : Option Bool) (vars : List EnvVar)
      → text_of vars "INCLUDE_TAGS" ≡ ""
      → env_bool_default
          (resolved secrets (core_vars (source, target, mode, tags) ++ vars))
          "INCLUDE_TAGS"
          true
        ≡ included tags
  unfolding env_bool_default included
  tags_read source target mode none vars h = rw h refl
  tags_read source target mode (some true) vars h = refl
  tags_read source target mode (some false) vars h = refl

  pub known_hosts_read :
      (source target mode : String) (tags : Option Bool) (vars : List EnvVar)
      → text_of (core_vars (source, target, mode, tags) ++ vars) "KNOWN_HOSTS_PATH"
        ≡ "/var/run/git-mirror/known-hosts/known_hosts"
  known_hosts_read source target mode none vars = refl
  known_hosts_read source target mode (some _) vars = refl
