-- ===== src/Runner/Handoff/Variables.antt =====
-- internal/jobs/builder.go and sync/main.go: the credentials of an endpoint, as variables of a Job
-- and as what the runner is to see of them.
use git_mirror_operator.Base.{
  String, Bool, true, false, ◌==◌, if◌then◌else◌, Option, none, some, List, [], ◌∷◌, ◌++◌,
}
use git_mirror_operator.Syncenv
use git_mirror_operator.Api.Mirror.{SecretKeyRef}
use git_mirror_operator.Api.Job.{EnvValue, literal, secret_key, EnvVar, Container, Job}
use git_mirror_operator.Jobs.Auth.{literal_var}
use git_mirror_operator.Runner.Config.{EndpointAuth, Environment, default_github_api_url}

-- What an endpoint's specification asks for.
pub data Credentials : Type 0 where
  ssh : (key_path : String) → Credentials
  basic : (username password : SecretKeyRef) → Credentials
  github_app : (app_id installation_id : SecretKeyRef) → (key_path api_url : String) → Credentials

abbrev pub url_var : Bool → String → String → List EnvVar
url_var true prefix url = []
url_var false prefix url =
    literal_var (Syncenv.endpoint prefix Syncenv.suffix_github_app_api_url) url ∷ []

-- What the credentials of an endpoint become in its Job's environment; the flag tells whether the
-- URL of GitHub's API is left out.
abbrev pub vars_with : Bool → String → Credentials → List EnvVar
vars_with b prefix (ssh path) =
    literal_var (Syncenv.endpoint prefix Syncenv.suffix_auth_type) "ssh"
    ∷ literal_var (Syncenv.endpoint prefix Syncenv.suffix_ssh_key_path) path
    ∷ []
vars_with b prefix (basic username password) =
    literal_var (Syncenv.endpoint prefix Syncenv.suffix_auth_type) "basic"
    ∷ record {
      name = Syncenv.endpoint prefix Syncenv.suffix_auth_username;
      value = secret_key username;
    }
    ∷ record {
      name = Syncenv.endpoint prefix Syncenv.suffix_auth_password;
      value = secret_key password;
    }
    ∷ []
vars_with b prefix (github_app app_id installation_id path url) =
    literal_var (Syncenv.endpoint prefix Syncenv.suffix_auth_type) "githubApp"
    ∷ record {
      name = Syncenv.endpoint prefix Syncenv.suffix_github_app_id;
      value = secret_key app_id;
    }
    ∷ record {
      name = Syncenv.endpoint prefix Syncenv.suffix_github_app_installation_id;
      value = secret_key installation_id;
    }
    ∷ literal_var (Syncenv.endpoint prefix Syncenv.suffix_github_app_private_key_path) path
    ∷ url_var b prefix url

abbrev pub no_url : Credentials → Bool
no_url (ssh path) = true
no_url (basic username password) = true
no_url (github_app app_id installation_id path url) = url == ""

abbrev pub env_vars : String → Credentials → List EnvVar
env_vars prefix c = vars_with (no_url c) prefix c

abbrev pub value_of : (SecretKeyRef → String) → EnvValue → String
value_of secrets (literal text) = text
value_of secrets (secret_key ref) = secrets ref

-- The environment of a container, with the values of the Secrets' keys. A literal is taken as it
-- is: no `$(NAME)` stands in it, which Kubernetes would expand.
abbrev pub resolved : (SecretKeyRef → String) → List EnvVar → Environment
resolved secrets [] = []
resolved secrets (v ∷ vs) = (v.name, value_of secrets v.value) ∷ resolved secrets vs

abbrev pub env_of : List Container → List EnvVar
env_of [] = []
env_of (c ∷ cs) = c.env

abbrev pub environment_of : (SecretKeyRef → String) → Job → Environment
environment_of secrets job = resolved secrets (env_of job.spec.template.spec.containers)

abbrev pub no_auth : String → EndpointAuth
no_auth kind = record {
  kind = kind;
  ssh_key_path = "";
  username = "";
  password = "";
  github_app_id = "";
  github_app_installation_id = "";
  github_app_private_key_path = "";
  github_app_api_url = default_github_api_url;
}

abbrev pub api_url_of : Bool → String → String
api_url_of true url = default_github_api_url
api_url_of false url = if url == "" then default_github_api_url else url

abbrev pub auth_with : Bool → (SecretKeyRef → String) → Credentials → EndpointAuth
auth_with b secrets (ssh path) = record (no_auth "ssh") { ssh_key_path = path }
auth_with b secrets (basic username password) = record (no_auth "basic") {
  username = secrets username;
  password = secrets password;
}
auth_with b secrets (github_app app_id installation_id path url) = record (no_auth "githubApp") {
  github_app_id = secrets app_id;
  github_app_installation_id = secrets installation_id;
  github_app_private_key_path = path;
  github_app_api_url = api_url_of b url;
}

-- The credentials as the runner is to see them.
abbrev pub auth_of : (SecretKeyRef → String) → Credentials → EndpointAuth
auth_of secrets c = auth_with (no_url c) secrets c

-- The environment up to the credentials, whose value is given to the tags in additive mode alone.
abbrev pub Core : Type 0
Core = String × String × String × Option Bool

abbrev pub tags_var : Option Bool → List EnvVar
tags_var none = []
tags_var (some tags) = literal_var Syncenv.include_tags (if tags then "true" else "false") ∷ []

abbrev pub core_vars : Core → List EnvVar
core_vars (source, target, mode, tags) =
    literal_var Syncenv.source_url source
    ∷ literal_var Syncenv.target_url target
    ∷ literal_var Syncenv.mirror_mode mode
    ∷ (tags_var tags
        ++ literal_var Syncenv.known_hosts_path "/var/run/git-mirror/known-hosts/known_hosts"
          ∷ literal_var Syncenv.home "/tmp"
          ∷ [])
