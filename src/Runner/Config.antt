-- ===== src/Runner/Config.antt =====
-- sync/main.go: `Config`, `ConfigFromEnv` and what it reads the environment with.
use git_mirror_operator.Base.{
  String, Bool, true, false, not, ◌&&◌, ◌||◌, ◌==◌, if◌then◌else◌, List, get_text,
}
use git_mirror_operator.Syncenv

pub record EndpointAuth : Type 0 where
  pub kind : String
  pub ssh_key_path : String
  pub username : String
  pub password : String
  pub github_app_id : String
  pub github_app_installation_id : String
  pub github_app_private_key_path : String
  pub github_app_api_url : String

pub record Config : Type 0 where
  pub source_url : String
  pub target_url : String
  pub mirror_mode : String
  pub include_tags : Bool
  pub source_auth : EndpointAuth
  pub target_auth : EndpointAuth
  pub known_hosts_path : String
  pub repo_path : String

abbrev pub default_github_api_url : String
default_github_api_url = "https://api.github.com"

abbrev pub Environment : Type 0
Environment = List (String × String)

unfoldable pub env_default : Environment → String → String → String
env_default env name fallback =
    let value = get_text name env in if value == "" then fallback else value

-- `strconv.ParseBool`; every other text is an error.
abbrev is_true_text : String → Bool
is_true_text s = s == "1" || s == "t" || s == "T" || s == "true" || s == "TRUE" || s == "True"

abbrev is_false_text : String → Bool
is_false_text s = s == "0" || s == "f" || s == "F" || s == "false" || s == "FALSE" || s == "False"

unfoldable pub env_bool_default : Environment → String → Bool → Bool
env_bool_default env name fallback =
    let value = get_text name env in
    if value == ""
    then fallback
    else if is_true_text value
    then true
    else if is_false_text value
    then false
    else fallback

unfoldable pub endpoint_auth_from_env : Environment → String → EndpointAuth
unfolding env_default
endpoint_auth_from_env env prefix =
    let read = λ (suffix : String). get_text (Syncenv.endpoint prefix suffix) env in
    record {
      kind =
          if read Syncenv.suffix_auth_type == "" && not (read Syncenv.suffix_ssh_key_path == "")
          then Syncenv.auth_type_ssh
          else read Syncenv.suffix_auth_type;
      ssh_key_path = read Syncenv.suffix_ssh_key_path;
      username = read Syncenv.suffix_auth_username;
      password = read Syncenv.suffix_auth_password;
      github_app_id = read Syncenv.suffix_github_app_id;
      github_app_installation_id = read Syncenv.suffix_github_app_installation_id;
      github_app_private_key_path = read Syncenv.suffix_github_app_private_key_path;
      github_app_api_url =
          env_default env (Syncenv.endpoint prefix Syncenv.suffix_github_app_api_url)
            default_github_api_url;
    }

unfoldable pub config_from_env : Environment → Config
unfolding env_default env_bool_default endpoint_auth_from_env
config_from_env env = record {
  source_url = get_text Syncenv.source_url env;
  target_url = get_text Syncenv.target_url env;
  mirror_mode = env_default env Syncenv.mirror_mode "exact";
  include_tags = env_bool_default env Syncenv.include_tags true;
  source_auth = endpoint_auth_from_env env Syncenv.source_prefix;
  target_auth = endpoint_auth_from_env env Syncenv.target_prefix;
  known_hosts_path = get_text Syncenv.known_hosts_path env;
  repo_path = "";
}
