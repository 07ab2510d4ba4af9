-- ===== src/Syncenv.antt =====
-- internal/syncenv/env.go: the environment variables of a sync Job.
use git_mirror_operator.Base.{String, ◌<>◌}

abbrev pub auth_type_ssh : String
auth_type_ssh = "ssh"

abbrev pub auth_type_basic : String
auth_type_basic = "basic"

abbrev pub auth_type_github_app : String
auth_type_github_app = "githubApp"

abbrev pub source_prefix : String
source_prefix = "SOURCE"

abbrev pub target_prefix : String
target_prefix = "TARGET"

abbrev pub source_url : String
source_url = "SOURCE_URL"

abbrev pub target_url : String
target_url = "TARGET_URL"

abbrev pub mirror_mode : String
mirror_mode = "MIRROR_MODE"

abbrev pub include_tags : String
include_tags = "INCLUDE_TAGS"

abbrev pub known_hosts_path : String
known_hosts_path = "KNOWN_HOSTS_PATH"

abbrev pub home : String
home = "HOME"

abbrev pub suffix_auth_type : String
suffix_auth_type = "AUTH_TYPE"

abbrev pub suffix_ssh_key_path : String
suffix_ssh_key_path = "SSH_KEY_PATH"

abbrev pub suffix_auth_username : String
suffix_auth_username = "AUTH_USERNAME"

abbrev pub suffix_auth_password : String
suffix_auth_password = "AUTH_PASSWORD"

abbrev pub suffix_github_app_id : String
suffix_github_app_id = "GITHUB_APP_ID"

abbrev pub suffix_github_app_installation_id : String
suffix_github_app_installation_id = "GITHUB_APP_INSTALLATION_ID"

abbrev pub suffix_github_app_private_key_path : String
suffix_github_app_private_key_path = "GITHUB_APP_PRIVATE_KEY_PATH"

abbrev pub suffix_github_app_api_url : String
suffix_github_app_api_url = "GITHUB_APP_API_URL"

-- `Endpoint`
abbrev pub endpoint : String → String → String
endpoint prefix suffix = prefix <> "_" <> suffix
