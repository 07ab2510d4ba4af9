-- ===== src/Runner/Credentials.antt =====
-- sync/main.go: the credentials of the two endpoints, copied, fetched, checked and handed to git.
use git_mirror_operator.Base.{
  ℕ, String, ◌<>◌, Bool, false, not, ◌||◌, ◌==◌, if◌then◌else◌, Option, none, some, List, [], ◌∷◌,
  ◌++◌, Result, ok, err, failure, quoted, wrapped, Outcome, done, fail, Exec, pure, raise, attempt,
  ◌>>=◌, ◌>>◌,
}
use git_mirror_operator.Text.Base64
use git_mirror_operator.Text.Path
use git_mirror_operator.Text.Search.{join_with}
use git_mirror_operator.Syncenv
use git_mirror_operator.Platform.{Platform, Bytes}
use git_mirror_operator.Runner.Machine.{Machine, Url}
use git_mirror_operator.Runner.Config.{EndpointAuth, Config}
use git_mirror_operator.Runner.Token.{create_github_app_installation_token}

-- 0700, 0600, 0500 and 0400
abbrev pub owner_all : ℕ
owner_all = 448

abbrev pub owner_write : ℕ
owner_write = 384

abbrev pub owner_execute : ℕ
owner_execute = 320

abbrev pub owner_read : ℕ
owner_read = 256

abbrev pub ask_pass_script : String
ask_pass_script =
    "#!/bin/sh\ncase \"$1\" in\n*Username*) printf '%s\\n' \"$GIT_MIRROR_USERNAME\" ;;\n*Password*) printf '%s\\n' \"$GIT_MIRROR_PASSWORD\" ;;\n*) printf '\\n' ;;\nesac\n"

abbrev pub is_token_type : String → Bool
is_token_type kind = kind == Syncenv.auth_type_basic || kind == Syncenv.auth_type_github_app

abbrev pub with_context : {S A : Type 0} → String → Outcome S A → Outcome S A
with_context context (done a s) = done a s
with_context context (fail e s) = fail (wrapped context e) s

abbrev pub is_https : Option Url → Bool
is_https none = false
is_https (some url) = url.scheme == "https"

module _ (M : Machine) where
  -- The steps that `copyPrivateFile` and `ensureAskPassScript` share: a file beside the target is
  -- written with the first mode, given the second, and moved over it. That removing an older one
  -- may fail is not looked at.
  unfoldable pub replace_file : String → Bytes → ℕ → ℕ → Exec M.State (Unit {0})
  replace_file dst contents created final = do
    attempt (M.remove (dst <> ".tmp"))
    M.write_file (dst <> ".tmp") contents created
    M.chmod (dst <> ".tmp") final
    M.rename (dst <> ".tmp") dst

  unfoldable pub copy_private_file : String → String → Exec M.State String
  unfolding Path.dir
  copy_private_file src dst = do
    contents ← M.read_file src
    M.mkdir_all (Path.dir dst) owner_all
    replace_file dst contents owner_write owner_read
    pure dst

  unfoldable pub ensure_ask_pass_script : String → Exec M.State String
  unfolding Path.join
  ensure_ask_pass_script dir = do
    M.mkdir_all dir owner_all
    replace_file (Path.join dir "askpass.sh") (Base64.bytes_of ask_pass_script) owner_all
        owner_execute
    pure (Path.join dir "askpass.sh")

  unfoldable pub prepared_credential_dir : String
  unfolding Path.join
  prepared_credential_dir = Path.join M.temp_dir "git-mirror-credentials"

  unfoldable pub is_https_url : String → Bool
  is_https_url raw_url = is_https (M.parse_url raw_url)

  unfoldable pub validate_endpoint_auth : String → String → EndpointAuth → Result (Unit {0})
  validate_endpoint_auth name raw_url auth =
      if auth.kind == Syncenv.auth_type_ssh
      then (if auth.ssh_key_path == ""
          then err (failure (name <> " SSH auth requires an SSH key path"))
          else ok tt)
      else if is_token_type auth.kind
      then (if not (is_https_url raw_url)
          then err (failure (name <> " " <> auth.kind <> " auth requires an HTTPS git URL"))
          else if auth.username == "" || auth.password == ""
          then err (
              failure
                (name <> " " <> auth.kind <> " auth requires username and password credentials"))
          else ok tt)
      else if auth.kind == ""
      then err (failure (name <> " auth is required"))
      else err (quoted ("unsupported " <> name <> " auth type ") auth.kind)

abbrev known_hosts_options : String → List String
known_hosts_options path =
    if path == ""
    then []
    else "-o" ∷ ("UserKnownHostsFile=" <> path) ∷ "-o" ∷ "StrictHostKeyChecking=yes" ∷ []

unfoldable pub git_ssh_command : Config → String → String
unfolding join_with
git_ssh_command cfg key_path =
    "GIT_SSH_COMMAND="
    <> join_with " " (
        "ssh"
        ∷ "-o"
        ∷ "IdentitiesOnly=yes"
        ∷ ((if key_path == "" then [] else "-i" ∷ key_path ∷ [])
            ++ known_hosts_options cfg.known_hosts_path))

abbrev pub password_env : String → EndpointAuth → List String
password_env ask_pass auth =
    ("GIT_ASKPASS=" <> ask_pass)
    ∷ "GIT_TERMINAL_PROMPT=0"
    ∷ ("GIT_MIRROR_USERNAME=" <> auth.username)
    ∷ ("GIT_MIRROR_PASSWORD=" <> auth.password)
    ∷ []

module _ (M : Machine) where
  unfoldable pub git_auth_env : Config → EndpointAuth → Exec M.State (List String)
  git_auth_env cfg auth =
      if auth.kind == Syncenv.auth_type_ssh
      then pure (git_ssh_command cfg auth.ssh_key_path ∷ [])
      else if is_token_type auth.kind
      then (ensure_ask_pass_script M (prepared_credential_dir M) >>= λ ask_pass.
          pure (password_env ask_pass auth))
      else raise (quoted "unsupported auth type " auth.kind)

module _ (P : Platform) (M : Machine) where
  unfoldable pub prepare_ssh : String → EndpointAuth → String → Exec M.State EndpointAuth
  unfolding Path.join
  prepare_ssh name auth dir =
      if auth.ssh_key_path == ""
      then raise (failure (name <> " SSH auth requires an SSH key path"))
      else (λ s.
          with_context ("prepare " <> name <> " SSH key")
            (copy_private_file M auth.ssh_key_path (Path.join dir "ssh_key") s))
        >>= λ path. pure (record auth { ssh_key_path = path })

  unfoldable pub prepare_github_app : String → EndpointAuth → Exec M.State EndpointAuth
  prepare_github_app name auth =
      (λ s.
        with_context ("create " <> name <> " GitHub App installation token")
          (create_github_app_installation_token P M auth s))
      >>= λ token. pure (record auth { username = "x-access-token"; password = token })

  unfoldable pub prepare_endpoint_auth : String → EndpointAuth → String → Exec M.State EndpointAuth
  prepare_endpoint_auth name auth dir =
      if auth.kind == ""
      then pure auth
      else if auth.kind == Syncenv.auth_type_ssh
      then prepare_ssh name auth dir
      else if auth.kind == Syncenv.auth_type_github_app
      then prepare_github_app name auth
      else if auth.kind == Syncenv.auth_type_basic
      then pure auth
      else raise (quoted ("unsupported " <> name <> " auth type ") auth.kind)

  unfoldable pub prepare_credentials : Config → String → Exec M.State Config
  unfolding Path.join
  prepare_credentials cfg dir = do
    source ← prepare_endpoint_auth "source" cfg.source_auth (Path.join dir "source")
    target ← prepare_endpoint_auth "target" cfg.target_auth (Path.join dir "target")
    pure (record cfg { source_auth = source; target_auth = target })
