-- ===== src/Runner/Main.antt =====
-- sync/main.go: `Run`, `main`, and whether a push of tags is skipped.
use git_mirror_operator.Base.{
  String, ◌<>◌, Bool, true, false, not, ◌==◌, if◌then◌else◌, Option, none, some, List, [], ◌∷◌,
  done, Exec, pure, lift, ◌>>=◌, ◌>>◌,
}
use git_mirror_operator.Text.Search.{trim_space}
use git_mirror_operator.Platform.{Platform}
use git_mirror_operator.Runner.Machine.{Machine}
use git_mirror_operator.Runner.Config.{Config, config_from_env}
use git_mirror_operator.Runner.Commands.{
  Command, build_git_commands, is_tag_wildcard_push, command_repo_path, push_target_url,
  auth_for_command, safe_command,
}
use git_mirror_operator.Runner.Credentials.{
  prepared_credential_dir, validate_endpoint_auth, git_auth_env, prepare_credentials,
}

module _ (M : Machine) where
  unfoldable pub has_local_refs : String → String → Exec M.State Bool
  has_local_refs repo_path prefix =
      M.output
        ("git" ∷ "-C" ∷ repo_path ∷ "for-each-ref" ∷ "--format=%(refname)" ∷ "--count=1" ∷ prefix
          ∷ [])
        []
      >>= λ text. pure (not (trim_space text == ""))

  unfoldable pub has_remote_tags : String → List String → Exec M.State Bool
  has_remote_tags target_url env =
      M.output ("git" ∷ "ls-remote" ∷ "--tags" ∷ "--refs" ∷ target_url ∷ []) env >>= λ text.
      pure (not (trim_space text == ""))

  abbrev pub remote_tags_missing : Option String → List String → Exec M.State Bool
  remote_tags_missing none env = pure false
  remote_tags_missing (some url) env = has_remote_tags url env >>= λ remote. pure (not remote)

  -- A push of tags from the repository at the path.
  abbrev pub skips_push_from : Option String → Command → List String → Exec M.State Bool
  skips_push_from none args env = pure false
  skips_push_from (some repo_path) args env = has_local_refs repo_path "refs/tags" >>= λ local.
      if local then pure false else remote_tags_missing (push_target_url args) env

  unfoldable pub should_skip_empty_tag_push : Command → List String → Exec M.State Bool
  should_skip_empty_tag_push args env =
      if is_tag_wildcard_push args
      then skips_push_from (command_repo_path args) args env
      else pure false

  abbrev pub log_line : String → Exec M.State (Unit {0})
  log_line text s = done tt (M.log text s)

module _ (P : Platform) (M : Machine) where
  unfoldable pub run_or_skip : Command → List String → Bool → Exec M.State (Unit {0})
  run_or_skip args env true =
      log_line M ("skipping " <> safe_command P M args <> ": source and target have no tags")
  run_or_skip args env false = log_line M ("running " <> safe_command P M args) >> M.run args env

  -- One round of the loop.
  unfoldable pub run_command : Config → Command → Exec M.State (Unit {0})
  run_command cfg args = do
    env ← git_auth_env M cfg (auth_for_command cfg args)
    skip ← should_skip_empty_tag_push M args env
    run_or_skip args env skip

  unfoldable pub run_commands : Config → List Command → Exec M.State (Unit {0})
  run_commands cfg [] = pure tt
  run_commands cfg (args ∷ rest) = run_command cfg args >> run_commands cfg rest

  -- From the prepared configuration on.
  unfoldable pub run_prepared : Config → Exec M.State (Unit {0})
  run_prepared cfg = do
    lift (validate_endpoint_auth M "source" cfg.source_url cfg.source_auth)
    lift (validate_endpoint_auth M "target" cfg.target_url cfg.target_auth)
    commands ← lift (build_git_commands cfg)
    run_commands cfg commands

  unfoldable pub run : Config → Exec M.State (Unit {0})
  run cfg = prepare_credentials P M cfg (prepared_credential_dir M) >>= run_prepared

  -- The error is that with which `main` ends the process.
  unfoldable pub main : Exec M.State (Unit {0})
  main = run (config_from_env M.environment)
