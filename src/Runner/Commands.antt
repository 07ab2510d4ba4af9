-- ===== src/Runner/Commands.antt =====
-- sync/main.go: `BuildGitCommands` and what is read off a git command.
use git_mirror_operator.Base.{
  String, Bool, ◌&&◌, ◌||◌, ◌==◌, if◌then◌else◌, Option, none, some, List, [], ◌∷◌, map, any,
  Result, ok, err, failure, quoted,
}
use git_mirror_operator.Text.{to_lower}
use git_mirror_operator.Text.Search.{starts_with, contains, join_with}
use git_mirror_operator.Platform.{Platform}
use git_mirror_operator.Runner.Machine.{Machine, Url}
use git_mirror_operator.Runner.Config.{EndpointAuth, Config}

abbrev pub default_mirror_repo_path : String
default_mirror_repo_path = "/tmp/repo.git"

abbrev pub heads_ref_spec : String
heads_ref_spec = "refs/heads/*:refs/heads/*"

abbrev pub tags_ref_spec : String
tags_ref_spec = "refs/tags/*:refs/tags/*"

abbrev pub force_heads_ref_spec : String
force_heads_ref_spec = "+refs/heads/*:refs/heads/*"

abbrev pub force_tags_ref_spec : String
force_tags_ref_spec = "+refs/tags/*:refs/tags/*"

abbrev pub Command : Type 0
Command = List String

unfoldable pub mirror_repo_path : Config → String
mirror_repo_path cfg = if cfg.repo_path == "" then default_mirror_repo_path else cfg.repo_path

abbrev pub clone : Config → Command
clone cfg = "git" ∷ "clone" ∷ "--bare" ∷ cfg.source_url ∷ mirror_repo_path cfg ∷ []

abbrev pub prune_push : Config → String → Command
prune_push cfg refs =
    "git" ∷ "-C" ∷ mirror_repo_path cfg ∷ "push" ∷ "--prune" ∷ cfg.target_url ∷ refs ∷ []

abbrev pub plain_push : Config → String → Command
plain_push cfg refs = "git" ∷ "-C" ∷ mirror_repo_path cfg ∷ "push" ∷ cfg.target_url ∷ refs ∷ []

unfoldable pub build_git_commands : Config → Result (List Command)
build_git_commands cfg =
    let mode = if cfg.mirror_mode == "" then "exact" else cfg.mirror_mode in
    if cfg.source_url == ""
    then err (failure "SOURCE_URL is required")
    else if cfg.target_url == ""
    then err (failure "TARGET_URL is required")
    else if mode == "exact"
    then ok
        (clone cfg ∷ prune_push cfg force_heads_ref_spec ∷ prune_push cfg force_tags_ref_spec ∷ [])
    else if mode == "additive"
    then ok (
        clone cfg
        ∷ plain_push cfg heads_ref_spec
        ∷ (if cfg.include_tags then plain_push cfg tags_ref_spec ∷ [] else []))
    else err (quoted "unsupported MIRROR_MODE " mode)

abbrev pub is_tag_ref_spec : String → Bool
is_tag_ref_spec arg = arg == tags_ref_spec || arg == force_tags_ref_spec

unfoldable pub is_tag_wildcard_push : Command → Bool
is_tag_wildcard_push args = any (λ arg. arg == "push") args && any is_tag_ref_spec args

-- What follows the first `-C` that something follows.
unfoldable pub command_repo_path : Command → Option String
command_repo_path [] = none
command_repo_path (arg ∷ []) = none
command_repo_path (arg ∷ next ∷ rest) =
    let later = command_repo_path (next ∷ rest) in if arg == "-C" then some next else later

abbrev first_operand : Command → Option String
first_operand [] = none
first_operand (arg ∷ rest) =
    let later = first_operand rest in if starts_with arg "-" then later else some arg

abbrev or_later : Option String → Option String → Option String
or_later (some s) later = some s
or_later none later = later

-- The first operand after a `push` that has one.
unfoldable pub push_target_url : Command → Option String
push_target_url [] = none
push_target_url (arg ∷ rest) =
    let later = push_target_url rest in
    if arg == "push" then or_later (first_operand rest) later else later

unfoldable pub auth_for_command : Config → Command → EndpointAuth
auth_for_command cfg args =
    if any (λ arg. arg == "clone") args then cfg.source_auth else cfg.target_auth

module _ (P : Platform) (M : Machine) where
  abbrev redact_parsed : String → Option Url → String
  redact_parsed value none = value
  redact_parsed value (some url) = if url.has_user then url.redacted else value

  unfoldable pub redact_url_userinfo : String → String
  redact_url_userinfo value = redact_parsed value (M.parse_url value)

  unfoldable pub redact : String → String
  redact arg =
      if contains (to_lower P.fold_lower arg) "key" then "<redacted>" else redact_url_userinfo arg

  unfoldable pub safe_command : Command → String
  unfolding join_with
  safe_command args = join_with " " (map redact args)
