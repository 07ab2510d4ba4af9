-- ===== src/Runner/Routing.antt =====
-- sync/main.go: the credentials, the repository and the target of the commands that
-- `BuildGitCommands` returns.
use git_mirror_operator.Base.{
  String, Bool, true, false, not, ◌||◌, ◌==◌, if◌then◌else◌, some, List, [], ◌∷◌, ◌++◌, any, length,
  ne→eq_false, refl, ◌≡◌, ◌≢◌, ◌∙◌, All, eq_iff,
}
use git_mirror_operator.Text.Search.{starts_with}
use git_mirror_operator.Runner.Config.{Config}
use git_mirror_operator.Runner.Commands.{
  Command, default_mirror_repo_path, mirror_repo_path, clone, prune_push, is_tag_wildcard_push,
  command_repo_path, is_tag_ref_spec, push_target_url, auth_for_command,
}

-- The URL is no word that the runner looks for in a command.
pub record IsOperand (url : String) : Type 0 where
  pub no_clone : url ≢ "clone"
  pub no_tags : url ≢ "refs/tags/*:refs/tags/*"
  pub no_force_tags : url ≢ "+refs/tags/*:refs/tags/*"
  pub no_option : starts_with url "-" ≡ false

-- A push from the bare clone to the target, with the target's credentials.
pub record PushesTo (cfg : Config) (tags : Bool) (args : Command) : Type 0 where
  pub credentials : auth_for_command cfg args ≡ cfg.target_auth
  pub repository : command_repo_path args ≡ some default_mirror_repo_path
  pub target : push_target_url args ≡ some cfg.target_url
  pub of_tags : is_tag_wildcard_push args ≡ tags

-- What is pushed comes last, after the target, and references that the source does not have are
-- pruned if they are to be.
pub record Pushes (cfg : Config) (pruned tags : Bool) (refs : String) (args : Command)
    : Type 0 where
  pub routed : PushesTo cfg tags args
  pub before : List String
  pub words : args ≡ before ++ cfg.target_url ∷ refs ∷ []
  pub prunes : any (λ word. word == "--prune") before ≡ pruned

or_false : (b : Bool) → (b || false) ≡ b
or_false true = refl
or_false false = refl

module _ (cfg : Config) (here : cfg.repo_path ≡ "") (plain : IsOperand cfg.target_url) where
  at_default : cfg.repo_path == "" ≡ true
  at_default = (eq_iff cfg.repo_path "").1 here

  no_clone : cfg.target_url == "clone" ≡ false
  no_clone = ne→eq_false cfg.target_url "clone" plain.no_clone

  no_tags : cfg.target_url == "refs/tags/*:refs/tags/*" ≡ false
  no_tags = ne→eq_false cfg.target_url "refs/tags/*:refs/tags/*" plain.no_tags

  no_force_tags : cfg.target_url == "+refs/tags/*:refs/tags/*" ≡ false
  no_force_tags = ne→eq_false cfg.target_url "+refs/tags/*:refs/tags/*" plain.no_force_tags

  pub prune_push-PushesTo :
      (refs : String) {tags : Bool}
      → refs == "clone" ≡ false
      → is_tag_ref_spec refs ≡ tags
      → PushesTo cfg tags (prune_push cfg refs)
  unfolding auth_for_command command_repo_path push_target_url is_tag_wildcard_push mirror_repo_path
  prune_push-PushesTo refs other kind = record {
    credentials = rw (at_default, no_clone, other) refl;
    repository = rw at_default refl;
    target = rw (at_default, plain.no_option) refl;
    of_tags = rw (at_default, no_tags, no_force_tags) (or_false (is_tag_ref_spec refs) ∙ kind);
  }

  -- Every mode but the additive one makes the target exactly like the source.
  abbrev pub is_exact : Bool
  is_exact = not (cfg.mirror_mode == "additive")

  -- All branches, and those that are not fast-forwards if the mirror is exact.
  abbrev pub all_branches : String
  all_branches = if is_exact then "+refs/heads/*:refs/heads/*" else "refs/heads/*:refs/heads/*"

  abbrev pub all_tags : String
  all_tags = if is_exact then "+refs/tags/*:refs/tags/*" else "refs/tags/*:refs/tags/*"

  -- The clone, a push of the branches, and one of the tags exactly if the mirror is exact or
  -- includes tags.
  pub record IsPlan (commands : List Command) : Type 0 where
    pub branches : Command
    pub tags : List Command
    pub shape : commands ≡ clone cfg ∷ branches ∷ tags
    pub cloned : auth_for_command cfg (clone cfg) ≡ cfg.source_auth
    pub pushed : Pushes cfg is_exact false all_branches branches
    pub tagged : All (Pushes cfg is_exact true all_tags) tags
    pub tag_pushes : length tags ≡ (if is_exact || cfg.include_tags then 1 else 0)
