-- ===== src/Runner/Skips.antt =====
-- sync/main.go: when `shouldSkipEmptyTagPush` has a push of tags left out.
use git_mirror_operator.Base.{
  String, Bool, true, false, not, ◌==◌, if◌then◌else◌, some, List, [], ◌∷◌, Outcome, done, pure,
  ◌≡◌, ◌≢◌, refl, ◌∙◌, ap, done-bind, ne→eq_false, eq_iff,
}
use git_mirror_operator.Text.Search.{trim_space}
use git_mirror_operator.Runner.Machine.{Machine}
use git_mirror_operator.Runner.Config.{Config}
use git_mirror_operator.Runner.Commands.{Command, default_mirror_repo_path, push_target_url}
use git_mirror_operator.Runner.Main.{
  remote_tags_missing, has_local_refs, has_remote_tags, should_skip_empty_tag_push,
}
use git_mirror_operator.Runner.Routing.{PushesTo}

not-not : (b : Bool) → not (not b) ≡ b
not-not true = refl
not-not false = refl

module _ (M : Machine) (cfg : Config) (args : Command) (env : List String) (s : M.State) where
  -- The first tag of the clone, and those of the target.
  abbrev pub local_tags : Outcome M.State String
  local_tags =
      M.output
        ("git" ∷ "-C" ∷ default_mirror_repo_path ∷ "for-each-ref" ∷ "--format=%(refname)"
          ∷ "--count=1" ∷ "refs/tags" ∷ [])
        [] s

  abbrev pub remote_tags : M.State → Outcome M.State String
  remote_tags = M.output ("git" ∷ "ls-remote" ∷ "--tags" ∷ "--refs" ∷ cfg.target_url ∷ []) env

  has_local :
      (local : String) (t : M.State)
      → local_tags ≡ done local t
      → has_local_refs M default_mirror_repo_path "refs/tags" s
        ≡ done (not (trim_space local == "")) t
  unfolding has_local_refs
  has_local local t listed = done-bind (λ text. pure (not (trim_space text == ""))) listed

  has_remote :
      (remote : String) (t u : M.State)
      → remote_tags t ≡ done remote u
      → remote_tags_missing M (some cfg.target_url) env t
        ≡ done (not (not (trim_space remote == ""))) u
  unfolding has_remote_tags
  has_remote remote t u answered =
      done-bind (λ remote. pure (not remote))
        (done-bind (λ text. pure (not (trim_space text == ""))) answered)

  -- The push is one of tags: what is decided once the clone's tags are known.
  decided :
      (local : String) (t : M.State)
      → PushesTo cfg true args
      → local_tags ≡ done local t
      → should_skip_empty_tag_push M args env s
        ≡ (if not (trim_space local == "")
              then pure false
              else remote_tags_missing M (some cfg.target_url) env)
            t
  unfolding should_skip_empty_tag_push
  decided local t push listed =
      rw (push.of_tags, push.repository)
        (done-bind
            (λ found.
              if found then pure false else remote_tags_missing M (push_target_url args) env)
            (has_local local t listed)
          ∙ ap
              (λ url.
                (if not (trim_space local == "") then pure false else remote_tags_missing M url env)
                  t)
              push.target)

  -- A push of tags from the bare clone to the target, as the runner makes it, is left out exactly
  -- if the clone has no tags and the target has none either: where the clone lists a tag it is not
  -- left out, and the target is not asked; where it lists none, it is left out exactly if the
  -- target, with the credentials given, lists none.
  pub should_skip_empty_tag_push_lem :
      (local : String) (t : M.State)
      → PushesTo cfg true args
      → local_tags ≡ done local t
      → (trim_space local ≢ "" → should_skip_empty_tag_push M args env s ≡ done false t)
        × ((remote : String) (u : M.State)
            → trim_space local ≡ ""
            → remote_tags t ≡ done remote u
            → should_skip_empty_tag_push M args env s ≡ done (trim_space remote == "") u)
  should_skip_empty_tag_push_lem local t push listed = (
    λ found. decided local t push listed ∙ rw (ne→eq_false (trim_space local) "" found) refl,
    λ remote u none_here answered.
        decided local t push listed
        ∙ rw ((eq_iff (trim_space local) "").1 none_here) (
            has_remote remote t u answered
            ∙ ap (λ b. done b u) (not-not (trim_space remote == ""))),
  )
