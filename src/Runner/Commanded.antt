-- ===== src/Runner/Commanded.antt =====
-- sync/main.go: the loop of `Run` over its commands.
use mathlib.Core.List.{append_assoc, append-nil}
use git_mirror_operator.Base.{
  String, Bool, true, false, Option, none, some, List, [], ◌∷◌, ◌++◌, ◌≡◌, ◌⊎◌, ◌∙◌, inl, inr, refl,
  sym,
}
use git_mirror_operator.Base.Hoare.{
  Triple, Keeps, Keeps-bind, Keeps-pure, Triple-pure, Triple-given, Triple-either, Triple-if,
  Triple-test, Triple-before, Triple-weaken, Triple-bind,
}
use git_mirror_operator.Platform.{Platform}
use git_mirror_operator.Runner.Machine.{Machine}
use git_mirror_operator.Runner.Config.{Config}
use git_mirror_operator.Runner.Commands.{
  Command, is_tag_wildcard_push, auth_for_command, push_target_url, command_repo_path,
}
use git_mirror_operator.Runner.Main.{
  log_line, remote_tags_missing, skips_push_from, has_local_refs, has_remote_tags,
  should_skip_empty_tag_push, run_or_skip, run_command, run_commands,
}
use git_mirror_operator.Runner.Trace.{IsTraced, Ran, git_auth_env-Keeps}

-- The commands in their order, of which pushes of tags may have been skipped.
pub data Executed : List Command → List Command → Type 0 where
  finished : Executed [] []
  executed :
      (args : Command) {rest ran : List Command}
      → Executed rest ran
      → Executed (args ∷ rest) (args ∷ ran)
  skipped :
      (args : Command) {rest ran : List Command}
      → is_tag_wildcard_push args ≡ true
      → Executed rest ran
      → Executed (args ∷ rest) ran

-- The same up to some command, which may have failed.
pub data Begun : List Command → List Command → Type 0 where
  stopped : (rest : List Command) → Begun rest []
  begun :
      (args : Command) {rest ran : List Command} → Begun rest ran → Begun (args ∷ rest) (args ∷ ran)
  passed :
      (args : Command) {rest ran : List Command}
      → is_tag_wildcard_push args ≡ true
      → Begun rest ran
      → Begun (args ∷ rest) ran

module _ (P : Platform) {M : Machine} (tr : IsTraced M) where
  open tr use {ran}

  remote_tags_missing-Keeps :
      (url : Option String) (env : List String) (r : List Command)
      → Keeps (Ran P tr r) (remote_tags_missing M url env)
  unfolding has_remote_tags
  remote_tags_missing-Keeps none env r = Keeps-pure false
  remote_tags_missing-Keeps (some url) env r =
      Keeps-bind (Keeps-bind (tr.output _ env r) λ _. Keeps-pure _) λ _. Keeps-pure _

  skips_push_from-Keeps :
      (path : Option String) (args : Command) (env : List String) (r : List Command)
      → Keeps (Ran P tr r) (skips_push_from M path args env)
  unfolding has_local_refs
  skips_push_from-Keeps none args env r = Keeps-pure false
  skips_push_from-Keeps (some path) args env r =
      Keeps-bind (Keeps-bind (tr.output _ [] r) λ _. Keeps-pure _) λ local.
        Triple-if local (Keeps-pure false) (remote_tags_missing-Keeps (push_target_url args) env r)

  -- A push is skipped only if it is one of tags.
  abbrev SkipsTags : Command → List Command → Bool → M.State → Type 0
  SkipsTags args r skip s = Ran P tr r s × (skip ≡ true → is_tag_wildcard_push args ≡ true)

  should_skip-SkipsTags :
      (args : Command) (env : List String) (r : List Command)
      → Triple (Ran P tr r) (SkipsTags args r) (Ran P tr r) (should_skip_empty_tag_push M args env)
  unfolding should_skip_empty_tag_push
  should_skip-SkipsTags args env r =
      Triple-test (is_tag_wildcard_push args)
        (λ tags.
          Triple-weaken (λ _ _ h. (h, λ _. tags)) (λ _ h. h)
            (skips_push_from-Keeps (command_repo_path args) args env r))
        (λ _. Triple-pure false (λ _ h. (h, λ e. cc)))

  -- What has been run after a command that succeeded, or failed.
  abbrev RunOrSkipped : Command → List Command → M.State → Type 0
  RunOrSkipped args r s =
      Ran P tr (r ++ args ∷ []) s ⊎ ((is_tag_wildcard_push args ≡ true) × Ran P tr r s)

  abbrev RunOrNot : Command → List Command → M.State → Type 0
  RunOrNot args r s = Ran P tr (r ++ args ∷ []) s ⊎ Ran P tr r s

  logged : (text : String) (r : List Command) → Keeps (Ran P tr r) (log_line M text)
  logged text r = record { at = λ s h. tr.log text s ∙ h }

  run_or_skip-RunOrSkipped :
      (args : Command) (env : List String) (r : List Command) (skip : Bool)
      → Triple
          (SkipsTags args r skip)
          (λ _. RunOrSkipped args r)
          (RunOrNot args r)
          (run_or_skip P M args env skip)
  unfolding run_or_skip
  run_or_skip-RunOrSkipped args env r true = record { at = λ s h. inr (h.1 refl, tr.log _ s ∙ h.0) }
  run_or_skip-RunOrSkipped args env r false =
      Triple-before (λ _ h. h.0)
        (Triple-bind (λ _. Ran P tr r) (Triple-weaken (λ _ _ h. h) (λ _ h. inr h) (logged _ r))
          λ _. Triple-weaken (λ _ _ h. inl h) (λ _ h. inl h) (tr.run args env r))

  run_command-RunOrSkipped :
      (cfg : Config) (args : Command) (r : List Command)
      → Triple (Ran P tr r) (λ _. RunOrSkipped args r) (RunOrNot args r) (run_command P M cfg args)
  unfolding run_command
  run_command-RunOrSkipped cfg args r =
      Triple-bind (λ _. Ran P tr r)
        (Triple-weaken (λ _ _ h. h) (λ _ h. inr h)
          (git_auth_env-Keeps P tr cfg (auth_for_command cfg args) r))
        λ env.
          Triple-bind (SkipsTags args r)
            (Triple-weaken (λ _ _ h. h) (λ _ h. inr h) (should_skip-SkipsTags args env r))
            λ skip. run_or_skip-RunOrSkipped args env r skip

  abbrev pub Finished : List Command → List Command → M.State → Type 0
  Finished r commands s = (e : List Command) × Ran P tr (r ++ e) s × Executed commands e

  abbrev pub Stopped : List Command → List Command → M.State → Type 0
  Stopped r commands s = (e : List Command) × Ran P tr (r ++ e) s × Begun commands e

  RunOrNot-Stopped :
      (args : Command) (rest r : List Command) (s : M.State)
      → RunOrNot args r s
      → Stopped r (args ∷ rest) s
  RunOrNot-Stopped args rest r s (inl h) = (args ∷ [], h, begun args (stopped rest))
  RunOrNot-Stopped args rest r s (inr h) = ([], h ∙ sym (append-nil r), stopped (args ∷ rest))

  -- One more command before those that follow.
  Ran-after :
      (args : Command) (r e : List Command) {s : M.State}
      → Ran P tr ((r ++ args ∷ []) ++ e) s
      → Ran P tr (r ++ (args ∷ e)) s
  Ran-after args r e h = h ∙ append_assoc r (args ∷ []) e

  pub run_commands-Finished :
      (cfg : Config) (commands r : List Command)
      → Triple
          (Ran P tr r)
          (λ _. Finished r commands)
          (Stopped r commands)
          (run_commands P M cfg commands)
  unfolding run_commands
  run_commands-Finished cfg [] r = Triple-pure tt (λ s h. ([], h ∙ sym (append-nil r), finished))
  run_commands-Finished cfg (args ∷ rest) r =
      Triple-bind (λ _. RunOrSkipped args r)
        (Triple-weaken (λ _ _ h. h) (RunOrNot-Stopped args rest r)
          (run_command-RunOrSkipped cfg args r))
        λ _.
          Triple-either
            (Triple-weaken (λ _ s h. (args ∷ h.0, Ran-after args r h.0 h.1, executed args h.2))
              (λ s h. (args ∷ h.0, Ran-after args r h.0 h.1, begun args h.2))
              (run_commands-Finished cfg rest (r ++ args ∷ [])))
            (Triple-given λ tags.
              Triple-weaken (λ _ s h. (h.0, h.1, skipped args tags h.2))
                (λ s h. (h.0, h.1, passed args tags h.2)) (run_commands-Finished cfg rest r))
