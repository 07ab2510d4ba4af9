-- ===== src/Runner/Reliable.antt =====
-- sync/main.go: `Run` on a machine whose calls succeed.
use git_mirror_operator.Base.{
  ℕ, String, ◌<>◌, Bool, true, false, ◌||◌, ◌==◌, if◌then◌else◌, any, Option, none, some, List, [],
  ◌∷◌, ok, err, Outcome, done, fail, Exec, ◌>>=◌, pure, attempt, ◌≡◌, ◌⊎◌, inl, inr, refl, arith,
  eq_iff,
}
use git_mirror_operator.Base.Hoare.{
  Ensures, Triple, Triple-pure, Triple-if, Triple-test, Triple-bind,
}
use git_mirror_operator.Platform.{Platform, Bytes}
use git_mirror_operator.Runner.Machine.{Machine}
use git_mirror_operator.Runner.Config.{EndpointAuth, Config}
use git_mirror_operator.Runner.Commands.{
  Command, is_tag_wildcard_push, auth_for_command, push_target_url, command_repo_path,
}
use git_mirror_operator.Runner.Credentials.{replace_file, ensure_ask_pass_script, git_auth_env}
use git_mirror_operator.Runner.Main.{
  log_line, remote_tags_missing, skips_push_from, has_local_refs, has_remote_tags,
  should_skip_empty_tag_push, run_or_skip, run_command, run_commands, run_prepared,
}
use git_mirror_operator.Runner.Usable.{
  IsUsable, with_key, with_password, validate_endpoint_auth_iff,
}
use git_mirror_operator.Runner.Execution.{Admitted}

-- A call that never fails.
abbrev pub Succeeds : {S A : Type 0} → Exec S A → Type 0
Succeeds m = Triple (λ _. Unit {0}) (λ _ _. Unit {0}) (λ _. ⊥) m

-- The calls of the run that are not looked after: git, and the files of the script for passwords.
-- Removing a file may fail.
pub record IsReliable (M : Machine) : Type 0 where
  pub run : (args env : List String) → Succeeds (M.run args env)
  pub output : (args env : List String) → Succeeds (M.output args env)
  pub mkdir_all : (p : String) (mode : ℕ) → Succeeds (M.mkdir_all p mode)
  pub write_file : (p : String) (b : Bytes) (mode : ℕ) → Succeeds (M.write_file p b mode)
  pub chmod : (p : String) (mode : ℕ) → Succeeds (M.chmod p mode)
  pub rename : (p q : String) → Succeeds (M.rename p q)

module _ {S A : Type 0} where
  succeeds_pure : (a : A) → Succeeds {S = S} (pure a)
  succeeds_pure a = Triple-pure a (λ _ _. tt)

  attempted :
      (o : Outcome S A)
      → Ensures
          (λ _ _. Unit {0})
          (λ _. ⊥)
          (elim o [ done a s' ↦ done (ok a) s' | fail e s' ↦ done (err e) s' ])
  attempted (done a s) = tt
  attempted (fail e s) = tt

  succeeds_attempt : (m : Exec S A) → Succeeds (attempt m)
  succeeds_attempt m = record { at = λ s _. attempted (m s) }

  -- The result of a call that never fails.
  result_of :
      (o : Outcome S A) → Ensures (λ _ _. Unit {0}) (λ _. ⊥) o → (a : A) × (s : S) × (o ≡ done a s)
  result_of (done a s) h = (a, s, refl)
  result_of (fail e s) h = absurd h

module _ {S A B : Type 0} where
  succeeds_bind :
      {m : Exec S A} {f : A → Exec S B}
      → Succeeds m
      → ((a : A) → Succeeds (f a))
      → Succeeds (m >>= f)
  succeeds_bind t u = Triple-bind (λ _ _. Unit {0}) t u

-- A type of credentials that git can be given.
abbrev IsKnown : EndpointAuth → Type 0
IsKnown auth = (auth.kind ≡ "ssh") ⊎ ((auth.kind == "basic" || auth.kind == "githubApp") ≡ true)

module _ (P : Platform) {M : Machine} (re : IsReliable M) where
  usable-IsKnown : (url : String) (auth : EndpointAuth) → IsUsable M url auth → IsKnown auth
  usable-IsKnown url auth (with_key kind path) = inl kind
  usable-IsKnown url auth (with_password kind https user secret) =
      inr (ground (arith, eq_iff auth.kind "basic", eq_iff auth.kind "githubApp"))

  replaces :
      (dst : String) (b : Bytes) (created final : ℕ) → Succeeds (replace_file M dst b created final)
  unfolding replace_file
  replaces dst b created final = succeeds_bind (succeeds_attempt (M.remove (dst <> ".tmp"))) λ _.
      succeeds_bind (re.write_file (dst <> ".tmp") b created)
        λ _. succeeds_bind (re.chmod (dst <> ".tmp") final) λ _. re.rename (dst <> ".tmp") dst

  authorizes :
      (cfg : Config) (auth : EndpointAuth) → IsKnown auth → Succeeds (git_auth_env M cfg auth)
  unfolding git_auth_env ensure_ask_pass_script
  authorizes cfg auth known =
      Triple-test (auth.kind == "ssh") (λ _. succeeds_pure _)
        λ no_ssh.
          Triple-test (auth.kind == "basic" || auth.kind == "githubApp")
            (λ _.
              succeeds_bind
                (succeeds_bind (re.mkdir_all _ _)
                  λ _. succeeds_bind (replaces _ _ _ _) λ _. succeeds_pure _)
                λ _. succeeds_pure _)
            (λ no_token. absurd (ground (arith, eq_iff auth.kind "ssh")))

  missing : (url : Option String) (env : List String) → Succeeds (remote_tags_missing M url env)
  unfolding has_remote_tags
  missing none env = succeeds_pure false
  missing (some url) env =
      succeeds_bind (succeeds_bind (re.output _ env) λ _. succeeds_pure _) λ _. succeeds_pure _

  decides_from :
      (path : Option String) (args : Command) (env : List String)
      → Succeeds (skips_push_from M path args env)
  unfolding has_local_refs
  decides_from none args env = succeeds_pure false
  decides_from (some path) args env =
      succeeds_bind (succeeds_bind (re.output _ []) λ _. succeeds_pure _)
        λ local. Triple-if local (succeeds_pure false) (missing (push_target_url args) env)

  decides : (args : Command) (env : List String) → Succeeds (should_skip_empty_tag_push M args env)
  unfolding should_skip_empty_tag_push
  decides args env =
      Triple-if (is_tag_wildcard_push args) (decides_from (command_repo_path args) args env)
        (succeeds_pure false)

  logs : (text : String) → Succeeds (log_line M text)
  logs text = record { at = λ _ _. tt }

  runs_one :
      (args : Command) (env : List String) (skip : Bool) → Succeeds (run_or_skip P M args env skip)
  unfolding run_or_skip
  runs_one args env true = logs _
  runs_one args env false = succeeds_bind (logs _) λ _. re.run args env

  module _ (cfg : Config) (source : IsKnown cfg.source_auth)
      (target : IsKnown cfg.target_auth) where
    chosen : (b : Bool) → IsKnown (if b then cfg.source_auth else cfg.target_auth)
    chosen true = source
    chosen false = target

    runs_command : (args : Command) → Succeeds (run_command P M cfg args)
    unfolding run_command auth_for_command
    runs_command args =
        succeeds_bind
          (authorizes cfg (auth_for_command cfg args) (chosen (any (λ arg. arg == "clone") args)))
          λ env. succeeds_bind (decides args env) λ skip. runs_one args env skip

    runs_all : (commands : List Command) → Succeeds (run_commands P M cfg commands)
    unfolding run_commands
    runs_all [] = succeeds_pure tt
    runs_all (args ∷ rest) = succeeds_bind (runs_command args) λ _. runs_all rest

  -- With credentials that are accepted for both endpoints and a configuration that there are
  -- commands for, a run ends without an error on a machine on which git succeeds and the script
  -- for passwords can be put in place.
  pub run_prepared-succeeds :
      (cfg : Config) (commands : List Command)
      → Admitted M cfg commands
      → (s : M.State) → (t : M.State) × (run_prepared P M cfg s ≡ done tt t)
  unfolding run_prepared
  run_prepared-succeeds cfg commands ad s =
      rw
        (
          (validate_endpoint_auth_iff M "source" cfg.source_url cfg.source_auth).1 ad.source,
          (validate_endpoint_auth_iff M "target" cfg.target_url cfg.target_auth).1 ad.target,
          ad.planned,
        )
        (reached (
          result_of (run_commands P M cfg commands s) (
            (runs_all cfg (usable-IsKnown cfg.source_url cfg.source_auth ad.source)
                (usable-IsKnown cfg.target_url cfg.target_auth ad.target) commands).at
              s tt)))
    where
      reached :
          (a : Unit {0}) × (t : M.State) × (run_commands P M cfg commands s ≡ done a t)
          → (t : M.State) × (run_commands P M cfg commands s ≡ done tt t)
      reached (a, t, e) = (t, e)
