-- ===== src/Runner/Execution.antt =====
-- sync/main.go: which git commands `Run` runs.
use git_mirror_operator.Base.{List, ◌++◌, ok, done, ◌≡◌}
use git_mirror_operator.Text.Path
use git_mirror_operator.Platform.{Platform}
use git_mirror_operator.Runner.Machine.{Machine}
use git_mirror_operator.Runner.Config.{Config}
use git_mirror_operator.Runner.Commands.{Command, build_git_commands}
use git_mirror_operator.Runner.Credentials.{prepare_credentials, prepared_credential_dir}
use git_mirror_operator.Runner.Usable.{IsUsable}
use git_mirror_operator.Runner.Trace.{IsTraced, Ran}

-- Both endpoints' credentials are accepted, and there are commands.
pub record Admitted (M : Machine) (cfg : Config) (commands : List Command) : Type 0 where
  pub planned : build_git_commands cfg ≡ ok commands
  pub source : IsUsable M cfg.source_url cfg.source_auth
  pub target : IsUsable M cfg.target_url cfg.target_auth

-- From the given state, `prepareCredentials` returned the configuration, and it differs from the
-- one it was given in the credentials alone.
pub record Readied (P : Platform) (M : Machine) (cfg : Config) (s : M.State) (made : Config)
    : Type 0 where
  pub prepared :
      (t : M.State) × (prepare_credentials P M cfg (prepared_credential_dir M) s ≡ done made t)
  pub same : made ≡ record cfg { source_auth = made.source_auth; target_auth = made.target_auth }

module _ (P : Platform) {M : Machine} (tr : IsTraced M) where
  open tr use {ran}

  -- The credentials alone differ.
  abbrev Differs : Config → Config → Type 0
  Differs cfg made =
      made ≡ record cfg { source_auth = made.source_auth; target_auth = made.target_auth }

  -- The commands of a configuration whose credentials `prepareCredentials` returned and the runner
  -- accepted, and what has been run of them.
  pub record Runs (cfg : Config) (s : M.State) (Part : List Command → List Command → Type 0)
      (t : M.State) : Type 0 where
    pub made : Config
    pub readied : Readied P M cfg s made
    pub commands : List Command
    pub admitted : Admitted M made commands
    pub part : List Command
    pub ran_part : ran t ≡ ran s ++ part
    pub of_commands : Part commands part

  abbrev of_part :
      {Part : List Command → List Command → Type 0} {cfg made : Config} {s t : M.State}
      → Readied P M cfg s made
      → (commands : List Command) × Admitted M made commands
        × ((e : List Command) × Ran P tr (ran s ++ e) t × Part commands e)
      → Runs cfg s Part t
  of_part {made = made} readied (commands, admitted, (e, h, p)) = record {
    made = made;
    readied = readied;
    commands = commands;
    admitted = admitted;
    part = e;
    ran_part = h;
    of_commands = p;
  }
