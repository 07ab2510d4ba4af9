-- ===== src/Tests/Mirroring.antt =====
-- The runner's theorems at a configuration with passwords, on a machine in memory.
use git_mirror_operator.Base.{
  ◌≤◌, String, true, false, if◌then◌else◌, ◌==◌, some, none, List, [], ◌∷◌, ok, done, ◌≡◌, ◌≢◌, ◌↔◌,
  refl, arith, eq_false→ne, inl,
}
use git_mirror_operator.Base.Hoare.{Ensures}
use git_mirror_operator.Text.Base64
use git_mirror_operator.Text.Decimal.{pos}
use git_mirror_operator.Text.Path
use git_mirror_operator.Text.Search.{trim_space}
use git_mirror_operator.Runner.Config.{EndpointAuth, Config, default_github_api_url}
use git_mirror_operator.Runner.Commands.{
  Command, build_git_commands, clone, prune_push, force_heads_ref_spec, force_tags_ref_spec,
}
use git_mirror_operator.Runner.Token.{claims_at}
use git_mirror_operator.Runner.Credentials.{
  owner_execute, ask_pass_script, copy_private_file, ensure_ask_pass_script, validate_endpoint_auth,
  prepare_endpoint_auth,
}
use git_mirror_operator.Runner.Main.{should_skip_empty_tag_push, run_prepared}
use git_mirror_operator.Runner.Atomic.{
  Replaced, Untouched, Copied, copy_private_file-Copied, ensure_ask_pass_script-Replaced,
}
use git_mirror_operator.Runner.Routing.{IsOperand, prune_push-PushesTo}
use git_mirror_operator.Runner.Usable.{IsUsable, with_password, validate_endpoint_auth_iff}
use git_mirror_operator.Runner.Prepared.{IsPrepared, prepare_endpoint_auth-IsPrepared}
use git_mirror_operator.Runner.Reliable.{run_prepared-succeeds}
use git_mirror_operator.Runner.Claims.{claims_at-window}
use git_mirror_operator.Runner.Skips.{remote_tags, should_skip_empty_tag_push_lem}
use git_mirror_operator.Tests.Memory.{platform}
use git_mirror_operator.Tests.Disk.{
  Disk, machine, machine-IsFileSystem, sure_machine, sure_machine-IsReliable,
}

abbrev auth : String → String → EndpointAuth
auth username password = record {
  kind = "basic";
  ssh_key_path = "";
  username = username;
  password = password;
  github_app_id = "";
  github_app_installation_id = "";
  github_app_private_key_path = "";
  github_app_api_url = default_github_api_url;
}

abbrev app : EndpointAuth
app = record (auth "" "") {
  kind = "githubApp";
  github_app_id = "17";
  github_app_installation_id = "4";
  github_app_private_key_path = "/key.pem";
}

abbrev cfg : Config
cfg = record {
  source_url = "https://git.example/a.git";
  target_url = "https://git.example/b.git";
  mirror_mode = "exact";
  include_tags = true;
  source_auth = auth "reader" "s3cret";
  target_auth = auth "writer" "t0ken";
  known_hosts_path = "";
  repo_path = "";
}

-- A key for the app, and one for SSH.
abbrev disk : Disk
disk = record { files = λ q. if q == "/key.pem" then some (1 ∷ 2 ∷ [], 292) else none; ran = [] }

copy_private_file-Copied_example :
    Ensures {S = Disk}
      (λ r t. (r ≡ "/tmp/k") × Copied disk.files t.files "/key.pem" "/tmp/k")
      (λ t. Untouched disk.files t.files "/tmp/k")
      (copy_private_file machine "/key.pem" "/tmp/k" disk)
unfolding machine-IsFileSystem
copy_private_file-Copied_example =
    copy_private_file-Copied machine-IsFileSystem "/key.pem" "/tmp/k" disk

ensure_ask_pass_script-Replaced_example :
    Ensures {S = Disk}
      (λ r t.
        (r ≡ Path.join "/tmp/c" "askpass.sh")
        × Replaced disk.files t.files r (Base64.bytes_of ask_pass_script) owner_execute)
      (λ t. Untouched disk.files t.files (Path.join "/tmp/c" "askpass.sh"))
      (ensure_ask_pass_script machine "/tmp/c" disk)
unfolding machine-IsFileSystem
ensure_ask_pass_script-Replaced_example =
    ensure_ask_pass_script-Replaced machine-IsFileSystem "/tmp/c" disk

target-IsOperand : IsOperand cfg.target_url
target-IsOperand = record {
  no_clone = eq_false→ne cfg.target_url "clone" refl;
  no_tags = eq_false→ne cfg.target_url "refs/tags/*:refs/tags/*" refl;
  no_force_tags = eq_false→ne cfg.target_url "+refs/tags/*:refs/tags/*" refl;
  no_option = refl;
}

source-IsUsable : IsUsable sure_machine cfg.source_url cfg.source_auth
source-IsUsable =
    with_password (inl refl) (_, refl, refl) (eq_false→ne "reader" "" refl)
      (eq_false→ne "s3cret" "" refl)

target-IsUsable : IsUsable sure_machine cfg.target_url cfg.target_auth
target-IsUsable =
    with_password (inl refl) (_, refl, refl) (eq_false→ne "writer" "" refl)
      (eq_false→ne "t0ken" "" refl)

validate_endpoint_auth_iff_example :
    (validate_endpoint_auth machine "source" cfg.source_url cfg.source_auth ≡ ok tt)
    ↔ IsUsable machine cfg.source_url cfg.source_auth
validate_endpoint_auth_iff_example =
    validate_endpoint_auth_iff machine "source" cfg.source_url cfg.source_auth

prepare_endpoint_auth-IsPrepared_example :
    Ensures {S = Disk}
      (λ made t. IsPrepared "/tmp/c" app disk.files t.files made)
      (λ _. Unit {0})
      (prepare_endpoint_auth platform machine "source" app "/tmp/c" disk)
unfolding machine-IsFileSystem
prepare_endpoint_auth-IsPrepared_example =
    prepare_endpoint_auth-IsPrepared platform machine-IsFileSystem "source" app "/tmp/c" disk

abbrev commands : List Command
commands = clone cfg ∷ prune_push cfg force_heads_ref_spec ∷ prune_push cfg force_tags_ref_spec ∷ []

planned : build_git_commands cfg ≡ ok commands
unfolding build_git_commands
planned = refl

run_prepared-succeeds_example :
    (t : Disk) × (run_prepared platform sure_machine cfg disk ≡ done tt t)
run_prepared-succeeds_example =
    run_prepared-succeeds platform sure_machine-IsReliable cfg commands
      (record { planned = planned; source = source-IsUsable; target = target-IsUsable }) disk

claims_at-window_example :
    ((claims_at "17" 63_850_118_400_000_000_000).iat ≡ pos 1_714_521_540)
    × (60 ≤ 1_714_521_600)
    × ((claims_at "17" 63_850_118_400_000_000_000).exp ≡ pos 1_714_522_140)
    × ((claims_at "17" 63_850_118_400_000_000_000).iss ≡ "17")
claims_at-window_example = claims_at-window "17" 63_850_118_400_000_000_000 (omega arith)

abbrev tags_push : Command
tags_push = prune_push cfg force_tags_ref_spec

-- Neither side has tags.
should_skip_empty_tag_push_example :
    (trim_space "" ≢ "" → should_skip_empty_tag_push machine tags_push [] disk ≡ done false disk)
    × ((remote : String) (u : Disk)
        → trim_space "" ≡ ""
        → remote_tags machine cfg tags_push [] disk disk ≡ done remote u
        → should_skip_empty_tag_push machine tags_push [] disk ≡ done (trim_space remote == "") u)
should_skip_empty_tag_push_example =
    should_skip_empty_tag_push_lem machine cfg tags_push [] disk "" disk
      (prune_push-PushesTo cfg refl target-IsOperand force_tags_ref_spec refl refl) refl
