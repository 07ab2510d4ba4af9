-- ===== src/Tests/Disk.antt =====
-- A machine in memory: files, and the commands that were run.
use git_mirror_operator.Base.{
  ℕ, String, false, ◌==◌, if◌then◌else◌, Option, none, some, List, [], ◌∷◌, ◌++◌, not_found, ok,
  Outcome, done, fail, ◌≡◌, ◌≢◌, refl, ap, ◌∙◌, ne→eq_false, eq_refl, Option-cases, inl, inr,
}
use git_mirror_operator.Base.Hoare.{Ensures}
use git_mirror_operator.Platform.{Bytes}
use git_mirror_operator.Runner.Machine.{Machine}
use git_mirror_operator.Runner.Commands.{Command}
use git_mirror_operator.Runner.Files.{Files, IsFileSystem}
use git_mirror_operator.Runner.Trace.{IsTraced}
use git_mirror_operator.Runner.Reliable.{IsReliable}

pub record Disk : Type 0 where
  pub files : Files
  pub ran : List Command

abbrev pub put : String → Option (Bytes × ℕ) → Files → Files
put p v f q = if q == p then v else f q

-- A call on a file that is there.
abbrev pub on_file :
    {A : Type 0} → Option (Bytes × ℕ) → Disk → (Bytes → ℕ → Outcome Disk A) → Outcome Disk A
on_file none s k = fail not_found s
on_file (some (b, mode)) s k = k b mode

abbrev pub machine : Machine
machine = record {
  State = Disk;
  PrivateKey = ℕ;
  AnyKey = ℕ;
  environment = [];
  temp_dir = "/tmp";
  read_file = λ p s. on_file (s.files p) s (λ b mode. done b s);
  mkdir_all = λ p mode s. done tt s;
  remove = λ p s. done tt (record s { files = put p none s.files });
  write_file = λ p b mode s. done tt (record s { files = put p (some (b, mode)) s.files });
  chmod = λ p mode s.
      on_file (s.files p) s
        (λ b own. done tt (record s { files = put p (some (b, mode)) s.files }));
  rename = λ p q s.
      on_file (s.files p) s
        (λ b mode. done tt (record s { files = put q (some (b, mode)) (put p none s.files) }));
  run = λ args env s. done tt (record s { ran = s.ran ++ args ∷ [] });
  output = λ args env s. done "" s;
  log = λ text s. s;
  clock = λ s. (63_850_118_400_000_000_000, s);
  post = λ request s. done (record { status_code = 201; status = "201 Created"; body = [] }) s;
  check_url = λ url. ok tt;
  parse_url = λ url. some (record { scheme = "https"; has_user = false; redacted = url });
  path_escape = λ s. s;
  pem_decode = λ b. some b;
  parse_pkcs1 = λ b. some 7;
  parse_pkcs8 = λ b. ok 7;
  as_rsa = λ key. some key;
  marshal_claims = λ c. ok [];
  sign = λ key digest s. done digest s;
  decode_token = λ body. ok "installation-token";
}

pub put_same : (p : String) (v : Option (Bytes × ℕ)) (f : Files) → put p v f p ≡ v
put_same p v f = rw (eq_refl p) refl

pub put_other : (p q : String) (v : Option (Bytes × ℕ)) (f : Files) → q ≢ p → put p v f q ≡ f q
put_other p q v f ne = rw (ne→eq_false q p ne) refl

pub with_mode :
    (b c : Bytes) (m n mode : ℕ)
    → ◌≡◌ {A = Option (Bytes × ℕ)} (some (b, m)) (some (c, n))
    → ◌≡◌ {A = Option (Bytes × ℕ)} (some (b, mode)) (some (c, mode))
with_mode b c m n mode e = cc

unfoldable pub machine-IsFileSystem : IsFileSystem machine
machine-IsFileSystem = record {
  files = λ s. s.files;
  read_file = λ p s. elim (Option-cases (s.files p)) [
    | inl e ↦ rw e (λ q. refl)
    | inr (v, e) ↦ rw e ((v.1, refl), λ q. refl)
  ];
  mkdir_all = λ p mode s q. refl;
  remove = λ p s q ne. put_other p q none s.files ne;
  write_file = λ p b mode s. (
    λ q ne. put_other p q (some (b, mode)) s.files ne,
    (mode, put_same p (some (b, mode)) s.files),
  );
  chmod = λ p mode s. elim (Option-cases (s.files p)) [
    | inl e ↦ rw e (λ q. refl)
    | inr (v, e) ↦ rw e (
      λ q ne. put_other p q (some (v.0, mode)) s.files ne,
      λ b own h. put_same p (some (v.0, mode)) s.files ∙ with_mode v.0 b v.1 own mode h,
    )
  ];
  rename = λ p q s. elim (Option-cases (s.files p)) [
    | inl e ↦ rw e (λ r. refl)
    | inr (v, e) ↦ rw e (
      put_same q (some v) (put p none s.files),
      λ r no_p no_q.
          put_other q r (some v) (put p none s.files) no_q ∙ put_other p r none s.files no_p,
    )
  ];
}

pub on_file_quiet :
    {A : Type 0} (v : Option (Bytes × ℕ)) (s : Disk) (k : Bytes → ℕ → Outcome Disk A)
    (r : List Command)
    → ((b : Bytes) (mode : ℕ) → Ensures (λ _ t. t.ran ≡ r) (λ t. t.ran ≡ r) (k b mode))
    → s.ran ≡ r
    → Ensures (λ _ t. t.ran ≡ r) (λ t. t.ran ≡ r) (on_file v s k)
on_file_quiet none s k r h e = e
on_file_quiet (some (b, mode)) s k r h e = h b mode

unfoldable pub machine-IsTraced : IsTraced machine
machine-IsTraced = record {
  ran = λ s. s.ran;
  log = λ text s. refl;
  run = λ args env r. record { at = λ s h. ap (λ l. l ++ args ∷ []) h };
  output = λ args env r. record { at = λ s h. h };
  mkdir_all = λ p mode r. record { at = λ s h. h };
  remove = λ p r. record { at = λ s h. h };
  write_file = λ p b mode r. record { at = λ s h. h };
  chmod = λ p mode r. record { at = λ s h. on_file_quiet (s.files p) s _ r (λ _ _. h) h };
  read_file = λ p r. record { at = λ s h. on_file_quiet (s.files p) s _ r (λ _ _. h) h };
  clock = λ s. refl;
  post = λ request r. record { at = λ s h. h };
  sign = λ key digest r. record { at = λ s h. h };
  rename = λ p q r. record { at = λ s h. on_file_quiet (s.files p) s _ r (λ _ _. h) h };
}

-- A machine on which files can always be written.
abbrev pub sure_machine : Machine
sure_machine = record machine { chmod = λ p mode s. done tt s; rename = λ p q s. done tt s }

pub sure_machine-IsReliable : IsReliable sure_machine
sure_machine-IsReliable = record {
  run = λ args env. record { at = λ _ _. tt };
  output = λ args env. record { at = λ _ _. tt };
  mkdir_all = λ p mode. record { at = λ _ _. tt };
  write_file = λ p b mode. record { at = λ _ _. tt };
  chmod = λ p mode. record { at = λ _ _. tt };
  rename = λ p q. record { at = λ _ _. tt };
}
