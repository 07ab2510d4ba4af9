-- ===== src/Runner/Atomic.antt =====
-- sync/main.go: `copyPrivateFile` and `ensureAskPassScript` replace a file whole or not at all.
use text.Mathlib.TextPositions.{len-append}
use git_mirror_operator.Base.{
  ℕ, String, ◌<>◌, len, some, ◌≡◌, ◌≢◌, ◌∙◌, refl, ap, sym, arith, Result, ok, err,
}
use git_mirror_operator.Base.Hoare.{
  Ensures, Ensures-weaken, Triple, Triple-before, Triple-pure, Triple-given, Triple-bind, OnResult,
  Triple-attempt,
}
use git_mirror_operator.Platform.{Bytes}
use git_mirror_operator.Text.Path
use git_mirror_operator.Text.Base64
use git_mirror_operator.Runner.Machine.{Machine}
use git_mirror_operator.Runner.Files.{Files, Same, SameBut, IsFileSystem}
use git_mirror_operator.Runner.Credentials.{
  owner_all, owner_write, owner_read, owner_execute, ask_pass_script, replace_file,
  copy_private_file, ensure_ask_pass_script,
}

abbrev pub aside : String → String
aside dst = dst <> ".tmp"

aside-ne : (dst : String) → dst ≢ aside dst
aside-ne dst e = omega (arith, ap len e, len-append dst ".tmp")

-- What is at a path, and that all else but the file beside it is as it was.
pub record Replaced (before after : Files) (dst : String) (contents : Bytes) (mode : ℕ)
    : Type 0 where
  pub replaced : after dst ≡ some (contents, mode)
  pub others : (q : String) → q ≢ dst → q ≢ aside dst → after q ≡ before q

-- What a copy leaves behind: its source's contents, for the owner to read alone.
pub record Copied (f g : Files) (src dst : String) : Type 0 where
  pub contents : Bytes
  pub own : ℕ
  pub source : f src ≡ some (contents, own)
  pub target : Replaced f g dst contents owner_read

-- After a failure the file at the path is as it was, and so is all but the one beside it.
pub record Untouched (f g : Files) (dst : String) : Type 0 where
  pub old : g dst ≡ f dst
  pub others : SameBut (aside dst) f g

module _ {M : Machine} (fs : IsFileSystem M) (f : Files) (dst : String) where
  open fs use {files}

  abbrev pub Kept : M.State → Type 0
  Kept t = SameBut (aside dst) f (files t)

  abbrev Partial : Bytes → M.State → Type 0
  Partial b t = Kept t × ((own : ℕ) × (files t (aside dst) ≡ some (b, own)))

  abbrev Complete : Bytes → ℕ → M.State → Type 0
  Complete b mode t = Kept t × (files t (aside dst) ≡ some (b, mode))

  removes : Triple Kept (λ _. Kept) Kept (M.remove (aside dst))
  removes = record {
    at = λ s k.
        Ensures-weaken (M.remove (aside dst) s) (λ _ t h q ne. h q ne ∙ k q ne)
          (λ t h q ne. h q ne ∙ k q ne) (fs.remove (aside dst) s);
  }

  cleared :
      (r : Result (Unit {0})) (s : M.State) → OnResult {A = Unit {0}} (λ _. Kept) Kept r s → Kept s
  cleared (ok a) s k = k
  cleared (err e) s k = k

  writes :
      (b : Bytes) (mode : ℕ) → Triple Kept (λ _. Partial b) Kept (M.write_file (aside dst) b mode)
  writes b mode = record {
    at = λ s k.
        Ensures-weaken (M.write_file (aside dst) b mode s)
          (λ _ t h. (λ q ne. h.0 q ne ∙ k q ne, h.1)) (λ t h q ne. h q ne ∙ k q ne)
          (fs.write_file (aside dst) b mode s);
  }

  chmods :
      (b : Bytes) (mode : ℕ)
      → Triple (Partial b) (λ _. Complete b mode) Kept (M.chmod (aside dst) mode)
  chmods b mode = record {
    at = λ s k.
        Ensures-weaken (M.chmod (aside dst) mode s)
          (λ _ t h. (λ q ne. h.0 q ne ∙ k.0 q ne, h.1 b k.1.0 k.1.1)) (λ t h q ne. h q ∙ k.0 q ne)
          (fs.chmod (aside dst) mode s);
  }

  renames :
      (b : Bytes) (mode : ℕ)
      → Triple
          (Complete b mode)
          (λ _ t. Replaced f (files t) dst b mode)
          Kept
          (M.rename (aside dst) dst)
  renames b mode = record {
    at = λ s k.
        Ensures-weaken (M.rename (aside dst) dst s)
          (λ _ t h. record { replaced = h.0 ∙ k.1; others = λ q ne ne'. h.1 q ne' ne ∙ k.0 q ne' })
          (λ t h q ne. h q ∙ k.0 q ne) (fs.rename (aside dst) dst s);
  }

  pub replace_file-Replaced :
      (b : Bytes) (created mode : ℕ)
      → Triple Kept
          (λ _ t. Replaced f (files t) dst b mode)
          Kept
          (replace_file M dst b created mode)
  unfolding replace_file
  replace_file-Replaced b created mode =
      Triple-bind (OnResult (λ _. Kept) Kept) (Triple-attempt removes) λ r.
        Triple-before (cleared r) (
          Triple-bind (λ _. Partial b) (writes b created)
            λ _. Triple-bind (λ _. Complete b mode) (chmods b mode) λ _. renames b mode)

  Kept-Same : (g h : Files) → Same g h → SameBut (aside dst) f g → SameBut (aside dst) f h
  Kept-Same g h same k q ne = same q ∙ k q ne

  makes_dir : (p : String) (mode : ℕ) → Triple Kept (λ _. Kept) Kept (M.mkdir_all p mode)
  makes_dir p mode = record {
    at = λ s k.
        Ensures-weaken (M.mkdir_all p mode s) (λ _ t h. Kept-Same (files s) (files t) h k)
          (λ t h. Kept-Same (files s) (files t) h k) (fs.mkdir_all p mode s);
  }

module _ {M : Machine} (fs : IsFileSystem M) where
  open fs use {files}

  reads :
      (f : Files) (src dst : String)
      → Triple
          (λ t. Same f (files t))
          (λ b t. ((own : ℕ) × (f src ≡ some (b, own))) × Kept fs f dst t)
          (Kept fs f dst)
          (M.read_file src)
  reads f src dst = record {
    at = λ s k.
        Ensures-weaken (M.read_file src s)
          (λ b t h. ((h.0.0, sym (k src) ∙ h.0.1), λ q ne. h.1 q ∙ k q)) (λ t h q ne. h q ∙ k q)
          (fs.read_file src s);
  }

  pub copies :
      (f : Files) (src dst : String)
      → Triple
          (λ t. Same f (files t))
          (λ r t. (r ≡ dst) × Copied f (files t) src dst)
          (Kept fs f dst)
          (copy_private_file M src dst)
  unfolding copy_private_file
  copies f src dst =
      Triple-bind (λ b t. ((own : ℕ) × (f src ≡ some (b, own))) × Kept fs f dst t) (reads f src dst)
        λ b. Triple-given λ found.
          Triple-bind (λ _. Kept fs f dst) (makes_dir fs f dst (Path.dir dst) owner_all)
            λ _.
              Triple-bind (λ _ t. Replaced f (files t) dst b owner_read)
                (replace_file-Replaced fs f dst b owner_write owner_read)
                λ _. Triple-pure dst (λ t h.
                  (refl, record { contents = b; own = found.0; source = found.1; target = h }))

  installs :
      (f : Files) (dir : String)
      → Triple
          (Kept fs f (Path.join dir "askpass.sh"))
          (λ r t.
            (r ≡ Path.join dir "askpass.sh")
            × Replaced f (files t) r (Base64.bytes_of ask_pass_script) owner_execute)
          (Kept fs f (Path.join dir "askpass.sh"))
          (ensure_ask_pass_script M dir)
  unfolding ensure_ask_pass_script
  installs f dir =
      let path = Path.join dir "askpass.sh" in
      let script = Base64.bytes_of ask_pass_script in
      Triple-bind (λ _. Kept fs f path) (makes_dir fs f path dir owner_all)
        λ _.
          Triple-bind (λ _ t. Replaced f (files t) path script owner_execute)
            (replace_file-Replaced fs f path script owner_all owner_execute)
            λ _. Triple-pure path (λ t h. (refl, h))

  kept-Untouched :
      (f : Files) (dst : String) (s : M.State) → Kept fs f dst s → Untouched f (files s) dst
  kept-Untouched f dst s k = record { old = k dst (aside-ne dst); others = k }

  -- On a file system that behaves as documented, copying a private file either succeeds: the copy,
  -- at the path that is returned, has the contents that the source had and is for its owner to read
  -- alone, and no other file has changed but the one beside it. Or it fails: the file at the copy's
  -- path is as it was, and so is every other but the one beside it.
  pub copy_private_file-Copied :
      (src dst : String) (s : M.State)
      → Ensures
          (λ r t. (r ≡ dst) × Copied (files s) (files t) src dst)
          (λ t. Untouched (files s) (files t) dst)
          (copy_private_file M src dst s)
  copy_private_file-Copied src dst s =
      Ensures-weaken (copy_private_file M src dst s) (λ _ t h. h) (kept-Untouched (files s) dst)
        ((copies (files s) src dst).at s (λ q. refl))

  -- On a file system that behaves as documented, the script that hands git a password is put in
  -- place whole, for its owner to read and execute alone, with no other file changed but the one
  -- beside it; or the call fails, and an older script is as it was, like every other file but the
  -- one beside it.
  pub ensure_ask_pass_script-Replaced :
      (dir : String) (s : M.State)
      → Ensures
          (λ r t.
            (r ≡ Path.join dir "askpass.sh")
            × Replaced (files s) (files t) r (Base64.bytes_of ask_pass_script) owner_execute)
          (λ t. Untouched (files s) (files t) (Path.join dir "askpass.sh"))
          (ensure_ask_pass_script M dir s)
  ensure_ask_pass_script-Replaced dir s =
      Ensures-weaken (ensure_ask_pass_script M dir s) (λ _ t h. h)
        (kept-Untouched (files s) (Path.join dir "askpass.sh"))
        ((installs (files s) dir).at s (λ q ne. refl))
