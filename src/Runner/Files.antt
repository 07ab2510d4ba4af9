-- ===== src/Runner/Files.antt =====
-- The file system under sync/main.go: what the code relies on, as `os` documents it, for paths that
-- name their files directly, without links.
use git_mirror_operator.Base.{ℕ, String, Option, some, ◌≡◌, ◌≢◌}
use git_mirror_operator.Base.Hoare.{Ensures}
use git_mirror_operator.Platform.{Bytes}
use git_mirror_operator.Runner.Machine.{Machine}

-- The contents and the mode of the file at a path.
abbrev pub Files : Type 0
Files = String → Option (Bytes × ℕ)

-- The same files, and the same but for one.
abbrev pub Same : Files → Files → Type 0
Same f g = (q : String) → g q ≡ f q

abbrev pub SameBut : String → Files → Files → Type 0
SameBut p f g = (q : String) → q ≢ p → g q ≡ f q

pub record IsFileSystem (M : Machine) : Type 0 where
  pub files : M.State → Files
  pub read_file :
      (p : String) (s : M.State)
      → Ensures
          (λ b t. ((mode : ℕ) × (files s p ≡ some (b, mode))) × Same (files s) (files t))
          (λ t. Same (files s) (files t))
          (M.read_file p s)
  -- a directory holds no contents of its own
  pub mkdir_all :
      (p : String) (mode : ℕ) (s : M.State)
      → Ensures
          (λ _ t. Same (files s) (files t))
          (λ t. Same (files s) (files t))
          (M.mkdir_all p mode s)
  pub remove :
      (p : String) (s : M.State)
      → Ensures
          (λ _ t. SameBut p (files s) (files t))
          (λ t. SameBut p (files s) (files t))
          (M.remove p s)
  -- the mode may be another, as a file that exists keeps its own; a failed write may leave a part
  pub write_file :
      (p : String) (b : Bytes) (mode : ℕ) (s : M.State)
      → Ensures
          (λ _ t. SameBut p (files s) (files t) × ((own : ℕ) × (files t p ≡ some (b, own))))
          (λ t. SameBut p (files s) (files t))
          (M.write_file p b mode s)
  pub chmod :
      (p : String) (mode : ℕ) (s : M.State)
      → Ensures
          (λ _ t.
            SameBut p (files s) (files t)
            × ((b : Bytes) (own : ℕ) → files s p ≡ some (b, own) → files t p ≡ some (b, mode)))
          (λ t. Same (files s) (files t))
          (M.chmod p mode s)
  -- atomic: where it fails, nothing has moved
  pub rename :
      (p q : String) (s : M.State)
      → Ensures
          (λ _ t. (files t q ≡ files s p) × ((r : String) → r ≢ p → r ≢ q → files t r ≡ files s r))
          (λ t. Same (files s) (files t))
          (M.rename p q s)
