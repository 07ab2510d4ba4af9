-- ===== src/Cluster.antt =====
-- The Kubernetes API as the operator calls it (a controller-runtime client), the clocks, and
-- client-go's `retry.RetryOnConflict`. All are parameters: any answers, and any changes that
-- others make between two calls, are allowed for.
pub mod Trace
pub mod Retry
pub mod Stored
use git_mirror_operator.Base.{
  String, Bool, true, false, List, Outcome, done, fail, Exec, Error, is_conflict, ◌≡◌,
}
use git_mirror_operator.Api.Mirror.{Time, Key, GitMirror}
use git_mirror_operator.Api.Job.{Job, Lease}
use git_mirror_operator.Platform.{Bytes}

pub record Cluster : Type 1 where
  pub State : Type 0
  -- `GitMirrorReconciler.Clock` or the wall clock in UTC
  pub clock : State → Time × State
  -- `time.Now`, which `time.Until` reads
  pub wall_clock : State → Time × State
  pub get_mirror : Key → Exec State GitMirror
  pub list_mirrors : Exec State (List GitMirror)
  -- `Status().Patch(current, MergeFrom(base))`
  pub patch_mirror_status : GitMirror → GitMirror → Exec State (Unit {0})
  -- the Jobs of a namespace whose `mirror.shamubernetes.com/gitmirror` label has a value
  pub list_jobs : String → String → Exec State (List Job)
  pub get_job : Key → Exec State Job
  pub create_job : Job → Exec State (Unit {0})
  pub get_lease : Key → Exec State Lease
  pub create_lease : Lease → Exec State (Unit {0})
  pub update_lease : Lease → Exec State (Unit {0})
  pub delete_lease : Lease → Exec State (Unit {0})
  -- a Secret's data
  pub get_secret : Key → Exec State (List (String × Bytes))
  -- `retry.RetryOnConflict(retry.DefaultRetry, f)` for a closure over variables of a type
  pub retry_on_conflict : (V : Type 0) → Exec (V × State) (Unit {0}) → Exec (V × State) (Unit {0})

-- What `RetryOnConflict` documents: `f` runs once or more, again only after a conflict, and the
-- last run's result is returned.
pub data Attempts {ℓ} {S : Type ℓ} (f : S → Outcome S (Unit {ℓ}))
    : S → Outcome S (Unit {ℓ}) → Type ℓ where
  last : {s : S} {o : Outcome S (Unit {ℓ})} → f s ≡ o → Attempts f s o
  again :
      {s s' : S} {e : Error} {o : Outcome S (Unit {ℓ})}
      → f s ≡ fail e s'
      → is_conflict e ≡ true
      → Attempts f s' o
      → Attempts f s o

abbrev pub with_variables : {V S A : Type 0} → V → Outcome S A → Outcome (V × S) A
with_variables v (done a s) = done a (v, s)
with_variables v (fail e s) = fail e (v, s)

-- The captured variables as the result; after an error nobody reads them.
abbrev pub variables_of : {V S : Type 0} → Outcome (V × S) (Unit {0}) → Outcome S V
variables_of (done _ (v, s)) = done v s
variables_of (fail e (v, s)) = fail e s

module _ (C : Cluster) where
  abbrev pub Retries : Type 1
  Retries =
      (V : Type 0) (f : Exec (V × C.State) (Unit {0})) (s : V × C.State)
      → Attempts f s (C.retry_on_conflict V f s)

  unfoldable pub read_clock : Exec C.State Time
  read_clock s = let (t, s') = C.clock s in done t s'

  unfoldable pub read_wall_clock : Exec C.State Time
  read_wall_clock s = let (t, s') = C.wall_clock s in done t s'

  module _ {V : Type 0} (key : Key) (mutate : GitMirror → V → GitMirror × V) where
    abbrev pub patch_read : V → Outcome C.State GitMirror → Outcome (V × C.State) (Unit {0})
    patch_read v (done current s) =
        with_variables (mutate current v).1 (C.patch_mirror_status current (mutate current v).0 s)
    patch_read v (fail e s) = fail e (v, s)

    -- The closure passed to `RetryOnConflict`: read, mutate, patch. What `mutate` assigns to the
    -- variables that it captures stays assigned, also when the patch fails.
    unfoldable pub patch_attempt : Exec (V × C.State) (Unit {0})
    patch_attempt (v, s) = patch_read v (C.get_mirror key s)

    -- `PatchGitMirrorStatus` (internal/controller/status_update.go)
    unfoldable pub patch_git_mirror_status : V → Exec C.State V
    patch_git_mirror_status v s = variables_of (C.retry_on_conflict V patch_attempt (v, s))
