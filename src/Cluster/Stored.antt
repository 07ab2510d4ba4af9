-- ===== src/Cluster/Stored.antt =====
-- internal/controller/status_update.go: what a patch that succeeded has stored.
use git_mirror_operator.Base.{Outcome, done, fail, ◌≡◌, refl, ◌∙◌}
use git_mirror_operator.Api.Mirror.{Key, GitMirror}
use git_mirror_operator.Cluster.{
  Cluster, Attempts, last, again, Retries, with_variables, variables_of, patch_read, patch_attempt,
  patch_git_mirror_status,
}

abbrev pub mirror_key : GitMirror → Key
mirror_key m = record { namespace = m.namespace; name = m.name }

-- The last run of a closure that succeeded.
Attempts-done :
    {S : Type 0} {f : S → Outcome S (Unit {0})} {s : S} {o : Outcome S (Unit {0})} {t : S}
    → Attempts f s o
    → o ≡ done tt t
    → (s₀ : S) × (f s₀ ≡ done tt t)
Attempts-done {s} (last e) h = (s, e ∙ h)
Attempts-done (again e c rest) h = Attempts-done rest h

module _ (C : Cluster) {V : Type 0} (key : Key) (mutate : GitMirror → V → GitMirror × V) where
  -- The object was read, changed by the closure, and its patch was accepted.
  pub record IsPatched (s' : C.State) : Type 0 where
    pub before : C.State
    pub variables : V
    pub current : GitMirror
    pub between : C.State
    pub read : C.get_mirror key before ≡ done current between
    pub sent : C.patch_mirror_status current (mutate current variables).0 between ≡ done tt s'

  sent_lem :
      (w v : V) (o : Outcome C.State (Unit {0})) {s' : C.State}
      → with_variables w o ≡ done tt (v, s')
      → o ≡ done tt s'
  sent_lem w v (done _ s) e = cc
  sent_lem w v (fail x s) e = cc

  attempt-IsPatched :
      (v : V) (s : C.State) (o : Outcome C.State GitMirror) {w : V} {s' : C.State}
      → C.get_mirror key s ≡ o
      → patch_read C key mutate v o ≡ done tt (w, s')
      → IsPatched s'
  attempt-IsPatched v s (done m t) {w} e h = record {
    before = s;
    variables = v;
    current = m;
    between = t;
    read = e;
    sent = sent_lem (mutate m v).1 w (C.patch_mirror_status m (mutate m v).0 t) h;
  }
  attempt-IsPatched v s (fail x t) e h = cc

  done_of :
      (o : Outcome (V × C.State) (Unit {0})) {w : V} {s' : C.State}
      → variables_of o ≡ done w s'
      → o ≡ done tt (w, s')
  done_of (done _ (v, s)) h = cc
  done_of (fail x (v, s)) h = cc

  -- A patch that succeeds has stored what the closure made of what was read.
  pub patch_git_mirror_status-IsPatched :
      Retries C
      → (v : V) (s : C.State) {w : V} {s' : C.State}
      → patch_git_mirror_status C key mutate v s ≡ done w s'
      → IsPatched s'
  unfolding patch_git_mirror_status patch_attempt
  patch_git_mirror_status-IsPatched retries v s {w} {s'} h =
      let ran = Attempts-done (retries V (patch_attempt C key mutate) (v, s)) (done_of _ h) in
      attempt-IsPatched ran.0.0 ran.0.1 (C.get_mirror key ran.0.1) refl ran.1
