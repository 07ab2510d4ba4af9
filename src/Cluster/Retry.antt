-- ===== src/Cluster/Retry.antt =====
-- internal/controller/status_update.go: invariants of the retried patch.
use git_mirror_operator.Base.{◌∷◌, Outcome, done, fail, Exec, final}
use git_mirror_operator.Base.Hoare.{Ensures, Keeps}
use git_mirror_operator.Api.Mirror.{Key, GitMirror}
use git_mirror_operator.Cluster.{
  Cluster, Attempts, last, again, Retries, with_variables, variables_of, patch_read, patch_attempt,
  patch_git_mirror_status,
}
use git_mirror_operator.Cluster.Trace.{
  status_patched, Log, traced, inside, inward, outward, Keeps-quiet, Triple-noted_if_done,
}
use mathlib.Core.Path.{subst}

module _ {S : Type 0} (I : S → Type 0) (f : Exec S (Unit {0}))
    (keep : (s : S) → I s → I (final (f s))) where
  attempts_keep : {s : S} {o : Outcome S (Unit {0})} → Attempts f s o → I s → I (final o)
  attempts_keep {s} (last e) h = subst (λ o. I (final o)) e (keep s h)
  attempts_keep {s} (again e _ rest) h = attempts_keep rest (subst (λ o. I (final o)) e (keep s h))

module _ (C : Cluster) (retries : Retries C) (I : Log → Type 0)
    (patched : (log : Log) (m : GitMirror) → I log → I (status_patched m ∷ log)) where
  module _ {V : Type 0} (key : Key) (mutate : GitMirror → V → GitMirror × V) where
    -- One run of the closure.
    attempt_keeps :
        (x : (V × Log) × C.State)
        → I x.0.1
        → I (final (inside (patch_attempt (traced C) key mutate) x)).0.1
    unfolding patch_attempt
    attempt_keeps ((v, log), s) h =
        read ((traced C).get_mirror key (s, log)) ((Keeps-quiet I (C.get_mirror key)).at (s, log) h)
      where
        sent :
            (w : V) (o : Outcome (C.State × Log) (Unit {0}))
            → Ensures (λ _ s'. I s'.1) (λ s'. I s'.1) o
            → I (final (inward (with_variables w o))).0.1
        sent w (done a s') k = k
        sent w (fail e s') k = k

        read :
            (o : Outcome (C.State × Log) GitMirror)
            → Ensures (λ _ s'. I s'.1) (λ s'. I s'.1) o
            → I (final (inward (patch_read (traced C) key mutate v o))).0.1
        read (done m s') k =
            sent (mutate m v).1 ((traced C).patch_mirror_status m (mutate m v).0 s') (
              (Triple-noted_if_done (status_patched (mutate m v).0)
                  (C.patch_mirror_status m (mutate m v).0) I I
                  (λ log'. patched log' (mutate m v).0)).at
                s' k)
        read (fail e s') k = k

    pub patch_git_mirror_status-Keeps :
        (v : V) → Keeps (λ s. I s.1) (patch_git_mirror_status (traced C) key mutate v)
    unfolding patch_git_mirror_status
    patch_git_mirror_status-Keeps v = record {
      at = λ s h.
          go
            (C.retry_on_conflict (V × Log) (inside (patch_attempt (traced C) key mutate))
              ((v, s.1), s.0))
            (attempts_keep (λ x. I x.0.1) (inside (patch_attempt (traced C) key mutate))
              attempt_keeps
              (retries (V × Log) (inside (patch_attempt (traced C) key mutate)) ((v, s.1), s.0)) h);
    }
      where
        go :
            (o : Outcome ((V × Log) × C.State) (Unit {0}))
            → I (final o).0.1
            → Ensures {S = C.State × Log} (λ _ s. I s.1) (λ s. I s.1) (variables_of (outward o))
        go (done a ((v', log), s)) h = h
        go (fail e ((v', log), s)) h = h
