-- ===== src/Cluster/Trace.antt =====
-- A cluster that also keeps a log of the writes that the operator sends, newest first. It is a
-- device of the proofs: it answers as the cluster that it wraps.
use git_mirror_operator.Base.{List, ◌∷◌, Outcome, done, fail, Exec}
use git_mirror_operator.Base.Hoare.{Ensures, Keeps, Triple}
use git_mirror_operator.Api.Mirror.{Time, GitMirror}
use git_mirror_operator.Api.Job.{Job, Lease}
use git_mirror_operator.Cluster.{Cluster}

-- A lease counts as written if the write succeeded, a Job as requested whatever the answer.
pub data Call : Type 0 where
  lease_written : Lease → Call
  lease_deleted : Lease → Call
  job_requested : Job → Call
  status_patched : GitMirror → Call

abbrev pub Log : Type 0
Log = List Call

module _ {S A : Type 0} where
  abbrev pub quiet : Exec S A → Exec (S × Log) A
  quiet m (s, log) = elim (m s) [ done a s' ↦ done a (s', log) | fail e s' ↦ fail e (s', log) ]

  abbrev pub noted : Call → Exec S A → Exec (S × Log) A
  noted c m (s, log) = elim (m s) [
    | done a s' ↦ done a (s', c ∷ log)
    | fail e s' ↦ fail e (s', c ∷ log)
  ]

  abbrev pub noted_if_done : Call → Exec S A → Exec (S × Log) A
  noted_if_done c m (s, log) = elim (m s) [
    | done a s' ↦ done a (s', c ∷ log)
    | fail e s' ↦ fail e (s', log)
  ]

abbrev pub tick : {S : Type 0} → (S → Time × S) → S × Log → Time × (S × Log)
tick clock (s, log) = ((clock s).0, ((clock s).1, log))

module _ {S V : Type 0} where
  -- The log moves to the closure's variables while `RetryOnConflict` runs.
  abbrev pub inward : Outcome (V × (S × Log)) Unit → Outcome ((V × Log) × S) Unit
  inward (done a (v, (s, log))) = done a ((v, log), s)
  inward (fail e (v, (s, log))) = fail e ((v, log), s)

  abbrev pub outward : Outcome ((V × Log) × S) Unit → Outcome (V × (S × Log)) Unit
  outward (done a ((v, log), s)) = done a (v, (s, log))
  outward (fail e ((v, log), s)) = fail e (v, (s, log))

  abbrev pub inside : Exec (V × (S × Log)) Unit → Exec ((V × Log) × S) Unit
  inside f ((v, log), s) = inward (f (v, (s, log)))

abbrev pub traced : Cluster → Cluster
traced C = record {
  State = C.State × Log;
  clock = tick C.clock;
  wall_clock = tick C.wall_clock;
  get_mirror = λ key. quiet (C.get_mirror key);
  list_mirrors = quiet C.list_mirrors;
  patch_mirror_status = λ base m. noted_if_done (status_patched m) (C.patch_mirror_status base m);
  list_jobs = λ namespace label. quiet (C.list_jobs namespace label);
  get_job = λ key. quiet (C.get_job key);
  create_job = λ job. noted (job_requested job) (C.create_job job);
  get_lease = λ key. quiet (C.get_lease key);
  create_lease = λ lease. noted_if_done (lease_written lease) (C.create_lease lease);
  update_lease = λ lease. noted_if_done (lease_written lease) (C.update_lease lease);
  delete_lease = λ lease. noted_if_done (lease_deleted lease) (C.delete_lease lease);
  get_secret = λ key. quiet (C.get_secret key);
  retry_on_conflict =
      λ V f x. outward (C.retry_on_conflict (V × Log) (inside f) ((x.0, x.1.1), x.1.0));
}

-- Calls of the wrapped cluster, and conditions on the log.
module _ {S A : Type 0} where
  pub Keeps-quiet : (I : Log → Type 0) (m : Exec S A) → Keeps {S = S × Log} (λ s. I s.1) (quiet m)
  Keeps-quiet I m = record { at = λ s h. go s h (m s.0) }
    where
      go :
          (s : S × Log)
          → I s.1
          → (o : Outcome S A)
          → Ensures {S = S × Log}
              (λ _ s'. I s'.1)
              (λ s'. I s'.1)
              (elim o [ done a s' ↦ done a (s', s.1) | fail e s' ↦ fail e (s', s.1) ])
      go s h (done a s') = h
      go s h (fail e s') = h

  pub Triple-noted_if_done :
      (c : Call) (m : Exec S A) (B Q : Log → Type 0)
      → ((log : Log) → B log → Q (c ∷ log))
      → Triple {S = S × Log} (λ s. B s.1) (λ _ s. Q s.1) (λ s. B s.1) (noted_if_done c m)
  Triple-noted_if_done c m B Q q = record { at = λ s h. go s h (m s.0) }
    where
      go :
          (s : S × Log)
          → B s.1
          → (o : Outcome S A)
          → Ensures {S = S × Log}
              (λ _ s'. Q s'.1)
              (λ s'. B s'.1)
              (elim o [ done a s' ↦ done a (s', c ∷ s.1) | fail x s' ↦ fail x (s', s.1) ])
      go s h (done a s') = q s.1 h
      go s h (fail x s') = h

  pub Triple-noted :
      (c : Call) (m : Exec S A) (B Q : Log → Type 0)
      → ((log : Log) → B log → Q (c ∷ log))
      → Triple {S = S × Log} (λ s. B s.1) (λ _ s. Q s.1) (λ s. Q s.1) (noted c m)
  Triple-noted c m B Q q = record { at = λ s h. go s h (m s.0) }
    where
      go :
          (s : S × Log)
          → B s.1
          → (o : Outcome S A)
          → Ensures {S = S × Log}
              (λ _ s'. Q s'.1)
              (λ s'. Q s'.1)
              (elim o [ done a s' ↦ done a (s', c ∷ s.1) | fail x s' ↦ fail x (s', c ∷ s.1) ])
      go s h (done a s') = q s.1 h
      go s h (fail x s') = q s.1 h
