-- ===== src/Controller/Lease/Exclusion.antt =====
-- internal/controller/gitmirror_controller.go: whether a Job is created under the lease, by what the
-- API server answers.
use git_mirror_operator.Base.{
  String, Bool, true, false, if◌then◌else◌, Outcome, done, fail, pure, raise, attempt, ◌>>=◌, ok,
  err, Error, is_already_exists, ◌≡◌, ◌⊎◌, inl, inr, refl, Bool-cases,
}
use git_mirror_operator.Base.Hoare.{Ensures, Ensures-weaken, Ensures-bind, Triple}
use git_mirror_operator.Api.Mirror.{GitMirror}
use git_mirror_operator.Api.Job.{Job}
use git_mirror_operator.Platform.{Platform}
use git_mirror_operator.Cluster.{Cluster}
use git_mirror_operator.Controller.Lease.{
  acquire_sync_lease, release_sync_lease, create_under_lease, create_locked,
}
use git_mirror_operator.Controller.Lease.Acquired.{
  Acquires, Loses, Breaks, Decided, acquire_sync_lease-Decided,
}

module _ (P : Platform) (C : Cluster) (m : GitMirror) (job : Job) where
  -- The Job was requested under the lease, and was created or existed already.
  pub record IsCreated (s t : C.State) : Type 0 where
    pub leased : C.State
    pub acquired : Acquires P C m job.name s leased
    pub answer :
        (C.create_job job leased ≡ done tt t)
        ⊎ ((e : Error) × (C.create_job job leased ≡ fail e t) × (is_already_exists e ≡ true))

  abbrev pub Reports : C.State → Bool × String → C.State → Type 0
  Reports s (true, name) t = (name ≡ job.name) × IsCreated s t
  Reports s (false, name) t = (name ≡ job.name) × Loses P C m job.name s t

  -- The lease was not decided on, or it was acquired and the creation of the Job failed otherwise
  -- than because the Job exists.
  pub data Fails (s t : C.State) : Type 0 where
    undecided : Breaks P C m job.name s t → Fails s t
    uncreated :
        (leased after : C.State) (e : Error)
        → Acquires P C m job.name s leased
        → C.create_job job leased ≡ fail e after
        → is_already_exists e ≡ false
        → Fails s t

  raised :
      (s : C.State) (e : Error) (o : Outcome C.State Unit)
      → ((t : C.State) → Fails s t)
      → (u : C.State)
      → Ensures (Reports s) (Fails s) ((attempt (λ _. o) >>= λ _. raise {A = Bool × String} e) u)
  raised s e (done _ t) h u = h t
  raised s e (fail _ t) h u = h t

  requested :
      (s leased : C.State)
      → Acquires P C m job.name s leased
      → (o : Outcome C.State Unit) → C.create_job job leased ≡ o
      → Ensures (Reports s) (Fails s) (
          (attempt (λ _. o) >>= λ created. elim created [
            | ok _ ↦ pure (true, job.name)
            | err e ↦
                if is_already_exists e
                then pure (true, job.name)
                else attempt (release_sync_lease P C m job.name) >>= λ _. raise e
          ])
            leased)
  requested s leased acquired (done _ t) h =
      (refl, record { leased = leased; acquired = acquired; answer = inl h })
  requested s leased acquired (fail e t) h = elim (Bool-cases (is_already_exists e)) [
    | inl exists ↦
        rw exists
          (refl, record { leased = leased; acquired = acquired; answer = inr (e, h, exists) })
    | inr other ↦ rw other (
        raised s e (release_sync_lease P C m job.name t)
          (λ u. uncreated leased t e acquired h other) t)
  ]

  creates_under :
      (s : C.State) (acquired : Bool)
      → Triple
          (Decided P C m job.name s acquired)
          (Reports s)
          (Fails s)
          (if acquired then create_under_lease P C m job else pure (false, job.name))
  unfolding create_under_lease
  creates_under s true = record {
    at = λ leased h. requested s leased h (C.create_job job leased) refl;
  }
  creates_under s false = record { at = λ t h. (refl, h) }

  -- Whatever the API server answers, the locked creation of a Job reports that the Job is there
  -- only if it acquired the lease, which was created, or was updated after it was found to be free,
  -- held for the same Job, or held for one that is missing, does not run or is of another
  -- generation, and then the Job was created or existed already. It reports that the lease is taken
  -- only if the Job of the lease's holder, another one, runs for the generation, or the update of the
  -- lease met a conflict. It returns an error only if a call failed for another reason than these:
  -- above all if the holder's Job cannot be read, otherwise than because it is missing.
  pub create_locked-Reports :
      (s : C.State) → Ensures (Reports s) (Fails s) (create_locked P C m job s)
  unfolding create_locked
  create_locked-Reports s =
      Ensures-bind (Decided P C m job.name s) (acquire_sync_lease P C m job.name) s
        (Ensures-weaken (acquire_sync_lease P C m job.name s) (λ _ _ h. h) (λ _ h. undecided h)
          (acquire_sync_lease-Decided P C m job.name s))
        (creates_under s)
