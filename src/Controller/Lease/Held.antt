-- ===== src/Controller/Lease/Held.antt =====
-- internal/controller/gitmirror_controller.go: whether the holder of a lease keeps it, by what the
-- API server answers of its Job.
use git_mirror_operator.Base.{
  String, Bool, true, false, ◌&&◌, ◌==◌, if◌then◌else◌, Outcome, done, fail, pure, raise, attempt,
  ◌>>=◌, ok, err, Error, is_not_found, ◌≡◌, ◌≢◌, ◌⊎◌, inl, inr, refl, eq_iff, eq_false→ne,
  Bool-cases,
}
use git_mirror_operator.Base.Hoare.{Ensures}
use git_mirror_operator.Api.Mirror.{Key, GitMirror}
use git_mirror_operator.Api.Job.{Job, Lease}
use git_mirror_operator.Platform.{Platform}
use git_mirror_operator.Cluster.{Cluster}
use git_mirror_operator.Status.{job_active}
use git_mirror_operator.Controller.Generation.{job_generation_matches}
use git_mirror_operator.Controller.Lease.{
  holder_text, job_name_active_for_generation, held_by_active,
}

module _ (P : Platform) (C : Cluster) (m : GitMirror) (holder : String) where
  abbrev pub holder_job : Lease → Key
  holder_job lease = record { namespace = m.namespace; name = holder_text lease.holder_identity }

  -- Nobody holds the lease, it is held for the same Job, or the Job of its holder is told to be
  -- missing, not to run, or to be of another generation.
  pub data Yields (lease : Lease) (s t : C.State) : Type 0 where
    unheld : holder_text lease.holder_identity ≡ "" → s ≡ t → Yields lease s t
    own : holder_text lease.holder_identity ≡ holder → s ≡ t → Yields lease s t
    gone :
        (e : Error)
        → C.get_job (holder_job lease) s ≡ fail e t
        → is_not_found e ≡ true
        → Yields lease s t
    idle :
        (job : Job)
        → C.get_job (holder_job lease) s ≡ done job t
        → (job_active job ≡ false) ⊎ (job_generation_matches job m.generation ≡ false)
        → Yields lease s t

  -- The lease is held for another Job.
  pub record IsForeign (lease : Lease) : Type 0 where
    pub named : holder_text lease.holder_identity ≢ ""
    pub other : holder_text lease.holder_identity ≢ holder

  -- That Job is told to run for the generation.
  pub record IsBusy (lease : Lease) (s t : C.State) : Type 0 where
    pub foreign : IsForeign lease
    pub job : Job
    pub found : C.get_job (holder_job lease) s ≡ done job t
    pub active : job_active job ≡ true
    pub matches : job_generation_matches job m.generation ≡ true

  -- That Job could not be read, for another reason than that it is missing.
  pub record IsUnread (lease : Lease) (s t : C.State) : Type 0 where
    pub foreign : IsForeign lease
    pub error : Error
    pub failed : C.get_job (holder_job lease) s ≡ fail error t
    pub unknown : is_not_found error ≡ false

  abbrev pub Judged : Lease → C.State → Bool → C.State → Type 0
  Judged lease s true t = IsBusy lease s t
  Judged lease s false t = Yields lease s t

  found_job :
      (lease : Lease) (s t : C.State) (job : Job)
      → IsForeign lease
      → C.get_job (holder_job lease) s ≡ done job t
      → Judged lease s (job_active job && job_generation_matches job m.generation) t
  found_job lease s t job foreign found = elim (Bool-cases (job_active job)) [
    | inr over ↦ rw over (idle job found (inl over))
    | inl active ↦ elim (Bool-cases (job_generation_matches job m.generation)) [
      | inr old ↦ rw (active, old) (idle job found (inr old))
      | inl matches ↦
          rw (active, matches)
            record {
              foreign = foreign;
              job = job;
              found = found;
              active = active;
              matches = matches;
            }
    ]
  ]

  asked :
      (lease : Lease) (s : C.State)
      → IsForeign lease
      → (o : Outcome C.State Job) → C.get_job (holder_job lease) s ≡ o
      → Ensures (Judged lease s) (IsUnread lease s) (
          (attempt (λ _. o) >>= λ found. elim found [
            | ok job ↦ pure (job_active job && job_generation_matches job m.generation)
            | err e ↦ if is_not_found e then pure false else raise e
          ])
            s)
  asked lease s foreign (done job t) found = found_job lease s t job foreign found
  asked lease s foreign (fail e t) failed = elim (Bool-cases (is_not_found e)) [
    | inl missing ↦ rw missing (gone e failed missing)
    | inr unknown ↦
        rw unknown record { foreign = foreign; error = e; failed = failed; unknown = unknown }
  ]

  pub judged :
      (lease : Lease) (s : C.State)
      → Ensures (Judged lease s) (IsUnread lease s) (held_by_active C m holder lease s)
  unfolding held_by_active job_name_active_for_generation
  judged lease s =
      let current = holder_text lease.holder_identity in
      elim (Bool-cases (current == "")) [
        | inl e ↦ rw e (unheld ((eq_iff current "").0 e) refl)
        | inr named ↦ elim (Bool-cases (current == holder)) [
          | inl e ↦ rw (named, e) (own ((eq_iff current holder).0 e) refl)
          | inr other ↦
              rw (named, other)
                (asked lease s
                  (record {
                    named = eq_false→ne current "" named;
                    other = eq_false→ne current holder other;
                  })
                  (C.get_job (holder_job lease) s) refl)
        ]
      ]
