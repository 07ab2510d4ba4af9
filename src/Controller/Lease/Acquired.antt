-- ===== src/Controller/Lease/Acquired.antt =====
-- internal/controller/gitmirror_controller.go: who gets the lease of a repository, by what the API
-- server answers.
use git_mirror_operator.Base.{
  String, Bool, true, false, if◌then◌else◌, Outcome, done, fail, pure, raise, attempt, ◌>>=◌, ok,
  err, Error, is_already_exists, is_conflict, ◌≡◌, inl, inr, refl, Bool-cases,
}
use git_mirror_operator.Base.Hoare.{Ensures, Ensures-weaken, Ensures-bind, Triple}
use git_mirror_operator.Api.Mirror.{GitMirror}
use git_mirror_operator.Api.Job.{Lease}
use git_mirror_operator.Platform.{Platform}
use git_mirror_operator.Cluster.{Cluster, read_clock}
use git_mirror_operator.Controller.Lease.{
  lease_key, new_lease, renewed_lease, held_by_active, write_lease, take_over_lease,
  acquire_sync_lease,
}
use git_mirror_operator.Controller.Lease.Held.{Yields, IsBusy, IsUnread, Judged, judged}

module _ (P : Platform) (C : Cluster) (m : GitMirror) (holder : String) where
  -- The lease could not be created as it exists already, and was read, from the state `s`.
  pub record IsRead (s : C.State) (lease : Lease) (t : C.State) : Type 0 where
    pub error : Error
    pub refused : C.State
    pub uncreated :
        C.create_lease (new_lease P m holder (C.clock s).0) (C.clock s).1 ≡ fail error refused
    pub exists_already : is_already_exists error ≡ true
    pub read : C.get_lease (lease_key P m) refused ≡ done lease t

  -- The lease was created, or it was one that yields and was updated.
  pub data Acquires (s t : C.State) : Type 0 where
    creates :
        C.create_lease (new_lease P m holder (C.clock s).0) (C.clock s).1 ≡ done tt t → Acquires s t
    takes_over :
        (lease : Lease) (s₁ s₂ : C.State)
        → IsRead s lease s₁
        → Yields P C m holder lease s₁ s₂
        → C.update_lease (renewed_lease lease holder (C.clock s).0) s₂ ≡ done tt t
        → Acquires s t

  -- The lease is held by a Job that runs, or another client changed it first.
  pub data Loses (s t : C.State) : Type 0 where
    to_holder :
        (lease : Lease) (s₁ : C.State)
        → IsRead s lease s₁
        → IsBusy P C m holder lease s₁ t
        → Loses s t
    to_writer :
        (lease : Lease) (s₁ s₂ : C.State)
        → IsRead s lease s₁
        → Yields P C m holder lease s₁ s₂
        → (e : Error) → C.update_lease (renewed_lease lease holder (C.clock s).0) s₂ ≡ fail e t
        → is_conflict e ≡ true
        → Loses s t

  -- A call failed for a reason that tells nothing of the lease.
  pub data Breaks (s t : C.State) : Type 0 where
    creating :
        (e : Error)
        → C.create_lease (new_lease P m holder (C.clock s).0) (C.clock s).1 ≡ fail e t
        → is_already_exists e ≡ false
        → Breaks s t
    reading :
        (e f : Error) (s₁ : C.State)
        → C.create_lease (new_lease P m holder (C.clock s).0) (C.clock s).1 ≡ fail e s₁
        → is_already_exists e ≡ true
        → C.get_lease (lease_key P m) s₁ ≡ fail f t
        → Breaks s t
    asking :
        (lease : Lease) (s₁ : C.State)
        → IsRead s lease s₁
        → IsUnread P C m holder lease s₁ t
        → Breaks s t
    writing :
        (lease : Lease) (s₁ s₂ : C.State)
        → IsRead s lease s₁
        → Yields P C m holder lease s₁ s₂
        → (e : Error) → C.update_lease (renewed_lease lease holder (C.clock s).0) s₂ ≡ fail e t
        → is_conflict e ≡ false
        → Breaks s t

  abbrev pub Decided : C.State → Bool → C.State → Type 0
  Decided s true t = Acquires s t
  Decided s false t = Loses s t

  written :
      (s : C.State) (lease : Lease) (s₁ s₂ : C.State)
      → IsRead s lease s₁
      → Yields P C m holder lease s₁ s₂
      → (o : Outcome C.State Unit)
      → C.update_lease (renewed_lease lease holder (C.clock s).0) s₂ ≡ o
      → Ensures (Decided s) (Breaks s) (
          (attempt (λ _. o) >>= λ updated. elim updated [
            | ok _ ↦ pure true
            | err e ↦ if is_conflict e then pure false else raise e
          ])
            s₂)
  written s lease s₁ s₂ read yields (done _ t) h = takes_over lease s₁ s₂ read yields h
  written s lease s₁ s₂ read yields (fail e t) h = elim (Bool-cases (is_conflict e)) [
    | inl raced ↦ rw raced (to_writer lease s₁ s₂ read yields e h raced)
    | inr other ↦ rw other (writing lease s₁ s₂ read yields e h other)
  ]

  swaps :
      (s : C.State) (lease : Lease) (s₁ : C.State)
      → IsRead s lease s₁
      → (busy : Bool)
      → Triple
          (Judged P C m holder lease s₁ busy)
          (Decided s)
          (Breaks s)
          (if busy then pure false else write_lease C (renewed_lease lease holder (C.clock s).0))
  unfolding write_lease
  swaps s lease s₁ read true = record { at = λ t h. to_holder lease s₁ read h }
  swaps s lease s₁ read false = record {
    at = λ s₂ h.
        written s lease s₁ s₂ read h (C.update_lease (renewed_lease lease holder (C.clock s).0) s₂)
          refl;
  }

  decides_read :
      (s : C.State) (lease : Lease) (s₁ : C.State)
      → IsRead s lease s₁
      → Ensures (Decided s) (Breaks s) (
          (held_by_active C m holder lease >>= λ busy.
          if busy then pure false else write_lease C (renewed_lease lease holder (C.clock s).0))
            s₁)
  decides_read s lease s₁ read =
      Ensures-bind (Judged P C m holder lease s₁) (held_by_active C m holder lease) s₁
        (Ensures-weaken (held_by_active C m holder lease s₁) (λ _ _ h. h)
          (λ _ h. asking lease s₁ read h) (judged P C m holder lease s₁))
        (swaps s lease s₁ read)

  decides_existing :
      (s : C.State) (e : Error) (s₁ : C.State)
      → C.create_lease (new_lease P m holder (C.clock s).0) (C.clock s).1 ≡ fail e s₁
      → is_already_exists e ≡ true
      → (o : Outcome C.State Lease) → C.get_lease (lease_key P m) s₁ ≡ o
      → Ensures (Decided s) (Breaks s) (
          ((λ _. o) >>= λ lease. held_by_active C m holder lease >>= λ busy.
          if busy then pure false else write_lease C (renewed_lease lease holder (C.clock s).0))
            s₁)
  decides_existing s e s₁ uncreated exists_already (done lease t) read =
      decides_read s lease t record {
        error = e;
        refused = s₁;
        uncreated = uncreated;
        exists_already = exists_already;
        read = read;
      }
  decides_existing s e s₁ uncreated exists_already (fail f t) unread =
      reading e f s₁ uncreated exists_already unread

  decides_created :
      (s : C.State) (o : Outcome C.State Unit)
      → C.create_lease (new_lease P m holder (C.clock s).0) (C.clock s).1 ≡ o
      → Ensures (Decided s) (Breaks s) (
          (attempt (λ _. o) >>= λ created. elim created [
            | ok _ ↦ pure true
            | err e ↦
                if is_already_exists e then take_over_lease P C m holder (C.clock s).0 else raise e
          ])
            (C.clock s).1)
  unfolding take_over_lease
  decides_created s (done _ t) h = creates h
  decides_created s (fail e t) h = elim (Bool-cases (is_already_exists e)) [
    | inl taken ↦ rw taken (decides_existing s e t h taken (C.get_lease (lease_key P m) t) refl)
    | inr other ↦ rw other (creating e h other)
  ]

  -- Whatever the API server answers, `acquireSyncLease` decides in one of three ways. It reports the
  -- lease as acquired only if the lease was created, or existed and was updated after it was found
  -- to be free, held for the same Job, or held for one that is missing, does not run or is of
  -- another generation. It reports it as not acquired only if it exists and the Job of its holder,
  -- another one, runs for the generation, or the update met a conflict. It returns an error only if
  -- the creation failed otherwise than because the lease exists, the lease or, otherwise than
  -- because it is missing, the holder's Job could not be read, or the update failed without a
  -- conflict.
  pub acquire_sync_lease-Decided :
      (s : C.State) → Ensures (Decided s) (Breaks s) (acquire_sync_lease P C m holder s)
  unfolding acquire_sync_lease read_clock
  acquire_sync_lease-Decided s =
      decides_created s (C.create_lease (new_lease P m holder (C.clock s).0) (C.clock s).1) refl
