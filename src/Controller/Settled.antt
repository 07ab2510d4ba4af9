-- ===== src/Controller/Settled.antt =====
-- internal/controller/gitmirror_controller.go: `Reconcile` where the status asks for nothing.
use git_mirror_operator.Base.{
  Bool, true, false, not, ◌&&◌, ◌||◌, ◌==◌, List, [], ◌∷◌, done, ◌≡◌, ◌≢◌, ◌∙◌, refl, sym, ap, any,
  inl, inr, String, Bool-cases, ne→eq_false, done-bind, done-bind_attempt, arith, get_text, All,
  eq_iff,
}
use git_mirror_operator.Text.Decimal.{ℤ, pos, negsuc, ◌=ℤ◌}
use git_mirror_operator.Api.Mirror.{Time, Key, GitMirror}
use git_mirror_operator.Api.Job.{Job}
use git_mirror_operator.Platform.{Platform}
use git_mirror_operator.Cluster.{Cluster, read_clock}
use git_mirror_operator.Jobs.Names.{label_git_mirror, labels_for_mirror}
use git_mirror_operator.Status.{job_finished, apply_completed_job_status_for_generation}
use git_mirror_operator.Status.Completion.{apply_completed_job_status_for_generation_lem}
use git_mirror_operator.Controller.Generation.{
  jobs_for_generation, active_job_exists, job_name_exists,
}
use git_mirror_operator.Controller.Lease.{Reconciler}
use git_mirror_operator.Controller.Completed.{
  pass, is_skipped, complete_jobs, reconcile_completed_jobs,
}
use git_mirror_operator.Controller.Schedule.{
  reconcile_unobserved_generation, reconcile_pending_resync, reconcile_fallback, reconcile_mirror,
  reconcile_found, reconcile,
}

-- Why a Job asks for no completion: it is not finished, it is the one whose completion is recorded,
-- or another Job was requested after it and is still there.
pub data IsDealtWith (m : GitMirror) (jobs : List Job) (job : Job) : Type 0 where
  unfinished : job_finished job ≡ false → IsDealtWith m jobs job
  is_recorded : m.status.last_completed_job_name ≡ job.name → IsDealtWith m jobs job
  superseded :
      m.status.last_job_name ≢ ""
      → m.status.last_job_name ≢ job.name
      → any (λ other. other.name == m.status.last_job_name) jobs ≡ true
      → IsDealtWith m jobs job

-- Nothing is left to do for a mirror and the Jobs of its generation.
pub record IsSettled (m : GitMirror) (jobs : List Job) : Type 0 where
  pub dealt_with : All (IsDealtWith m jobs) jobs
  pub observed : m.status.observed_generation ≡ m.generation
  pub idle : m.status.pending_resync ≡ false
  pub unscheduled : m.spec.fallback.schedule ≡ ""

named_among :
    (name : String) (jobs : List Job)
    → job_name_exists jobs name ≡ any (λ other. other.name == name) jobs
unfolding job_name_exists
named_among name [] = refl
named_among name (job ∷ jobs) = ap (λ b. job.name == name || b) (named_among name jobs)

IsDealtWith→is_skipped :
    (m : GitMirror) (jobs : List Job) (job : Job)
    → IsDealtWith m jobs job
    → is_skipped m jobs job ≡ true
unfolding is_skipped
IsDealtWith→is_skipped m jobs job (unfinished h) = rw h refl
IsDealtWith→is_skipped m jobs job (is_recorded h) =
    ground (arith, eq_iff m.status.last_completed_job_name job.name)
IsDealtWith→is_skipped m jobs job (superseded named other among) =
    rw
      (
        ne→eq_false m.status.last_job_name "" named,
        ne→eq_false m.status.last_job_name job.name other,
        named_among m.status.last_job_name jobs,
        among,
      )
      (ground arith)

All-skipped :
    (m : GitMirror) (jobs rest : List Job)
    → All (IsDealtWith m jobs) rest
    → All (λ job. is_skipped m jobs job ≡ true) rest
All-skipped m jobs [] h = tt
All-skipped m jobs (job ∷ rest) (h, hs) =
    (IsDealtWith→is_skipped m jobs job h, All-skipped m jobs rest hs)

or_true : (b : Bool) → (b || true) ≡ true
or_true true = refl
or_true false = refl

=ℤ_refl : (g : ℤ) → (g =ℤ g) ≡ true
=ℤ_refl (pos n) = ground arith
=ℤ_refl (negsuc n) = ground arith

module _ (P : Platform) (C : Cluster) (r : Reconciler) (key : Key) where
  complete_jobs_skip :
      (m : GitMirror) (now : Time) (jobs rest : List Job) (s : C.State)
      → All (λ job. is_skipped m jobs job ≡ true) rest
      → complete_jobs P C r key m now jobs rest s ≡ done pass s
  unfolding complete_jobs
  complete_jobs_skip m now jobs [] s h = refl
  complete_jobs_skip m now jobs (job ∷ rest) s (h, hs) =
      rw h (complete_jobs_skip m now jobs rest s hs)

  module _ (m : GitMirror) (active : Bool) (now : Time) (s : C.State) where
    unobserved_pass :
        (m.status.observed_generation =ℤ m.generation) ≡ true
        → reconcile_unobserved_generation P C r key now m active s ≡ done pass s
    unfolding reconcile_unobserved_generation
    unobserved_pass h = rw h refl

    pending_pass :
        m.status.pending_resync ≡ false
        → reconcile_pending_resync P C r key now m active s ≡ done pass s
    unfolding reconcile_pending_resync
    pending_pass h = rw h refl

    unobserved_wait :
        active ≡ true → reconcile_unobserved_generation P C r key now m active s ≡ done pass s
    unfolding reconcile_unobserved_generation
    unobserved_wait h = rw (h, or_true (m.status.observed_generation =ℤ m.generation)) refl

    pending_wait : active ≡ true → reconcile_pending_resync P C r key now m active s ≡ done pass s
    unfolding reconcile_pending_resync
    pending_wait h = rw (h, or_true (not m.status.pending_resync)) refl

    fallback_none :
        m.spec.fallback.schedule ≡ "" → reconcile_fallback P C r key now m active s ≡ done (pos 0) s
    unfolding reconcile_fallback
    fallback_none h = rw h refl

  reconcile_mirror_settled :
      (m : GitMirror) (now : Time) (jobs : List Job) (s : C.State)
      → IsSettled m jobs
      → reconcile_mirror P C r key now m jobs s ≡ done (pos 0) s
  unfolding reconcile_mirror reconcile_completed_jobs
  reconcile_mirror_settled m now jobs s h =
      done-bind _ (complete_jobs_skip m now jobs jobs s (All-skipped m jobs jobs h.dealt_with))
      ∙ done-bind _
          (unobserved_pass m (active_job_exists jobs) now s (rw h.observed (=ℤ_refl m.generation)))
      ∙ done-bind _ (pending_pass m (active_job_exists jobs) now s h.idle)
      ∙ fallback_none m (active_job_exists jobs) now s h.unscheduled

  -- If each Job of the mirror's generation that `Reconcile` lists is unfinished, or the one whose
  -- completion the status records, or was followed by another requested Job that is listed, and the
  -- generation is observed, no resync is pending and there is no fallback schedule, then it reads
  -- the clock once more, changes nothing and asks for no further run.
  pub reconcile-settled :
      (s s₁ s₂ : C.State) (m : GitMirror) (jobs : List Job)
      → C.get_mirror key s ≡ done m s₁
      → C.list_jobs m.namespace (get_text label_git_mirror (labels_for_mirror P m)) s₁
        ≡ done jobs s₂
      → IsSettled m (jobs_for_generation jobs m.generation)
      → reconcile P C r key s ≡ done (pos 0) (C.clock s₂).1
  unfolding reconcile reconcile_found read_clock
  reconcile-settled s s₁ s₂ m jobs read listed h =
      done-bind_attempt _ read
      ∙ done-bind _ listed
      ∙ reconcile_mirror_settled m (C.clock s₂).0 (jobs_for_generation jobs m.generation)
          (C.clock s₂).1 h

  -- While a Job of the mirror's generation runs, and each finished one is skipped, a run of
  -- `Reconcile` for a mirror with no schedule changes nothing and asks for no further run, whatever
  -- is pending and whichever generation was observed.
  pub reconcile-active :
      (s s₁ s₂ : C.State) (m : GitMirror) (jobs : List Job)
      → C.get_mirror key s ≡ done m s₁
      → C.list_jobs m.namespace (get_text label_git_mirror (labels_for_mirror P m)) s₁
        ≡ done jobs s₂
      → All
          (λ job. is_skipped m (jobs_for_generation jobs m.generation) job ≡ true)
          (jobs_for_generation jobs m.generation)
      → active_job_exists (jobs_for_generation jobs m.generation) ≡ true
      → m.spec.fallback.schedule ≡ ""
      → reconcile P C r key s ≡ done (pos 0) (C.clock s₂).1
  unfolding reconcile reconcile_found read_clock reconcile_mirror reconcile_completed_jobs
  reconcile-active s s₁ s₂ m jobs read listed recorded active unscheduled =
      let current = jobs_for_generation jobs m.generation in
      let (now, s₃) = C.clock s₂ in
      done-bind_attempt _ read
      ∙ done-bind _ listed
      ∙ done-bind _ (complete_jobs_skip m now current current s₃ recorded)
      ∙ done-bind _ (unobserved_wait m (active_job_exists current) now s₃ active)
      ∙ done-bind _ (pending_wait m (active_job_exists current) now s₃ active)
      ∙ fallback_none m (active_job_exists current) now s₃ unscheduled

  module _ (m : GitMirror) (job : Job) (t : Time) where
    -- The mirror once the finished Job is recorded.
    abbrev after_job : GitMirror
    after_job = (apply_completed_job_status_for_generation P m job m.generation t).0

    -- No Job but this one is finished.
    abbrev IsLast : List Job → Type 0
    IsLast jobs = All (λ j. (job_finished j && not (j.name == job.name)) ≡ false) jobs

    dealt_with :
        (m' : GitMirror) (jobs : List Job) (j : Job)
        → m'.status.last_completed_job_name ≡ job.name
        → (job_finished j && not (j.name == job.name)) ≡ false
        → IsDealtWith m' jobs j
    dealt_with m' jobs j e h = elim (Bool-cases (job_finished j)) [
      | inl finished ↦ is_recorded (e ∙ sym ((eq_iff j.name job.name).0 (ground arith)))
      | inr running ↦ unfinished running
    ]

    All-IsDealtWith :
        (m' : GitMirror) (jobs rest : List Job)
        → m'.status.last_completed_job_name ≡ job.name
        → IsLast rest
        → All (IsDealtWith m' jobs) rest
    All-IsDealtWith m' jobs [] e h = tt
    All-IsDealtWith m' jobs (j ∷ rest) e (h, hs) =
        (dealt_with m' jobs j e h, All-IsDealtWith m' jobs rest e hs)

    after_job-IsSettled :
        m.spec.fallback.schedule ≡ "" → (jobs : List Job) → IsLast jobs → IsSettled after_job jobs
    after_job-IsSettled unscheduled jobs same =
        let (completed, observed, idle, _) =
          apply_completed_job_status_for_generation_lem P m job t m.generation
            (=ℤ_refl m.generation) in
        record {
          dealt_with = All-IsDealtWith after_job jobs jobs completed.named same;
          observed = observed ∙ sym completed.generation;
          idle = idle;
          unscheduled = ap (λ spec. spec.fallback.schedule) completed.spec ∙ unscheduled;
        }

    -- For a mirror with no fallback schedule, if `Reconcile` reads the mirror with the status in
    -- which a finished Job of its generation has been recorded, whether or not a resync was pending
    -- before, and no other finished Job of the generation, then it changes nothing and asks for no
    -- further run. So it does not create a follow-up that the run that recorded the Job failed to
    -- create.
    pub reconcile-after_job :
        (s s₁ s₂ : C.State) (jobs : List Job)
        → m.spec.fallback.schedule ≡ ""
        → C.get_mirror key s ≡ done after_job s₁
        → C.list_jobs after_job.namespace
            (get_text label_git_mirror (labels_for_mirror P after_job))
            s₁
          ≡ done jobs s₂
        → IsLast (jobs_for_generation jobs after_job.generation)
        → reconcile P C r key s ≡ done (pos 0) (C.clock s₂).1
    reconcile-after_job s s₁ s₂ jobs unscheduled read listed last =
        reconcile-settled s s₁ s₂ after_job jobs read listed
          (after_job-IsSettled unscheduled (jobs_for_generation jobs after_job.generation) last)
