-- ===== src/Controller/Schedule.antt =====
-- internal/controller/gitmirror_controller.go: the other phases, and `Reconcile`.
use git_mirror_operator.Base.{
  String, ◌<>◌, Bool, true, false, not, ◌&&◌, ◌||◌, ◌==◌, if◌then◌else◌, Option, none, some, List,
  ok, err, Exec, pure, raise, attempt, ◌>>=◌, ◌>>◌, is_not_found, ltb, get_text,
}
use git_mirror_operator.Text.Decimal.{difference, ℤ, pos, ◌=ℤ◌, format_int}
use git_mirror_operator.Api.Mirror.{Time, Key, GitMirror}
use git_mirror_operator.Api.Job.{Job}
use git_mirror_operator.Platform.{Platform}
use git_mirror_operator.Cluster.{Cluster, patch_git_mirror_status, read_clock, read_wall_clock}
use git_mirror_operator.Jobs.Names.{label_git_mirror, labels_for_mirror}
use git_mirror_operator.Status.{
  apply_webhook_state, apply_sync_scheduled, apply_sync_scheduled_for_generation,
}
use git_mirror_operator.Controller.Generation.{jobs_for_generation, active_job_exists}
use git_mirror_operator.Controller.Lease.{Reconciler, create_locked_sync_job}
use git_mirror_operator.Controller.Completed.{
  Step, pass, stop, retry_soon, reconcile_completed_jobs,
}

-- `next.Sub(now)`
abbrev pub sub_time : Time → Time → ℤ
sub_time next now = difference next now

abbrev next_or_now : Option Time → Time → (Time → Time) → Time
next_or_now none now next = now
next_or_now (some last) now next = next last

-- `NextFallbackTime`; `none` is the parser's error.
unfoldable pub next_fallback_time : Platform → String → Option Time → Time → Option Time
next_fallback_time P spec last_triggered now = elim (P.parse_schedule spec) [
  | none ↦ none
  | some next ↦ some (next_or_now last_triggered now next)
]

abbrev time_or_zero : Option Time → Time
time_or_zero none = 0
time_or_zero (some t) = t

module _ (P : Platform) (C : Cluster) (r : Reconciler) (key : Key) (now : Time) where
  -- The closures of the three phases: they capture no variable that they assign.
  abbrev mark_scheduled : String → ℤ → GitMirror → Unit {0} → GitMirror × Unit {0}
  mark_scheduled name generation current _ =
      ((apply_sync_scheduled_for_generation P current name generation now).0, tt)

  abbrev mark_generation : String → ℤ → GitMirror → Unit {0} → GitMirror × Unit {0}
  mark_generation name generation current _ = (
    if current.generation =ℤ generation then apply_sync_scheduled P current name now else current,
    tt,
  )

  unfoldable pub patch_scheduled : Step → ℤ → Bool × String → Exec C.State Step
  patch_scheduled step generation (false, name) = pure retry_soon
  patch_scheduled step generation (true, name) =
      patch_git_mirror_status C key (mark_scheduled name generation) tt >> pure step

  unfoldable pub patch_generation : ℤ → Bool × String → Exec C.State Step
  patch_generation generation (false, name) = pure retry_soon
  patch_generation generation (true, name) =
      patch_git_mirror_status C key (mark_generation name generation) tt >> pure stop

  unfoldable pub reconcile_unobserved_generation : GitMirror → Bool → Exec C.State Step
  reconcile_unobserved_generation mirror active =
      if mirror.status.observed_generation =ℤ mirror.generation || active
      then pure pass
      else C.get_mirror key >>= λ current.
          if current.status.observed_generation =ℤ current.generation
          then pure pass
          else create_locked_sync_job P C r current ("generation-" <> format_int current.generation)
              current.status.last_requested_revision
            >>= patch_generation current.generation

  abbrev resync_trigger : GitMirror → String
  resync_trigger m =
      if m.status.last_delivery_id == ""
      then "resync-" <> P.format_time now
      else m.status.last_delivery_id

  unfoldable pub reconcile_pending_resync : GitMirror → Bool → Exec C.State Step
  reconcile_pending_resync mirror active =
      if not mirror.status.pending_resync || active
      then pure pass
      else C.get_mirror key >>= λ current.
          if not current.status.pending_resync
          then pure pass
          else create_locked_sync_job P C r current (resync_trigger current)
              current.status.last_requested_revision
            >>= patch_scheduled pass current.generation

  -- The closure of the scheduled sync.
  unfoldable pub mark_fallback : ℤ → Bool → String → GitMirror → Unit {0} → GitMirror × Unit {0}
  mark_fallback generation active name current _ =
      let (m, create) = apply_webhook_state P current "scheduled" now active in
      (
        if create && not (name == "")
            then (apply_sync_scheduled_for_generation P m name generation now).0
            else m,
        tt,
      )

  -- The status patch of a scheduled sync, and the time of the next one.
  unfoldable pub finish_fallback : GitMirror → Bool → String → Exec C.State ℤ
  finish_fallback mirror active name = do
    patch_git_mirror_status C key (mark_fallback mirror.generation active name) tt
    at ← read_clock C
    let last : Option Time = if name == "" then mirror.status.last_triggered_at else some now
    wall ← read_wall_clock C
    pure (sub_time (time_or_zero (next_fallback_time P mirror.spec.fallback.schedule last at)) wall)

  unfoldable pub after_creation : GitMirror → Bool × String → Exec C.State ℤ
  after_creation mirror (false, name) = pure (pos 5_000_000_000)
  after_creation mirror (true, name) = finish_fallback mirror false name

  unfoldable pub run_fallback : GitMirror → Bool → Exec C.State ℤ
  run_fallback mirror true = finish_fallback mirror true ""
  run_fallback mirror false =
      create_locked_sync_job P C r mirror ("scheduled-" <> P.format_time now) ""
      >>= after_creation mirror

  unfoldable pub fallback_due : GitMirror → Bool → Time → Exec C.State ℤ
  fallback_due mirror active next = do
    at ← read_clock C
    if ltb at next
        then (read_wall_clock C >>= λ wall. pure (sub_time next wall))
        else run_fallback mirror active

  -- The duration after which to reconcile again. An invalid schedule is only logged.
  unfoldable pub reconcile_fallback : GitMirror → Bool → Exec C.State ℤ
  reconcile_fallback mirror active =
      if mirror.spec.fallback.schedule == ""
      then pure (pos 0)
      else read_clock C >>= λ at.
          elim (next_fallback_time P mirror.spec.fallback.schedule mirror.status.last_triggered_at
            at) [ none ↦ pure (pos 0) | some next ↦ fallback_due mirror active next ]

  abbrev orelse : Exec C.State Step → Exec C.State ℤ → Exec C.State ℤ
  orelse m n = m >>= λ step. if step.handled then pure step.requeue_after else n

  -- `Reconcile` from the point where the Jobs are known.
  unfoldable pub reconcile_mirror : GitMirror → List Job → Exec C.State ℤ
  reconcile_mirror mirror jobs =
      let active = active_job_exists jobs in
      orelse (reconcile_completed_jobs P C r key mirror now jobs) (
        orelse (reconcile_unobserved_generation mirror active)
          (orelse (reconcile_pending_resync mirror active) (reconcile_fallback mirror active)))

module _ (P : Platform) (C : Cluster) (r : Reconciler) where
  unfoldable pub reconcile_found : Key → GitMirror → Exec C.State ℤ
  reconcile_found key mirror = do
    jobs ← C.list_jobs mirror.namespace (get_text label_git_mirror (labels_for_mirror P mirror))
    now ← read_clock C
    reconcile_mirror P C r key now mirror (jobs_for_generation jobs mirror.generation)

  -- `Reconcile`: the delay of the next call, 0 for none.
  unfoldable pub reconcile : Key → Exec C.State ℤ
  reconcile key = do
    found ← attempt (C.get_mirror key)
    elim found [
      | ok mirror ↦ reconcile_found key mirror
      | err e ↦ if is_not_found e then pure (pos 0) else raise e
    ]
