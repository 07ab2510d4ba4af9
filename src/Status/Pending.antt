-- ===== src/Status/Pending.antt =====
-- internal/controller/status.go: the flag `pendingResync` beside the condition `SyncPending`.
use git_mirror_operator.Base.{
  String, Bool, true, false, ◌==◌, if◌then◌else◌, Option, none, some, List, [], ◌∷◌, ◌≡◌, refl, inl,
  inr, Bool-cases, Option-cases,
}
use git_mirror_operator.Text.Decimal.{ℤ, ◌=ℤ◌}
use git_mirror_operator.Api.Mirror.{Time, Condition, GitMirror}
use git_mirror_operator.Api.Job.{Job}
use git_mirror_operator.Platform.{Platform, IsFaithful, find_condition}
use git_mirror_operator.Status.{
  is_job_complete, is_job_failed, set_condition, set_condition_for_generation, apply_webhook_state,
  apply_webhook_intent, apply_sync_scheduled, apply_sync_scheduled_for_generation, record_success,
  record_failure, record_result, take_pending, record_completed_job, apply_completed_job_status,
  apply_completed_job_status_for_generation, apply_completed_legacy_job_status,
}

-- The operator's writes to a status.
pub data Event : Type 0 where
  webhook : (delivery_id revision : String) → Time → Event
  triggered : (delivery_id : String) → Time → (active : Bool) → Event
  scheduled : (job_name : String) → Time → Event
  scheduled_for : (job_name : String) → ℤ → Time → Event
  completed : Job → ℤ → Time → Event
  completed_legacy : Job → Time → Event

-- A condition that is there has status "True" exactly if the flag is set.
abbrev pub Shows : Option Condition → Bool → Type 0
Shows none b = Unit
Shows (some c) b = (c.status == "True") ≡ b

abbrev pub IsConsistent : GitMirror → Type 0
IsConsistent m = Shows (find_condition "SyncPending" m.status.conditions) m.status.pending_resync

module _ (P : Platform) where
  unfoldable pub apply_event : Event → GitMirror → GitMirror
  apply_event (webhook delivery revision now) m = apply_webhook_intent P m delivery revision now
  apply_event (triggered delivery now active) m = (apply_webhook_state P m delivery now active).0
  apply_event (scheduled name now) m = apply_sync_scheduled P m name now
  apply_event (scheduled_for name g now) m = (apply_sync_scheduled_for_generation P m name g now).0
  apply_event (completed job g now) m = (apply_completed_job_status_for_generation P m job g now).0
  apply_event (completed_legacy job now) m = (apply_completed_legacy_job_status P m job now).0

  unfoldable pub apply_events : List Event → GitMirror → GitMirror
  apply_events [] m = m
  apply_events (e ∷ es) m = apply_events es (apply_event e m)

module _ (P : Platform) (F : IsFaithful P) where
  record_result-IsConsistent :
      (m : GitMirror) (job : Job) (now : Time) (g : ℤ)
      → IsConsistent m
      → IsConsistent (record_result P m job now g)
  unfolding record_result record_success record_failure set_condition_for_generation
  record_result-IsConsistent m job now g h = elim (Bool-cases (is_job_complete job)) [
    | inl complete ↦ rw (complete, F.find-set_status) h
    | inr other ↦ elim (Option-cases (is_job_failed job)) [
      | inl none_failed ↦ rw (other, none_failed) h
      | inr (reason, failed) ↦ rw (other, failed, F.find-set_status) h
    ]
  ]

  take_pending-IsConsistent :
      (m : GitMirror) (now : Time) → IsConsistent m → IsConsistent (take_pending P m now).0
  unfolding take_pending set_condition set_condition_for_generation
  take_pending-IsConsistent m now h = elim (Bool-cases m.status.pending_resync) [
    | inl pending ↦ rw (pending, F.find-set_status)
    | inr idle ↦ rw idle (rw idle at h)
  ]

  if-IsConsistent :
      (b : Bool) (p q : GitMirror × Bool)
      → IsConsistent p.0
      → IsConsistent q.0
      → IsConsistent (if b then p else q).0
  if-IsConsistent true p q hp hq = hp
  if-IsConsistent false p q hp hq = hq

  apply_sync_scheduled-IsConsistent :
      (m : GitMirror) (name : String) (now : Time)
      → IsConsistent (apply_sync_scheduled P m name now)
  unfolding apply_sync_scheduled set_condition set_condition_for_generation
  apply_sync_scheduled-IsConsistent m name now = rw F.find-set_status refl

  record_completed_job-IsConsistent :
      (m : GitMirror) (job : Job) (now : Time) (b : Bool) (g : ℤ)
      → IsConsistent m
      → IsConsistent (record_completed_job P m job now b g).0
  unfolding record_completed_job
  record_completed_job-IsConsistent m job now b g h =
      let named = record m {
        status = record m.status { last_job_name = job.name; last_completed_job_name = job.name };
      } in
      let recorded = record_result-IsConsistent named job now g h in
      if-IsConsistent b (take_pending P (record_result P named job now g) now)
        (record_result P named job now g, false)
        (take_pending-IsConsistent (record_result P named job now g) now recorded) recorded

  apply_event-IsConsistent :
      (e : Event) (m : GitMirror) → IsConsistent m → IsConsistent (apply_event P e m)
  unfolding apply_event apply_webhook_intent set_condition set_condition_for_generation
      apply_webhook_state apply_sync_scheduled_for_generation apply_completed_job_status
      apply_completed_job_status_for_generation apply_completed_legacy_job_status
  apply_event-IsConsistent (webhook delivery revision now) m h = rw F.find-set_status refl
  apply_event-IsConsistent (triggered delivery now true) m h = rw F.find-set_status refl
  apply_event-IsConsistent (triggered delivery now false) m h = rw F.find-set_status refl
  apply_event-IsConsistent (scheduled name now) m h = apply_sync_scheduled-IsConsistent m name now
  apply_event-IsConsistent (scheduled_for name g now) m h =
      if-IsConsistent (m.generation =ℤ g) (apply_sync_scheduled P m name now, true) (m, false)
        (apply_sync_scheduled-IsConsistent m name now) h
  apply_event-IsConsistent (completed job g now) m h =
      let observed = record m { status = record m.status { observed_generation = m.generation } } in
      if-IsConsistent (m.generation =ℤ g)
        (record_completed_job P observed job now true m.generation) (m, false)
        (record_completed_job-IsConsistent observed job now true m.generation h) h
  apply_event-IsConsistent (completed_legacy job now) m h =
      record_completed_job-IsConsistent m job now false m.status.observed_generation h

  -- Any sequence of the operator's writes keeps the flag and the condition in agreement: where
  -- `SyncPending` is there, it is "True" exactly if a resync is pending.
  pub apply_events-IsConsistent :
      (es : List Event) (m : GitMirror) → IsConsistent m → IsConsistent (apply_events P es m)
  unfolding apply_events
  apply_events-IsConsistent [] m h = h
  apply_events-IsConsistent (e ∷ es) m h =
      apply_events-IsConsistent es (apply_event P e m) (apply_event-IsConsistent e m h)
