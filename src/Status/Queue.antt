-- ===== src/Status/Queue.antt =====
-- internal/controller/status.go: the transitions of the status against a queue of one request.
use git_mirror_operator.Base.{
  String, Bool, true, false, not, ◌&&◌, ◌==◌, if◌then◌else◌, List, [], ◌∷◌, ◌≡◌, ◌∙◌, refl, arith,
}
use git_mirror_operator.Text.Decimal.{ℤ, ◌=ℤ◌}
use git_mirror_operator.Api.Mirror.{GitMirror}
use git_mirror_operator.Platform.{Platform}
use git_mirror_operator.Status.{
  set_condition, set_condition_for_generation, apply_webhook_state, apply_webhook_intent,
  apply_sync_scheduled, apply_sync_scheduled_for_generation, record_success, record_failure,
  record_result, take_pending, record_completed_job, apply_completed_job_status,
  apply_completed_job_status_for_generation, apply_completed_legacy_job_status,
}
use git_mirror_operator.Status.Pending.{
  Event, webhook, triggered, scheduled, scheduled_for, completed, completed_legacy, apply_event,
  apply_events,
}

-- What is asked for: whether a sync is, by which delivery last, and of which revision.
pub record Queue : Type 0 where
  pub waiting : Bool
  pub delivery : String
  pub revision : String

-- A webhook's request joins the one that waits; a sync of the mirror's generation that is scheduled
-- or ends takes it.
abbrev pub take : Queue → Queue
take q = record q { waiting = false }

abbrev pub ask : ℤ → Event → Queue → Queue
ask g (webhook delivery revision now) q = record {
  waiting = true;
  delivery = delivery;
  revision = if revision == "" then q.revision else revision;
}
ask g (triggered delivery now active) q = record q { waiting = active; delivery = delivery }
ask g (scheduled name now) q = take q
ask g (scheduled_for name h now) q = if g =ℤ h then take q else q
ask g (completed job h now) q = if g =ℤ h then take q else q
ask g (completed_legacy job now) q = q

-- Whether a sync is now due: a request that finds nothing running, a scheduled one of the mirror's
-- generation, or one that waited for the end of another.
abbrev pub due : ℤ → Event → Queue → Bool
due g (webhook delivery revision now) q = false
due g (triggered delivery now active) q = not active
due g (scheduled name now) q = false
due g (scheduled_for name h now) q = g =ℤ h
due g (completed job h now) q = (g =ℤ h) && q.waiting
due g (completed_legacy job now) q = false

abbrev pub due_all : ℤ → List Event → Queue → List Bool
due_all g [] q = []
due_all g (e ∷ es) q = due g e q ∷ due_all g es (ask g e q)

abbrev pub ask_all : ℤ → List Event → Queue → Queue
ask_all g [] q = q
ask_all g (e ∷ es) q = ask_all g es (ask g e q)

abbrev pub queue_of : GitMirror → Queue
queue_of m = record {
  waiting = m.status.pending_resync;
  delivery = m.status.last_delivery_id;
  revision = m.status.last_requested_revision;
}

module _ (P : Platform) where
  -- The flag that a transition returns; those that return none say no.
  unfoldable pub report : Event → GitMirror → Bool
  report (webhook delivery revision now) m = false
  report (triggered delivery now active) m = (apply_webhook_state P m delivery now active).1
  report (scheduled name now) m = false
  report (scheduled_for name g now) m = (apply_sync_scheduled_for_generation P m name g now).1
  report (completed job g now) m = (apply_completed_job_status_for_generation P m job g now).1
  report (completed_legacy job now) m = (apply_completed_legacy_job_status P m job now).1

  unfoldable pub reports : List Event → GitMirror → List Bool
  reports [] m = []
  reports (e ∷ es) m = report e m ∷ reports es (apply_event P e m)

  -- What one write does to the queue, and that it leaves the generation alone.
  Refines : Event → GitMirror → Type 0
  Refines e m =
      (queue_of (apply_event P e m) ≡ ask m.generation e (queue_of m))
      × ((apply_event P e m).generation ≡ m.generation)
      × (report e m ≡ due m.generation e (queue_of m))

  apply_event-Refines : (e : Event) (m : GitMirror) → Refines e m
  unfolding Refines report apply_event apply_webhook_intent set_condition
      set_condition_for_generation apply_webhook_state apply_sync_scheduled
      apply_sync_scheduled_for_generation apply_completed_job_status
      apply_completed_job_status_for_generation apply_completed_legacy_job_status
      record_completed_job record_result record_success record_failure take_pending
  apply_event-Refines (webhook delivery revision now) m = (refl, refl, refl)
  apply_event-Refines (triggered delivery now true) m = (refl, refl, refl)
  apply_event-Refines (triggered delivery now false) m = (refl, refl, refl)
  apply_event-Refines (scheduled name now) m = (refl, refl, refl)
  apply_event-Refines (scheduled_for name g now) m = (ground arith, ground arith, ground arith)
  apply_event-Refines (completed job g now) m = (ground arith, ground arith, ground arith)
  apply_event-Refines (completed_legacy job now) m = (ground arith, ground arith, ground arith)

  -- The transitions of the status refine a queue of one request. Whatever webhooks, scheduled Jobs
  -- and finished Jobs follow one another, the flag, the delivery and the revision in the status are
  -- those of the queue after the same events, and the flags that the transitions return are those
  -- of the syncs that it holds due.
  pub apply_events-ask_all :
      (es : List Event) (m : GitMirror)
      → (queue_of (apply_events P es m) ≡ ask_all m.generation es (queue_of m))
        × (reports es m ≡ due_all m.generation es (queue_of m))
  unfolding apply_events reports Refines
  apply_events-ask_all [] m = (refl, refl)
  apply_events-ask_all (e ∷ es) m =
      let (asked, kept, reported) = apply_event-Refines e m in
      let (later, flags) = apply_events-ask_all es (apply_event P e m) in
      (
        later ∙ (λ i. ask_all (kept i) es (asked i)),
        λ i. reported i ∷ (flags ∙ (λ j. due_all (kept j) es (asked j))) i,
      )
