-- ===== src/Webhook/Server/Recorded.antt =====
-- internal/webhook/server.go: what is stored of a push that is answered "queued".
use git_mirror_operator.Base.{
  String, true, ◌==◌, if◌then◌else◌, some, ok, done, ◌≡◌, refl, get_text,
}
use git_mirror_operator.Api.Mirror.{Time, GitMirror}
use git_mirror_operator.Platform.{Platform, Bytes}
use git_mirror_operator.Status
use git_mirror_operator.Status.{apply_webhook_intent}
use git_mirror_operator.Cluster.{Cluster, Retries, read_clock}
use git_mirror_operator.Cluster.Stored.{mirror_key, patch_git_mirror_status-IsPatched}
use git_mirror_operator.Webhook.Signature.{extract_repository_full_name, extract_after_revision}
use git_mirror_operator.Webhook.Server.{
  Request, accepted, read_body, find_mirror, record_intent, mark_intent, handle_github,
}
use git_mirror_operator.Webhook.Server.Authentic.{handle_github-IsAuthentic}

-- The mirror asks for a resync of the revision after the delivery, and is otherwise what it was in
-- its specification, its generation and its Jobs.
pub record IsRequested (delivery revision : String) (current new : GitMirror) : Type 0 where
  pub delivered : new.status.last_delivery_id ≡ delivery
  pub pending : new.status.pending_resync ≡ true
  pub requested :
      new.status.last_requested_revision
      ≡ (if revision == "" then current.status.last_requested_revision else revision)
  pub same_job : new.status.last_job_name ≡ current.status.last_job_name
  pub same_completed : new.status.last_completed_job_name ≡ current.status.last_completed_job_name
  pub same_spec : new.spec ≡ current.spec
  pub same_generation : new.generation ≡ current.generation

module _ (P : Platform) (C : Cluster) (r : Request) where
  -- The mirror that the body names was read once more, and the API server accepted a patch from what
  -- was read then to one that asks for a resync. The state after it is `s'`.
  pub record IsRecorded (s s' : C.State) : Type 0 where
    pub body : Bytes
    pub full_name : String
    pub mirror : GitMirror
    pub s₁ : C.State
    pub read : read_body r ≡ some body
    pub named : extract_repository_full_name P body ≡ ok full_name
    pub found : find_mirror P C full_name s ≡ done mirror s₁
    pub before : C.State
    pub current : GitMirror
    pub between : C.State
    pub read_again : C.get_mirror (mirror_key mirror) before ≡ done current between
    pub new : GitMirror
    pub patched : C.patch_mirror_status current new between ≡ done tt s'
    pub is_requested :
        IsRequested
          (get_text "X-GitHub-Delivery" r.headers)
          (extract_after_revision P body)
          current
          new

  intent-IsRequested :
      (m : GitMirror) (delivery revision : String) (now : Time)
      → IsRequested delivery revision m (apply_webhook_intent P m delivery revision now)
  unfolding apply_webhook_intent Status.set_condition Status.set_condition_for_generation
  intent-IsRequested m delivery revision now = record {
    delivered = refl;
    pending = refl;
    requested = refl;
    same_job = refl;
    same_completed = refl;
    same_spec = refl;
    same_generation = refl;
  }

  -- Where patches are retried as documented, a request is answered "queued" only once the API server
  -- has accepted a patch of the status of the mirror that its body names, which is the last call:
  -- from the mirror as it was read for the patch, to one with the request's delivery ID, a resync
  -- pending, the body's revision unless that is empty, and the same specification, generation and
  -- names of the last Job and of the last one completed.
  pub handle_github-IsRecorded :
      Retries C
      → (s : C.State) → (handle_github P C r s).0 ≡ accepted "queued"
      → IsRecorded s (handle_github P C r s).1
  unfolding record_intent read_clock
  handle_github-IsRecorded retries s queued =
      let a = handle_github-IsAuthentic P C r s queued in
      let delivery = get_text "X-GitHub-Delivery" r.headers in
      let revision = extract_after_revision P a.body in
      let now = (C.clock a.s₂).0 in
      let p =
        patch_git_mirror_status-IsPatched C (mirror_key a.mirror)
          (mark_intent P C delivery revision now) retries tt (C.clock a.s₂).1
          a.delivered.recorded in
      record {
        body = a.body;
        full_name = a.full_name;
        mirror = a.mirror;
        s₁ = a.s₁;
        read = a.read;
        named = a.named;
        found = a.found;
        before = p.before;
        current = p.current;
        between = p.between;
        read_again = p.read;
        new = apply_webhook_intent P p.current delivery revision now;
        patched = p.sent;
        is_requested = intent-IsRequested p.current delivery revision now;
      }
