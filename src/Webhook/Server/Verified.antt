-- ===== src/Webhook/Server/Verified.antt =====
-- internal/webhook/server.go: what is done with a push whose signature is valid.
use mathlib.Core.Path.{subst}
use git_mirror_operator.Base.{
  ◌↔◌, String, true, ◌==◌, some, ok, done, ◌≡◌, ◌≢◌, refl, ap, ◌∙◌, get_text, ne→eq_false,
}
use git_mirror_operator.Api.Mirror.{GitMirror}
use git_mirror_operator.Platform.{Platform, Bytes}
use git_mirror_operator.Cluster.{Cluster}
use git_mirror_operator.Webhook.Signature.{extract_repository_full_name, verify_signature_256}
use git_mirror_operator.Webhook.Server.{
  Request, accepted, read_body, find_mirror, webhook_secret, record_intent, deliver, handle_push,
  handle_github,
}
use git_mirror_operator.Webhook.Server.Authentic.{IsAuthentic, handle_github-IsAuthentic}

module _ (P : Platform) (C : Cluster) (r : Request) where
  abbrev signature : String
  signature = get_text "X-Hub-Signature-256" r.headers

  abbrev delivery : String
  delivery = get_text "X-GitHub-Delivery" r.headers

  handle_github-push :
      (s : C.State)
      → r.method ≡ "POST"
      → get_text "X-GitHub-Event" r.headers ≡ "push"
      → handle_github P C r s ≡ handle_push P C r s
  unfolding handle_github
  handle_github-push s posted push =
      rw
        (
          ap (λ x. x == "POST") posted,
          ap (λ x. x == "") push,
          ap (λ x. x == "ping") push,
          ap (λ x. x == "push") push,
        )
        refl

  handle_push-verified :
      (body : Bytes) (full_name : String) (m : GitMirror) (secret : Bytes) (s t u : C.State)
      → read_body r ≡ some body
      → extract_repository_full_name P body ≡ ok full_name
      → find_mirror P C full_name s ≡ done m t
      → webhook_secret P C m t ≡ done secret u
      → verify_signature_256 P body signature secret ≡ true
      → handle_push P C r s ≡ deliver P C m delivery body u
  unfolding handle_push
  handle_push-verified body full_name m secret s t u read named found keyed signed =
      rw (read, named, found, keyed, signed) refl

  deliver-new :
      (m : GitMirror) (body : Bytes) (s s' : C.State)
      → delivery ≢ ""
      → m.status.last_delivery_id ≢ delivery
      → record_intent P C m delivery body s ≡ done tt s'
      → deliver P C m delivery body s ≡ (accepted "queued", s')
  unfolding deliver
  deliver-new m body s s' identified new recorded =
      rw
        (
          ne→eq_false delivery "" identified,
          ne→eq_false m.status.last_delivery_id delivery new,
          recorded,
        )
        refl

  IsAuthentic-queued :
      (s s' : C.State) → IsAuthentic P C r s s' → handle_github P C r s ≡ (accepted "queued", s')
  IsAuthentic-queued s s' a =
      let d = a.delivered in
      handle_github-push s a.posted a.push
      ∙ handle_push-verified a.body a.full_name a.mirror a.secret s a.s₁ a.s₂ a.read a.named a.found
          a.keyed a.signed
      ∙ deliver-new a.mirror a.body a.s₂ s' d.identified d.new d.recorded

  -- A request is answered "queued", with the state `s'` left, exactly if it is a posted push whose
  -- body is signed with the secret of the mirror that it names, with a delivery ID that is not empty
  -- and not the one found recorded, and the write of the intent succeeded and left `s'`.
  pub handle_github-queued_iff :
      (s s' : C.State) → (handle_github P C r s ≡ (accepted "queued", s')) ↔ IsAuthentic P C r s s'
  handle_github-queued_iff s s' = (
    λ e.
        subst (IsAuthentic P C r s) (ap (λ x. x.1) e)
          (handle_github-IsAuthentic P C r s (ap (λ x. x.0) e)),
    IsAuthentic-queued s s',
  )
