-- ===== src/Webhook/Server/Writes.antt =====
-- internal/webhook/server.go: which requests have `HandleGitHub` send a write.
use git_mirror_operator.Base.{
  String, Bool, true, false, not, ◌==◌, if◌then◌else◌, Option, none, some, Result, ok, err, Outcome,
  done, fail, ◌≡◌, ◌≢◌, ◌⊎◌, inl, inr, refl, arith, get_text, eq_iff, eq_false→ne,
}
use git_mirror_operator.Base.Hoare.{Ensures, Keeps, Keeps-bind}
use git_mirror_operator.Api.Mirror.{GitMirror}
use git_mirror_operator.Platform.{Platform, Bytes}
use git_mirror_operator.Cluster.{Cluster}
use git_mirror_operator.Cluster.Trace.{Log, traced, Keeps-quiet}
use git_mirror_operator.Webhook.Signature.{extract_repository_full_name, verify_signature_256}
use git_mirror_operator.Webhook.Server.{
  Request, Response, read_body, find_mirror, webhook_secret, deliver, secret_key_ref, lift_result,
  after_secret, after_find, after_name, after_read, handle_push, handle_github,
}

Keeps-lift_result : {S A : Type 0} (I : S → Type 0) (x : Result A) → Keeps I (lift_result x)
Keeps-lift_result I (ok a) = record { at = λ s h. h }
Keeps-lift_result I (err e) = record { at = λ s h. h }

module _ (P : Platform) (C : Cluster) (r : Request) (s₀ : C.State × Log) where
  abbrev signature : String
  signature = get_text "X-Hub-Signature-256" r.headers

  abbrev delivery : String
  delivery = get_text "X-GitHub-Delivery" r.headers

  abbrev event : String
  event = get_text "X-GitHub-Event" r.headers

  abbrev Kept : C.State × Log → Type 0
  Kept s = s.1 ≡ s₀.1

  -- A signed push for a mirror that is configured, with a delivery ID that is not recorded.
  pub record IsSigned : Type 0 where
    pub posted : r.method ≡ "POST"
    pub push : event ≡ "push"
    pub body : Bytes
    pub full_name : String
    pub mirror : GitMirror
    pub secret : Bytes
    pub s₁ : C.State × Log
    pub s₂ : C.State × Log
    pub read : read_body r ≡ some body
    pub named : extract_repository_full_name P body ≡ ok full_name
    pub found : find_mirror P (traced C) full_name s₀ ≡ done mirror s₁
    pub keyed : webhook_secret P (traced C) mirror s₁ ≡ done secret s₂
    pub signed : verify_signature_256 P body signature secret ≡ true
    pub identified : delivery ≢ ""
    pub new : mirror.status.last_delivery_id ≢ delivery

  -- The answer and the state after it.
  data Justified (x : Response × (C.State × Log)) : Type 0 where
    quiet : Kept x.1 → Justified x
    signed : IsSigned → Justified x

  Justified-if :
      (b : Bool) {x y : Response × (C.State × Log)}
      → (b ≡ true → Justified x)
      → (b ≡ false → Justified y)
      → Justified (if b then x else y)
  Justified-if true f g = f refl
  Justified-if false f g = g refl

  find_mirror-Keeps : (name : String) → Keeps Kept (find_mirror P (traced C) name)
  unfolding find_mirror
  find_mirror-Keeps name =
      Keeps-bind (Keeps-quiet (λ log. log ≡ s₀.1) C.list_mirrors) λ items. Keeps-lift_result Kept _

  webhook_secret-Keeps : (m : GitMirror) → Keeps Kept (webhook_secret P (traced C) m)
  unfolding webhook_secret
  webhook_secret-Keeps m =
      Keeps-bind (Keeps-quiet (λ log. log ≡ s₀.1) (C.get_secret (secret_key_ref m)))
        λ values. Keeps-lift_result Kept _

  module _ (posted : r.method ≡ "POST") (push : event ≡ "push") where
    module _ (body : Bytes) (read : read_body r ≡ some body) (full_name : String)
        (named : extract_repository_full_name P body ≡ ok full_name) where
      module _ (m : GitMirror) (s₁ : C.State × Log)
          (found : find_mirror P (traced C) full_name s₀ ≡ done m s₁) where
        after_secret-Justified :
            (o : Outcome (C.State × Log) Bytes)
            → webhook_secret P (traced C) m s₁ ≡ o
            → Ensures (λ _. Kept) Kept o
            → Justified (after_secret P (traced C) r m body o)
        unfolding deliver
        after_secret-Justified (fail e s) keyed kept = quiet kept
        after_secret-Justified (done secret s₂) keyed kept =
            Justified-if (verify_signature_256 P body signature secret)
              (λ verified.
                Justified-if (delivery == "") (λ _. quiet kept)
                  λ identified.
                    Justified-if (m.status.last_delivery_id == delivery) (λ _. quiet kept)
                      λ new. signed (record {
                        posted = posted;
                        push = push;
                        body = body;
                        full_name = full_name;
                        mirror = m;
                        secret = secret;
                        s₁ = s₁;
                        s₂ = s₂;
                        read = read;
                        named = named;
                        found = found;
                        keyed = keyed;
                        signed = verified;
                        identified = eq_false→ne delivery "" identified;
                        new = eq_false→ne m.status.last_delivery_id delivery new;
                      }))
              (λ _. quiet kept)

      after_find-Justified :
          (o : Outcome (C.State × Log) GitMirror)
          → find_mirror P (traced C) full_name s₀ ≡ o
          → Ensures (λ _. Kept) Kept o
          → Justified (after_find P (traced C) r body o)
      after_find-Justified (fail e s) found kept = quiet kept
      after_find-Justified (done m s₁) found kept =
          after_secret-Justified m s₁ found (webhook_secret P (traced C) m s₁) refl
            ((webhook_secret-Keeps m).at s₁ kept)

    after_name-Justified :
        (body : Bytes) (o : Result String)
        → read_body r ≡ some body
        → extract_repository_full_name P body ≡ o
        → Justified (after_name P (traced C) r body o s₀)
    after_name-Justified body (err e) read named = quiet refl
    after_name-Justified body (ok full_name) read named =
        after_find-Justified body read full_name named (find_mirror P (traced C) full_name s₀) refl
          ((find_mirror-Keeps full_name).at s₀ refl)

    after_read-Justified :
        (o : Option Bytes) → read_body r ≡ o → Justified (after_read P (traced C) r o s₀)
    after_read-Justified none read = quiet refl
    after_read-Justified (some body) read =
        after_name-Justified body (extract_repository_full_name P body) read refl

    handle_push-Justified : Justified (handle_push P (traced C) r s₀)
    unfolding handle_push
    handle_push-Justified = after_read-Justified (read_body r) refl

  handle_github-Justified : Justified (handle_github P (traced C) r s₀)
  unfolding handle_github
  handle_github-Justified =
      Justified-if (not (r.method == "POST")) (λ _. quiet refl)
        λ posted.
          Justified-if (event == "") (λ _. quiet refl)
            λ _.
              Justified-if (event == "ping") (λ _. quiet refl)
                λ _.
                  Justified-if (event == "push")
                    (λ push.
                      handle_push-Justified (ground (arith, eq_iff r.method "POST"))
                        (ground (arith, eq_iff event "push")))
                    (λ _. quiet refl)

  justification : {x : Response × (C.State × Log)} → Justified x → (x.1.1 ≡ s₀.1) ⊎ IsSigned
  justification (quiet h) = inl h
  justification (signed h) = inr h

  -- Whatever the request, and whatever the API server answers, answering it makes no write, or the
  -- request is a posted push whose body is signed with the secret of the mirror that it names,
  -- with a delivery ID that is not empty and not the one found recorded.
  pub handle_github-IsSigned : ((handle_github P (traced C) r s₀).1.1 ≡ s₀.1) ⊎ IsSigned
  handle_github-IsSigned = justification handle_github-Justified
