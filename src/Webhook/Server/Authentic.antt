-- ===== src/Webhook/Server/Authentic.antt =====
-- internal/webhook/server.go: which requests are answered "queued".
use git_mirror_operator.Base.{
  String, Bool, true, false, not, ◌==◌, if◌then◌else◌, Option, none, some, Result, ok, err, Outcome,
  done, fail, ◌≡◌, ◌≢◌, refl, ap, ◌=ℕ◌, arith, get_text, eq_iff, eq_false→ne,
}
use git_mirror_operator.Api.Mirror.{GitMirror}
use git_mirror_operator.Platform.{Platform, Bytes}
use git_mirror_operator.Cluster.{Cluster}
use git_mirror_operator.Webhook.Signature.{extract_repository_full_name, verify_signature_256}
use git_mirror_operator.Webhook.Server.{
  Request, Response, read_body, accepted, find_mirror, webhook_secret, record_intent, deliver,
  after_record, after_secret, after_find, after_name, after_read, handle_push, handle_github,
}

-- What a handler's answer promises of the state that it leaves.
record Queued {S : Type 0} (Q : S → Type 0) (x : Response × S) : Type 0 where
  at : x.0 ≡ accepted "queued" → Q x.1

module _ {S : Type 0} {Q : S → Type 0} {x y : Response × S} where
  Queued-if :
      (b : Bool)
      → (b ≡ true → Queued Q x)
      → (b ≡ false → Queued Q y)
      → Queued Q (if b then x else y)
  Queued-if true f g = f refl
  Queued-if false f g = g refl

module _ {S : Type 0} {Q : S → Type 0} {s : S} where
  refused : (a : Response) → a ≢ accepted "queued" → Queued Q (a, s)
  refused a h = record { at = λ e. absurd (h e) }

  other_code : {a : Response} → (a.code =ℕ 202) ≡ false → Queued Q (a, s)
  other_code {a} h = refused a λ e. absurd (ground (arith, ap (λ r. r.code =ℕ 202) e))

  other_status : (text : String) → text == "queued" ≡ false → Queued Q (accepted text, s)
  other_status text h = refused (accepted text) λ e. absurd (eq_false→ne text "queued" h (same e))
    where
      same : accepted text ≡ accepted "queued" → text ≡ "queued"
      same e = cc

module _ (P : Platform) (C : Cluster) (r : Request) where
  abbrev signature : String
  signature = get_text "X-Hub-Signature-256" r.headers

  abbrev delivery : String
  delivery = get_text "X-GitHub-Delivery" r.headers

  -- The state `s` after the secret is read leads to `s'` by the status write alone.
  pub record IsDelivered (body : Bytes) (mirror : GitMirror) (s s' : C.State) : Type 0 where
    pub identified : delivery ≢ ""
    pub new : mirror.status.last_delivery_id ≢ delivery
    pub recorded : record_intent P C mirror delivery body s ≡ done tt s'

  -- The request is a push that is signed with the secret of the mirror that it names, with a
  -- delivery ID that is not the one that was found recorded, and the write was accepted.
  pub record IsAuthentic (s s' : C.State) : Type 0 where
    pub posted : r.method ≡ "POST"
    pub push : get_text "X-GitHub-Event" r.headers ≡ "push"
    pub body : Bytes
    pub full_name : String
    pub mirror : GitMirror
    pub secret : Bytes
    pub s₁ : C.State
    pub s₂ : C.State
    pub read : read_body r ≡ some body
    pub named : extract_repository_full_name P body ≡ ok full_name
    pub found : find_mirror P C full_name s ≡ done mirror s₁
    pub keyed : webhook_secret P C mirror s₁ ≡ done secret s₂
    pub signed : verify_signature_256 P body signature secret ≡ true
    pub delivered : IsDelivered body mirror s₂ s'

  module _ (m : GitMirror) (body : Bytes) where
    deliver-Queued : (s : C.State) → Queued (IsDelivered body m s) (deliver P C m delivery body s)
    unfolding deliver
    deliver-Queued s =
        Queued-if (delivery == "") (λ _. other_code refl)
          λ e.
            Queued-if (m.status.last_delivery_id == delivery) (λ _. other_status "duplicate" refl)
              λ d. go e d (record_intent P C m delivery body s) refl
      where
        go :
            delivery == "" ≡ false
            → m.status.last_delivery_id == delivery ≡ false
            → (o : Outcome C.State (Unit {0})) → record_intent P C m delivery body s ≡ o
            → Queued (IsDelivered body m s) (after_record P C o)
        go e d (fail x s') k = other_code refl
        go e d (done _ s') k = record {
          at = λ _. record {
            identified = eq_false→ne delivery "" e;
            new = eq_false→ne m.status.last_delivery_id delivery d;
            recorded = k;
          };
        }

  abbrev push_event : String
  push_event = get_text "X-GitHub-Event" r.headers

  module _ (s : C.State) (posted : r.method ≡ "POST") (push : push_event ≡ "push") where
    module _ (body : Bytes) (read : read_body r ≡ some body) where
      module _ (full_name : String)
          (named : extract_repository_full_name P body ≡ ok full_name) where
        module _ (m : GitMirror) (s₁ : C.State)
            (found : find_mirror P C full_name s ≡ done m s₁) where
          after_secret-Queued :
              (o : Outcome C.State Bytes)
              → webhook_secret P C m s₁ ≡ o
              → Queued (IsAuthentic s) (after_secret P C r m body o)
          after_secret-Queued (fail e s') k = other_code refl
          after_secret-Queued (done secret s₂) keyed =
              Queued-if (verify_signature_256 P body signature secret)
                (λ signed. record {
                  at = λ h. record {
                    posted = posted;
                    push = push;
                    body = body;
                    full_name = full_name;
                    mirror = m;
                    secret = secret;
                    s₁ = s₁;
                    s₂ = s₂;
                    read = read;
                    named = named;
                    found = found;
                    keyed = keyed;
                    signed = signed;
                    delivered = (deliver-Queued m body s₂).at h;
                  };
                })
                (λ _. other_code refl)

        after_find-Queued :
            (o : Outcome C.State GitMirror)
            → find_mirror P C full_name s ≡ o
            → Queued (IsAuthentic s) (after_find P C r body o)
        after_find-Queued (fail e s') k = other_code refl
        after_find-Queued (done m s₁) found =
            after_secret-Queued m s₁ found (webhook_secret P C m s₁) refl

      after_name-Queued :
          (o : Result String)
          → extract_repository_full_name P body ≡ o
          → Queued (IsAuthentic s) (after_name P C r body o s)
      after_name-Queued (err e) k = other_code refl
      after_name-Queued (ok full_name) named =
          after_find-Queued full_name named (find_mirror P C full_name s) refl

    after_read-Queued :
        (o : Option Bytes) → read_body r ≡ o → Queued (IsAuthentic s) (after_read P C r o s)
    after_read-Queued none k = other_code refl
    after_read-Queued (some body) read =
        after_name-Queued body read (extract_repository_full_name P body) refl

    handle_push-Queued : Queued (IsAuthentic s) (handle_push P C r s)
    unfolding handle_push
    handle_push-Queued = after_read-Queued (read_body r) refl

  -- A request that is answered "queued" is a posted push whose body is signed with the secret of
  -- the mirror that it names, with a delivery ID that is not empty and not the one found recorded,
  -- and the write of the intent succeeded.
  pub handle_github-IsAuthentic :
      (s : C.State)
      → (handle_github P C r s).0 ≡ accepted "queued"
      → IsAuthentic s (handle_github P C r s).1
  unfolding handle_github
  handle_github-IsAuthentic s h =
      (Queued-if (not (r.method == "POST")) (λ _. other_code refl)
          λ posted.
            Queued-if (push_event == "") (λ _. other_code refl)
              λ _.
                Queued-if (push_event == "ping") (λ _. other_status "pong" refl)
                  λ _.
                    Queued-if (push_event == "push")
                      (λ push.
                        handle_push-Queued s (ground (arith, eq_iff r.method "POST"))
                          (ground (arith, eq_iff push_event "push")))
                      (λ _. other_code refl)).at
        h
