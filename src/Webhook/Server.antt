-- ===== src/Webhook/Server.antt =====
-- internal/webhook/server.go: `HandleGitHub`, `findMirror`, `webhookSecret`.
pub mod Authentic
pub mod Writes
pub mod Verified
pub mod Recorded
use git_mirror_operator.Base.{
  ℕ, zero, suc, String, ◌<>◌, Bool, true, false, not, ◌&&◌, ◌||◌, ◌==◌, if◌then◌else◌, Option, none,
  some, List, [], ◌∷◌, Error, failure, Result, ok, err, Outcome, done, fail, Exec, pure, raise,
  ◌>>=◌, lookup, get_text,
}
use git_mirror_operator.Text.{to_lower}
use git_mirror_operator.Api.Mirror.{Time, Key, GitMirror}
use git_mirror_operator.Platform.{Platform, Bytes}
use git_mirror_operator.Cluster.Stored.{mirror_key}
use git_mirror_operator.Cluster.{Cluster, patch_git_mirror_status, read_clock}
use git_mirror_operator.Status.{apply_webhook_intent}
use git_mirror_operator.Webhook.Signature.{
  extract_repository_full_name, extract_after_revision, verify_signature_256,
}

-- A request as the handler reads it: `Header.Get` looks a name up, spelled as here. The body is
-- `none` if reading it fails.
pub record Request : Type 0 where
  pub method : String
  pub headers : List (String × String)
  pub body : Option Bytes

-- What is written: a plain message, an error's text, or `{"status": …}`.
pub data Reply : Type 0 where
  message : String → Reply
  error_text : Error → Reply
  json_status : String → Reply

pub record Response : Type 0 where
  pub code : ℕ
  pub reply : Reply

abbrev pub plain : ℕ → String → Response
plain code text = record { code = code; reply = message text }

abbrev pub accepted : String → Response
accepted status = record { code = 202; reply = json_status status }

-- `4<<20`
abbrev pub body_limit : ℕ
body_limit = 4_194_304

-- `io.LimitReader`
unfoldable pub limited : ℕ → Bytes → Bytes
limited zero bs = []
limited (suc n) [] = []
limited (suc n) (b ∷ bs) = b ∷ limited n bs

unfoldable pub read_body : Request → Option Bytes
read_body r = elim r.body [ none ↦ none | some bs ↦ some (limited body_limit bs) ]

-- `strings.EqualFold(provider, "github")`: none of these letters folds to a rune outside ASCII.
unfoldable pub is_github : String → Bool
is_github provider = to_lower (λ c. c) provider == "github" || provider == ""

unfoldable pub first_match : String → List GitMirror → Option GitMirror
first_match full_name [] = none
first_match full_name (m ∷ ms) =
    if is_github m.spec.provider && full_name == m.spec.github.owner <> "/" <> m.spec.github.repo
    then some m
    else first_match full_name ms

abbrev pub found_or_error : String → Option GitMirror → Result GitMirror
found_or_error full_name none = err (failure ("no GitMirror configured for " <> full_name))
found_or_error full_name (some m) = ok m

abbrev secret_key_ref : GitMirror → Key
secret_key_ref m = record { namespace = m.namespace; name = m.spec.github.webhook_secret_ref.name }

abbrev pub secret_value : GitMirror → List (String × Bytes) → Result Bytes
secret_value m values = elim (lookup m.spec.github.webhook_secret_ref.key values) [
  | none ↦ err (
      failure (
        "secret " <> m.spec.github.webhook_secret_ref.name <> " missing key "
        <> m.spec.github.webhook_secret_ref.key))
  | some value ↦ ok value
]

abbrev pub lift_result {ℓ} : {S A : Type ℓ} → Result A → Exec S A
lift_result (ok a) s = done a s
lift_result (err e) s = fail e s

module _ (P : Platform) (C : Cluster) where
  -- A handler writes one response.
  abbrev Handler : Type 0
  Handler = C.State → Response × C.State

  abbrev respond : Response → Handler
  respond r s = (r, s)

  unfoldable pub find_mirror : String → Exec C.State GitMirror
  find_mirror full_name = do
    items ← C.list_mirrors
    lift_result (found_or_error full_name (first_match full_name items))

  unfoldable pub webhook_secret : GitMirror → Exec C.State Bytes
  webhook_secret m = do
    values ← C.get_secret (secret_key_ref m)
    lift_result (secret_value m values)

  -- The closure of the status patch; it assigns no variable outside.
  abbrev pub mark_intent : String → String → Time → GitMirror → Unit {0} → GitMirror × Unit {0}
  mark_intent delivery revision now current _ =
      (apply_webhook_intent P current delivery revision now, tt)

  unfoldable pub record_intent : GitMirror → String → Bytes → Exec C.State (Unit {0})
  record_intent m delivery body = do
    now ← read_clock C
    patch_git_mirror_status C (mirror_key m)
        (mark_intent delivery (extract_after_revision P body) now) tt

  abbrev pub after_record : Outcome C.State (Unit {0}) → Response × C.State
  after_record (fail _ s) = (plain 500 "update status", s)
  after_record (done _ s) = (accepted "queued", s)

  -- From the delivery header on: the signature has been verified.
  unfoldable pub deliver : GitMirror → String → Bytes → Handler
  deliver m delivery body s =
      if delivery == ""
      then (plain 400 "missing X-GitHub-Delivery", s)
      else if m.status.last_delivery_id == delivery
      then (accepted "duplicate", s)
      else after_record (record_intent m delivery body s)

  abbrev pub after_secret : Request → GitMirror → Bytes → Outcome C.State Bytes → Response × C.State
  after_secret r m body (fail _ s) = (plain 500 "webhook secret unavailable", s)
  after_secret r m body (done secret s) =
      if verify_signature_256 P body (get_text "X-Hub-Signature-256" r.headers) secret
      then deliver m (get_text "X-GitHub-Delivery" r.headers) body s
      else (plain 401 "invalid signature", s)

  abbrev pub after_find : Request → Bytes → Outcome C.State GitMirror → Response × C.State
  after_find r body (fail e s) = (record { code = 404; reply = error_text e }, s)
  after_find r body (done m s) = after_secret r m body (webhook_secret m s)

  abbrev pub after_name : Request → Bytes → Result String → Handler
  after_name r body (err _) s = (plain 400 "missing repository", s)
  after_name r body (ok full_name) s = after_find r body (find_mirror full_name s)

  abbrev pub after_read : Request → Option Bytes → Handler
  after_read r none s = (plain 400 "read body", s)
  after_read r (some body) s = after_name r body (extract_repository_full_name P body) s

  unfoldable pub handle_push : Request → Handler
  handle_push r s = after_read r (read_body r) s

  unfoldable pub handle_github : Request → Handler
  handle_github r s =
      let event = get_text "X-GitHub-Event" r.headers in
      if not (r.method == "POST")
      then (plain 405 "method not allowed", s)
      else if event == ""
      then (plain 400 "missing X-GitHub-Event", s)
      else if event == "ping"
      then (accepted "pong", s)
      else if event == "push"
      then handle_push r s
      else (plain 400 "unsupported GitHub event", s)
