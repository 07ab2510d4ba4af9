-- ===== src/Tests/Hooks.antt =====
-- The theorems about the webhooks at concrete requests.
use mathlib.Core.Logic.{◌↔◌, ◌⊎◌}
use git_mirror_operator.Base.{String, ◌<>◌, true, false, some, [], ◌∷◌, ◌≡◌, refl}
use git_mirror_operator.Text.{to_lower}
use git_mirror_operator.Text.Hex
use git_mirror_operator.Status.{apply_webhook_intent}
use git_mirror_operator.Cluster.{read_clock, patch_attempt, patch_git_mirror_status}
use git_mirror_operator.Cluster.Trace.{traced}
use git_mirror_operator.Webhook.Signature.{
  extract_repository_full_name, after_prefix, equal_bytes, matches_mac, verify_signature_256,
  is_empty,
}
use git_mirror_operator.Webhook.Signature.Laws.{
  verify_signature_256_iff, verify_signature_256-encode,
}
use git_mirror_operator.Webhook.Server.{
  Request, accepted, limited, read_body, is_github, first_match, find_mirror, webhook_secret,
  record_intent, deliver, handle_push, handle_github,
}
use git_mirror_operator.Webhook.Server.Writes.{IsSigned, handle_github-IsSigned}
use git_mirror_operator.Webhook.Server.Authentic.{IsAuthentic, handle_github-IsAuthentic}
use git_mirror_operator.Webhook.Server.Verified.{handle_github-queued_iff}
use git_mirror_operator.Webhook.Server.Recorded.{IsRecorded, handle_github-IsRecorded}
use git_mirror_operator.Tests.Memory.{
  cluster-Retries, platform, platform-IsFaithful, cluster, world, digest,
}

verify_signature_256-encode_example :
    verify_signature_256 platform (5 ∷ []) ("sha256=" <> Hex.encode digest) (7 ∷ []) ≡ true
verify_signature_256-encode_example =
    verify_signature_256-encode platform platform-IsFaithful (5 ∷ []) (7 ∷ []) refl

verify_signature_256_iff_example :
    (verify_signature_256 platform (5 ∷ []) "sha256=00" (7 ∷ []) ≡ true) ↔ (
      (is_empty (7 ∷ []) ≡ false)
      × ((digits : String) × (after_prefix "sha256=" "sha256=00" ≡ some digits)
          × (Hex.decode digits ≡ some digest)))
verify_signature_256_iff_example = verify_signature_256_iff platform (5 ∷ []) "sha256=00" (7 ∷ [])

abbrev request : Request
request = record {
  method = "POST";
  headers =
      ("X-GitHub-Event", "push")
      ∷ ("X-GitHub-Delivery", "delivery-2")
      ∷ ("X-Hub-Signature-256", "sha256=" <> Hex.encode digest)
      ∷ [];
  body = some (5 ∷ []);
}

request_queued : (handle_github platform cluster request world).0 ≡ accepted "queued"
unfolding handle_github handle_push read_body extract_repository_full_name find_mirror first_match
    is_github webhook_secret verify_signature_256 matches_mac after_prefix deliver record_intent
    read_clock patch_git_mirror_status patch_attempt Hex.encode Hex.decode equal_bytes limited
    apply_webhook_intent to_lower
request_queued = refl

handle_github-queued_iff_example :
    (handle_github platform cluster request world
      ≡ (accepted "queued", (handle_github platform cluster request world).1))
    ↔ IsAuthentic platform cluster request world (handle_github platform cluster request world).1
handle_github-queued_iff_example =
    handle_github-queued_iff platform cluster request world
      (handle_github platform cluster request world).1

-- The request is authentic.
request-IsAuthentic :
    IsAuthentic platform cluster request world (handle_github platform cluster request world).1
request-IsAuthentic = handle_github-IsAuthentic platform cluster request world request_queued

handle_github-IsSigned_example :
    ((handle_github platform (traced cluster) request (world, [])).1.1 ≡ [])
    ⊎ IsSigned platform cluster request (world, [])
handle_github-IsSigned_example = handle_github-IsSigned platform cluster request (world, [])

handle_github-IsRecorded_example :
    IsRecorded platform cluster request world (handle_github platform cluster request world).1
handle_github-IsRecorded_example =
    handle_github-IsRecorded platform cluster request cluster-Retries world request_queued
