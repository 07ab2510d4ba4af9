-- ===== src/Webhook.antt =====
-- internal/webhook/server.go and internal/github/payload.go: the endpoint of GitHub's webhooks.
pub mod Signature
pub mod Server
pub mod Endpoint
