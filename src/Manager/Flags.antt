-- ===== src/Manager/Flags.antt =====
-- cmd/main.go: the flags of `main` and `getenv`. `flag.Parse` is taken to yield the assignments of
-- the command line in their order, with their texts and truth values read.
use git_mirror_operator.Base.{
  String, Bool, true, false, ◌==◌, if◌then◌else◌, List, [], ◌∷◌, get_text, ◌≡◌, refl,
}

pub record Flags : Type 0 where
  pub metrics_addr : String
  pub probe_addr : String
  pub enable_leader_election : Bool
  pub secure_metrics : Bool
  pub webhook_cert_path : String
  pub webhook_cert_name : String
  pub webhook_cert_key : String
  pub metrics_cert_path : String
  pub metrics_cert_name : String
  pub metrics_cert_key : String
  pub enable_http2 : Bool
  pub github_webhook_addr : String
  pub sync_image : String

pub data Assignment : Type 0 where
  text : (name value : String) → Assignment
  truth : (name : String) (value : Bool) → Assignment

unfoldable pub getenv : List (String × String) → String → String → String
getenv env name fallback = let value = get_text name env in if value == "" then fallback else value

unfoldable pub default_flags : List (String × String) → Flags
unfolding getenv
default_flags env = record {
  metrics_addr = "0";
  probe_addr = ":8081";
  enable_leader_election = false;
  secure_metrics = true;
  webhook_cert_path = "";
  webhook_cert_name = "tls.crt";
  webhook_cert_key = "tls.key";
  metrics_cert_path = "";
  metrics_cert_name = "tls.crt";
  metrics_cert_key = "tls.key";
  enable_http2 = false;
  github_webhook_addr = ":8082";
  sync_image = getenv env "SYNC_IMAGE" "ghcr.io/shamubernetes/git-mirror-sync:latest";
}

-- The variable that a flag is bound to. Two flags share the address of the webhooks. Other names
-- are the logger's.
unfoldable pub assign : Assignment → Flags → Flags
assign (text name value) f =
    if name == "metrics-bind-address"
    then record f { metrics_addr = value }
    else if name == "health-probe-bind-address"
    then record f { probe_addr = value }
    else if name == "webhook-cert-path"
    then record f { webhook_cert_path = value }
    else if name == "webhook-cert-name"
    then record f { webhook_cert_name = value }
    else if name == "webhook-cert-key"
    then record f { webhook_cert_key = value }
    else if name == "metrics-cert-path"
    then record f { metrics_cert_path = value }
    else if name == "metrics-cert-name"
    then record f { metrics_cert_name = value }
    else if name == "metrics-cert-key"
    then record f { metrics_cert_key = value }
    else if name == "github-webhook-bind-address"
    then record f { github_webhook_addr = value }
    else if name == "webhook-bind-address"
    then record f { github_webhook_addr = value }
    else if name == "sync-image"
    then record f { sync_image = value }
    else f
assign (truth name value) f =
    if name == "leader-elect"
    then record f { enable_leader_election = value }
    else if name == "metrics-secure"
    then record f { secure_metrics = value }
    else if name == "enable-http2"
    then record f { enable_http2 = value }
    else f

unfoldable pub parsed : List Assignment → Flags → Flags
parsed [] f = f
parsed (a ∷ rest) f = parsed rest (assign a f)

test_shared :
    (parsed
      (text "webhook-bind-address" ":1" ∷ text "github-webhook-bind-address" ":2" ∷ [])
      (default_flags [])).github_webhook_addr
    ≡ ":2"
unfolding parsed assign default_flags
test_shared = refl
