-- ===== src/Manager/Start.antt =====
-- cmd/main.go: what `main` creates and registers after its flags are read. An error ends the process
-- with the code 1; logging is left out.
use git_mirror_operator.Base.{
  String, Bool, true, false, not, ◌==◌, if◌then◌else◌, List, [], ◌∷◌, ◌++◌, Exec, pure, ◌>>◌,
}
use git_mirror_operator.Text.Path
use git_mirror_operator.Manager.Flags.{Flags}

pub data Certificates : Type 0 where
  of_webhook of_metrics : Certificates

-- The functions that change a TLS configuration: `NextProtos` to HTTP/1.1 alone, and
-- `GetCertificate` to that of a watcher.
pub data TlsOption : Type 0 where
  http1_only : TlsOption
  watched : Certificates → TlsOption

pub record ManagerOptions : Type 0 where
  pub metrics_addr : String
  pub secure_serving : Bool
  -- `FilterProvider` asks for authentication and authorization
  pub authenticated : Bool
  pub metrics_tls : List TlsOption
  pub webhook_tls : List TlsOption
  pub probe_addr : String
  pub leader_election : Bool
  pub leader_election_id : String

pub data Route : Type 0 where
  github always_ok : Route

-- The calls of controller-runtime. What they return is handed to later ones alone.
pub data Step : Type 0 where
  new_watcher : Certificates → (cert key : String) → Step
  load_config : Step
  new_manager : ManagerOptions → Step
  setup_controller : (sync_image : String) → Step
  add_http_server : (addr : String) → List (String × Route) → Step
  add_watcher : Certificates → Step
  add_healthz add_readyz start : Step

abbrev pub is_given : String → Bool
is_given path = not (path == "")

abbrev pub tls_opts : Flags → List TlsOption
tls_opts f = if f.enable_http2 then [] else http1_only ∷ []

abbrev pub with_watcher : String → Certificates → List TlsOption → List TlsOption
with_watcher path c opts = if is_given path then opts ++ watched c ∷ [] else opts

unfoldable pub manager_options : Flags → ManagerOptions
manager_options f = record {
  metrics_addr = f.metrics_addr;
  secure_serving = f.secure_metrics;
  authenticated = f.secure_metrics;
  metrics_tls = with_watcher f.metrics_cert_path of_metrics (tls_opts f);
  webhook_tls = with_watcher f.webhook_cert_path of_webhook (tls_opts f);
  probe_addr = f.probe_addr;
  leader_election = f.enable_leader_election;
  leader_election_id = "git-mirror-operator.shamubernetes.com";
}

abbrev pub routes : List (String × Route)
routes = ("/webhooks/github", github) ∷ ("/healthz", always_ok) ∷ ("/readyz", always_ok) ∷ []

abbrev pub webhook_watcher : Flags → Step
webhook_watcher f =
    new_watcher of_webhook (Path.join f.webhook_cert_path f.webhook_cert_name)
      (Path.join f.webhook_cert_path f.webhook_cert_key)

abbrev pub metrics_watcher : Flags → Step
metrics_watcher f =
    new_watcher of_metrics (Path.join f.metrics_cert_path f.metrics_cert_name)
      (Path.join f.metrics_cert_path f.metrics_cert_key)

module _ {S : Type 0} (perform : Step → Exec S (Unit {0})) where
  abbrev pub when : Bool → Step → Exec S (Unit {0})
  when true step = perform step
  when false step = pure tt

  unfoldable pub start_up : Flags → Exec S (Unit {0})
  unfolding manager_options
  start_up f = do
    when (is_given f.webhook_cert_path) (webhook_watcher f)
    when (is_given f.metrics_cert_path) (metrics_watcher f)
    perform load_config
    perform (new_manager (manager_options f))
    perform (setup_controller f.sync_image)
    perform (add_http_server f.github_webhook_addr routes)
    when (is_given f.metrics_cert_path) (add_watcher of_metrics)
    when (is_given f.webhook_cert_path) (add_watcher of_webhook)
    perform add_healthz
    perform add_readyz
    perform start
