-- ===== src/Tests/Starting.antt =====
-- The manager's theorems with a certificate for the metrics, where adding the watcher fails.
use git_mirror_operator.Base.{
  Bool, true, false, List, [], ◌∷◌, ◌++◌, Exec, done, fail, failure, ◌≡◌, refl, inr,
}
use git_mirror_operator.Base.Hoare.{Ensures}
use git_mirror_operator.Manager.Flags.{Flags, text, truth, parsed}
use git_mirror_operator.Manager.Start.{
  Step, TlsOption, http1_only, add_watcher, manager_options, start_up,
}
use git_mirror_operator.Manager.Order.{
  plan, recorded, all_succeeded, StopsAt, start_up-plan, manager_options-tls,
}
use git_mirror_operator.Manager.Shared.{parsed-shared}

abbrev flags : Flags
flags = record {
  metrics_addr = ":8443";
  probe_addr = ":8081";
  enable_leader_election = true;
  secure_metrics = true;
  webhook_cert_path = "";
  webhook_cert_name = "tls.crt";
  webhook_cert_key = "tls.key";
  metrics_cert_path = "/certs";
  metrics_cert_name = "tls.crt";
  metrics_cert_key = "tls.key";
  enable_http2 = false;
  github_webhook_addr = ":8082";
  sync_image = "sync:1";
}

abbrev perform : Step → Exec (Unit {0}) (Unit {0})
perform (add_watcher c) s = fail (failure "no watcher") s
perform step s = done tt s

start_up-plan_example :
    Ensures {S = Unit {0} × List (Step × Bool)}
      (λ _ t. t.1 ≡ all_succeeded (plan flags))
      (λ t. StopsAt (plan flags) t.1)
      (start_up (recorded perform) flags (tt, []))
start_up-plan_example = start_up-plan perform flags tt

manager_options-tls_example :
    ((rest : List TlsOption) × ((manager_options flags).metrics_tls ≡ http1_only ∷ rest))
    × ((rest : List TlsOption) × ((manager_options flags).webhook_tls ≡ http1_only ∷ rest))
    × ((manager_options flags).authenticated ≡ (manager_options flags).secure_serving)
manager_options-tls_example = manager_options-tls flags refl

parsed-shared_example :
    (parsed
      ((text "github-webhook-bind-address" ":1" ∷ [])
        ++ text "webhook-bind-address" ":2" ∷ truth "leader-elect" true ∷ [])
      flags).github_webhook_addr
    ≡ ":2"
parsed-shared_example =
    parsed-shared (text "github-webhook-bind-address" ":1" ∷ []) (truth "leader-elect" true ∷ [])
      flags "webhook-bind-address" ":2" (inr refl) (tt, tt)
