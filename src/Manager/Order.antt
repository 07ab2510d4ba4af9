-- ===== src/Manager/Order.antt =====
-- cmd/main.go: the order in which `main` sets the manager up, and what its servers' TLS admits.
use mathlib.Core.List.{append_assoc, append-nil}
use git_mirror_operator.Base.{
  Bool, true, false, if◌then◌else◌, List, [], ◌∷◌, ◌++◌, Exec, Outcome, done, fail, pure, ◌>>◌, ◌≡◌,
  ◌∙◌, refl, sym, ap,
}
use git_mirror_operator.Base.Hoare.{Ensures, Triple, Triple-pure, Triple-bind, Triple-weaken}
use git_mirror_operator.Manager.Flags.{Flags}
use git_mirror_operator.Manager.Start.{
  Step, TlsOption, http1_only, watched, Certificates, of_webhook, of_metrics, load_config,
  new_manager, setup_controller, add_http_server, add_watcher, add_healthz, add_readyz, start,
  is_given, manager_options, webhook_watcher, metrics_watcher, routes, when, start_up,
}

abbrev optional : Bool → Step → List Step
optional true step = step ∷ []
optional false step = []

-- The steps that the flags ask for, in their order.
abbrev pub plan : Flags → List Step
plan f =
    optional (is_given f.webhook_cert_path) (webhook_watcher f)
    ++ (optional (is_given f.metrics_cert_path) (metrics_watcher f)
        ++ (load_config
            ∷ new_manager (manager_options f)
            ∷ setup_controller f.sync_image
            ∷ add_http_server f.github_webhook_addr routes
            ∷ (optional (is_given f.metrics_cert_path) (add_watcher of_metrics)
                ++ (optional (is_given f.webhook_cert_path) (add_watcher of_webhook)
                    ++ (add_healthz ∷ add_readyz ∷ start ∷ [])))))

-- Steps with a record of those that were tried, the last one at the end, and of which succeeded.
abbrev pub recorded :
    {S : Type 0} → (Step → Exec S (Unit {0})) → Step → Exec (S × List (Step × Bool)) (Unit {0})
recorded perform step (s, log) = elim (perform step s) [
  | done a s' ↦ done a (s', log ++ (step, true) ∷ [])
  | fail e s' ↦ fail e (s', log ++ (step, false) ∷ [])
]

abbrev pub all_succeeded : List Step → List (Step × Bool)
all_succeeded [] = []
all_succeeded (step ∷ steps) = (step, true) ∷ all_succeeded steps

all_succeeded-append :
    (xs ys : List Step) → all_succeeded (xs ++ ys) ≡ all_succeeded xs ++ all_succeeded ys
all_succeeded-append [] ys = refl
all_succeeded-append (x ∷ xs) ys = ap (λ log. (x, true) ∷ log) (all_succeeded-append xs ys)

-- Steps that succeeded, the one that failed, and the ones that were not tried.
pub record StopsAt (steps : List Step) (log : List (Step × Bool)) : Type 0 where
  pub before : List Step
  pub failed : Step
  pub left : List Step
  pub of_steps : steps ≡ before ++ failed ∷ left
  pub logged : log ≡ all_succeeded before ++ (failed, false) ∷ []

StopsAt-log :
    {log log' : List (Step × Bool)} (steps : List Step)
    → StopsAt steps log
    → log' ≡ log
    → StopsAt steps log'
StopsAt-log steps h e = record {
  before = h.before;
  failed = h.failed;
  left = h.left;
  of_steps = h.of_steps;
  logged = e ∙ h.logged;
}

StopsAt-first :
    (xs ys : List Step) (log : List (Step × Bool)) → StopsAt xs log → StopsAt (xs ++ ys) log
StopsAt-first xs ys log h = record {
  before = h.before;
  failed = h.failed;
  left = h.left ++ ys;
  of_steps = ap (λ zs. zs ++ ys) h.of_steps ∙ append_assoc h.before (h.failed ∷ h.left) ys;
  logged = h.logged;
}

StopsAt-later :
    (xs ys : List Step) (log : List (Step × Bool))
    → StopsAt ys log
    → StopsAt (xs ++ ys) (all_succeeded xs ++ log)
StopsAt-later xs ys log h = record {
  before = xs ++ h.before;
  failed = h.failed;
  left = h.left;
  of_steps = ap (λ zs. xs ++ zs) h.of_steps ∙ sym (append_assoc xs h.before (h.failed ∷ h.left));
  logged =
      ap (λ zs. all_succeeded xs ++ zs) h.logged
      ∙ sym (append_assoc (all_succeeded xs) (all_succeeded h.before) ((h.failed, false) ∷ []))
      ∙ ap (λ zs. zs ++ (h.failed, false) ∷ []) (sym (all_succeeded-append xs h.before));
}

module _ {S : Type 0} where
  abbrev Logged : List (Step × Bool) → S × List (Step × Bool) → Type 0
  Logged l s = s.1 ≡ l

  -- The record goes on with the steps up to the one that failed.
  abbrev Failed : List (Step × Bool) → List Step → S × List (Step × Bool) → Type 0
  Failed l steps s = (log : List (Step × Bool)) × StopsAt steps log × (s.1 ≡ l ++ log)

  record Follows (steps : List Step) (m : Exec (S × List (Step × Bool)) (Unit {0})) : Type 0 where
    pub from :
        (l : List (Step × Bool))
        → Triple (Logged l) (λ _. Logged (l ++ all_succeeded steps)) (Failed l steps) m

  Follows-pure : Follows [] (pure tt)
  Follows-pure = record { from = λ l. Triple-pure tt (λ s h. h ∙ sym (append-nil l)) }

  Failed-first :
      (l : List (Step × Bool)) (xs ys : List Step) (s : S × List (Step × Bool))
      → Failed l xs s
      → Failed l (xs ++ ys) s
  Failed-first l xs ys s (log, stops, h) = (log, StopsAt-first xs ys log stops, h)

  Failed-later :
      (l : List (Step × Bool)) (xs ys : List Step) (s : S × List (Step × Bool))
      → Failed (l ++ all_succeeded xs) ys s
      → Failed l (xs ++ ys) s
  Failed-later l xs ys s (log, stops, h) = (
    all_succeeded xs ++ log,
    StopsAt-later xs ys log stops,
    h ∙ append_assoc l (all_succeeded xs) log,
  )

  Follows-bind :
      {xs ys : List Step} {m n : Exec (S × List (Step × Bool)) (Unit {0})}
      → Follows xs m
      → Follows ys n
      → Follows (xs ++ ys) (m >> n)
  Follows-bind {xs} {ys} fm fn = record {
    from = λ l.
        Triple-bind (λ _. Logged (l ++ all_succeeded xs))
          (Triple-weaken (λ _ _ h. h) (Failed-first l xs ys) (fm.from l))
          λ _.
            Triple-weaken
              (λ _ s h.
                h
                ∙ append_assoc l (all_succeeded xs) (all_succeeded ys)
                ∙ ap (λ zs. l ++ zs) (sym (all_succeeded-append xs ys)))
              (Failed-later l xs ys) (fn.from (l ++ all_succeeded xs));
  }

module _ {S : Type 0} (perform : Step → Exec S (Unit {0})) where
  Logged-one :
      (step : Step) (l log : List (Step × Bool)) (o : Outcome S (Unit {0}))
      → log ≡ l
      → Ensures
          (λ _. Logged (l ++ (step, true) ∷ []))
          (Failed l (step ∷ []))
          (elim o [
            | done a s' ↦ done a (s', log ++ (step, true) ∷ [])
            | fail e s' ↦ fail e (s', log ++ (step, false) ∷ [])
          ])
  Logged-one step l log (done a s) h = ap (λ k. k ++ (step, true) ∷ []) h
  Logged-one step l log (fail e s) h = (
    (step, false) ∷ [],
    record { before = []; failed = step; left = []; of_steps = refl; logged = refl },
    ap (λ k. k ++ (step, false) ∷ []) h,
  )

  Follows-step : (step : Step) → Follows (step ∷ []) (recorded perform step)
  Follows-step step = record {
    from = λ l. record { at = λ s h. Logged-one step l s.1 (perform step s.0) h };
  }

  Follows-when :
      (b : Bool) (step : Step) → Follows (optional b step) (when (recorded perform) b step)
  Follows-when true step = Follows-step step
  Follows-when false step = Follows-pure

  follows : (f : Flags) → Follows (plan f) (start_up (recorded perform) f)
  unfolding start_up
  follows f = Follows-bind (Follows-when (is_given f.webhook_cert_path) (webhook_watcher f)) (
      Follows-bind (Follows-when (is_given f.metrics_cert_path) (metrics_watcher f)) (
        Follows-bind (Follows-step load_config) (
          Follows-bind (Follows-step (new_manager (manager_options f))) (
            Follows-bind (Follows-step (setup_controller f.sync_image)) (
              Follows-bind (Follows-step (add_http_server f.github_webhook_addr routes)) (
                Follows-bind (Follows-when (is_given f.metrics_cert_path) (add_watcher of_metrics))
                  (Follows-bind
                    (Follows-when (is_given f.webhook_cert_path) (add_watcher of_webhook))
                    (Follows-bind (Follows-step add_healthz)
                      (Follows-bind (Follows-step add_readyz) (Follows-step start))))))))))

  -- However the calls answer, the start of the manager tries the steps that the flags ask for in
  -- their order, the start of the manager itself last, and stops at the first that fails: where it
  -- succeeds all of them were tried and succeeded, and where it fails the last one that was tried
  -- failed, those before it succeeded, and none of those after it was tried.
  pub start_up-plan :
      (f : Flags) (s : S)
      → Ensures
          (λ _ t. t.1 ≡ all_succeeded (plan f))
          (λ t. StopsAt (plan f) t.1)
          (start_up (recorded perform) f (s, []))
  start_up-plan f s =
      (Triple-weaken (λ _ _ h. h) (λ t h. StopsAt-log (plan f) h.1 h.2) ((follows f).from [])).at
        (s, []) refl

with_watcher-first :
    (b : Bool) (c : Certificates) (opt : TlsOption)
    → (rest : List TlsOption) × ((if b then (opt ∷ []) ++ watched c ∷ [] else opt ∷ [])
        ≡ opt ∷ rest)
with_watcher-first true c opt = (watched c ∷ [], refl)
with_watcher-first false c opt = ([], refl)

-- Unless HTTP/2 is enabled, the servers of the metrics and of the API's webhooks are both held to
-- HTTP/1.1, before any option that a watcher of certificates adds; and metrics ask for
-- authentication and authorization exactly if they are served over TLS.
pub manager_options-tls :
    (f : Flags)
    → f.enable_http2 ≡ false
    → ((rest : List TlsOption) × ((manager_options f).metrics_tls ≡ http1_only ∷ rest))
      × ((rest : List TlsOption) × ((manager_options f).webhook_tls ≡ http1_only ∷ rest))
      × ((manager_options f).authenticated ≡ (manager_options f).secure_serving)
unfolding manager_options
manager_options-tls f h = rw h (
  with_watcher-first (is_given f.metrics_cert_path) of_metrics http1_only,
  with_watcher-first (is_given f.webhook_cert_path) of_webhook http1_only,
  refl,
)
