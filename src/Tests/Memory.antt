-- ===== src/Tests/Memory.antt =====
-- A platform, a cluster in memory and sample objects.
use git_mirror_operator.Base.{
  ℕ, ◌+◌, ◌*◌, String, Bool, true, false, not, ◌==◌, if◌then◌else◌, none, some, List, [], ◌∷◌,
  not_found, already_exists, ok, Outcome, done, fail, ◌≡◌, refl, sym, ap, ◌∙◌, ◌⊎◌, arith,
  ne→eq_false, eq_false→ne, eq_iff, Bool-cases, inl, inr, filterb,
}
use git_mirror_operator.Text.Decimal.{pos}
use git_mirror_operator.Api.Mirror.{GitEndpointSpec, Condition, GitMirror, Key, Time}
use git_mirror_operator.Api.Job.{JobCondition, Job, Lease}
use git_mirror_operator.Platform.{Bytes, Platform, IsFaithful, find_condition}
use git_mirror_operator.Cluster.{Cluster, Retries, last}

-- Eight bytes four times: any 32 bytes serve.
abbrev pub digest : Bytes
digest =
    1 ∷ 35 ∷ 69 ∷ 103 ∷ 137 ∷ 171 ∷ 205 ∷ 239 ∷ 1 ∷ 35 ∷ 69 ∷ 103 ∷ 137 ∷ 171 ∷ 205 ∷ 239 ∷ 1 ∷ 35
    ∷ 69 ∷ 103 ∷ 137 ∷ 171 ∷ 205 ∷ 239 ∷ 1 ∷ 35 ∷ 69 ∷ 103 ∷ 137 ∷ 171 ∷ 205 ∷ 239 ∷ []

abbrev put_condition : List Condition → Condition → List Condition
put_condition [] c = c ∷ []
put_condition (d ∷ ds) c =
    let rest = put_condition ds c in
    if d.condition_type == c.condition_type then c ∷ ds else d ∷ rest

-- Every payload names the same repository and revision, and the MAC is the digest.
abbrev pub platform : Platform
platform = record {
  sha256 = λ s. digest;
  hmac = λ k m. digest;
  unmarshal = λ body. some (record { full_name = "octo/tools"; after = "abc123" });
  fold_lower = λ c. c;
  format_time = λ t. "2024-05-01T00:00:00Z";
  parse_schedule = λ spec. some (λ t. t + 60 * 1_000_000_000);
  set_status_condition = put_condition;
  controller_reference =
      λ m job. ok (record { kind = "GitMirror"; name = m.name; controller = true } ∷ []);
}

find-put :
    (cs : List Condition) (c : Condition) (t : String)
    → find_condition t (put_condition cs c)
      ≡ (if c.condition_type == t then some c else find_condition t cs)
find-put [] c t = refl
find-put (d ∷ ds) c t = elim (Bool-cases (d.condition_type == c.condition_type)) [
  | inl e ↦ rw (e, ends d.condition_type c.condition_type t e) (both (c.condition_type == t))
  | inr e ↦ rw (e, find-put ds c t) (other (Bool-cases (c.condition_type == t)) e)
]
  where
    ends : (a b u : String) → a == b ≡ true → (a == u) ≡ (b == u)
    ends a b u e = ap (λ x. x == u) ((eq_iff a b).0 e)

    both :
        (b : Bool)
        → (if b then some c else find_condition t ds)
          ≡ (if b then some c else if b then some d else find_condition t ds)
    both true = refl
    both false = refl

    other :
        (c.condition_type == t ≡ true) ⊎ (c.condition_type == t ≡ false)
        → d.condition_type == c.condition_type ≡ false
        → (if d.condition_type == t
            then some d
            else if c.condition_type == t
            then some c
            else find_condition t ds)
          ≡ (if c.condition_type == t
              then some c
              else if d.condition_type == t
              then some d
              else find_condition t ds)
    other (inl k) e =
        rw
          (
            k,
            ne→eq_false d.condition_type t (λ dt.
                eq_false→ne d.condition_type c.condition_type e
                  (dt ∙ sym ((eq_iff c.condition_type t).0 k))),
          )
          refl
    other (inr k) e = rw k refl

pub platform-IsFaithful : IsFaithful platform
platform-IsFaithful = record {
  sha256_length = λ s. refl;
  sha256_bytes = λ s. ground arith;
  hmac_bytes = λ k m. ground arith;
  find-set_status = find-put;
}

pub record World : Type 0 where
  pub time : ℕ
  pub mirror : GitMirror
  pub jobs : List Job
  pub leases : List Lease

abbrev tick : World → Time × World
tick w = (w.time, record w { time = w.time + 1 })

abbrev lookup_job : String → List Job → World → Outcome World Job
lookup_job name [] w = fail not_found w
lookup_job name (j ∷ js) w = if j.name == name then done j w else lookup_job name js w

abbrev lookup_lease : String → List Lease → World → Outcome World Lease
lookup_lease name [] w = fail not_found w
lookup_lease name (l ∷ ls) w = if l.name == name then done l w else lookup_lease name ls w

abbrev without : String → List Lease → List Lease
without name ls = filterb (λ l. not (l.name == name)) ls

abbrev add_job : Job → Outcome World Job → World → Outcome World (Unit {0})
add_job job (done _ _) w = fail already_exists w
add_job job (fail _ _) w = done tt (record w { jobs = job ∷ w.jobs })

abbrev add_lease : Lease → Outcome World Lease → World → Outcome World (Unit {0})
add_lease lease (done _ _) w = fail already_exists w
add_lease lease (fail _ _) w = done tt (record w { leases = lease ∷ w.leases })

-- One mirror, and Jobs and leases by name.
abbrev pub cluster : Cluster
cluster = record {
  State = World;
  clock = tick;
  wall_clock = tick;
  get_mirror = λ key w. if key.name == w.mirror.name then done w.mirror w else fail not_found w;
  list_mirrors = λ w. done (w.mirror ∷ []) w;
  patch_mirror_status =
      λ base m w. done tt (record w { mirror = record w.mirror { status = m.status } });
  list_jobs = λ namespace label w. done w.jobs w;
  get_job = λ key w. lookup_job key.name w.jobs w;
  create_job = λ job w. add_job job (lookup_job job.name w.jobs w) w;
  get_lease = λ key w. lookup_lease key.name w.leases w;
  create_lease = λ lease w. add_lease lease (lookup_lease lease.name w.leases w) w;
  update_lease = λ lease w. done tt (record w { leases = lease ∷ without lease.name w.leases });
  delete_lease = λ lease w. done tt (record w { leases = without lease.name w.leases });
  get_secret = λ key w. done (("secret", 7 ∷ 8 ∷ []) ∷ []) w;
  retry_on_conflict = λ V f s. f s;
}

pub cluster-Retries : Retries cluster
cluster-Retries V f s = last refl

abbrev endpoint : String → GitEndpointSpec
endpoint url = record {
  url = url;
  ssh_secret_ref = some (record { name = "deploy"; key = "id" });
  auth = none;
}

abbrev pub mirror : GitMirror
mirror = record {
  name = "tools";
  namespace = "default";
  generation = pos 3;
  spec = record {
    provider = "github";
    github = record {
      owner = "octo";
      repo = "tools";
      webhook_secret_ref = record { name = "webhook"; key = "secret" };
    };
    source = endpoint "https://github.com/octo/tools.git";
    target = endpoint "https://git.example.org/octo/tools.git";
    mirror = record { mode = "exact"; include_tags = true };
    fallback = record { schedule = "" };
    job = record {
      image = "sync:v1";
      backoff_limit = none;
      active_deadline_seconds = none;
      ttl_seconds_after_finished = none;
      resources = record { requests = none; limits = none };
      known_hosts_config_map_name = "";
      known_hosts_config_map_key = "";
      service_account_name = "";
    };
  };
  status = record {
    observed_generation = pos 3;
    last_webhook_at = none;
    last_delivery_id = "delivery-1";
    last_triggered_at = none;
    last_job_name = "";
    last_completed_job_name = "";
    last_success_at = none;
    last_failure_at = none;
    last_error = "";
    last_requested_revision = "abc123";
    last_mirrored_revision = "";
    pending_resync = true;
    conditions = [];
  };
}

abbrev pub world : World
world = record { time = 100; mirror = mirror; jobs = []; leases = [] }

abbrev pub key : Key
key = record { namespace = "default"; name = "tools" }

-- A Job that is no more than a name and its conditions; without an annotation it belongs to every
-- generation.
abbrev pub job_named : String → List JobCondition → Job
job_named name conditions = record {
  name = name;
  generate_name = "";
  namespace = "default";
  labels = [];
  annotations = [];
  owner_references = [];
  deletion_timestamp = none;
  spec = record {
    backoff_limit = pos 1;
    ttl_seconds_after_finished = pos 3600;
    active_deadline_seconds = none;
    template = record {
      labels = [];
      spec = record {
        service_account_name = "git-mirror-sync";
        restart_policy = "Never";
        run_as_non_root = true;
        run_as_user = pos 65532;
        seccomp_profile = "RuntimeDefault";
        containers = [];
        volumes = [];
      };
    };
  };
  conditions = conditions;
}
