-- ===== src/Controller/Lease.antt =====
-- internal/controller/gitmirror_controller.go: the lease of a repository, and the creation of a
-- Job under it.
pub mod Names
pub mod Protocol
pub mod Held
pub mod Acquired
pub mod Exclusion
use git_mirror_operator.Base.{
  String, ◌<>◌, len, ◌-◌, Bool, true, false, not, ◌&&◌, ◌||◌, ◌==◌, if◌then◌else◌, Option, none,
  some, List, [], ◌∷◌, Result, ok, err, Outcome, done, fail, Exec, pure, raise, lift, attempt,
  failure, ◌>>=◌, ◌>>◌, is_not_found, is_already_exists, is_conflict, get_text, ltb,
}
use git_mirror_operator.Text.{map_chars, to_lower, trim, trim_left, trim_right, take}
use git_mirror_operator.Text.Decimal.{ℤ}
use git_mirror_operator.Api.Mirror.{Time, Key, GitMirror}
use git_mirror_operator.Api.Job.{Job, Lease}
use git_mirror_operator.Platform.{Platform}
use git_mirror_operator.Cluster.{Cluster, read_clock}
use git_mirror_operator.Jobs.Names.{
  is_dash, dns_char, or_value, short_hash, label_name, label_git_mirror, labels_for_mirror,
}
use git_mirror_operator.Jobs.Build.{Options, build_sync_job}
use git_mirror_operator.Status.{job_active, is_some}
use git_mirror_operator.Controller.Generation.{job_generation_matches}

-- The fields of `GitMirrorReconciler` besides its client and clock.
pub record Reconciler : Type 0 where
  pub default_sync_image : String
  pub has_scheme : Bool

abbrev pub holder_text : Option String → String
holder_text none = ""
holder_text (some holder) = holder

module _ (P : Platform) where
  -- This package's own `dnsLabel`, which trims on both sides.
  unfoldable pub dns_label : String → String
  dns_label s = trim is_dash (trim_left is_dash (map_chars dns_char (to_lower P.fold_lower s)))

  unfoldable pub sync_lease_name : GitMirror → String
  sync_lease_name m =
      let owner = m.spec.github.owner in
      let repo = m.spec.github.repo in
      let base = dns_label ("gitmirror-" <> owner <> "-" <> repo) in
      let hash =
        short_hash P (m.namespace <> "/" <> m.spec.provider <> "/" <> owner <> "/" <> repo) in
      let max_base = 63 - len hash - 1 in
      let base' =
        if ltb max_base (len base) then trim_right is_dash (take max_base base) else base in
      or_value "gitmirror" base' <> "-" <> hash

  unfoldable pub lease_key : GitMirror → Key
  lease_key m = record { namespace = m.namespace; name = sync_lease_name m }

  unfoldable pub new_lease : GitMirror → String → Time → Lease
  new_lease m holder now = record {
    name = sync_lease_name m;
    namespace = m.namespace;
    labels =
        (label_name, get_text label_name (labels_for_mirror P m))
        ∷ (label_git_mirror, get_text label_git_mirror (labels_for_mirror P m))
        ∷ [];
    resource_version = "";
    holder_identity = some holder;
    acquire_time = some now;
    renew_time = some now;
  }

-- The existing lease with its new holder: the acquire time is kept by a holder that renews.
unfoldable pub renewed_lease : Lease → String → Time → Lease
renewed_lease existing holder now = record existing {
  holder_identity = some holder;
  acquire_time =
      if not (is_some existing.acquire_time) || not (holder_text existing.holder_identity == holder)
      then some now
      else existing.acquire_time;
  renew_time = some now;
}

module _ (C : Cluster) where
  unfoldable pub job_name_active_for_generation : String → String → ℤ → Exec C.State Bool
  job_name_active_for_generation namespace name generation = do
    found ← attempt (C.get_job (record { namespace = namespace; name = name }))
    elim found [
      | ok job ↦ pure (job_active job && job_generation_matches job generation)
      | err e ↦ if is_not_found e then pure false else raise e
    ]

  -- Whether the lease belongs to another Job that still runs.
  unfoldable pub held_by_active : GitMirror → String → Lease → Exec C.State Bool
  held_by_active m holder existing =
      let current = holder_text existing.holder_identity in
      if current == "" || current == holder
      then pure false
      else job_name_active_for_generation m.namespace current m.generation

  unfoldable pub write_lease : Lease → Exec C.State Bool
  write_lease lease = do
    updated ← attempt (C.update_lease lease)
    elim updated [ ok _ ↦ pure true | err e ↦ if is_conflict e then pure false else raise e ]

  abbrev pub ignore_not_found : Exec C.State (Unit {0}) → Exec C.State (Unit {0})
  ignore_not_found m = do
    result ← attempt m
    elim result [ ok _ ↦ pure tt | err e ↦ if is_not_found e then pure tt else raise e ]

module _ (P : Platform) (C : Cluster) where
  -- The part of `acquireSyncLease` after the lease was found to exist.
  unfoldable pub take_over_lease : GitMirror → String → Time → Exec C.State Bool
  take_over_lease m holder now = do
    existing ← C.get_lease (lease_key P m)
    busy ← held_by_active C m holder existing
    if busy then pure false else write_lease C (renewed_lease existing holder now)

  unfoldable pub acquire_sync_lease : GitMirror → String → Exec C.State Bool
  acquire_sync_lease m holder = do
    now ← read_clock C
    created ← attempt (C.create_lease (new_lease P m holder now))
    elim created [
      | ok _ ↦ pure true
      | err e ↦ if is_already_exists e then take_over_lease m holder now else raise e
    ]

  unfoldable pub release_sync_lease : GitMirror → String → Exec C.State (Unit {0})
  release_sync_lease m holder = do
    found ← attempt (C.get_lease (lease_key P m))
    elim found [
      | err e ↦ if is_not_found e then pure tt else raise e
      | ok lease ↦ elim lease.holder_identity [
        | none ↦ pure tt
        | some h ↦ if h == holder then ignore_not_found C (C.delete_lease lease) else pure tt
      ]
    ]

  -- The creation itself, under the lease. A Job of that name is taken for the same Job; after
  -- any other error the lease is given back, and whether that worked is not looked at.
  unfoldable pub create_under_lease : GitMirror → Job → Exec C.State (Bool × String)
  create_under_lease m job = do
    created ← attempt (C.create_job job)
    elim created [
      | ok _ ↦ pure (true, job.name)
      | err e ↦
          if is_already_exists e
          then pure (true, job.name)
          else attempt (release_sync_lease m job.name) >>= λ _. raise e
    ]

  unfoldable pub create_locked : GitMirror → Job → Exec C.State (Bool × String)
  create_locked m job = do
    acquired ← acquire_sync_lease m job.name
    if acquired then create_under_lease m job else pure (false, job.name)

abbrev pub unnamed_job : GitMirror → String
unnamed_job m = "sync job for " <> m.namespace <> "/" <> m.name <> " must have a deterministic name"

abbrev pub job_options : Reconciler → String → String → Options
job_options r trigger_id revision = record {
  default_image = r.default_sync_image;
  has_scheme = r.has_scheme;
  trigger_id = trigger_id;
  revision = revision;
}

module _ (P : Platform) (C : Cluster) (r : Reconciler) where
  -- The flag `acquired` and the Job's name. Every error comes with `acquired` false.
  unfoldable pub create_locked_sync_job : GitMirror → String → String → Exec C.State (Bool × String)
  create_locked_sync_job m trigger_id revision = do
    job ← lift (build_sync_job P (some m) (job_options r trigger_id revision))
    if job.name == "" then raise (failure (unnamed_job m)) else create_locked P C m job
