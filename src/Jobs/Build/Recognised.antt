-- ===== src/Jobs/Build/Recognised.antt =====
-- internal/jobs/builder.go: the labels and annotations by which the operator and its users find the
-- Jobs that `BuildSyncJob` returns.
use git_mirror_operator.Base.{
  String, ◌==◌, if◌then◌else◌, Option, none, some, List, [], ok, inl, inr, ◌≡◌, refl, arith, All,
  lookup, Bool-cases,
}
use git_mirror_operator.Text.Decimal.{format_int}
use git_mirror_operator.Api.Mirror.{GitMirror}
use git_mirror_operator.Api.Job.{Job}
use git_mirror_operator.Platform.{Platform, IsFaithful}
use git_mirror_operator.Jobs.Names.{sanitize_label_value, labels_for_mirror, annotations_for_mirror}
use git_mirror_operator.Jobs.Names.Hashed.{IsLabelValue}
use git_mirror_operator.Jobs.Names.Labels.{sanitize_label_value-IsLabelValue}
use git_mirror_operator.Jobs.Build.{Options, job_labels, job_annotations, build_sync_job}
use git_mirror_operator.Jobs.Build.Laws.{build_sync_job-IsFor}

abbrev unless_empty : String → String → Option String
unless_empty text value = if text == "" then none else some value

module _ (P : Platform) (m : GitMirror) (trigger : String) where
  -- The labels, by their keys: that of the mirror is the one that `Reconcile` lists Jobs by.
  pub record IsLabelled (labels : List (String × String)) : Type 0 where
    pub app : lookup "app.kubernetes.io/name" labels ≡ some "git-mirror-operator"
    pub mirror :
        lookup "mirror.shamubernetes.com/gitmirror" labels ≡ some (sanitize_label_value P m.name)
    pub owner :
        lookup "mirror.shamubernetes.com/source-owner" labels
        ≡ some (sanitize_label_value P m.spec.github.owner)
    pub repo :
        lookup "mirror.shamubernetes.com/source-repo" labels
        ≡ some (sanitize_label_value P m.spec.github.repo)
    pub delivery :
        lookup "mirror.shamubernetes.com/delivery-id" labels
        ≡ unless_empty trigger (sanitize_label_value P trigger)
    pub valid : All (λ label. IsLabelValue label.1) labels

  app-IsLabelValue : IsLabelValue "git-mirror-operator"
  app-IsLabelValue = record { fits = omega arith; starts = refl; stops = refl; chars = refl }

  job_labels-IsLabelled : IsFaithful P → IsLabelled (job_labels P m trigger)
  unfolding job_labels labels_for_mirror
  job_labels-IsLabelled F =
      let value = sanitize_label_value-IsLabelValue P F in
      elim (Bool-cases (trigger == "")) [
        | inl e ↦ rw e record {
          app = refl;
          mirror = refl;
          owner = refl;
          repo = refl;
          delivery = rw e refl;
          valid = (
            app-IsLabelValue,
            (value m.name, (value m.spec.github.owner, (value m.spec.github.repo, tt))),
          );
        }
        | inr e ↦ rw e record {
          app = refl;
          mirror = refl;
          owner = refl;
          repo = refl;
          delivery = rw e refl;
          valid = (
            app-IsLabelValue,
            (
              value m.name,
              (value m.spec.github.owner, (value m.spec.github.repo, (value trigger, tt))),
            ),
          );
        }
      ]

module _ (m : GitMirror) (revision : String) where
  -- The annotations, by their keys.
  pub record IsAnnotated (annotations : List (String × String)) : Type 0 where
    pub mirror : lookup "mirror.shamubernetes.com/gitmirror-name" annotations ≡ some m.name
    pub owner :
        lookup "mirror.shamubernetes.com/full-source-owner" annotations ≡ some m.spec.github.owner
    pub repo :
        lookup "mirror.shamubernetes.com/full-source-repo" annotations ≡ some m.spec.github.repo
    pub generation :
        lookup "mirror.shamubernetes.com/generation" annotations ≡ some (format_int m.generation)
    pub requested :
        lookup "mirror.shamubernetes.com/revision" annotations ≡ unless_empty revision revision

  job_annotations-IsAnnotated : IsAnnotated (job_annotations m revision)
  unfolding job_annotations annotations_for_mirror
  job_annotations-IsAnnotated = elim (Bool-cases (revision == "")) [
    | inl e ↦ rw e record {
      mirror = refl;
      owner = refl;
      repo = refl;
      generation = refl;
      requested = rw e refl;
    }
    | inr e ↦ rw e record {
      mirror = refl;
      owner = refl;
      repo = refl;
      generation = refl;
      requested = rw e refl;
    }
  ]

-- What the operator reads back of its own Jobs.
pub record IsRecognised (P : Platform) (m : GitMirror) (opts : Options) (job : Job) : Type 0 where
  pub placed : job.namespace ≡ m.namespace
  pub labelled : IsLabelled P m opts.trigger_id job.labels
  pub annotated : IsAnnotated m opts.revision job.annotations
  pub fresh : job.conditions ≡ []

-- Each Job that is built stands in its mirror's namespace and has no conditions. Its labels tell
-- the operator, the mirror by its sanitized name, which `Reconcile` lists the Jobs by, the owner
-- and the repository, sanitized as well, and the trigger unless it is empty; each label's value,
-- with a hash of the length and alphabet of SHA-256, is one that Kubernetes accepts. Its
-- annotations tell the mirror's name, owner and repository as they are, the generation in decimal,
-- and the revision unless it is empty.
pub build_sync_job-IsRecognised :
    (P : Platform) (F : IsFaithful P) (m : GitMirror) (opts : Options) (job : Job)
    → build_sync_job P (some m) opts ≡ ok job
    → IsRecognised P m opts job
build_sync_job-IsRecognised P F m opts job built =
    let is_for = build_sync_job-IsFor P m opts job built in
    record {
      placed = is_for.placed;
      labelled = rw is_for.labelled (job_labels-IsLabelled P m opts.trigger_id F);
      annotated = rw is_for.annotated (job_annotations-IsAnnotated m opts.revision);
      fresh = is_for.fresh;
    }
