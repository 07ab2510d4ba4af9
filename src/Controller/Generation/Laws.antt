-- ===== src/Controller/Generation/Laws.antt =====
-- internal/controller/gitmirror_controller.go and internal/jobs/builder.go: the generation that is
-- annotated on a Job, written and read back.
use git_mirror_operator.Base.{
  ℕ, ◌≤◌, String, ◌==◌, some, ◌≡◌, ◌≢◌, Bool-cases, inl, inr, ok, ne→eq_false, get_text,
}
use git_mirror_operator.Text.Decimal.{ℤ, pos, ◌=ℤ◌, format_int, parse_int, max_int64}
use git_mirror_operator.Text.Decimal.RoundTrip.{parse_int-format_int}
use git_mirror_operator.Api.Mirror.{GitMirror}
use git_mirror_operator.Api.Job.{Job}
use git_mirror_operator.Platform.{Platform}
use git_mirror_operator.Jobs.Names.{annotation_generation, annotations_for_mirror}
use git_mirror_operator.Jobs.Build.{Options, build_sync_job, job_annotations}
use git_mirror_operator.Jobs.Build.Laws.{build_sync_job-IsFor}
use git_mirror_operator.Controller.Generation.{job_generation_matches, job_generation_annotation}

format_int-ne-empty : (n : ℕ) → n ≤ max_int64 → format_int (pos n) ≢ ""
unfolding parse_int
format_int-ne-empty n h e =
    let parsed : parse_int "" ≡ some (pos n) = rw e at (parse_int-format_int n h) in cc

annotated_generation :
    (m : GitMirror) (revision : String)
    → get_text annotation_generation (job_annotations m revision) ≡ format_int m.generation
unfolding job_annotations annotations_for_mirror
annotated_generation m revision = elim (Bool-cases (revision == "")) [ inl e ↦ rw e | inr e ↦ rw e ]

module _ (P : Platform) (m : GitMirror) (opts : Options) (job : Job) where
  -- A Job built for a mirror of a generation in the range of int64 belongs to a generation
  -- exactly if that is the mirror's.
  pub job_generation_matches-build_sync_job :
      (n : ℕ) (g : ℤ)
      → m.generation ≡ pos n
      → n ≤ max_int64
      → build_sync_job P (some m) opts ≡ ok job
      → job_generation_matches job g ≡ (m.generation =ℤ g)
  unfolding job_generation_matches job_generation_annotation
  job_generation_matches-build_sync_job n g at fits built =
      let is_for = build_sync_job-IsFor P m opts job built in
      rw (
        is_for.annotated,
        annotated_generation m opts.revision,
        at,
        ne→eq_false (format_int (pos n)) "" (format_int-ne-empty n fits),
        parse_int-format_int n fits,
      )
