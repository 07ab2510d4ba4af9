-- ===== src/Controller/Generation.antt =====
-- internal/controller/gitmirror_controller.go: which Jobs belong to a generation of the spec.
pub mod Laws
use git_mirror_operator.Base.{
  String, Bool, true, false, ◌||◌, ◌==◌, if◌then◌else◌, Option, none, some, List, [], ◌∷◌, get_text,
}
use git_mirror_operator.Text.Decimal.{ℤ, ◌=ℤ◌, parse_int}
use git_mirror_operator.Api.Job.{Job}
use git_mirror_operator.Jobs.Names.{annotation_generation}
use git_mirror_operator.Status.{job_active}

-- The pair of flags `annotated, valid`, with the number where both are true.
pub data Annotation : Type 0 where
  unannotated invalid : Annotation
  generation : ℤ → Annotation

abbrev parsed_annotation : Option ℤ → Annotation
parsed_annotation none = invalid
parsed_annotation (some n) = generation n

unfoldable pub job_generation_annotation : Job → Annotation
job_generation_annotation job =
    let value = get_text annotation_generation job.annotations in
    if value == "" then unannotated else parsed_annotation (parse_int value)

abbrev matches : ℤ → Annotation → Bool
matches g unannotated = true
matches g invalid = false
matches g (generation n) = n =ℤ g

unfoldable pub job_generation_matches : Job → ℤ → Bool
job_generation_matches job g = matches g (job_generation_annotation job)

unfoldable pub jobs_for_generation : List Job → ℤ → List Job
jobs_for_generation [] g = []
jobs_for_generation (job ∷ jobs) g =
    let rest = jobs_for_generation jobs g in
    if job_generation_matches job g then job ∷ rest else rest

unfoldable pub active_job_exists : List Job → Bool
active_job_exists [] = false
active_job_exists (job ∷ jobs) = job_active job || active_job_exists jobs

unfoldable pub job_name_exists : List Job → String → Bool
job_name_exists [] name = false
job_name_exists (job ∷ jobs) name = job.name == name || job_name_exists jobs name
