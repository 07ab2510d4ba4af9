-- ===== src/Jobs/Build/Mounts.antt =====
-- internal/jobs/builder.go: the volumes of the Job that `BuildSyncJob` returns, and the paths that its
-- environment names.
use git_mirror_operator.Base.{
  String, Bool, true, false, ◌==◌, if◌then◌else◌, Option, none, some, List, [], ◌∷◌, ◌++◌, Result,
  ok, err, ◌≡◌, inl, inr, arith, All, Error, Result-cases,
}
use git_mirror_operator.Syncenv
use git_mirror_operator.Api.Mirror.{
  SecretKeyRef, GitEndpointSpec, BasicAuthSpec, GitHubAppAuthSpec, GitMirror,
}
use git_mirror_operator.Api.Job.{EnvVar, PodSpec, Job}
use git_mirror_operator.Platform.{Platform}
use git_mirror_operator.Jobs.Auth.{
  AuthParts, ssh_auth_ref, auth_type, literal_var, basic_spec, github_app_spec, ssh_parts,
  basic_parts, github_app_parts, endpoint_auth,
}
use git_mirror_operator.Jobs.Build.{
  Options, base_env, pod_spec, sync_job, with_owner, with_credentials, build_sync_job, job_image,
  job_mode,
}
use git_mirror_operator.Jobs.Build.Volumes.{all, supplied, IsMountable}
use git_mirror_operator.Jobs.Build.Pairs.{
  Given, ssh, basic, github_app, parts_of, source, target, mounts, volumes-distinct,
  mounts-distinct, mounts-backed, source-supplied, target-supplied, base-supplied,
}

all-append :
    {A : Type 0} (p : A → Bool) (xs ys : List A)
    → all p xs ≡ true
    → all p ys ≡ true
    → all p (xs ++ ys) ≡ true
all-append p [] ys h k = k
all-append p (x ∷ xs) ys h k = ground (arith, all-append p xs ys)

module _ (P : Platform) (prefix path : String) (spec : GitEndpointSpec) where
  record IsGiven (parts : AuthParts) : Type 0 where
    given : Given
    made : parts ≡ parts_of prefix path (auth_type spec) given

  abbrev declared : EnvVar
  declared = literal_var (Syncenv.endpoint prefix Syncenv.suffix_auth_type) (auth_type spec)

  of_ssh :
      (found : Result SecretKeyRef) {parts : AuthParts}
      → (elim found [ err e ↦ err e | ok ref ↦ ok (ssh_parts prefix path declared ref) ]) ≡ ok parts
      → IsGiven parts
  unfolding parts_of
  of_ssh (err e) h = cc
  of_ssh (ok ref) h = record { given = ssh ref; made = cc }

  of_basic :
      (e : Error) (found : Option BasicAuthSpec) {parts : AuthParts}
      → (elim found [ none ↦ err e | some b ↦ ok (basic_parts prefix path declared b) ]) ≡ ok parts
      → IsGiven parts
  unfolding parts_of
  of_basic e none h = cc
  of_basic e (some b) h = record { given = basic b; made = cc }

  of_github_app :
      (e : Error) (found : Option GitHubAppAuthSpec) {parts : AuthParts}
      → (elim found [ none ↦ err e | some a ↦ ok (github_app_parts prefix path declared a) ])
        ≡ ok parts
      → IsGiven parts
  unfolding parts_of
  of_github_app e none h = cc
  of_github_app e (some a) h = record { given = github_app a; made = cc }

  either :
      (b : Bool) {x y : Result AuthParts} {parts : AuthParts}
      → (x ≡ ok parts → IsGiven parts)
      → (y ≡ ok parts → IsGiven parts)
      → (if b then x else y) ≡ ok parts
      → IsGiven parts
  either true f g h = f h
  either false f g h = g h

  endpoint_auth-IsGiven :
      (parts : AuthParts) → endpoint_auth P prefix path spec ≡ ok parts → IsGiven parts
  unfolding endpoint_auth
  endpoint_auth-IsGiven parts = either (auth_type spec == "ssh") (of_ssh (ssh_auth_ref spec)) (
      either (auth_type spec == "basic") (of_basic _ (basic_spec spec.auth)) (
        either (auth_type spec == "githubApp") (of_github_app _ (github_app_spec spec.auth))
          (either (auth_type spec == "") (λ h. cc) (λ h. cc))))

module _ (P : Platform) (m : GitMirror) (opts : Options) where
  abbrev ContainersFit : PodSpec → Type 0
  ContainersFit pod = All (IsMountable pod.volumes) pod.containers

  pod_spec-fits :
      (image mode ks kt : String) (s t : Given)
      → ContainersFit (
          pod_spec m.spec image
            ((base_env m.spec mode ++ (source m.spec ks kt s).env) ++ (target m.spec ks kt t).env)
            (source m.spec ks kt s)
            (target m.spec ks kt t))
  unfolding pod_spec
  pod_spec-fits image mode ks kt s t =
      let p = supplied (mounts m.spec ks kt s t) in
      (
        record {
          volumes_distinct = volumes-distinct m.spec ks kt s t;
          paths_distinct = mounts-distinct m.spec ks kt s t;
          backs = mounts-backed m.spec ks kt s t;
          supplies =
              all-append p (base_env m.spec mode ++ (source m.spec ks kt s).env)
                (target m.spec ks kt t).env
                (all-append p (base_env m.spec mode) (source m.spec ks kt s).env
                  (base-supplied m.spec ks kt mode s t) (source-supplied m.spec ks kt s t))
                (target-supplied m.spec ks kt s t);
        },
        tt,
      )

  with_owner-pod :
      (b : Bool) (made job : Job)
      → with_owner P m b made ≡ ok job
      → job.spec.template.spec ≡ made.spec.template.spec
  unfolding with_owner
  with_owner-pod b made job h = ground arith

  with_credentials-fits :
      (image mode : String) (job : Job)
      → with_credentials P m opts image mode ≡ ok job
      → ContainersFit job.spec.template.spec
  unfolding with_credentials sync_job
  with_credentials-fits image mode job h =
      elim (Result-cases (endpoint_auth P "SOURCE" "source" m.spec.source)) [
        | inl (e, failed) ↦ absurd (ground arith)
        | inr (s, from_source) ↦
            elim (Result-cases (endpoint_auth P "TARGET" "target" m.spec.target)) [
              | inl (e, failed) ↦ absurd (ground arith)
              | inr (t, from_target) ↦
                  let gs = endpoint_auth-IsGiven P "SOURCE" "source" m.spec.source s from_source in
                  let gt = endpoint_auth-IsGiven P "TARGET" "target" m.spec.target t from_target in
                  let made = pod_spec m.spec image ((base_env m.spec mode ++ s.env) ++ t.env) s t in
                  let kept : job.spec.template.spec ≡ made =
                    with_owner-pod opts.has_scheme (sync_job P m opts image made) job
                      (ground arith) in
                  rw (kept, gs.made, gt.made)
                    (pod_spec-fits image mode (auth_type m.spec.source) (auth_type m.spec.target)
                      gs.given gt.given)
            ]
      ]

  -- In each container of a Job that is built: the volumes of its pod have different names, and the
  -- mounts different paths; each mount is of one of the volumes, of a file that the volume has or of
  -- the whole of an empty one; and a variable that the runner reads as the path of a file, of the
  -- known hosts, of an SSH key or of the key of a GitHub App, names the path of a mount.
  pub build_sync_job-IsMountable :
      (job : Job)
      → build_sync_job P (some m) opts ≡ ok job
      → All (IsMountable job.spec.template.spec.volumes) job.spec.template.spec.containers
  unfolding build_sync_job
  build_sync_job-IsMountable job h =
      with_credentials-fits (job_image m opts) (job_mode m) job (ground arith)
