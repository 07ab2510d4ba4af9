-- ===== src/Jobs/Build/Refusals.antt =====
-- internal/jobs/builder.go: which mirrors `BuildSyncJob` refuses.
use git_mirror_operator.Base.{
  String, Bool, true, false, not, ◌&&◌, ◌||◌, ◌==◌, if◌then◌else◌, Option, none, some, List, Error,
  Result, ok, err, ◌≡◌, ◌⊎◌, inl, inr, refl, ap, ◌∙◌, eq_iff, Bool-cases,
}
use git_mirror_operator.Api.Mirror.{
  SecretKeyRef, GitEndpointSpec, GitAuthSpec, SshAuthSpec, BasicAuthSpec, GitHubAppAuthSpec,
  GitMirror,
}
use git_mirror_operator.Api.Job.{Job, OwnerReference}
use git_mirror_operator.Platform.{Platform}
use git_mirror_operator.Status.{is_some}
use git_mirror_operator.Jobs.Auth.{ssh_auth_ref, auth_type, endpoint_auth}
use git_mirror_operator.Jobs.Build.{
  Options, with_owner, with_credentials, build_sync_job, job_image, job_mode,
}

abbrev pub is_ok : {A : Type 0} → Result A → Bool
is_ok (ok _) = true
is_ok (err _) = false

-- The type that is declared needs its own reference; that of an SSH key may be the older field, which
-- alone, with no type declared, is enough.
abbrev complete : Option SecretKeyRef → Option GitAuthSpec → Bool
complete legacy none = is_some legacy
complete legacy (some auth) =
    (auth.auth_type == "ssh" && (is_some auth.ssh || is_some legacy))
    || (auth.auth_type == "" && is_some legacy)
    || (auth.auth_type == "basic" && is_some auth.basic)
    || (auth.auth_type == "githubApp" && is_some auth.github_app)

abbrev pub has_credentials : GitEndpointSpec → Bool
has_credentials endpoint = complete endpoint.ssh_secret_ref endpoint.auth

module _ (P : Platform) (prefix path : String) where
  Agrees : GitEndpointSpec → Type 0
  Agrees e = is_ok (endpoint_auth P prefix path e) ≡ has_credentials e

  module _ (url : String) where
    abbrev of_type :
        String
        → Option SecretKeyRef
        → Option SshAuthSpec
        → Option BasicAuthSpec
        → Option GitHubAppAuthSpec
        → GitEndpointSpec
    of_type kind legacy ssh basic github_app = record {
      url = url;
      ssh_secret_ref = legacy;
      auth = some (record { auth_type = kind; ssh = ssh; basic = basic; github_app = github_app });
    }

    module _ (basic : Option BasicAuthSpec) (github_app : Option GitHubAppAuthSpec) where
      of_ssh :
          (legacy : Option SecretKeyRef) (ssh : Option SshAuthSpec)
          → Agrees (of_type "ssh" legacy ssh basic github_app)
      unfolding Agrees endpoint_auth auth_type ssh_auth_ref
      of_ssh none none = refl
      of_ssh none (some r) = refl
      of_ssh (some l) none = refl
      of_ssh (some l) (some r) = refl

      undeclared :
          (legacy : Option SecretKeyRef) (ssh : Option SshAuthSpec)
          → Agrees (of_type "" legacy ssh basic github_app)
      unfolding Agrees endpoint_auth auth_type ssh_auth_ref
      undeclared none ssh = refl
      undeclared (some l) none = refl
      undeclared (some l) (some r) = refl

      unsupported :
          (kind : String) (legacy : Option SecretKeyRef) (ssh : Option SshAuthSpec)
          → kind == "ssh" ≡ false
          → kind == "" ≡ false
          → kind == "basic" ≡ false
          → kind == "githubApp" ≡ false
          → Agrees (of_type kind legacy ssh basic github_app)
      unfolding Agrees endpoint_auth auth_type ssh_auth_ref
      unsupported kind none ssh n₁ n₂ n₃ n₄ = rw (n₁, n₂, n₃, n₄) refl
      unsupported kind (some l) ssh n₁ n₂ n₃ n₄ = rw (n₂, n₁, n₂, n₃, n₄) refl

    of_basic :
        (legacy : Option SecretKeyRef) (ssh : Option SshAuthSpec) (basic : Option BasicAuthSpec)
        (github_app : Option GitHubAppAuthSpec)
        → Agrees (of_type "basic" legacy ssh basic github_app)
    unfolding Agrees endpoint_auth auth_type ssh_auth_ref
    of_basic none ssh none g = refl
    of_basic none ssh (some b) g = refl
    of_basic (some l) ssh none g = refl
    of_basic (some l) ssh (some b) g = refl

    of_github_app :
        (legacy : Option SecretKeyRef) (ssh : Option SshAuthSpec) (basic : Option BasicAuthSpec)
        (github_app : Option GitHubAppAuthSpec)
        → Agrees (of_type "githubApp" legacy ssh basic github_app)
    unfolding Agrees endpoint_auth auth_type ssh_auth_ref
    of_github_app none ssh b none = refl
    of_github_app none ssh b (some a) = refl
    of_github_app (some l) ssh b none = refl
    of_github_app (some l) ssh b (some a) = refl

    of_any :
        (kind : String) (legacy : Option SecretKeyRef) (ssh : Option SshAuthSpec)
        (basic : Option BasicAuthSpec) (github_app : Option GitHubAppAuthSpec)
        → Agrees (of_type kind legacy ssh basic github_app)
    of_any kind l s b a = elim (Bool-cases (kind == "ssh")) [
      | inl e ↦ rw ((eq_iff kind "ssh").0 e) (of_ssh b a l s)
      | inr n₁ ↦ elim (Bool-cases (kind == "")) [
        | inl e ↦ rw ((eq_iff kind "").0 e) (undeclared b a l s)
        | inr n₂ ↦ elim (Bool-cases (kind == "basic")) [
          | inl e ↦ rw ((eq_iff kind "basic").0 e) (of_basic l s b a)
          | inr n₃ ↦ elim (Bool-cases (kind == "githubApp")) [
            | inl e ↦ rw ((eq_iff kind "githubApp").0 e) (of_github_app l s b a)
            | inr n₄ ↦ unsupported b a kind l s n₁ n₂ n₃ n₄
          ]
        ]
      ]
    ]

    of_auth :
        (legacy : Option SecretKeyRef) (auth : Option GitAuthSpec)
        → Agrees (record { url = url; ssh_secret_ref = legacy; auth = auth })
    unfolding Agrees endpoint_auth auth_type ssh_auth_ref
    of_auth none none = refl
    of_auth (some l) none = refl
    of_auth l (some a) = of_any a.auth_type l a.ssh a.basic a.github_app

  is_ok-endpoint_auth :
      (e : GitEndpointSpec) → is_ok (endpoint_auth P prefix path e) ≡ has_credentials e
  unfolding Agrees
  is_ok-endpoint_auth e = of_auth e.url e.ssh_secret_ref e.auth

-- A call whose error is handed on, and what follows.
chained :
    {A B : Type 0} (r : Result A) (f : A → Result B) (b : Bool)
    → ((a : A) → is_ok (f a) ≡ b)
    → is_ok (elim r [ err e ↦ err e | ok a ↦ f a ]) ≡ (is_ok r && b)
chained (ok a) f b h = h a
chained (err e) f b h = refl

and-true : (b : Bool) → (b && true) ≡ b
and-true true = refl
and-true false = refl

-- Two checks, and what follows.
guarded :
    (no_image mode : Bool) (x : Result Job) (e f : Error) (s t : Bool)
    → is_ok x ≡ (s && t)
    → is_ok (if no_image then err e else if mode then x else err f)
      ≡ (not no_image && mode && s && t)
guarded true mode x e f s t h = refl
guarded false true x e f s t h = h
guarded false false x e f s t h = refl

module _ (P : Platform) (m : GitMirror) (opts : Options) where
  -- A mirror that a Job can be built for.
  abbrev pub is_buildable : Bool
  is_buildable =
      not (job_image m opts == "")
      && (job_mode m == "exact" || job_mode m == "additive")
      && has_credentials m.spec.source
      && has_credentials m.spec.target

  -- No owner is to be set, or it can be set of every Job.
  abbrev pub CanOwn : Type 0
  CanOwn =
      (opts.has_scheme ≡ false)
      ⊎ ((job : Job) → (owners : List OwnerReference) × (P.controller_reference m job ≡ ok owners))

  is_ok-with_owner : CanOwn → (job : Job) → is_ok (with_owner P m opts.has_scheme job) ≡ true
  unfolding with_owner
  is_ok-with_owner (inl none_set) job = rw none_set refl
  is_ok-with_owner (inr all_set) job = owned opts.has_scheme
    where
      owning : Result (List OwnerReference) → Result Job
      owning (ok owners) = ok (record job { owner_references = owners })
      owning (err e) = err e

      owned : (b : Bool) → is_ok (with_owner P m b job) ≡ true
      owned true = ap (λ r. is_ok (owning r)) (all_set job).1
      owned false = refl

  is_ok-with_credentials :
      CanOwn
      → (image mode : String)
      → is_ok (with_credentials P m opts image mode)
        ≡ (has_credentials m.spec.source && has_credentials m.spec.target)
  unfolding with_credentials
  is_ok-with_credentials can image mode =
      chained (endpoint_auth P "SOURCE" "source" m.spec.source) _ (has_credentials m.spec.target)
        (λ s.
          chained (endpoint_auth P "TARGET" "target" m.spec.target) _ true
            (λ t. is_ok-with_owner can _)
          ∙ and-true _
          ∙ is_ok-endpoint_auth P "TARGET" "target" m.spec.target)
      ∙ ap (λ b. b && has_credentials m.spec.target)
          (is_ok-endpoint_auth P "SOURCE" "source" m.spec.source)

  -- Where the owner can be set, or is not to be, a Job is built exactly for a mirror with an image,
  -- its own or the default one, with the mode "exact" or "additive", or none, and with complete
  -- credentials of both endpoints: of the type that is declared, or by the older field for an SSH
  -- key if none is.
  pub is_ok-build_sync_job : CanOwn → is_ok (build_sync_job P (some m) opts) ≡ is_buildable
  unfolding build_sync_job
  is_ok-build_sync_job can =
      guarded (job_image m opts == "") (job_mode m == "exact" || job_mode m == "additive") _ _ _ _ _
        (is_ok-with_credentials can (job_image m opts) (job_mode m))
