-- ===== src/Runner/Prepared.antt =====
-- sync/main.go: what `prepareEndpointAuth` makes of an endpoint's credentials.
use git_mirror_operator.Base.{
  String, ◌<>◌, Bool, ◌||◌, ◌==◌, if◌then◌else◌, Outcome, done, fail, Exec, ◌>>=◌, pure, raise,
  lift, Error, failure, ltb, ◌≡◌, ◌≢◌, ◌⊎◌, inl, inr, refl, ap, eq_iff, Bool-cases, eq_false→ne,
}
use git_mirror_operator.Base.Hoare.{
  Ensures, Triple, Triple-pure, Triple-fails, Triple-any, Triple-if, Triple-test, Triple-before,
  Triple-weaken, Triple-bind,
}
use git_mirror_operator.Text.Path
use git_mirror_operator.Platform.{Platform}
use git_mirror_operator.Runner.Machine.{Machine, HttpResponse}
use git_mirror_operator.Runner.Config.{EndpointAuth}
use git_mirror_operator.Runner.Token.{
  now, read_rsa_private_key, sign_github_app_jwt, token_url, token_request, token_of, request_token,
  create_github_app_installation_token,
}
use git_mirror_operator.Runner.Credentials.{
  prepare_ssh, prepare_github_app, prepare_endpoint_auth, with_context,
}
use git_mirror_operator.Runner.Files.{Files, Same, IsFileSystem}
use git_mirror_operator.Runner.Atomic.{Copied, copies}

abbrev Any : {S : Type 0} → S → Type 0
Any s = Unit {0}

module _ (P : Platform) (M : Machine) where
  abbrev NonEmpty : String → M.State → Type 0
  NonEmpty token s = token ≢ ""

  checked_token :
      (token : String)
      → Triple Any NonEmpty Any (
          if token == ""
          then raise (failure "GitHub App token response did not include token")
          else pure token)
  checked_token token = elim (Bool-cases (token == "")) [
    | inl e ↦ rw e (Triple-fails _ (λ s. tt))
    | inr e ↦ rw e (Triple-pure token (λ s _. eq_false→ne token "" e))
  ]

  -- A call behind a check.
  unless :
      (b : Bool) (e : Error) {m : Exec M.State String}
      → Triple Any NonEmpty Any m
      → Triple Any NonEmpty Any (if b then raise e else m)
  unless b e t = Triple-if b (Triple-fails e (λ s. tt)) t

  after :
      {A : Type 0} (m : Exec M.State A) {f : A → Exec M.State String}
      → ((a : A) → Triple Any NonEmpty Any (f a))
      → Triple Any NonEmpty Any (m >>= f)
  after m t = Triple-bind (λ _. Any) (Triple-any m) t

  token_of-NonEmpty : (response : HttpResponse) → Triple Any NonEmpty Any (token_of P M response)
  unfolding token_of
  token_of-NonEmpty response =
      unless (ltb response.status_code 200 || ltb 299 response.status_code) _
        (after (lift (M.decode_token response.body)) checked_token)

  request_token-NonEmpty : (auth : EndpointAuth) → Triple Any NonEmpty Any (request_token P M auth)
  unfolding request_token
  request_token-NonEmpty auth =
      after (read_rsa_private_key P M auth.github_app_private_key_path) λ key. after (now P M) λ at.
        after (sign_github_app_jwt P M auth.github_app_id key at) λ jwt.
          after (lift (M.check_url (token_url P M auth)))
            λ _. after (M.post (token_request P M auth jwt)) token_of-NonEmpty

  create_token-NonEmpty :
      (auth : EndpointAuth)
      → Triple Any NonEmpty Any (create_github_app_installation_token P M auth)
  unfolding create_github_app_installation_token
  create_token-NonEmpty auth = unless (auth.github_app_id == "") _ (
      unless (auth.github_app_installation_id == "") _
        (unless (auth.github_app_private_key_path == "") _ (request_token-NonEmpty auth)))

-- The name that GitHub takes with an installation's token.
abbrev with_token : EndpointAuth → String → EndpointAuth
with_token auth token = record auth { username = "x-access-token"; password = token }

-- The credentials after, and the files before and after.
pub data IsPrepared (dir : String) (auth : EndpointAuth) (f g : Files) (made : EndpointAuth)
    : Type 0 where
  as_given :
      (auth.kind ≡ "") ⊎ (auth.kind ≡ "basic")
      → made ≡ auth
      → Same f g
      → IsPrepared dir auth f g made
  key_copied :
      auth.kind ≡ "ssh"
      → made ≡ record auth { ssh_key_path = Path.join dir "ssh_key" }
      → Copied f g auth.ssh_key_path (Path.join dir "ssh_key")
      → IsPrepared dir auth f g made
  token_fetched :
      (token : String)
      → auth.kind ≡ "githubApp"
      → token ≢ ""
      → made ≡ with_token auth token
      → IsPrepared dir auth f g made

context_added :
    {S A : Type 0} (Q : A → S → Type 0) (E : S → Type 0) (context : String) (o : Outcome S A)
    → Ensures Q E o
    → Ensures Q E (with_context context o)
context_added Q E context (done a s) h = h
context_added Q E context (fail e s) h = h

pub in_context :
    {S A : Type 0} {B : S → Type 0} {Q : A → S → Type 0} {E : S → Type 0} (context : String)
    {m : Exec S A}
    → Triple B Q E m
    → Triple B Q E (λ s. with_context context (m s))
in_context {Q = Q} {E = E} context {m = m} t = record {
  at = λ s b. context_added Q E context (m s) (t.at s b);
}

module _ (P : Platform) {M : Machine} (fs : IsFileSystem M) (name : String) (auth : EndpointAuth)
    (dir : String) where
  open fs use {files}

  abbrev Post : Files → EndpointAuth → M.State → Type 0
  Post f made t = IsPrepared dir auth f (files t) made

  ssh-Post :
      (f : Files)
      → auth.kind ≡ "ssh"
      → Triple (λ t. Same f (files t)) (Post f) Any (prepare_ssh P M name auth dir)
  unfolding prepare_ssh
  ssh-Post f kind = Triple-if (auth.ssh_key_path == "") (Triple-fails _ (λ s. tt)) (
      Triple-bind
        (λ r t.
          (r ≡ Path.join dir "ssh_key")
          × Copied f (files t) auth.ssh_key_path (Path.join dir "ssh_key"))
        (in_context ("prepare " <> name <> " SSH key") (
          Triple-weaken (λ _ _ h. h) (λ _ _. tt)
            (copies fs f auth.ssh_key_path (Path.join dir "ssh_key"))))
        λ path.
          Triple-pure _
            (λ t h. key_copied kind (ap (λ p. record auth { ssh_key_path = p }) h.0) h.1))

  app-Post :
      (f : Files)
      → auth.kind ≡ "githubApp"
      → Triple Any (Post f) Any (prepare_github_app P M name auth)
  unfolding prepare_github_app
  app-Post f kind =
      Triple-bind (NonEmpty P M)
        (in_context ("create " <> name <> " GitHub App installation token")
          (create_token-NonEmpty P M auth))
        λ token. Triple-pure (with_token auth token) (λ t h. token_fetched token kind h refl)

  prepared :
      (f : Files)
      → Triple (λ t. Same f (files t)) (Post f) Any (prepare_endpoint_auth P M name auth dir)
  unfolding prepare_endpoint_auth
  prepared f =
      Triple-test (auth.kind == "")
        (λ e. Triple-pure auth (λ t h. as_given (inl ((eq_iff auth.kind "").0 e)) refl h))
        λ _.
          Triple-test (auth.kind == "ssh") (λ e. ssh-Post f ((eq_iff auth.kind "ssh").0 e))
            λ _.
              Triple-test (auth.kind == "githubApp")
                (λ e. Triple-before (λ _ _. tt) (app-Post f ((eq_iff auth.kind "githubApp").0 e)))
                λ _.
                  Triple-test (auth.kind == "basic")
                    (λ e.
                      Triple-pure auth
                        (λ t h. as_given (inr ((eq_iff auth.kind "basic").0 e)) refl h))
                    λ _. Triple-fails _ (λ s. tt)

  -- On a file system that behaves as documented, an endpoint's credentials that are prepared are of
  -- one of the types of the API, or of none. Those of "basic", or of no type, are as they were,
  -- and no file has changed; those of "ssh" have as their path that of a private copy of the key;
  -- and those of "githubApp" have the name "x-access-token", and as password a token that is not
  -- empty. All else of them is as it was. Any other type is an error.
  pub prepare_endpoint_auth-IsPrepared :
      (s : M.State)
      → Ensures
          (λ made t. IsPrepared dir auth (files s) (files t) made)
          (λ _. Unit {0})
          (prepare_endpoint_auth P M name auth dir s)
  prepare_endpoint_auth-IsPrepared s = (prepared (files s)).at s (λ q. refl)
