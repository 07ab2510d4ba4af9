-- ===== src/Runner/Usable.antt =====
-- sync/main.go: which credentials `validateEndpointAuth` accepts, and which ones
-- `prepareEndpointAuth` returns.
use git_mirror_operator.Base.{
  String, true, ◌==◌, some, ok, refl, ◌≡◌, ◌≢◌, ◌⊎◌, ◌↔◌, arith, Option-cases, Bool-cases, inl, inr,
  eq_iff, ne→eq_false,
}
use git_mirror_operator.Runner.Machine.{Machine, Url}
use git_mirror_operator.Runner.Config.{EndpointAuth}
use git_mirror_operator.Runner.Credentials.{is_https_url, validate_endpoint_auth}

module _ (M : Machine) where
  -- A URL of the scheme `https`.
  abbrev pub IsHttps : String → Type 0
  IsHttps raw_url = (url : Url) × (M.parse_url raw_url ≡ some url) × (url.scheme ≡ "https")

  -- An SSH key, or a user's name and password for a URL over TLS.
  pub data IsUsable (raw_url : String) (auth : EndpointAuth) : Type 0 where
    with_key : auth.kind ≡ "ssh" → auth.ssh_key_path ≢ "" → IsUsable raw_url auth
    with_password :
        (auth.kind ≡ "basic") ⊎ (auth.kind ≡ "githubApp")
        → IsHttps raw_url
        → auth.username ≢ ""
        → auth.password ≢ ""
        → IsUsable raw_url auth

  is_https_url-IsHttps : (raw_url : String) → (is_https_url M raw_url ≡ true) → IsHttps raw_url
  unfolding is_https_url
  is_https_url-IsHttps raw_url h = elim (Option-cases (M.parse_url raw_url)) [
    | inl e ↦ absurd (ground arith)
    | inr (url, e) ↦ (url, e, ground (arith, eq_iff url.scheme "https"))
  ]

  IsHttps-is_https_url : (raw_url : String) → IsHttps raw_url → is_https_url M raw_url ≡ true
  unfolding is_https_url
  IsHttps-is_https_url raw_url (url, parsed, https) =
      rw parsed ((eq_iff url.scheme "https").1 https)

  usable :
      (name raw_url : String) (auth : EndpointAuth)
      → validate_endpoint_auth M name raw_url auth ≡ ok tt
      → IsUsable raw_url auth
  unfolding validate_endpoint_auth
  usable name raw_url auth h = elim (Bool-cases (auth.kind == "ssh")) [
    | inl e ↦ with_key ((eq_iff auth.kind "ssh").0 e) (ground (arith, eq_iff auth.ssh_key_path ""))
    | inr e ↦
        with_password (ground (arith, eq_iff auth.kind "basic", eq_iff auth.kind "githubApp"))
          (is_https_url-IsHttps raw_url (ground arith)) (ground (arith, eq_iff auth.username ""))
          (ground (arith, eq_iff auth.password ""))
  ]

  accepted :
      (name raw_url : String) (auth : EndpointAuth)
      → IsUsable raw_url auth
      → validate_endpoint_auth M name raw_url auth ≡ ok tt
  unfolding validate_endpoint_auth
  accepted name raw_url auth (with_key kind path) =
      rw ((eq_iff auth.kind "ssh").1 kind, ne→eq_false auth.ssh_key_path "" path) refl
  accepted name raw_url auth (with_password kind https user secret) = ground (
    arith,
    IsHttps-is_https_url raw_url https,
    eq_iff auth.kind "ssh",
    eq_iff auth.kind "basic",
    eq_iff auth.kind "githubApp",
    eq_iff auth.username "",
    eq_iff auth.password "",
    eq_iff "basic" "ssh",
    eq_iff "githubApp" "ssh",
  )

  -- The credentials of an endpoint are accepted exactly if they are an SSH key at a path that is
  -- not empty, or a user's name and password, neither empty, of the types "basic" or "githubApp",
  -- for a URL of the scheme https.
  pub validate_endpoint_auth_iff :
      (name raw_url : String) (auth : EndpointAuth)
      → (validate_endpoint_auth M name raw_url auth ≡ ok tt) ↔ IsUsable raw_url auth
  validate_endpoint_auth_iff name raw_url auth =
      (usable name raw_url auth, accepted name raw_url auth)
